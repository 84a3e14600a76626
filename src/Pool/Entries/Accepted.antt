-- ===== src/Pool/Entries/Accepted.antt =====
-- Which nodes of a subscription become entries.
use chi_jie.Prelude.{
  map, ℕ, ◌≡◌, ◌⊎◌, refl, ap, sym, ◌∙◌, Bool, true, false, not, ◌&&◌, ◌||◌, some, List, [], ◌∷◌,
  ◌++◌, select, any, concat_map, if◌then◌else◌, Str, trim_space, is_nil, arith, Bool-cases, inl,
  inr,
}
use mathlib.Core.List.{append_assoc, append-nil}
use chi_jie.Util.{contains_string}
use chi_jie.Pool.Types.{Dialer, Node, NodeEntry, PoolConfig}
use chi_jie.Pool.Region.{detect_region_from_node_name}
use chi_jie.Pool.Entries.{
  Packages, RegionOrder, later, filtering, making, keep_regions, Dialed, dialed, not_dialed,
  Compiled, compiled, not_compiled, Checked, good, bad, add_pattern, new_node_entry, region_set,
  filter_by_region, compile_patterns, is_rejected, apply_reject_regexes, Loading, skip,
  subscription_skip_reason, load_nodes, build_subscription_entries, Prepared,
  prepare_subscription_entries, prepare_filtered, keep_unrejected,
}

abbrev fails : Compiled → Bool
fails (compiled f) = false
fails (not_compiled e) = true

abbrev matches : Compiled → Str → Bool
matches (compiled f) name = f name
matches (not_compiled e) name = false

module _ (packages : Packages) where
  -- A pattern that is not blank and does not compile.
  unfoldable pub is_bad : Str → Bool
  is_bad p = if is_nil (trim_space p) then false else fails (packages.compile (trim_space p))

  -- A pattern that is not blank and matches a name.
  unfoldable pub rejects : Str → Str → Bool
  rejects name p =
      if is_nil (trim_space p) then false else matches (packages.compile (trim_space p)) name

  -- What the loop over the patterns yields.
  abbrev CompiledAs : List Str → Checked (List (Str → Bool)) → Type 0
  CompiledAs ps (good fs) =
      (any is_bad ps ≡ false) × ((node : Node) → is_rejected fs node ≡ any (rejects node.name) ps)
  CompiledAs ps (bad e) = any is_bad ps ≡ true

  add_pattern-CompiledAs :
      (p : Str) (ps : List Str) (c : Compiled) (rest : Checked (List (Str → Bool)))
      → is_nil (trim_space p) ≡ false
      → packages.compile (trim_space p) ≡ c
      → CompiledAs ps rest
      → CompiledAs (p ∷ ps) (add_pattern packages (trim_space p) c rest)
  unfolding add_pattern is_bad rejects is_rejected
  add_pattern-CompiledAs p ps (not_compiled x) rest n e h = rw (n, e) refl
  add_pattern-CompiledAs p ps (compiled f) (bad x) n e h = rw (n, e) h
  add_pattern-CompiledAs p ps (compiled f) (good fs) n e h =
      (rw (n, e) h.0, λ node. rw (n, e, h.1 node) refl)

  blank-CompiledAs :
      (p : Str) (ps : List Str) (rest : Checked (List (Str → Bool)))
      → is_nil (trim_space p) ≡ true
      → CompiledAs ps rest
      → CompiledAs (p ∷ ps) rest
  unfolding is_bad rejects
  blank-CompiledAs p ps (good fs) n h = (rw n h.0, λ node. rw n (h.1 node))
  blank-CompiledAs p ps (bad e) n h = rw n h

  compile_patterns-CompiledAs : (ps : List Str) → CompiledAs ps (compile_patterns packages ps)
  unfolding compile_patterns is_rejected
  compile_patterns-CompiledAs [] = (refl, λ node. refl)
  compile_patterns-CompiledAs (p ∷ ps) = elim (Bool-cases (is_nil (trim_space p))) [
    | inl n ↦
        rw n
          (blank-CompiledAs p ps (compile_patterns packages ps) n (compile_patterns-CompiledAs ps))
    | inr n ↦ rw n (
        add_pattern-CompiledAs p ps (packages.compile (trim_space p)) (compile_patterns packages ps)
          n refl (compile_patterns-CompiledAs ps))
  ]

-- The nodes of a loop, each with the orders that its round draws.
unfoldable pub drawn : (ℕ → RegionOrder) → List Node → List (RegionOrder × Node)
drawn orders [] = []
drawn orders (n ∷ nodes) = (orders 0, n) ∷ drawn (later orders) nodes

abbrev pub node_drawn : RegionOrder × Node → Node
node_drawn (order, node) = node

-- One selection after another.
select_drawn :
    (a : RegionOrder × Node → Bool) (b : Node → Bool) (ns : List (RegionOrder × Node))
    → select b (map node_drawn (select a ns))
      ≡ map node_drawn (select (λ x. a x && b (node_drawn x)) ns)
select_drawn a b [] = refl
select_drawn a b (n ∷ ns) = ground (arith, select_drawn a b ns)

select_same :
    (a b : RegionOrder × Node → Bool) (ns : List (RegionOrder × Node))
    → ((n : RegionOrder × Node) → a n ≡ b n)
    → select a ns ≡ select b ns
select_same a b [] h = refl
select_same a b (n ∷ ns) h = rw (h n, select_same a b ns h) refl

map-drawn : (orders : ℕ → RegionOrder) (ns : List Node) → map node_drawn (drawn orders ns) ≡ ns
unfolding drawn
map-drawn orders [] = refl
map-drawn orders (n ∷ ns) = ap (λ l. n ∷ l) (map-drawn (later orders) ns)

select_all : (ns : List (RegionOrder × Node)) → select (λ n. true) ns ≡ ns
select_all [] = refl
select_all (n ∷ ns) = ap (λ l. n ∷ l) (select_all ns)

Dialed-cases : (x : Dialed) → ((d : Dialer) × (x ≡ dialed d)) ⊎ ((e : Str) × (x ≡ not_dialed e))
Dialed-cases (dialed d) = inl (d, refl)
Dialed-cases (not_dialed e) = inr (e, refl)

module _ (packages : Packages) (cfg : PoolConfig) where
  -- The region of a node's name, under the orders drawn for it, is one that the filter names, if
  -- there is a filter.
  unfoldable pub in_region : RegionOrder × Node → Bool
  in_region (order, node) =
      is_nil cfg.filter_region
      || contains_string (region_set cfg.filter_region)
          (detect_region_from_node_name order.aliases order.codes node.name)

  -- A node that the settings of the pool admit.
  unfoldable pub admits : RegionOrder × Node → Bool
  unfolding in_region rejects
  admits x = in_region x && not (any (rejects packages (node_drawn x).name) cfg.reject_regex)

  -- The nodes admitted, of which each is tested under the orders of its round.
  unfoldable pub admitted_nodes : List Node → List Node
  unfolding admits drawn
  admitted_nodes nodes = map node_drawn (select admits (drawn (packages.orders filtering) nodes))

  abbrev entry_from : RegionOrder → Node → Dialed → List NodeEntry
  entry_from order node (dialed d) = new_node_entry order node (some d) cfg ∷ []
  entry_from order node (not_dialed e) = []

  -- The entry of a node for which there is a dialer.
  unfoldable pub entry_for : RegionOrder × Node → List NodeEntry
  entry_for (order, node) = entry_from order node (packages.new_dialer node)

  keep_regions-select :
      (orders : ℕ → RegionOrder) (nodes : List Node)
      → is_nil cfg.filter_region ≡ false
      → keep_regions orders (region_set cfg.filter_region) nodes
        ≡ map node_drawn (select in_region (drawn orders nodes))
  unfolding keep_regions in_region drawn
  keep_regions-select orders [] f = refl
  keep_regions-select orders (n ∷ nodes) f =
      rw (f, keep_regions-select (later orders) nodes f)
        (elim (Bool-cases (
          contains_string (region_set cfg.filter_region)
            (detect_region_from_node_name (orders 0).aliases (orders 0).codes n.name))) [
              | inl e ↦ rw e refl
              | inr e ↦ rw e refl
            ])

  filter_by_region-select :
      (nodes : List Node)
      → filter_by_region packages nodes cfg.filter_region
        ≡ map node_drawn (select in_region (drawn (packages.orders filtering) nodes))
  unfolding filter_by_region in_region
  filter_by_region-select nodes = elim (Bool-cases (is_nil cfg.filter_region)) [
    | inl e ↦
        let all = drawn (packages.orders filtering) nodes in
        rw e (
          sym (
            ap (map node_drawn)
              (select_same in_region (λ n. true) all (λ x. everywhere e x) ∙ select_all all)
            ∙ map-drawn (packages.orders filtering) nodes))
    | inr e ↦ rw e (keep_regions-select (packages.orders filtering) nodes e)
  ]
    where
      everywhere : is_nil cfg.filter_region ≡ true → (x : RegionOrder × Node) → in_region x ≡ true
      everywhere e (order, node) = rw e refl

  load_nodes-concat_map :
      (orders : ℕ → RegionOrder) (nodes : List Node) (l : Loading)
      → (load_nodes packages cfg orders nodes l).entries
        ≡ l.entries ++ concat_map entry_for (drawn orders nodes)
  unfolding load_nodes entry_for drawn
  load_nodes-concat_map orders [] l = sym (append-nil l.entries)
  load_nodes-concat_map orders (node ∷ nodes) l = elim (Dialed-cases (packages.new_dialer node)) [
    | inl (d, e) ↦
        rw (e, load_nodes, entry_for)
          (load_nodes-concat_map (later orders) nodes _
            ∙ append_assoc l.entries (new_node_entry (orders 0) node (some d) cfg ∷ [])
                (concat_map entry_for (drawn (later orders) nodes)))
    | inr (x, e) ↦
        rw (e, load_nodes, entry_for)
          (load_nodes-concat_map (later orders) nodes (skip (subscription_skip_reason node x) l))
  ]

  -- What the preparation of some nodes yields.
  abbrev pub IsPrepared : List Node → Checked Prepared → Type 0
  IsPrepared nodes (good p) =
      (any (is_bad packages) cfg.reject_regex ≡ false)
      × (p.entries ≡ concat_map entry_for (drawn (packages.orders making) (admitted_nodes nodes)))
  IsPrepared nodes (bad e) = any (is_bad packages) cfg.reject_regex ≡ true

  admitted :
      (nodes : List Node) (fs : List (Str → Bool))
      → ((node : Node) → is_rejected fs node ≡ any (rejects packages node.name) cfg.reject_regex)
      → select (λ n. not (is_rejected fs n)) (filter_by_region packages nodes cfg.filter_region)
        ≡ admitted_nodes nodes
  unfolding admitted_nodes admits
  admitted nodes fs h =
      let all = drawn (packages.orders filtering) nodes in
      ap (select (λ n. not (is_rejected fs n))) (filter_by_region-select nodes)
      ∙ (select_drawn in_region (λ n. not (is_rejected fs n)) all
          ∙ ap (map node_drawn) (select_same _ admits all (λ x. rw (h (node_drawn x)) refl)))

  by_patterns :
      (nodes : List Node) (c : Checked (List (Str → Bool)))
      → CompiledAs packages cfg.reject_regex c
      → IsPrepared nodes (
          prepare_filtered packages cfg
            (keep_unrejected (filter_by_region packages nodes cfg.filter_region) c))
  unfolding prepare_filtered keep_unrejected build_subscription_entries
  by_patterns nodes (bad e) h = h
  by_patterns nodes (good fs) h = (
    h.0,
    load_nodes-concat_map (packages.orders making)
          (select (λ n. not (is_rejected fs n)) (filter_by_region packages nodes cfg.filter_region))
          (record { entries = []; skipped = []; skipped_total = 0 })
        ∙ ap (λ ns. concat_map entry_for (drawn (packages.orders making) ns))
            (admitted nodes fs h.1),
  )

  -- The nodes of a subscription are refused exactly where some pattern of the settings that is not
  -- blank does not compile. Otherwise its entries are, in their order, those of the nodes that the
  -- settings admit and for which there is a dialer. A node is admitted if its name has a region
  -- that the filter names, if there is a filter, and is matched by no pattern. The region is the
  -- one detected under the orders of the maps of regions that are drawn for that node: once where
  -- it is filtered, and anew where its entry is made.
  pub prepare-IsPrepared :
      (nodes : List Node) → IsPrepared nodes (prepare_subscription_entries packages nodes cfg)
  unfolding prepare_subscription_entries apply_reject_regexes
  prepare-IsPrepared nodes =
      by_patterns nodes (compile_patterns packages cfg.reject_regex)
        (compile_patterns-CompiledAs packages cfg.reject_regex)
