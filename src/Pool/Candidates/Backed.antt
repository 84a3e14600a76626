-- ===== src/Pool/Candidates/Backed.antt =====
-- What stands behind a candidate of a region: a node of a pool, or a pool of templates.
use mathlib.Core.List.{Mem, mem-cons_self, mem-cons_of_mem}
use chi_jie.Prelude.{
  any-of_mem, All-map_select, All-concat_map, ℕ, ◌≡◌, refl, inl, inr, Bool, true, not, ◌&&◌, ◌||◌,
  Option, none, some, List, [], ◌∷◌, arith, Str, text, str_eq, str_eq_iff, Dict, All, All-perm, any,
  sort_by-perm, Bool-cases, if◌then◌else◌,
}
use chi_jie.Pool.Types.{NodeEntry, Pool, PoolConfig, EgressChoice, EgressSelector, pool_enabled}
use chi_jie.Pool.Names.{
  egress_group_for, normalize_template_type, template_covers_residential, template_covers_selector,
}
use chi_jie.Pool.Order.{less_name}
use chi_jie.Pool.Candidates.{
  Outside, Scan, serves_nodes, is_of_group, is_candidate, node_choice, pool_choices, entry_choices,
  scan_entry, scan_entries, scan_pools, start, try_offline_entry_choices, template_choice,
  pool_template_choices, less_template, template_choices, build_template_dialer,
}

-- An entry that is switched on, has the region, and the name and the class of the candidate; it is
-- online, or its pool lets offline nodes be tried.
abbrev pub is_entry_of : Str → EgressChoice → PoolConfig → NodeEntry → Bool
is_entry_of region c cfg e =
    (e.enabled && (e.alive || cfg.try_offline))
    && (str_eq e.region region
        && (str_eq e.node.name c.node_name
            && (if c.residential then e.residential else not e.residential)))

-- The pool that the candidate names serves nodes, and holds such an entry.
abbrev pub is_node_pool : Str → EgressChoice → Str × Pool → Bool
is_node_pool region c (name, pool) =
    str_eq name c.pool_name
    && (serves_nodes pool.config && any (is_entry_of region c pool.config) pool.entries)

-- The pool that the candidate names is one of templates, switched on, that covers its class.
abbrev pub is_template_pool : EgressChoice → Str × Pool → Bool
is_template_pool c (name, pool) =
    str_eq name c.pool_name
    && (str_eq pool.config.source (text "template")
        && (pool_enabled pool.config && template_covers_residential pool.config c.residential))

-- Some pool stands behind the candidate.
abbrev pub is_backed : Dict Pool → Str → EgressChoice → Bool
is_backed pools region c =
    if c.template then any (is_template_pool c) pools else any (is_node_pool region c) pools

module _ (pools : Dict Pool) (region : Str) (s : EgressSelector) where
  abbrev Backed : EgressChoice → Type 0
  Backed c = is_backed pools region c ≡ true

  abbrev pub choice_at : Str → PoolConfig → NodeEntry → EgressChoice
  choice_at name cfg e = node_choice name cfg region (egress_group_for region s) e

  -- An entry that passes the code's tests stands behind the choice that is made of it.
  entry_of_choice :
      (name : Str) (cfg : PoolConfig) (e : NodeEntry)
      → e.enabled ≡ true
      → is_of_group region s e ≡ true
      → e.alive || cfg.try_offline ≡ true
      → is_entry_of region (choice_at name cfg e) cfg e ≡ true
  unfolding is_of_group node_choice
  entry_of_choice name cfg e on group up = ground (arith, str_eq_iff e.node.name e.node.name)

  node-Backed :
      (name : Str) (pool : Pool) (e : NodeEntry)
      → Mem (name, pool) pools
      → serves_nodes pool.config ≡ true
      → Mem e pool.entries
      → e.enabled ≡ true
      → is_of_group region s e ≡ true
      → e.alive || pool.config.try_offline ≡ true
      → Backed (choice_at name pool.config e)
  unfolding node_choice
  node-Backed name pool e listed serves held on group up =
      let c = choice_at name pool.config e in
      any-of_mem (is_node_pool region c) pools (name, pool) listed
        (rw ((str_eq_iff name name).1 refl, serves)
          (any-of_mem (is_entry_of region c pool.config) pool.entries e held
            (entry_of_choice name pool.config e on group up)))

  parts :
      (cfg : PoolConfig) (e : NodeEntry)
      → is_candidate region s e ≡ true
      → (e.enabled ≡ true)
        × ((is_of_group region s e ≡ true) × ((e.alive || cfg.try_offline) ≡ true))
  unfolding is_candidate
  parts cfg e h = ground arith

  pool_choices-Backed :
      (entry : Str × Pool) → Mem entry pools → All Backed (pool_choices region s entry)
  unfolding pool_choices
  pool_choices-Backed (name, pool) listed = elim (Bool-cases (serves_nodes pool.config)) [
    | inr e ↦ rw e tt
    | inl serves ↦ rw serves (
        All-map_select Backed (choice_at name pool.config) (is_candidate region s) pool.entries
          (λ e m h.
            let (on, (group, up)) = parts pool.config e h in
            node-Backed name pool e listed serves m on group up))
  ]

  pub entry_choices-Backed : All Backed (entry_choices pools region s)
  unfolding entry_choices
  entry_choices-Backed =
      All-perm Backed (λ c. hlevel) _ _ (sort_by-perm less_name _)
        (All-concat_map Backed (pool_choices region s) pools pool_choices-Backed)

  abbrev HoldsBacked : Option EgressChoice → Type 0
  HoldsBacked none = Unit
  HoldsBacked (some c) = Backed c

  scan_entry-HoldsBacked :
      (name : Str) (pool : Pool) (t : Scan) (e : NodeEntry)
      → Mem (name, pool) pools
      → serves_nodes pool.config ≡ true
      → Mem e pool.entries
      → HoldsBacked t.fallback
      → HoldsBacked (scan_entry region s name pool.config t e).fallback
  unfolding scan_entry
  scan_entry-HoldsBacked name pool t e listed serves held h =
      ground (arith, node-Backed name pool e listed serves held)

  scan_entries-HoldsBacked :
      (name : Str) (pool : Pool) (t : Scan) (es : List NodeEntry)
      → Mem (name, pool) pools
      → serves_nodes pool.config ≡ true
      → ((e : NodeEntry) → Mem e es → Mem e pool.entries)
      → HoldsBacked t.fallback
      → HoldsBacked (scan_entries region s name pool.config t es).fallback
  unfolding scan_entries
  scan_entries-HoldsBacked name pool t [] listed serves held h = h
  scan_entries-HoldsBacked name pool t (e ∷ es) listed serves held h =
      scan_entries-HoldsBacked name pool (scan_entry region s name pool.config t e) es listed serves
        (λ x m. held x (mem-cons_of_mem e m))
        (scan_entry-HoldsBacked name pool t e listed serves (held e mem-cons_self) h)

  scan_pools-HoldsBacked :
      (t : Scan) (ps : Dict Pool)
      → ((p : Str × Pool) → Mem p ps → Mem p pools)
      → HoldsBacked t.fallback
      → HoldsBacked (scan_pools region s t ps).fallback
  unfolding scan_pools
  scan_pools-HoldsBacked t [] listed h = h
  scan_pools-HoldsBacked t ((name, pool) ∷ ps) listed h =
      let later = λ (p : Str × Pool) (m : Mem p ps). listed p (mem-cons_of_mem (name, pool) m) in
      elim (Bool-cases (serves_nodes pool.config)) [
        | inl e ↦
            rw (e, scan_pools)
              (scan_pools-HoldsBacked (scan_entries region s name pool.config t pool.entries) ps
                later
                (scan_entries-HoldsBacked name pool t pool.entries (listed _ mem-cons_self) e
                  (λ x m. m) h))
        | inr e ↦ rw (e, scan_pools) (scan_pools-HoldsBacked t ps later h)
      ]

  pub try_offline_entry_choices-Backed : All Backed (try_offline_entry_choices pools region s)
  unfolding try_offline_entry_choices
  try_offline_entry_choices-Backed =
      ground (arith, scan_pools-HoldsBacked start pools (λ p m. m) tt)

  module _ (o : Outside) where
    template-Backed :
        (name : Str) (pool : Pool) (d : Option ℕ) (endpoint : Str)
        → Mem (name, pool) pools
        → str_eq pool.config.source (text "template") ≡ true
        → pool_enabled pool.config ≡ true
        → template_covers_selector pool.config s ≡ true
        → Backed (template_choice name pool.config region s d endpoint)
    unfolding template_choice template_covers_selector
    template-Backed name pool d endpoint listed source on covers =
        any-of_mem (is_template_pool (template_choice name pool.config region s d endpoint)) pools
          (name, pool) listed (rw ((str_eq_iff name name).1 refl, source, on, covers) refl)

    optional :
        {A : Type 0} (x : Option A) (f : A → EgressChoice)
        → ((a : A) → Backed (f a))
        → All Backed (elim x [ none ↦ [] | some a ↦ f a ∷ [] ])
    optional none f h = tt
    optional (some a) f h = (h a, tt)

    pool_template_choices-Backed :
        (entry : Str × Pool) → Mem entry pools → All Backed (pool_template_choices o region s entry)
    unfolding pool_template_choices
    pool_template_choices-Backed (name, pool) listed =
        let cfg = pool.config in
        elim (Bool-cases (
          (str_eq cfg.source (text "template") && pool_enabled cfg)
          && template_covers_selector cfg s)) [
            | inr e ↦ rw e tt
            | inl e ↦
                let made = λ (d : Option ℕ) (u : Str).
                  template-Backed name pool d u listed (ground arith) (ground arith)
                    (ground arith) in
                elim (Bool-cases
                  (str_eq (normalize_template_type cfg.template_type) (text "chijie"))) [
                    | inl k ↦
                        rw (e, k)
                          (optional (o.chijie_proxy_url cfg.endpoint cfg.port) _ (made none))
                    | inr k ↦
                        rw (e, k)
                          (optional (build_template_dialer o name cfg region) _
                            (λ d. made (some d) []))
                  ]
          ]

    pub template_choices-Backed : All Backed (template_choices o pools region s)
    unfolding template_choices
    template_choices-Backed =
        All-perm Backed (λ c. hlevel) _ _ (sort_by-perm (less_template s) _)
          (All-concat_map Backed (pool_template_choices o region s) pools
            pool_template_choices-Backed)
