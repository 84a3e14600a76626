-- ===== src/Pool/Nodes/Marked.antt =====
-- The candidates after a node is marked unavailable.
use chi_jie.Prelude.{
  ◌+◌, ◌≡◌, refl, subst, sym, ◌⊎◌, inl, inr, true, false, ◌&&◌, some, List, [], ◌∷◌, arith, Str,
  Dict, str_eq, str_eq_iff, All, All-append, All-perm, select, concat_map, map, lookup, insert,
  Absent, Distinct, sort_by-perm, ◌||◌, is_nil, trim_space, Bool-cases, Option-cases,
}
use chi_jie.Pool.Types.{NodeEntry, PoolConfig, Pool, Manager, EgressChoice, EgressSelector}
use chi_jie.Pool.Names.{egress_group_for}
use chi_jie.Pool.Order.{less_name}
use chi_jie.Pool.Candidates.{is_candidate, node_choice, pool_choices, entry_choices}
use chi_jie.Pool.Nodes.{mark_entry, mark_in_pool, mark_node_unavailable}

-- No entry of a list bears the name; and no two entries bear one name.
abbrev pub Unnamed : Str → List NodeEntry → Type 0
Unnamed n [] = Unit
Unnamed n (e ∷ es) = (str_eq e.node.name n ≡ false) × Unnamed n es

abbrev pub UniqueNames : List NodeEntry → Type 0
UniqueNames [] = Unit
UniqueNames (e ∷ es) = Unnamed e.node.name es × UniqueNames es

-- The entry is down, or is another node.
abbrev IsDown : Str → NodeEntry → Type 0
IsDown n e = (e.alive && str_eq e.node.name n) ≡ false

Unnamed-IsDown : (n : Str) (es : List NodeEntry) → Unnamed n es → All (IsDown n) es
Unnamed-IsDown n [] u = tt
Unnamed-IsDown n (e ∷ es) u = (ground (arith, u.0), Unnamed-IsDown n es u.1)

marked-IsDown :
    (n : Str) (e : NodeEntry) (es : List NodeEntry)
    → UniqueNames (e ∷ es)
    → str_eq e.node.name n ≡ true
    → All (IsDown n) (record e { alive = false; fail_count = e.fail_count + 1 } ∷ es)
marked-IsDown n e es u same =
    (refl, Unnamed-IsDown n es (subst (λ x. Unnamed x es) ((str_eq_iff e.node.name n).0 same) u.0))

mark_entry-IsDown :
    (n : Str) (es fs : List NodeEntry)
    → UniqueNames es
    → mark_entry n es ≡ some fs
    → All (IsDown n) fs
unfolding mark_entry
mark_entry-IsDown n [] fs u h = absurd (cc)
mark_entry-IsDown n (e ∷ es) fs u h = elim (Bool-cases (str_eq e.node.name n)) [
  | inl same ↦ ground (arith, marked-IsDown n e es u same)
  | inr other ↦ elim (Option-cases (mark_entry n es)) [
    | inl missing ↦ absurd (ground (arith))
    | inr (more, found) ↦ ground (arith, mark_entry-IsDown n es more)
  ]
]

-- The choice is for another node.
abbrev pub IsOther : Str → Str → EgressChoice → Type 0
IsOther p n c = (str_eq c.pool_name p && str_eq c.node_name n) ≡ false

module _ (region : Str) (s : EgressSelector) (p n : Str) where
  node_choices-IsOther :
      (name : Str) (cfg : PoolConfig) (es : List NodeEntry)
      → All (IsDown n) es
      → All (IsOther p n) (
          map
            (node_choice name cfg region (egress_group_for region s))
            (select (is_candidate region s) es))
  unfolding node_choice is_candidate
  node_choices-IsOther name cfg [] d = tt
  node_choices-IsOther name cfg (e ∷ es) d =
      ground (arith, node_choices-IsOther name cfg es d.1, d.0)

  elsewhere-IsOther :
      (name : Str) (cfg : PoolConfig) (es : List NodeEntry)
      → str_eq name p ≡ false
      → All (IsOther p n) (
          map
            (node_choice name cfg region (egress_group_for region s))
            (select (is_candidate region s) es))
  unfolding node_choice
  elsewhere-IsOther name cfg [] d = tt
  elsewhere-IsOther name cfg (e ∷ es) d = ground (arith, elsewhere-IsOther name cfg es d)

  -- The pool is another one, or all its entries are down or others.
  abbrev IsSilent : Str × Pool → Type 0
  IsSilent (name, pool) = (str_eq name p ≡ false) ⊎ All (IsDown n) pool.entries

  pool_choices-IsOther :
      (name : Str) (pool : Pool)
      → IsSilent (name, pool)
      → All (IsOther p n) (pool_choices region s (name, pool))
  unfolding pool_choices
  pool_choices-IsOther name pool silent = ground (
    arith,
    node_choices-IsOther name pool.config pool.entries,
    elsewhere-IsOther name pool.config pool.entries,
  )

  joined-IsOther :
      (pools : Dict Pool)
      → All IsSilent pools
      → All (IsOther p n) (concat_map (pool_choices region s) pools)
  joined-IsOther [] silent = tt
  joined-IsOther ((name, pool) ∷ rest) silent =
      All-append (IsOther p n) _ _ (pool_choices-IsOther name pool silent.0)
        (joined-IsOther rest silent.1)

  entry_choices-IsOther :
      (pools : Dict Pool) → All IsSilent pools → All (IsOther p n) (entry_choices pools region s)
  unfolding entry_choices
  entry_choices-IsOther pools silent =
      All-perm (IsOther p n) (λ c. hlevel) _ _ (sort_by-perm less_name _)
        (joined-IsOther pools silent)

  Absent-IsSilent : (pools : Dict Pool) → Absent p pools → All IsSilent pools
  Absent-IsSilent [] a = tt
  Absent-IsSilent ((name, pool) ∷ rest) a = (inl (ground (arith, a.0)), Absent-IsSilent rest a.1)

  rest-IsSilent : (name : Str) (rest : Dict Pool) → Absent name rest → name ≡ p → All IsSilent rest
  rest-IsSilent name rest a same = Absent-IsSilent rest (rw (sym same) a)

  insert-IsSilent :
      (pool : Pool) (pools : Dict Pool)
      → Distinct pools
      → All (IsDown n) pool.entries
      → All IsSilent (insert p pool pools)
  unfolding insert
  insert-IsSilent pool [] d down = (inr down, tt)
  insert-IsSilent pool ((name, old) ∷ rest) d down = elim (Bool-cases (str_eq name p)) [
    | inl same ↦
        rw (same, insert) (inr down, rest-IsSilent name rest d.0 ((str_eq_iff name p).0 same))
    | inr other ↦ rw (other, insert) (inl other, insert-IsSilent pool rest d.1 down)
  ]

module _ (m : Manager) (p n : Str) (pool : Pool) (region : Str) (s : EgressSelector)
    (d : Distinct m.pools) (u : UniqueNames pool.entries) where
  marked_in_pool :
      (mark_in_pool m p n pool).0 ≡ true
      → All (IsOther p n) (entry_choices (mark_in_pool m p n pool).1.pools region s)
  unfolding mark_in_pool
  marked_in_pool h = elim (Option-cases (mark_entry n pool.entries)) [
    | inl missing ↦ absurd (ground (arith))
    | inr (es, found) ↦
        rw (found, mark_in_pool)
          (entry_choices-IsOther region s p n _ (
            insert-IsSilent region s p n (record pool { entries = es }) m.pools d
              (mark_entry-IsDown n pool.entries es u found)))
  ]

-- If MarkNodeUnavailable reports success for a node of a pool that the manager holds, where pool
-- names are distinct and the pool's node names are too, then no candidate list of online nodes, of
-- any region and class, holds that node of that pool afterwards.
pub marked_not_candidate :
    (m : Manager) (p n : Str) (pool : Pool) (region : Str) (s : EgressSelector)
    → Distinct m.pools
    → lookup p m.pools ≡ some pool
    → UniqueNames pool.entries
    → (mark_node_unavailable m p n).0 ≡ true
    → All (IsOther p n) (entry_choices (mark_node_unavailable m p n).1.pools region s)
unfolding mark_node_unavailable
marked_not_candidate m p n pool region s d found u h =
    elim (Bool-cases (is_nil (trim_space p) || is_nil (trim_space n))) [
      | inl blank ↦ absurd (ground (arith))
      | inr named ↦
          rw (named, found, mark_node_unavailable)
            (marked_in_pool m p n pool region s d u (ground (arith)))
    ]
