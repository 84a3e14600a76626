-- ===== src/Pool/Candidates/Offline.antt =====
-- The region's lone offline node.
use chi_jie.Prelude.{
  ℕ, ◌+◌, ◌≤◌, ◌≡◌, ◌⊎◌, inl, inr, Option, none, some, List, [], ◌∷◌, arith, Str, Dict, length,
  length-append, length-map, select, concat_map, sort_by, Perm, Bool-cases, sort_by-perm, map,
}
use mathlib.Core.List.Perm
use chi_jie.Pool.Types.{NodeEntry, Pool, PoolConfig, EgressChoice, EgressSelector}
use chi_jie.Pool.Names.{egress_group_for}
use chi_jie.Pool.Order.{less_name}
use chi_jie.Pool.Candidates.{
  Scan, start, lone_fallback, serves_nodes, is_candidate, node_choice, pool_choices, entry_choices,
  scan_entry, scan_entries, scan_pools, try_offline_entry_choices,
}

abbrev held : Option EgressChoice → ℕ
held none = 0
held (some c) = 1

nil_or_lone :
    (found sorted : List EgressChoice) (s : Scan)
    → Perm sorted found
    → 0 + length found + held s.fallback ≤ s.all_matching
    → (sorted ≡ []) ⊎ (lone_fallback s ≡ [])
nil_or_lone [] sorted s p h = inl (Perm.eq-nil p)
nil_or_lone (c ∷ found) sorted s p h = inr (ground arith)

module _ (region : Str) (selector : EgressSelector) where
  abbrev online : List NodeEntry → ℕ
  online es = length (select (is_candidate region selector) es)

  -- `a` online candidates were seen so far.
  scan_entry-counts :
      (name : Str) (cfg : PoolConfig) (s : Scan) (e : NodeEntry) (a : ℕ)
      → a + held s.fallback ≤ s.all_matching
      → a + online (e ∷ []) + held (scan_entry region selector name cfg s e).fallback
        ≤ (scan_entry region selector name cfg s e).all_matching
  unfolding scan_entry is_candidate
  scan_entry-counts name cfg s e a h = ground arith

  online-cons :
      (e : NodeEntry) (es : List NodeEntry) → online (e ∷ es) ≡ online (e ∷ []) + online es
  online-cons e es = ground arith

  scan_entries-counts :
      (name : Str) (cfg : PoolConfig) (s : Scan) (es : List NodeEntry) (a : ℕ)
      → a + held s.fallback ≤ s.all_matching
      → a + online es + held (scan_entries region selector name cfg s es).fallback
        ≤ (scan_entries region selector name cfg s es).all_matching
  unfolding scan_entries
  scan_entries-counts name cfg s [] a h = omega arith
  scan_entries-counts name cfg s (e ∷ es) a h = omega (
    arith,
    online-cons e es,
    scan_entries-counts name cfg (scan_entry region selector name cfg s e) es (a + online (e ∷ []))
        (scan_entry-counts name cfg s e a h),
  )

  scan_pools-counts :
      (s : Scan) (pools : Dict Pool) (a : ℕ)
      → a + held s.fallback ≤ s.all_matching
      → a
          + length (concat_map (pool_choices region selector) pools)
          + held (scan_pools region selector s pools).fallback
        ≤ (scan_pools region selector s pools).all_matching
  unfolding scan_pools pool_choices
  scan_pools-counts s [] a h = omega arith
  scan_pools-counts s ((name, pool) ∷ rest) a h = elim (Bool-cases (serves_nodes pool.config)) [
    | inl e ↦
        rw (e, scan_pools)
          (omega (
            arith,
            length-append
                (map (node_choice name pool.config region (egress_group_for region selector))
                  (select (is_candidate region selector) pool.entries))
                (concat_map (pool_choices region selector) rest),
            length-map (node_choice name pool.config region (egress_group_for region selector))
                (select (is_candidate region selector) pool.entries),
            scan_pools-counts (scan_entries region selector name pool.config s pool.entries) rest
                (a + online pool.entries) (scan_entries-counts name pool.config s pool.entries a h),
          ))
    | inr e ↦ rw (e, scan_pools) (scan_pools-counts s rest a h)
  ]

  -- For every region and class, there is no online node or no offline node is offered.
  pub lone_offline :
      (pools : Dict Pool)
      → (entry_choices pools region selector ≡ [])
        ⊎ (try_offline_entry_choices pools region selector ≡ [])
  unfolding try_offline_entry_choices entry_choices
  lone_offline pools =
      let found = concat_map (pool_choices region selector) pools in
      let counts = scan_pools-counts start pools 0 (omega arith) in
      nil_or_lone found (sort_by less_name found) (scan_pools region selector start pools)
        (sort_by-perm less_name found) counts
