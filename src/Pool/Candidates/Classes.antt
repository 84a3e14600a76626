-- ===== src/Pool/Candidates/Classes.antt =====
-- The regions, groups and classes of candidates.
use native.Mathlib.Bridge.{le_prop}
use chi_jie.Prelude.{
  ℕ, ◌≤◌, ◌<◌, ◌≡◌, inl, inr, true, false, Option, none, some, List, [], ◌∷◌, arith, Str, Dict, All,
  All-append, All-perm, select, concat_map, sort_by-perm, Bool-cases, map,
}
use chi_jie.Pool.Types.{NodeEntry, Pool, PoolConfig, EgressChoice, EgressSelector}
use chi_jie.Pool.Names.{egress_group_for, any_egress_group_for}
use chi_jie.Pool.Order.{less_name, less_latency}
use chi_jie.Pool.Candidates.{
  Outside, Scan, serves_nodes, is_candidate, node_choice, pool_choices, entry_choices, scan_entry,
  scan_entries, scan_pools, start, try_offline_entry_choices, is_any_candidate, pool_any_choices,
  any_entry_choices, template_choice, pool_template_choices, less_template, template_choices,
}

-- The region, the group name and the class that were asked for.
pub record IsOfGroup (region : Str) (selector : EgressSelector) (c : EgressChoice) : Type 0 where
  pub region_eq : c.region ≡ region
  pub group_eq : c.group ≡ egress_group_for region selector
  pub residential_eq : c.residential ≡ selector.residential

pub IsOfGroup-prop :
    (region : Str) (selector : EgressSelector) (c : EgressChoice)
    → IsProp (IsOfGroup region selector c)
IsOfGroup-prop region selector c = hlevel

module _ (region : Str) (selector : EgressSelector) where
  node_choices-All :
      (name : Str) (cfg : PoolConfig) (es : List NodeEntry)
      → All (IsOfGroup region selector) (
          map
            (node_choice name cfg region (egress_group_for region selector))
            (select (is_candidate region selector) es))
  unfolding node_choice is_candidate
  node_choices-All name cfg [] = tt
  node_choices-All name cfg (e ∷ es) = ground (arith, node_choices-All name cfg es)

  pool_choices-All :
      (pools : Dict Pool)
      → All (IsOfGroup region selector) (concat_map (pool_choices region selector) pools)
  unfolding pool_choices
  pool_choices-All [] = tt
  pool_choices-All ((name, pool) ∷ rest) = elim (Bool-cases (serves_nodes pool.config)) [
    | inl e ↦ rw e (
        All-append (IsOfGroup region selector) _ _ (node_choices-All name pool.config pool.entries)
          (pool_choices-All rest))
    | inr e ↦ rw e (pool_choices-All rest)
  ]

  pub entry_choices-All :
      (pools : Dict Pool) → All (IsOfGroup region selector) (entry_choices pools region selector)
  unfolding entry_choices
  entry_choices-All pools =
      All-perm (IsOfGroup region selector) (IsOfGroup-prop region selector) _ _
        (sort_by-perm less_name _) (pool_choices-All pools)

  abbrev HoldsGroup : Option EgressChoice → Type 0
  HoldsGroup none = Unit
  HoldsGroup (some c) = IsOfGroup region selector c

  scan_entry-HoldsGroup :
      (name : Str) (cfg : PoolConfig) (s : Scan) (e : NodeEntry)
      → HoldsGroup s.fallback
      → HoldsGroup (scan_entry region selector name cfg s e).fallback
  unfolding scan_entry node_choice
  scan_entry-HoldsGroup name cfg s e h = ground arith

  scan_entries-HoldsGroup :
      (name : Str) (cfg : PoolConfig) (s : Scan) (es : List NodeEntry)
      → HoldsGroup s.fallback
      → HoldsGroup (scan_entries region selector name cfg s es).fallback
  unfolding scan_entries
  scan_entries-HoldsGroup name cfg s [] h = h
  scan_entries-HoldsGroup name cfg s (e ∷ es) h =
      scan_entries-HoldsGroup name cfg (scan_entry region selector name cfg s e) es
        (scan_entry-HoldsGroup name cfg s e h)

  scan_pools-HoldsGroup :
      (s : Scan) (pools : Dict Pool)
      → HoldsGroup s.fallback
      → HoldsGroup (scan_pools region selector s pools).fallback
  unfolding scan_pools
  scan_pools-HoldsGroup s [] h = h
  scan_pools-HoldsGroup s ((name, pool) ∷ rest) h = elim (Bool-cases (serves_nodes pool.config)) [
    | inl e ↦
        rw (e, scan_pools)
          (scan_pools-HoldsGroup (scan_entries region selector name pool.config s pool.entries) rest
            (scan_entries-HoldsGroup name pool.config s pool.entries h))
    | inr e ↦ rw (e, scan_pools) (scan_pools-HoldsGroup s rest h)
  ]

  pub try_offline_entry_choices-All :
      (pools : Dict Pool)
      → All (IsOfGroup region selector) (try_offline_entry_choices pools region selector)
  unfolding try_offline_entry_choices
  try_offline_entry_choices-All pools = ground (arith, scan_pools-HoldsGroup start pools tt)

  module _ (o : Outside) where
    pool_template_choices-All :
        (name : Str) (pool : Pool)
        → All (IsOfGroup region selector) (pool_template_choices o region selector (name, pool))
    unfolding pool_template_choices template_choice
    pool_template_choices-All name pool = ground arith

    joined_templates-All :
        (pools : Dict Pool)
        → All
            (IsOfGroup region selector)
            (concat_map (pool_template_choices o region selector) pools)
    joined_templates-All [] = tt
    joined_templates-All ((name, pool) ∷ rest) =
        All-append (IsOfGroup region selector) _ _ (pool_template_choices-All name pool)
          (joined_templates-All rest)

    pub template_choices-All :
        (pools : Dict Pool)
        → All (IsOfGroup region selector) (template_choices o pools region selector)
    unfolding template_choices
    template_choices-All pools =
        All-perm (IsOfGroup region selector) (IsOfGroup-prop region selector) _ _
          (sort_by-perm (less_template selector) _) (joined_templates-All pools)

-- What holds of each node that passes the tests holds of every candidate for any region.
module _ (selector : EgressSelector) (max_latency : ℕ) (P : EgressChoice → Type 0)
    (prop : (c : EgressChoice) → IsProp (P c))
    (passed : (name : Str) (cfg : PoolConfig) (e : NodeEntry)
      → is_any_candidate selector max_latency e ≡ true
      → P (node_choice name cfg e.region (any_egress_group_for selector) e)) where
  any_choices-All :
      (name : Str) (cfg : PoolConfig) (es : List NodeEntry)
      → All P (
          map
            (λ e. node_choice name cfg e.region (any_egress_group_for selector) e)
            (select (is_any_candidate selector max_latency) es))
  any_choices-All name cfg [] = tt
  any_choices-All name cfg (e ∷ es) = elim (Bool-cases (is_any_candidate selector max_latency e)) [
    | inl t ↦ rw t (passed name cfg e t, any_choices-All name cfg es)
    | inr f ↦ rw f (any_choices-All name cfg es)
  ]

  pool_any_choices-All :
      (pools : Dict Pool) → All P (concat_map (pool_any_choices selector max_latency) pools)
  unfolding pool_any_choices
  pool_any_choices-All [] = tt
  pool_any_choices-All ((name, pool) ∷ rest) = elim (Bool-cases (serves_nodes pool.config)) [
    | inl e ↦ rw e (
        All-append P _ _ (any_choices-All name pool.config pool.entries)
          (pool_any_choices-All rest))
    | inr e ↦ rw e (pool_any_choices-All rest)
  ]

  pub any_entry_choices-All :
      (pools : Dict Pool) → All P (any_entry_choices pools selector max_latency)
  unfolding any_entry_choices
  any_entry_choices-All pools =
      All-perm P prop _ _ (sort_by-perm less_latency _) (pool_any_choices-All pools)

-- A candidate for any region: a node of the class asked for.
pub record IsOfClass (selector : EgressSelector) (c : EgressChoice) : Type 0 where
  pub group_eq : c.group ≡ any_egress_group_for selector
  pub residential_eq : c.residential ≡ selector.residential
  pub template_eq : c.template ≡ false

pub IsOfClass-prop : (selector : EgressSelector) (c : EgressChoice) → IsProp (IsOfClass selector c)
IsOfClass-prop selector c = hlevel

pub node-IsOfClass :
    (selector : EgressSelector) (max_latency : ℕ) (name : Str) (cfg : PoolConfig) (e : NodeEntry)
    → is_any_candidate selector max_latency e ≡ true
    → IsOfClass selector (node_choice name cfg e.region (any_egress_group_for selector) e)
unfolding node_choice is_any_candidate
node-IsOfClass selector max_latency name cfg e h = ground arith

-- A measured latency within the limit.
abbrev pub IsTimely : ℕ → EgressChoice → Type 0
IsTimely max_latency c = (0 < c.latency) × (c.latency ≤ max_latency)

pub IsTimely-prop : (max_latency : ℕ) (c : EgressChoice) → IsProp (IsTimely max_latency c)
IsTimely-prop max_latency c = hlevel le_prop

pub node-IsTimely :
    (selector : EgressSelector) (max_latency : ℕ)
    → 0 < max_latency
    → (name : Str) (cfg : PoolConfig) (e : NodeEntry)
    → is_any_candidate selector max_latency e ≡ true
    → IsTimely max_latency (node_choice name cfg e.region (any_egress_group_for selector) e)
unfolding node_choice is_any_candidate
node-IsTimely selector max_latency limited name cfg e h = ground arith
