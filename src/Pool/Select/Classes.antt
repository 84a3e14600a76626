-- ===== src/Pool/Select/Classes.antt =====
-- The regions and classes of the candidates that the regional selection returns.
use mathlib.Core.List.{Mem, not-mem-nil, mem-append_left}
use mathlib.Core.List.Perm
use chi_jie.Prelude.{
  ◌||◌, ◌≡◌, refl, ◌⊎◌, inl, inr, ◌≢◌, Bool, true, false, not, List, [], ◌∷◌, arith, Str, Dict, All,
  All-append, ◌↔◌, is_nil, Bool-cases,
}
use chi_jie.Pool.Types.{Pool, EgressChoice, EgressSelector, NodeEntry, Cursor, Manager}
use chi_jie.Pool.Names.{Strategy, normalize_strategy, normalize_region_code, egress_group_for}
use chi_jie.Pool.Candidates.{Outside, serves_nodes, is_candidate, node_choice}
use chi_jie.Pool.Candidates.Complete.{mem-entry_choices}
use chi_jie.Pool.Candidates.Classes.{IsOfGroup}
use chi_jie.Pool.Candidates.Backed.{is_backed}
use chi_jie.Pool.Select.{
  ok, err, none_in_region, egress_candidate_group, residential_fallback,
  append_premium_residential_fallback, select_fallback, select_in_region, select_candidates,
  select_egress_candidates_with_template_fallback_for,
}
use chi_jie.Pool.Select.Groups.{
  egress_candidate_group-All, egress_candidate_group-Backed, egress_candidate_group-perm,
  IsUnserved, IsUnserved-of_group, group_of_IsUnserved,
}

-- Of the region, residential if that was asked for, and backed by a node of that region and class
-- or by a pool of templates.
abbrev pub Fits : Dict Pool → Str → EgressSelector → EgressChoice → Type 0
Fits pools region s c =
    (c.region ≡ region)
    × (((s.residential ≡ false) ⊎ (c.residential ≡ true)) × (is_backed pools region c ≡ true))

-- One property of every element, where two others hold of it.
All-both {ℓ} :
    {A : Type ℓ} (P Q R : A → Type 0) (xs : List A)
    → ((a : A) → P a → Q a → R a)
    → All P xs
    → All Q xs
    → All R xs
All-both P Q R [] f p q = tt
All-both P Q R (x ∷ xs) f p q = (f x p.0 q.0, All-both P Q R xs f p.1 q.1)

Fits-of_group :
    (pools : Dict Pool) (region : Str) (s : EgressSelector) (c : EgressChoice)
    → IsOfGroup region s c
    → is_backed pools region c ≡ true
    → Fits pools region s c
Fits-of_group pools region s c g b = (g.region_eq, (ground (arith, g.residential_eq), b))

Fits-of_fallback :
    (pools : Dict Pool) (region : Str) (s : EgressSelector) (c : EgressChoice)
    → IsOfGroup region (residential_fallback s) c
    → is_backed pools region c ≡ true
    → Fits pools region s c
Fits-of_fallback pools region s c g b = (g.region_eq, (inr g.residential_eq, b))

module _ (o : Outside) (pools : Dict Pool) (region : Str) (strategy : Strategy)
    (include : Bool) where
  group_Fits :
      (c : Cursor) (s : EgressSelector)
      → All (Fits pools region s) (egress_candidate_group o pools c region strategy s include).0
  group_Fits c s =
      All-both (IsOfGroup region s) (λ x. is_backed pools region x ≡ true) (Fits pools region s) _
        (Fits-of_group pools region s)
        (egress_candidate_group-All o pools c region strategy s include)
        (egress_candidate_group-Backed o pools c region strategy s include)

  fallback_Fits :
      (c : Cursor) (s : EgressSelector)
      → All
          (Fits pools region s)
          (egress_candidate_group o pools c region strategy (residential_fallback s) include).0
  fallback_Fits c s =
      All-both (IsOfGroup region (residential_fallback s)) (λ x. is_backed pools region x ≡ true)
        (Fits pools region s) _ (Fits-of_fallback pools region s)
        (egress_candidate_group-All o pools c region strategy (residential_fallback s) include)
        (egress_candidate_group-Backed o pools c region strategy (residential_fallback s) include)

  append_Fits :
      (c : Cursor) (s : EgressSelector) (cs : List EgressChoice)
      → All (Fits pools region s) cs
      → All
          (Fits pools region s)
          (append_premium_residential_fallback o pools c region strategy s cs include).0
  unfolding append_premium_residential_fallback
  append_Fits c s cs a = ground (
    arith,
    All-append (Fits pools region s) cs
        (egress_candidate_group o pools c region strategy (residential_fallback s) include).0 a
        (fallback_Fits c s),
  )

  append_not_nil :
      (c : Cursor) (s : EgressSelector) (cs : List EgressChoice)
      → is_nil cs ≡ false
      → (append_premium_residential_fallback o pools c region strategy s cs include).0 ≢ []
  unfolding append_premium_residential_fallback
  append_not_nil c s [] h = absurd (cc)
  append_not_nil c s (x ∷ xs) h = ground arith

  select_fallback_ok :
      (c : Cursor) (s : EgressSelector) (cs : List EgressChoice)
      → (select_fallback o pools c region strategy s include).0 ≡ ok cs
      → (cs ≢ []) × All (Fits pools region s) cs
  unfolding select_fallback
  select_fallback_ok c s cs h = ground (arith, fallback_Fits c s)

  select_in_region_ok :
      (c : Cursor) (s : EgressSelector) (cs : List EgressChoice)
      → (select_in_region o pools c region strategy s include).0 ≡ ok cs
      → (cs ≢ []) × All (Fits pools region s) cs
  unfolding select_in_region
  select_in_region_ok c s cs h =
      let (first, c1) = egress_candidate_group o pools c region strategy s include in
      ground (
        arith,
        append_not_nil c1 s first,
        append_Fits c1 s first (group_Fits c s),
        select_fallback_ok c1 s cs,
      )

  -- The regional selection fails exactly where its class has no candidate and, for an ordinary
  -- request, the residential class has none either.
  select_in_region_err :
      (c : Cursor) (s : EgressSelector)
      → ((select_in_region o pools c region strategy s include).0
          ≡ err (none_in_region region s.residential))
        ↔ (IsUnserved o pools region s
            × ((s.residential ≡ true) ⊎ IsUnserved o pools region (residential_fallback s)))
  unfolding select_in_region select_fallback
  select_in_region_err c s =
      let (first, c1) = egress_candidate_group o pools c region strategy s include in
      let f = residential_fallback s in
      (
        λ h. ground (
          arith,
          IsUnserved-of_group o pools c region strategy s include,
          IsUnserved-of_group o pools c1 region strategy f include,
          h,
        ),
        λ u. ground (
          arith,
          group_of_IsUnserved o pools c region strategy s include u.0,
          group_of_IsUnserved o pools c1 region strategy f include,
          u,
        ),
      )

-- Where the regional selection succeeds, with or without templates after the nodes, it returns at
-- least one candidate, and every candidate has the normalised region, is residential where a
-- residential exit was asked for, and is backed by a pool that it names: for a node, an enabled
-- pool of nodes holds an entry of that name, region and class that is switched on and either
-- online or in a pool that lets offline nodes be tried; for a template, the pool is one of
-- templates, switched on, that covers the class.
pub select_candidates_ok :
    (include : Bool) (o : Outside) (m : Manager) (region strategy : Str) (s : EgressSelector)
    (cs : List EgressChoice)
    → (select_candidates include o m region strategy s).0 ≡ ok cs
    → (cs ≢ []) × All (Fits m.pools (normalize_region_code region) s) cs
unfolding select_candidates
select_candidates_ok include o m region strategy s cs h = ground (
  arith,
  select_in_region_ok o m.pools (normalize_region_code region) (normalize_strategy strategy) include
      m.cursor s cs,
)

is_nil_of_ne : (r : Str) → r ≢ [] → is_nil r ≡ false
is_nil_of_ne [] h = absurd (h refl)
is_nil_of_ne (c ∷ r) h = refl

-- For a region that normalises to a code, the regional selection fails for lack of candidates
-- exactly where the class asked for has no online node, no lone offline node and no template in
-- the region and, for an ordinary request, the residential class has none of these either.
pub select_candidates_err :
    (include : Bool) (o : Outside) (m : Manager) (region strategy : Str) (s : EgressSelector)
    → normalize_region_code region ≢ []
    → ((select_candidates include o m region strategy s).0
        ≡ err (none_in_region (normalize_region_code region) s.residential))
      ↔ (IsUnserved o m.pools (normalize_region_code region) s
          × ((s.residential ≡ true)
              ⊎ IsUnserved o m.pools (normalize_region_code region) (residential_fallback s)))
unfolding select_candidates
select_candidates_err include o m region strategy s h =
    rw (is_nil_of_ne (normalize_region_code region) h) (
      select_in_region_err o m.pools (normalize_region_code region) (normalize_strategy strategy)
        include m.cursor s)

not_nil_of_mem : (c : EgressChoice) (cs : List EgressChoice) → Mem c cs → is_nil cs ≡ false
not_nil_of_mem c [] m = absurd (not-mem-nil m)
not_nil_of_mem c (x ∷ cs) m = refl

mem-append_premium :
    (o : Outside) (pools : Dict Pool) (k : Cursor) (region : Str) (strategy : Strategy)
    (s : EgressSelector) (include : Bool) (cs : List EgressChoice) (c : EgressChoice)
    → Mem c cs
    → Mem c (append_premium_residential_fallback o pools k region strategy s cs include).0
unfolding append_premium_residential_fallback
mem-append_premium o pools k region strategy s include cs c m =
    elim (Bool-cases (not s.premium || (s.residential || is_nil cs))) [
      | inl t ↦ rw t m
      | inr f ↦ rw f (mem-append_left _ m)
    ]

-- With templates as a fallback, for a region that normalises to a code: a node that is online,
-- enabled, of the region and of the class asked for, held by a pool that is switched on and serves
-- nodes, makes the selection succeed, and is among its candidates.
pub online_selected :
    (o : Outside) (m : Manager) (region strategy : Str) (s : EgressSelector) (name : Str)
    (pool : Pool) (e : NodeEntry)
    → normalize_region_code region ≢ []
    → Mem (name, pool) m.pools
    → serves_nodes pool.config ≡ true
    → Mem e pool.entries
    → is_candidate (normalize_region_code region) s e ≡ true
    → (cs : List EgressChoice) × ((select_egress_candidates_with_template_fallback_for o m region
          strategy s).0
        ≡ ok cs)
      × Mem
          (node_choice name pool.config
            (normalize_region_code region)
            (egress_group_for (normalize_region_code region) s)
            e)
          cs
unfolding select_egress_candidates_with_template_fallback_for select_candidates select_in_region
online_selected o m region strategy s name pool e h listed serves held online =
    let r = normalize_region_code region in
    let t = normalize_strategy strategy in
    let choice = node_choice name pool.config r (egress_group_for r s) e in
    let (group, c1) = egress_candidate_group o m.pools m.cursor r t s true in
    let found : Mem choice group =
      Perm.subset (Perm.symm (egress_candidate_group-perm o m.pools m.cursor r t s)) choice (
        mem-append_left _ (
          mem-append_left _
            (mem-entry_choices r s m.pools name pool e listed serves held online))) in
    (
      (append_premium_residential_fallback o m.pools c1 r t s group true).0,
      rw (is_nil_of_ne r h, not_nil_of_mem choice group found),
      mem-append_premium o m.pools c1 r t s true group choice found,
    )
