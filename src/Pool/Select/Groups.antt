-- ===== src/Pool/Select/Groups.antt =====
-- One group of candidates.
use mathlib.Core.List.Perm
use mathlib.Core.List.{append-nil}
use chi_jie.Prelude.{
  ◌≡◌, refl, ◌⊎◌, inl, inr, ◌≢◌, Bool, true, false, List, [], ◌∷◌, ◌++◌, arith, Str, Dict, All,
  All-append, All-perm, Perm, is_nil, Bool-cases, subst, nil-cases,
}
use chi_jie.Pool.Types.{Pool, EgressChoice, EgressSelector, Cursor}
use chi_jie.Pool.Names.{Strategy, egress_group_for}
use chi_jie.Pool.Order.{order_egress_choices, premium_candidate_group}
use chi_jie.Pool.Order.Laws.{order_egress_choices-perm}
use chi_jie.Pool.Order.Premium.{
  joining, premium_candidate_group-perm, premium_candidate_group-All, PremiumFirst,
  premium_candidate_group-PremiumFirst, premium_candidate_group-nil, IsOrdinary,
}
use chi_jie.Pool.Candidates.{Outside, entry_choices, try_offline_entry_choices, template_choices}
use chi_jie.Pool.Candidates.Classes.{
  IsOfGroup, IsOfGroup-prop, entry_choices-All, try_offline_entry_choices-All, template_choices-All,
}
use chi_jie.Pool.Candidates.Backed.{
  is_backed, entry_choices-Backed, try_offline_entry_choices-Backed, template_choices-Backed,
}
use chi_jie.Pool.Candidates.Offline.{lone_offline}
use chi_jie.Pool.Select.{ordinary_group, choose_group, egress_candidate_group}

module _ (P : EgressChoice → Type 0) where
  ordinary_group-All :
      (es os ts : List EgressChoice) (include : Bool)
      → All P es
      → All P os
      → All P ts
      → All P (ordinary_group es os ts include)
  unfolding ordinary_group
  ordinary_group-All es os ts include he ho ht =
      ground (arith, All-append P es ts he ht, All-append P os ts ho ht)

  choose_group-All :
      (s : EgressSelector) (es os ts : List EgressChoice) (include : Bool)
      → All P es
      → All P os
      → All P ts
      → All P (choose_group s es os ts include)
  unfolding choose_group
  choose_group-All s es os ts include he ho ht = ground (
    arith,
    ordinary_group-All es os ts include he ho ht,
    premium_candidate_group-All P es os ts include he ho ht,
  )

module _ (o : Outside) (pools : Dict Pool) (c : Cursor) (region : Str) (strategy : Strategy)
    (s : EgressSelector) (include : Bool) where
  -- What holds of the candidates of the three lists holds of those of the group.
  each_of_group :
      (P : EgressChoice → Type 0)
      → ((x : EgressChoice) → IsProp (P x))
      → All P (entry_choices pools region s)
      → All P (try_offline_entry_choices pools region s)
      → All P (template_choices o pools region s)
      → All P (egress_candidate_group o pools c region strategy s include).0
  unfolding egress_candidate_group
  each_of_group P prop es os ts =
      choose_group-All P s _ _ _ include
        (All-perm P prop _ _ (order_egress_choices-perm c _ strategy _) es)
        (All-perm P prop _ _ (order_egress_choices-perm _ _ strategy _) os) ts

  -- Every candidate of a group is of the region, the group name and the class asked for.
  pub egress_candidate_group-All :
      All (IsOfGroup region s) (egress_candidate_group o pools c region strategy s include).0
  egress_candidate_group-All =
      each_of_group (IsOfGroup region s) (IsOfGroup-prop region s)
        (entry_choices-All region s pools) (try_offline_entry_choices-All region s pools)
        (template_choices-All region s o pools)

  -- Behind every candidate of a group stands a node or a pool of templates.
  pub egress_candidate_group-Backed :
      All
        (λ x. is_backed pools region x ≡ true)
        (egress_candidate_group o pools c region strategy s include).0
  egress_candidate_group-Backed =
      each_of_group (λ x. is_backed pools region x ≡ true) (λ x. hlevel)
        (entry_choices-Backed pools region s) (try_offline_entry_choices-Backed pools region s)
        (template_choices-Backed pools region s o)

nil_of_is_nil : (cs : List EgressChoice) → is_nil cs ≡ true → cs ≡ []
nil_of_is_nil cs h = ground arith

not_nil : (cs : List EgressChoice) → cs ≢ [] → is_nil cs ≡ false
not_nil [] h = absurd (h refl)
not_nil (c ∷ cs) h = refl

-- With templates included, a group is a rearrangement of the nodes and the templates.
ordinary_group-perm :
    (es os ts : List EgressChoice)
    → (es ≡ []) ⊎ (os ≡ [])
    → Perm (ordinary_group es os ts true) ((es ++ os) ++ ts)
unfolding ordinary_group
ordinary_group-perm [] [] ts one = Perm.refl ts
ordinary_group-perm [] (o ∷ os) ts one = Perm.refl (o ∷ os ++ ts)
ordinary_group-perm (e ∷ es) [] ts one = rw (append-nil es) (Perm.refl (e ∷ es ++ ts))
ordinary_group-perm (e ∷ es) (o ∷ os) ts one = absurd (ground arith)

choose_group-perm :
    (s : EgressSelector) (es os ts : List EgressChoice)
    → (es ≡ []) ⊎ (os ≡ [])
    → Perm (choose_group s es os ts true) ((es ++ os) ++ ts)
unfolding choose_group joining
choose_group-perm s es os ts one = elim (Bool-cases s.premium) [
  | inl p ↦ elim (nil-cases (premium_candidate_group es os ts true)) [
    | inl e ↦ rw (p, e) (ordinary_group-perm es os ts one)
    | inr held ↦ rw (p, not_nil _ held) (premium_candidate_group-perm es os ts true one held)
  ]
  | inr p ↦ rw p (ordinary_group-perm es os ts one)
]

order_nil :
    (c : Cursor) (cs : List EgressChoice) (strategy : Strategy) (key : Str)
    → cs ≡ []
    → (order_egress_choices c cs strategy key).0 ≡ []
order_nil c cs strategy key e =
    Perm.eq-nil (subst (Perm _) e (order_egress_choices-perm c cs strategy key))

ordered_one :
    (c d : Cursor) (es os : List EgressChoice) (strategy : Strategy) (key : Str)
    → (es ≡ []) ⊎ (os ≡ [])
    → ((order_egress_choices c es strategy key).0 ≡ [])
      ⊎ ((order_egress_choices d os strategy key).0 ≡ [])
ordered_one c d es os strategy key (inl e) = inl (order_nil c es strategy key e)
ordered_one c d es os strategy key (inr e) = inr (order_nil d os strategy key e)

-- With templates after the nodes, the group of candidates holds every online node, the lone
-- offline node if there is one, and every template of the region and class, each as often as the
-- lists that it is made from, whatever the strategy and whether or not premium is preferred.
pub egress_candidate_group-perm :
    (o : Outside) (pools : Dict Pool) (c : Cursor) (region : Str) (strategy : Strategy)
    (s : EgressSelector)
    → Perm (egress_candidate_group o pools c region strategy s true).0 (
        (entry_choices pools region s ++ try_offline_entry_choices pools region s)
        ++ template_choices o pools region s)
unfolding egress_candidate_group
egress_candidate_group-perm o pools c region strategy s =
    let es = entry_choices pools region s in
    let os = try_offline_entry_choices pools region s in
    let key = egress_group_for region s in
    let c1 = (order_egress_choices c es strategy key).1 in
    Perm.trans
      (choose_group-perm s _ _ _
        (ordered_one c c1 es os strategy key (lone_offline region s pools)))
      (Perm.append_right (template_choices o pools region s) (
        Perm.append (order_egress_choices-perm c es strategy key)
          (order_egress_choices-perm c1 os strategy key)))

choose_group-PremiumFirst :
    (s : EgressSelector) (es os ts : List EgressChoice) (include : Bool)
    → s.premium ≡ true
    → (es ≡ []) ⊎ (os ≡ [])
    → PremiumFirst (choose_group s es os ts include)
unfolding choose_group
choose_group-PremiumFirst s es os ts include p one =
    elim (nil-cases (premium_candidate_group es os ts include)) [
      | inl e ↦
          let (he, ho, ht) = premium_candidate_group-nil es os ts include e in
          rw (p, e)
            (
              [],
              ordinary_group es os ts include,
              refl,
              tt,
              ordinary_group-All IsOrdinary es os ts include he ho ht,
            )
      | inr held ↦
          rw (p, not_nil _ held) (premium_candidate_group-PremiumFirst es os ts include one)
    ]

-- For a premium request, all premium candidates of the group come before all ordinary ones.
pub egress_candidate_group-PremiumFirst :
    (o : Outside) (pools : Dict Pool) (c : Cursor) (region : Str) (strategy : Strategy)
    (s : EgressSelector) (include : Bool)
    → s.premium ≡ true
    → PremiumFirst (egress_candidate_group o pools c region strategy s include).0
unfolding egress_candidate_group
egress_candidate_group-PremiumFirst o pools c region strategy s include p =
    let es = entry_choices pools region s in
    let os = try_offline_entry_choices pools region s in
    let key = egress_group_for region s in
    let c1 = (order_egress_choices c es strategy key).1 in
    choose_group-PremiumFirst s _ _ _ include p
      (ordered_one c c1 es os strategy key (lone_offline region s pools))

ordinary_group-nil :
    (es os ts : List EgressChoice) (include : Bool)
    → ordinary_group es os ts include ≡ []
    → (es ≡ []) × (os ≡ []) × (ts ≡ [])
unfolding ordinary_group
ordinary_group-nil [] [] ts include e = (refl, refl, e)
ordinary_group-nil [] (o ∷ os) ts include e = absurd (ground arith)
ordinary_group-nil (x ∷ es) os ts include e = absurd (ground arith)

choose_group-nil :
    (s : EgressSelector) (es os ts : List EgressChoice) (include : Bool)
    → choose_group s es os ts include ≡ []
    → (es ≡ []) × (os ≡ []) × (ts ≡ [])
unfolding choose_group
choose_group-nil s es os ts include e =
    elim (nil-cases (premium_candidate_group es os ts include)) [
      | inl n ↦ ordinary_group-nil es os ts include (ground arith)
      | inr held ↦ ordinary_group-nil es os ts include (ground (arith, not_nil _ held))
    ]

choose_group_of_nil : (s : EgressSelector) (include : Bool) → choose_group s [] [] [] include ≡ []
unfolding choose_group premium_candidate_group ordinary_group
choose_group_of_nil s include = ground arith

-- There is no candidate of a region and class at all.
pub record IsUnserved (o : Outside) (pools : Dict Pool) (region : Str) (s : EgressSelector)
    : Type 0 where
  pub no_entry : entry_choices pools region s ≡ []
  pub no_offline : try_offline_entry_choices pools region s ≡ []
  pub no_template : template_choices o pools region s ≡ []

nil_of_order :
    (c : Cursor) (cs : List EgressChoice) (strategy : Strategy) (key : Str)
    → (order_egress_choices c cs strategy key).0 ≡ []
    → cs ≡ []
nil_of_order c cs strategy key e =
    Perm.eq-nil (subst (Perm cs) e (Perm.symm (order_egress_choices-perm c cs strategy key)))

pub IsUnserved-of_group :
    (o : Outside) (pools : Dict Pool) (c : Cursor) (region : Str) (strategy : Strategy)
    (s : EgressSelector) (include : Bool)
    → (egress_candidate_group o pools c region strategy s include).0 ≡ []
    → IsUnserved o pools region s
unfolding egress_candidate_group
IsUnserved-of_group o pools c region strategy s include e =
    let (he, ho, ht) = choose_group-nil s _ _ _ include e in
    record {
      no_entry = nil_of_order c _ strategy _ he;
      no_offline = nil_of_order _ _ strategy _ ho;
      no_template = ht;
    }

pub group_of_IsUnserved :
    (o : Outside) (pools : Dict Pool) (c : Cursor) (region : Str) (strategy : Strategy)
    (s : EgressSelector) (include : Bool)
    → IsUnserved o pools region s
    → (egress_candidate_group o pools c region strategy s include).0 ≡ []
unfolding egress_candidate_group order_egress_choices
group_of_IsUnserved o pools c region strategy s include u =
    rw (u.no_entry, u.no_offline, u.no_template) (choose_group_of_nil s include)
