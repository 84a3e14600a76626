-- ===== src/Pool/Order/Premium.antt =====
-- The lists for a request that prefers premium nodes.
use mathlib.Core.List.Perm
use mathlib.Core.List.{append_assoc, append-nil, perm_middle, perm_append_comm}
use chi_jie.Prelude.{
  ◌≡◌, refl, sym, ◌∙◌, ◌&&◌, ◌⊎◌, inl, inr, ◌≢◌, Bool, true, false, not, List, [], ◌∷◌, ◌++◌, Perm,
  arith, All, All-append, All-select, All-select_of_test, Bool-cases, if◌then◌else◌, is_nil,
  nil-cases,
}
use chi_jie.Pool.Types.{EgressChoice}
use chi_jie.Pool.Order.{
  filter_choices_by_premium, prioritize_premium_choices, premium_candidate_group,
}

abbrev pub IsPremium : EgressChoice → Type 0
IsPremium c = c.premium ≡ true

abbrev pub IsOrdinary : EgressChoice → Type 0
IsOrdinary c = c.premium ≡ false

-- The premium candidates come first.
abbrev pub PremiumFirst : List EgressChoice → Type 0
PremiumFirst cs =
    (ps : List EgressChoice) × (qs : List EgressChoice) × (cs ≡ ps ++ qs)
    × All IsPremium ps
    × All IsOrdinary qs

abbrev premiums : List EgressChoice → List EgressChoice
premiums = filter_choices_by_premium true

abbrev ordinaries : List EgressChoice → List EgressChoice
ordinaries = filter_choices_by_premium false

premiums-All : (cs : List EgressChoice) → All IsPremium (premiums cs)
unfolding filter_choices_by_premium
premiums-All cs = All-select_of_test IsPremium _ cs (λ c h. h)

ordinaries-All : (cs : List EgressChoice) → All IsOrdinary (ordinaries cs)
unfolding filter_choices_by_premium
ordinaries-All cs = All-select_of_test IsOrdinary _ cs (λ c h. ground arith)

-- The two filters share a list out.
filters-perm : (cs : List EgressChoice) → Perm (premiums cs ++ ordinaries cs) cs
unfolding filter_choices_by_premium
filters-perm [] = Perm.refl []
filters-perm (c ∷ cs) = elim (Bool-cases c.premium) [
  | inl e ↦ simp e (Perm.cons c (filters-perm cs))
  | inr e ↦
      simp e
        (Perm.trans (perm_middle (premiums cs) (ordinaries cs)) (Perm.cons c (filters-perm cs)))
]

-- Preferring premium reorders the candidates, and puts the premium ones first.
pub prioritize_premium_choices-perm :
    (cs : List EgressChoice) (prefer : Bool) → Perm (prioritize_premium_choices cs prefer) cs
unfolding prioritize_premium_choices
prioritize_premium_choices-perm cs false = Perm.refl cs
prioritize_premium_choices-perm [] true = Perm.refl []
prioritize_premium_choices-perm (c ∷ cs) true = elim (Bool-cases (is_nil (premiums (c ∷ cs)))) [
  | inl e ↦ rw e (Perm.refl (c ∷ cs))
  | inr e ↦ rw e (filters-perm (c ∷ cs))
]

no_premium : (cs : List EgressChoice) → is_nil (premiums cs) ≡ true → All IsOrdinary cs
unfolding filter_choices_by_premium
no_premium [] h = tt
no_premium (c ∷ cs) h = ground (arith, no_premium cs)

pub prioritize_premium_choices-PremiumFirst :
    (cs : List EgressChoice) → PremiumFirst (prioritize_premium_choices cs true)
unfolding prioritize_premium_choices
prioritize_premium_choices-PremiumFirst [] = ([], [], refl, tt, tt)
prioritize_premium_choices-PremiumFirst (c ∷ cs) = elim (Bool-cases (is_nil (premiums (c ∷ cs)))) [
  | inl e ↦ rw e ([], c ∷ cs, refl, tt, no_premium (c ∷ cs) e)
  | inr e ↦
      rw e (
        premiums (c ∷ cs),
        ordinaries (c ∷ cs),
        refl,
        premiums-All (c ∷ cs),
        ordinaries-All (c ∷ cs),
      )
]

-- The templates that join the nodes: all of them, or the premium ones alone.
unfoldable pub joining : Bool → List EgressChoice → List EgressChoice
joining include templates = if include then templates else premiums templates

abbrev rest_of : Bool → List EgressChoice → List EgressChoice
rest_of include templates = if include then ordinaries templates else []

abbrev grouped : List EgressChoice → List EgressChoice → Bool → List EgressChoice
grouped nodes templates include =
    premiums nodes ++ (premiums templates ++ (ordinaries nodes ++ rest_of include templates))

-- What premiumCandidateGroup does with the filtered lists.
abbrev choose :
    List EgressChoice
    → List EgressChoice
    → List EgressChoice
    → List EgressChoice
    → List EgressChoice
choose p q t o =
    if is_nil p && (is_nil q && is_nil t)
    then []
    else if not (is_nil p)
    then p ++ (t ++ o)
    else if not (is_nil q)
    then q ++ (t ++ o)
    else t ++ o

choose_first : (p t o : List EgressChoice) → choose p [] t o ≢ [] → choose p [] t o ≡ p ++ (t ++ o)
choose_first [] [] o h = absurd (h refl)
choose_first [] (x ∷ t) o h = refl
choose_first (y ∷ p) t o h = refl

choose_second : (q t o : List EgressChoice) → choose [] q t o ≢ [] → choose [] q t o ≡ q ++ (t ++ o)
choose_second [] [] o h = absurd (h refl)
choose_second [] (x ∷ t) o h = refl
choose_second (y ∷ q) t o h = refl

-- The node lists never both hold candidates; then a group has one shape.
premium_shape :
    (entries offline templates : List EgressChoice) (include : Bool)
    → (entries ≡ []) ⊎ (offline ≡ [])
    → premium_candidate_group entries offline templates include ≢ []
    → premium_candidate_group entries offline templates include
      ≡ grouped (entries ++ offline) templates include
unfolding premium_candidate_group
premium_shape [] offline templates include one held =
    choose_second (premiums offline) (premiums templates) _ held
premium_shape (e ∷ es) [] templates include one held =
    choose_first (premiums (e ∷ es)) (premiums templates) _ held ∙ rw (append-nil es)
premium_shape (e ∷ es) (o ∷ os) templates include one held = absurd (ground arith)

joined-perm :
    (templates : List EgressChoice) (include : Bool)
    → Perm (premiums templates ++ rest_of include templates) (joining include templates)
unfolding joining
joined-perm templates true = filters-perm templates
joined-perm templates false = rw append-nil (Perm.refl (premiums templates))

exchange-perm : (a b c d : List EgressChoice) → Perm (a ++ (b ++ (c ++ d))) ((a ++ c) ++ (b ++ d))
exchange-perm a b c d =
    rw (append_assoc a c (b ++ d), ← append_assoc b c d, ← append_assoc c b d)
      (Perm.append_left a (Perm.append_right d (perm_append_comm b c)))

-- Where there is no online node or no offline one, a premium group that is not empty holds all the
-- nodes and the templates that may join them, each as often: all templates where they follow the
-- nodes, else the premium ones.
pub premium_candidate_group-perm :
    (entries offline templates : List EgressChoice) (include : Bool)
    → (entries ≡ []) ⊎ (offline ≡ [])
    → premium_candidate_group entries offline templates include ≢ []
    → Perm
        (premium_candidate_group entries offline templates include)
        ((entries ++ offline) ++ joining include templates)
premium_candidate_group-perm entries offline templates include one held =
    rw (premium_shape entries offline templates include one held) (
      Perm.trans
        (exchange-perm (premiums (entries ++ offline)) (premiums templates)
          (ordinaries (entries ++ offline)) (rest_of include templates))
        (Perm.append (filters-perm (entries ++ offline)) (joined-perm templates include)))

rest_of-All :
    (templates : List EgressChoice) (include : Bool) → All IsOrdinary (rest_of include templates)
rest_of-All templates true = ordinaries-All templates
rest_of-All templates false = tt

-- and it puts the premium ones, nodes before templates, in front.
pub premium_candidate_group-PremiumFirst :
    (entries offline templates : List EgressChoice) (include : Bool)
    → (entries ≡ []) ⊎ (offline ≡ [])
    → PremiumFirst (premium_candidate_group entries offline templates include)
premium_candidate_group-PremiumFirst entries offline templates include one =
    let group = premium_candidate_group entries offline templates include in
    let nodes = entries ++ offline in
    elim (nil-cases group) [
      | inl e ↦ ([], [], e, tt, tt)
      | inr held ↦ (
        premiums nodes ++ premiums templates,
        ordinaries nodes ++ rest_of include templates,
        premium_shape entries offline templates include one held
            ∙ sym (append_assoc (premiums nodes) (premiums templates) _),
        All-append IsPremium _ _ (premiums-All nodes) (premiums-All templates),
        All-append IsOrdinary _ _ (ordinaries-All nodes) (rest_of-All templates include),
      )
    ]

choose-nil :
    (p q t o : List EgressChoice)
    → choose p q t o ≡ []
    → (is_nil p ≡ true) × (is_nil q ≡ true) × (is_nil t ≡ true)
choose-nil [] [] [] o e = (refl, refl, refl)
choose-nil [] [] (x ∷ t) o e = absurd (cc)
choose-nil [] (x ∷ q) t o e = absurd (cc)
choose-nil (x ∷ p) q t o e = absurd (cc)

-- A group is empty only where nothing is premium.
pub premium_candidate_group-nil :
    (es os ts : List EgressChoice) (include : Bool)
    → premium_candidate_group es os ts include ≡ []
    → All IsOrdinary es × All IsOrdinary os × All IsOrdinary ts
unfolding premium_candidate_group
premium_candidate_group-nil es os ts include e =
    let (p, q, t) = choose-nil (premiums es) (premiums os) (premiums ts) _ e in
    (no_premium es p, no_premium os q, no_premium ts t)

module _ (P : EgressChoice → Type 0) where
  choose-All :
      (p q t o : List EgressChoice) → All P p → All P q → All P t → All P o → All P (choose p q t o)
  choose-All [] [] [] o hp hq ht ho = tt
  choose-All [] [] (x ∷ t) o hp hq ht ho = All-append P (x ∷ t) o ht ho
  choose-All [] (x ∷ q) t o hp hq ht ho = All-append P (x ∷ q) _ hq (All-append P t o ht ho)
  choose-All (x ∷ p) q t o hp hq ht ho = All-append P (x ∷ p) _ hp (All-append P t o ht ho)

  filter_choices_by_premium-All :
      (b : Bool) (cs : List EgressChoice) → All P cs → All P (filter_choices_by_premium b cs)
  unfolding filter_choices_by_premium
  filter_choices_by_premium-All b cs h = All-select P _ cs h

  rest_of-All_of : (include : Bool) (ts : List EgressChoice) → All P ts → All P (rest_of include ts)
  rest_of-All_of true ts h = filter_choices_by_premium-All false ts h
  rest_of-All_of false ts h = tt

  pub premium_candidate_group-All :
      (es os ts : List EgressChoice) (include : Bool)
      → All P es
      → All P os
      → All P ts
      → All P (premium_candidate_group es os ts include)
  unfolding premium_candidate_group
  premium_candidate_group-All es os ts include he ho ht =
      choose-All (premiums es) (premiums os) (premiums ts) _
        (filter_choices_by_premium-All true es he) (filter_choices_by_premium-All true os ho)
        (filter_choices_by_premium-All true ts ht)
        (All-append P _ _ (filter_choices_by_premium-All false es he) (
          All-append P _ _ (filter_choices_by_premium-All false os ho)
            (rest_of-All_of include ts ht)))

  pub prioritize_premium_choices-All :
      (cs : List EgressChoice) (prefer : Bool)
      → All P cs
      → All P (prioritize_premium_choices cs prefer)
  unfolding prioritize_premium_choices
  prioritize_premium_choices-All cs prefer h = ground (
    arith,
    All-append P (premiums cs) (ordinaries cs) (filter_choices_by_premium-All true cs h)
        (filter_choices_by_premium-All false cs h),
  )
