-- ===== src/Traffic/Rules/Lists.antt =====
-- The list of keys that uniqueNonEmpty makes.
use chi_jie.Prelude.{
  ◌≡◌, refl, ap, sym, ◌∙◌, Bool, true, false, ◌||◌, List, [], ◌∷◌, Str, str_eq, str_eq_iff, str_lt,
  str_lt-asym, str_lt-cotrans, arith, Bool-cases, inl, inr, is_nil, if◌then◌else◌, All, All-imp,
  trim_space, insert_sorted, sort_by, IsSorted, IsOrder, sort_by-IsSorted,
}
use chi_jie.Util.{contains_string}
use chi_jie.Traffic.Rules.{distinct_values, unique_non_empty}
use chi_jie.Traffic.Rules.Texts.{trim_space_idem}

-- No value comes twice.
abbrev pub Apart : List Str → Type 0
Apart [] = Unit
Apart (v ∷ vs) = All (λ u. str_eq v u ≡ false) vs × Apart vs

-- Trimmed, and not empty.
abbrev pub IsValue : Str → Type 0
IsValue v = (trim_space v ≡ v) × (is_nil v ≡ false)

str_eq_sym : (s t : Str) → str_eq s t ≡ false → str_eq t s ≡ false
str_eq_sym s t h = elim (Bool-cases (str_eq t s)) [
  | inr e ↦ e
  | inl e ↦ absurd (clash (sym ((str_eq_iff s t).1 (sym ((str_eq_iff t s).0 e))) ∙ h))
]
  where
    clash : true ≡ false → ⊥
    clash e = cc

insert_sorted-Has :
    (P : Str → Type 0) (v : Str) (vs : List Str)
    → P v
    → All P vs
    → All P (insert_sorted str_lt v vs)
unfolding insert_sorted
insert_sorted-Has P v [] p h = (p, tt)
insert_sorted-Has P v (u ∷ us) p h = elim (Bool-cases (str_lt u v)) [
  | inl e ↦ rw e (h.0, insert_sorted-Has P v us p h.1)
  | inr e ↦ rw e (p, h)
]

sort_by-Has : (P : Str → Type 0) (vs : List Str) → All P vs → All P (sort_by str_lt vs)
unfolding sort_by
sort_by-Has P [] h = tt
sort_by-Has P (v ∷ vs) h = insert_sorted-Has P v (sort_by str_lt vs) h.0 (sort_by-Has P vs h.1)

insert_sorted-Apart :
    (v : Str) (vs : List Str)
    → All (λ u. str_eq v u ≡ false) vs
    → Apart vs
    → Apart (insert_sorted str_lt v vs)
unfolding insert_sorted
insert_sorted-Apart v [] h a = (tt, tt)
insert_sorted-Apart v (u ∷ us) h a = elim (Bool-cases (str_lt u v)) [
  | inl e ↦ rw e (
    insert_sorted-Has (λ w. str_eq u w ≡ false) v us (str_eq_sym v u h.0) a.0,
    insert_sorted-Apart v us h.1 a.1,
  )
  | inr e ↦ rw e (h, a)
]

sort_by-Apart : (vs : List Str) → Apart vs → Apart (sort_by str_lt vs)
unfolding sort_by
sort_by-Apart [] a = tt
sort_by-Apart (v ∷ vs) a =
    insert_sorted-Apart v (sort_by str_lt vs) (sort_by-Has (λ u. str_eq v u ≡ false) vs a.0)
      (sort_by-Apart vs a.1)

-- The values come out trimmed, different from one another and from those seen.
distinct_values-IsValue : (seen vs : List Str) → All IsValue (distinct_values seen vs)
unfolding distinct_values
distinct_values-IsValue seen [] = tt
distinct_values-IsValue seen (v ∷ vs) = elim (Bool-cases (is_nil (trim_space v))) [
  | inl e ↦ rw e (distinct_values-IsValue seen vs)
  | inr e ↦ elim (Bool-cases (contains_string seen (trim_space v))) [
    | inl k ↦ rw (e, k) (distinct_values-IsValue seen vs)
    | inr k ↦ rw (e, k) ((trim_space_idem v, e), distinct_values-IsValue (trim_space v ∷ seen) vs)
  ]
]

contains-tail :
    (x : Str) (seen : List Str) (u : Str)
    → contains_string (x ∷ seen) u ≡ false
    → contains_string seen u ≡ false
unfolding contains_string
contains-tail x seen u h = ground arith

contains-head :
    (x : Str) (seen : List Str) (u : Str)
    → contains_string (x ∷ seen) u ≡ false
    → str_eq x u ≡ false
unfolding contains_string
contains-head x seen u h = ground arith

distinct_values-New :
    (seen vs : List Str) → All (λ u. contains_string seen u ≡ false) (distinct_values seen vs)
unfolding distinct_values
distinct_values-New seen [] = tt
distinct_values-New seen (v ∷ vs) = elim (Bool-cases (is_nil (trim_space v))) [
  | inl e ↦ rw e (distinct_values-New seen vs)
  | inr e ↦ elim (Bool-cases (contains_string seen (trim_space v))) [
    | inl k ↦ rw (e, k) (distinct_values-New seen vs)
    | inr k ↦
        rw (e, k)
          (
            k,
            All-imp (λ u. contains_string (trim_space v ∷ seen) u ≡ false)
                (λ u. contains_string seen u ≡ false) _ (contains-tail (trim_space v) seen)
                (distinct_values-New (trim_space v ∷ seen) vs),
          )
  ]
]

distinct_values-Apart : (seen vs : List Str) → Apart (distinct_values seen vs)
unfolding distinct_values
distinct_values-Apart seen [] = tt
distinct_values-Apart seen (v ∷ vs) = elim (Bool-cases (is_nil (trim_space v))) [
  | inl e ↦ rw e (distinct_values-Apart seen vs)
  | inr e ↦ elim (Bool-cases (contains_string seen (trim_space v))) [
    | inl k ↦ rw (e, k) (distinct_values-Apart seen vs)
    | inr k ↦
        rw (e, k)
          (
            All-imp (λ u. contains_string (trim_space v ∷ seen) u ≡ false)
                (λ u. str_eq (trim_space v) u ≡ false) _ (contains-head (trim_space v) seen)
                (distinct_values-New (trim_space v ∷ seen) vs),
            distinct_values-Apart (trim_space v ∷ seen) vs,
          )
  ]
]

-- Such a list is left as it is.
distinct_values-eq :
    (seen vs : List Str)
    → All IsValue vs
    → Apart vs
    → All (λ u. contains_string seen u ≡ false) vs
    → distinct_values seen vs ≡ vs
unfolding distinct_values contains_string
distinct_values-eq seen [] h a n = refl
distinct_values-eq seen (v ∷ vs) h a n =
    rw (h.0.0, h.0.1, n.0)
      (ap (λ ws. v ∷ ws) (distinct_values-eq (v ∷ seen) vs h.1 a.1 (newer v seen vs a.0 n.1)))
  where
    newer :
        (v : Str) (seen us : List Str)
        → All (λ u. str_eq v u ≡ false) us
        → All (λ u. contains_string seen u ≡ false) us
        → All (λ u. contains_string (v ∷ seen) u ≡ false) us
    newer v seen [] a n = tt
    newer v seen (u ∷ us) a n = (rw a.0 n.0, newer v seen us a.1 n.1)

str_lt-IsOrder : IsOrder str_lt
str_lt-IsOrder = record { asym = str_lt-asym; cotrans = str_lt-cotrans }

sort_by-eq : (vs : List Str) → IsSorted str_lt vs → sort_by str_lt vs ≡ vs
unfolding sort_by insert_sorted
sort_by-eq [] s = refl
sort_by-eq (v ∷ []) s = refl
sort_by-eq (v ∷ u ∷ us) s = rw (sort_by-eq (u ∷ us) s.1) (rw s.0.0 refl)

pub unique_non_empty_idem :
    (vs : List Str) → unique_non_empty (unique_non_empty vs) ≡ unique_non_empty vs
unfolding unique_non_empty
unique_non_empty_idem vs =
    let sorted = sort_by str_lt (distinct_values [] vs) in
    ap (sort_by str_lt) (
      distinct_values-eq [] sorted (sort_by-Has IsValue _ (distinct_values-IsValue [] vs))
        (sort_by-Apart _ (distinct_values-Apart [] vs)) (none_seen sorted))
    ∙ sort_by-eq sorted (sort_by-IsSorted str_lt str_lt-IsOrder (distinct_values [] vs))
  where
    none_seen : (us : List Str) → All (λ u. contains_string [] u ≡ false) us
    none_seen [] = tt
    none_seen (u ∷ us) = (refl, none_seen us)

contains_head : (v : Str) (vs : List Str) → contains_string (v ∷ vs) v ≡ true
unfolding contains_string
contains_head v vs = rw ((str_eq_iff v v).1 refl) refl

insert_sorted-contains :
    (v u : Str) (vs : List Str)
    → contains_string (v ∷ vs) u ≡ true
    → contains_string (insert_sorted str_lt v vs) u ≡ true
unfolding insert_sorted contains_string
insert_sorted-contains v u [] h = h
insert_sorted-contains v u (w ∷ ws) h = elim (Bool-cases (str_lt w v)) [
  | inl e ↦ rw e (ground (arith, insert_sorted-contains v u ws))
  | inr e ↦ rw e h
]

sort_by-contains :
    (u : Str) (vs : List Str)
    → contains_string vs u ≡ true
    → contains_string (sort_by str_lt vs) u ≡ true
unfolding sort_by contains_string
sort_by-contains u [] h = h
sort_by-contains u (v ∷ vs) h =
    insert_sorted-contains v u (sort_by str_lt vs) (ground (arith, sort_by-contains u vs))

distinct_values-contains :
    (u : Str) (seen vs : List Str)
    → IsValue u
    → contains_string vs u ≡ true
    → contains_string seen u || contains_string (distinct_values seen vs) u ≡ true
unfolding distinct_values contains_string
distinct_values-contains u seen [] h c = absurd (ground arith)
distinct_values-contains u seen (v ∷ vs) h c = elim (Bool-cases (str_eq v u)) [
  | inl e ↦
      rw (ap trim_space ((str_eq_iff v u).0 e) ∙ h.0, h.1)
        (found (contains_string seen u) _ _ (contains_head u (distinct_values (u ∷ seen) vs)))
  | inr e ↦ ground (
    arith,
    distinct_values-contains u seen vs h (rw e at c),
    distinct_values-contains u (trim_space v ∷ seen) vs h (rw e at c),
  )
]
  where
    found :
        (b : Bool) (ds es : List Str)
        → contains_string es u ≡ true
        → b || contains_string (if b then ds else es) u ≡ true
    found true ds es h = refl
    found false ds es h = h

-- Every value given is among those made.
pub unique_non_empty-contains :
    (u : Str) (vs : List Str)
    → IsValue u
    → contains_string vs u ≡ true
    → contains_string (unique_non_empty vs) u ≡ true
unfolding unique_non_empty contains_string
unique_non_empty-contains u vs h c =
    sort_by-contains u (distinct_values [] vs) (distinct_values-contains u [] vs h c)

pub unique_non_empty-IsValue : (vs : List Str) → All IsValue (unique_non_empty vs)
unfolding unique_non_empty
unique_non_empty-IsValue vs =
    sort_by-Has IsValue (distinct_values [] vs) (distinct_values-IsValue [] vs)
