-- ===== src/Traffic/Rules/Unions.antt =====
-- Two lists of keys merged into one.
use chi_jie.Prelude.{
  ◌≡◌, subst, ◌∙◌, Bool, true, ◌||◌, List, [], ◌∷◌, ◌++◌, Str, str_eq, str_eq_iff, str_lt, arith,
  Bool-cases, inl, inr, All, All-append, insert_sorted, sort_by,
}
use chi_jie.Util.{contains_string}
use chi_jie.Util.Laws.{contains-append}
use chi_jie.Traffic.Rules.{distinct_values, unique_non_empty, merge_strings}
use chi_jie.Traffic.Rules.Lists.{IsValue, unique_non_empty-contains}

contains-insert_sorted :
    (v u : Str) (vs : List Str)
    → contains_string (insert_sorted str_lt v vs) u ≡ true
    → contains_string (v ∷ vs) u ≡ true
unfolding insert_sorted contains_string
contains-insert_sorted v u [] h = h
contains-insert_sorted v u (w ∷ ws) h = elim (Bool-cases (str_lt w v)) [
  | inl e ↦ ground (arith, contains-insert_sorted v u ws)
  | inr e ↦ rw e at h
]

contains-sort_by :
    (u : Str) (vs : List Str)
    → contains_string (sort_by str_lt vs) u ≡ true
    → contains_string vs u ≡ true
unfolding sort_by contains_string
contains-sort_by u [] h = h
contains-sort_by u (v ∷ vs) h =
    ground (arith, contains-insert_sorted v u (sort_by str_lt vs) h, contains-sort_by u vs)

contains-distinct_values :
    (u : Str) (seen vs : List Str)
    → All IsValue vs
    → contains_string (distinct_values seen vs) u ≡ true
    → contains_string vs u ≡ true
unfolding distinct_values contains_string
contains-distinct_values u seen [] h c = c
contains-distinct_values u seen (v ∷ vs) h c =
    let c' = rw (h.0.0, h.0.1) at c in
    elim (Bool-cases (contains_string seen v)) [
      | inl k ↦ ground (arith, contains-distinct_values u seen vs h.1 (rw k at c'))
      | inr k ↦
          let d = rw k at c' in ground (arith, d, contains-distinct_values u (v ∷ seen) vs h.1)
    ]

-- Of values, no other is made.
pub contains-unique_non_empty :
    (u : Str) (vs : List Str)
    → All IsValue vs
    → contains_string (unique_non_empty vs) u ≡ true
    → contains_string vs u ≡ true
unfolding unique_non_empty
contains-unique_non_empty u vs h c =
    contains-distinct_values u [] vs h (contains-sort_by u (distinct_values [] vs) c)

-- What a list of values holds is a value.
pub contains-IsValue :
    (u : Str) (vs : List Str) → All IsValue vs → contains_string vs u ≡ true → IsValue u
unfolding contains_string
contains-IsValue u [] h c = absurd (ground arith)
contains-IsValue u (v ∷ vs) h c = elim (Bool-cases (str_eq v u)) [
  | inl e ↦ subst IsValue ((str_eq_iff v u).0 e) h.0
  | inr e ↦ contains-IsValue u vs h.1 (rw e at c)
]

same_bool : (a b : Bool) → (a ≡ true → b ≡ true) → (b ≡ true → a ≡ true) → a ≡ b
same_bool a b f g = ground (arith, f, g)

-- A merge of two lists of values holds what one of them holds, and nothing else.
pub contains-merge_strings :
    (xs ys : List Str)
    → All IsValue xs
    → All IsValue ys
    → (k : Str)
    → contains_string (merge_strings xs ys) k ≡ (contains_string xs k || contains_string ys k)
unfolding merge_strings
contains-merge_strings xs ys hx hy k =
    let both = All-append IsValue xs ys hx hy in
    same_bool (contains_string (unique_non_empty (xs ++ ys)) k) (contains_string (xs ++ ys) k)
      (contains-unique_non_empty k (xs ++ ys) both)
      (λ c. unique_non_empty-contains k (xs ++ ys) (contains-IsValue k (xs ++ ys) both c) c)
    ∙ contains-append xs ys k
