-- ===== src/Prelude/Sorting.antt =====
-- sort.Slice and sort.SliceStable: insertion sort, which keeps elements that tie in their order.
-- (sort.Slice leaves the order of ties open; the comparisons of the source tie only on equal keys.)
use mathlib.Core.Path.{◌≡◌}
use mathlib.Core.Bool.{Bool, true, false}
use mathlib.Core.Logic.{inl, inr}
use mathlib.Core.List.{List, [], ◌∷◌, Perm}
use mathlib.Core.List.Perm
use native.Mathlib.Omega.{arith}
use chi_jie.Prelude.Tests.{if◌then◌else◌, Bool-cases}
use chi_jie.Prelude.Lists.{All}

module _ {ℓ} {A : Type ℓ} (less : A → A → Bool) where
  unfoldable pub insert_sorted : A → List A → List A
  insert_sorted x [] = x ∷ []
  insert_sorted x (y ∷ ys) =
      let rest = y ∷ insert_sorted x ys in if less y x then rest else x ∷ y ∷ ys

  unfoldable pub sort_by : List A → List A
  unfolding insert_sorted
  sort_by [] = []
  sort_by (x ∷ xs) = insert_sorted x (sort_by xs)

  pub insert_sorted-perm : (x : A) (ys : List A) → Perm (insert_sorted x ys) (x ∷ ys)
  unfolding insert_sorted
  insert_sorted-perm x [] = Perm.refl (x ∷ [])
  insert_sorted-perm x (y ∷ ys) = elim (Bool-cases (less y x)) [
    | inl e ↦ rw e (Perm.trans (Perm.cons y (insert_sorted-perm x ys)) (Perm.swap x y ys))
    | inr e ↦ rw e (Perm.refl (x ∷ y ∷ ys))
  ]

  pub sort_by-perm : (xs : List A) → Perm (sort_by xs) xs
  unfolding sort_by
  sort_by-perm [] = Perm.refl []
  sort_by-perm (x ∷ xs) =
      Perm.trans (insert_sorted-perm x (sort_by xs)) (Perm.cons x (sort_by-perm xs))

  -- No element is less than one before it.
  abbrev pub IsSorted : List A → Type 0
  IsSorted [] = Unit
  IsSorted (x ∷ xs) = All (λ y. less y x ≡ false) xs × IsSorted xs

  -- What a comparison function must satisfy.
  pub record IsOrder : Type ℓ where
    pub asym : (a b : A) → less a b ≡ true → less b a ≡ false
    pub cotrans : (a b c : A) → less a b ≡ false → less b c ≡ false → less a c ≡ false

  module _ (o : IsOrder) where
    All-weaken :
        (x y : A) (zs : List A)
        → less x y ≡ false
        → All (λ z. less z x ≡ false) zs
        → All (λ z. less z y ≡ false) zs
    All-weaken x y [] h a = tt
    All-weaken x y (z ∷ zs) h a = (o.cotrans z x y a.0 h, All-weaken x y zs h a.1)

    insert_sorted-All :
        (x y : A) (zs : List A)
        → less x y ≡ false
        → All (λ z. less z y ≡ false) zs
        → All (λ z. less z y ≡ false) (insert_sorted x zs)
    unfolding insert_sorted
    insert_sorted-All x y [] h a = (h, tt)
    insert_sorted-All x y (z ∷ zs) h a = ground (arith, insert_sorted-All x y zs h a.1)

    insert_sorted-IsSorted : (x : A) (ys : List A) → IsSorted ys → IsSorted (insert_sorted x ys)
    unfolding insert_sorted
    insert_sorted-IsSorted x [] s = (tt, tt)
    insert_sorted-IsSorted x (y ∷ ys) s = elim (Bool-cases (less y x)) [
      | inl e ↦ rw e (insert_sorted-All x y ys (o.asym y x e) s.0, insert_sorted-IsSorted x ys s.1)
      | inr e ↦ rw e ((e, All-weaken y x ys e s.0), s)
    ]

    pub sort_by-IsSorted : (xs : List A) → IsSorted (sort_by xs)
    unfolding sort_by
    sort_by-IsSorted [] = tt
    sort_by-IsSorted (x ∷ xs) = insert_sorted-IsSorted x (sort_by xs) (sort_by-IsSorted xs)
