-- ===== src/Prelude/Members.antt =====
-- A predicate on every element of a list, read through membership.
use mathlib.Core.Logic.Or
use mathlib.Core.List.{
  List, [], ◌∷◌, map, Mem, mem-cons, not-mem-nil, mem-cons_self, mem-cons_of_mem, Perm, Mem-prop,
  mem-append_left, mem-append_right,
}
use mathlib.Core.List.Perm
use mathlib.Core.Path.{◌≡◌, refl, subst}
use mathlib.Core.Logic.{inl, inr}
use mathlib.Core.Bool.{Bool, true, false}
use chi_jie.Prelude.Tests.{Bool-cases}
use chi_jie.Prelude.Lists.{All, All-append, select, any, concat_map}

module _ {ℓ κ} {A : Type ℓ} (P : A → Type κ) where
  pub All-of_mem : (xs : List A) → ((a : A) → Mem a xs → P a) → All P xs
  All-of_mem [] h = tt
  All-of_mem (x ∷ xs) h = (h x mem-cons_self, All-of_mem xs (λ a m. h a (mem-cons_of_mem x m)))

  module _ (prop : (a : A) → IsProp (P a)) where
    pub mem-All : (xs : List A) (a : A) → All P xs → Mem a xs → P a
    mem-All [] a h m = absurd (not-mem-nil m)
    mem-All (x ∷ xs) a h m = Or.elim (prop a) (mem-cons.0 m) (λ e. rw e h.0) (mem-All xs a h.1)

    pub All-perm : (xs ys : List A) → Perm ys xs → All P xs → All P ys
    All-perm xs ys p h = All-of_mem ys (λ a m. mem-All xs a h (Perm.subset p a m))

module _ {ℓ} {A : Type ℓ} where
  pub mem-select :
      (p : A → Bool) (xs : List A) (a : A) → p a ≡ true → Mem a xs → Mem a (select p xs)
  mem-select p [] a h m = absurd (not-mem-nil m)
  mem-select p (x ∷ xs) a h m = elim (Bool-cases (p x)) [
    | inl t ↦ rw t (
        Or.elim Mem-prop (mem-cons.0 m) (λ e. rw e mem-cons_self)
          (λ r. mem-cons_of_mem x (mem-select p xs a h r)))
    | inr f ↦
        rw f (Or.elim Mem-prop (mem-cons.0 m) (λ e. absurd (clash x a e h f)) (mem-select p xs a h))
  ]
    where
      clash : (x a : A) → a ≡ x → p a ≡ true → p x ≡ false → ⊥
      clash x a e h f = cc

  pub mem-concat_map {κ} :
      {B : Type κ} (f : A → List B) (xs : List A) (a : A) (b : B)
      → Mem a xs
      → Mem b (f a)
      → Mem b (concat_map f xs)
  mem-concat_map f [] a b m n = absurd (not-mem-nil m)
  mem-concat_map f (x ∷ xs) a b m n =
      Or.elim Mem-prop (mem-cons.0 m)
        (λ e. mem-append_left (concat_map f xs) (subst (λ y. Mem b (f y)) e n))
        (λ r. mem-append_right (f x) (mem-concat_map f xs a b r n))

module _ {ℓ} {A : Type ℓ} where
  pub any-of_mem : (p : A → Bool) (xs : List A) (a : A) → Mem a xs → p a ≡ true → any p xs ≡ true
  any-of_mem p [] a m h = absurd (not-mem-nil m)
  any-of_mem p (x ∷ xs) a m h = elim (Bool-cases (p x)) [
    | inl t ↦ rw t refl
    | inr f ↦
        rw f
          (Or.elim (hlevel) (mem-cons.0 m) (λ e. absurd (clash x e f)) (λ r. any-of_mem p xs a r h))
  ]
    where
      clash : (x : A) → a ≡ x → p x ≡ false → ⊥
      clash x e f = cc

  pub All-map_select {κ ι} :
      {B : Type κ} (P : B → Type ι) (f : A → B) (p : A → Bool) (xs : List A)
      → ((a : A) → Mem a xs → p a ≡ true → P (f a))
      → All P (map f (select p xs))
  All-map_select P f p [] h = tt
  All-map_select P f p (x ∷ xs) h =
      let rest = All-map_select P f p xs (λ a m. h a (mem-cons_of_mem x m)) in
      elim (Bool-cases (p x)) [ inl t ↦ rw t (h x mem-cons_self t, rest) | inr n ↦ rw n rest ]

  pub All-concat_map {κ ι} :
      {B : Type κ} (P : B → Type ι) (f : A → List B) (xs : List A)
      → ((a : A) → Mem a xs → All P (f a))
      → All P (concat_map f xs)
  All-concat_map P f [] h = tt
  All-concat_map P f (x ∷ xs) h =
      All-append P (f x) (concat_map f xs) (h x mem-cons_self)
        (All-concat_map P f xs (λ a m. h a (mem-cons_of_mem x m)))
