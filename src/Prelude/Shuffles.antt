-- ===== src/Prelude/Shuffles.antt =====
-- rand.Shuffle: the Fisher-Yates exchanges from the last place down, over a tape of draws.
use Prim.Native.Nat.{ℕ, zero, suc, ◌%◌}
use mathlib.Core.Path.{◌≡◌, refl}
use mathlib.Core.List.{List, [], ◌∷◌, Perm}
use mathlib.Core.List.Perm
use mathlib.Core.Option.{none, some}
use mathlib.Core.Logic.{inl, inr}
use native.Mathlib.Omega.{arith}
use chi_jie.Prelude.Tests.{Option-cases}
use chi_jie.Prelude.Lists.{get_elem?, set, drop}

-- The next draw; a tape that has run out yields 0.
abbrev pub draw : List ℕ → ℕ
draw [] = 0
draw (d ∷ ds) = d

module _ {ℓ} {A : Type ℓ} where
  -- xs[i], xs[j] = xs[j], xs[i]
  unfoldable pub swap_at : ℕ → ℕ → List A → List A
  swap_at i j xs = elim (get_elem? xs i) [
    | none ↦ xs
    | some a ↦ elim (get_elem? xs j) [ none ↦ xs | some b ↦ set (set xs i b) j a ]
  ]

  unfoldable pub shuffle_from : ℕ → List ℕ → List A → List A
  unfolding swap_at
  shuffle_from zero ds xs = xs
  shuffle_from (suc i) ds xs =
      shuffle_from i (drop 1 ds) (swap_at (suc i) (draw ds % suc (suc i)) xs)

  set-perm :
      (xs : List A) (i : ℕ) (a b : A) → get_elem? xs i ≡ some a → Perm (a ∷ set xs i b) (b ∷ xs)
  set-perm [] i a b h = absurd (cc)
  set-perm (x ∷ xs) zero a b h = let e : x ≡ a = ground arith in rw e (Perm.swap b a xs)
  set-perm (x ∷ xs) (suc i) a b h =
      Perm.trans (Perm.swap x a (set xs i b))
        (Perm.trans (Perm.cons x (set-perm xs i a b h)) (Perm.swap b x xs))

  get_elem?-set :
      (xs : List A) (i j : ℕ) (a b : A)
      → get_elem? xs i ≡ some a
      → get_elem? xs j ≡ some b
      → get_elem? (set xs i b) j ≡ some b
  get_elem?-set [] i j a b h k = absurd (cc)
  get_elem?-set (x ∷ xs) zero zero a b h k = refl
  get_elem?-set (x ∷ xs) zero (suc j) a b h k = k
  get_elem?-set (x ∷ xs) (suc i) zero a b h k = k
  get_elem?-set (x ∷ xs) (suc i) (suc j) a b h k = get_elem?-set xs i j a b h k

  swap_at-perm : (i j : ℕ) (xs : List A) → Perm (swap_at i j xs) xs
  unfolding swap_at
  swap_at-perm i j xs = elim (Option-cases (get_elem? xs i)) [
    | inl e ↦ rw (e, swap_at) (Perm.refl xs)
    | inr (a, e) ↦ elim (Option-cases (get_elem? xs j)) [
      | inl f ↦ rw (e, f, swap_at) (Perm.refl xs)
      | inr (b, f) ↦
          rw (e, f, swap_at)
            (Perm.cons_inv (
              Perm.trans (set-perm (set xs i b) j b a (get_elem?-set xs i j a b e f))
                (set-perm xs i a b e)))
    ]
  ]

  pub shuffle_from-perm : (n : ℕ) (ds : List ℕ) (xs : List A) → Perm (shuffle_from n ds xs) xs
  unfolding shuffle_from
  shuffle_from-perm zero ds xs = Perm.refl xs
  shuffle_from-perm (suc i) ds xs =
      Perm.trans (shuffle_from-perm i (drop 1 ds) _) (swap_at-perm (suc i) _ xs)
