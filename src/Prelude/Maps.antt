-- ===== src/Prelude/Maps.antt =====
-- Go maps with string keys, as association lists whose order is an iteration order.
use mathlib.Core.Path.{◌≡◌, refl}
use mathlib.Core.Bool.{Bool, not}
use mathlib.Core.List.{List, [], ◌∷◌}
use mathlib.Core.Option.{Option, none, some}
use native.Mathlib.Omega.{arith}
use chi_jie.Prelude.Tests.{if◌then◌else◌}
use chi_jie.Prelude.Text.{Str, str_eq, str_eq_iff}

abbrev pub Dict {ℓ} : Type ℓ → Type ℓ
Dict V = List (Str × V)

module _ {ℓ} {V : Type ℓ} where
  -- m[k]
  unfoldable pub lookup : Str → Dict V → Option V
  lookup k [] = none
  lookup k ((j, v) ∷ m) = if str_eq j k then some v else lookup k m

  -- m[k] = v
  unfoldable pub insert : Str → V → Dict V → Dict V
  insert k v [] = (k, v) ∷ []
  insert k v ((j, w) ∷ m) = if str_eq j k then (k, v) ∷ m else (j, w) ∷ insert k v m

  -- The loop `for k, v := range m { if !keep(v) { delete(m, k) } }`.
  unfoldable pub retain : (V → Bool) → Dict V → Dict V
  retain keep [] = []
  retain keep ((j, v) ∷ m) = let rest = retain keep m in if keep v then (j, v) ∷ rest else rest

  -- delete(m, k)
  unfoldable pub remove : Str → Dict V → Dict V
  remove k [] = []
  remove k ((j, v) ∷ m) = let rest = remove k m in if str_eq j k then rest else (j, v) ∷ rest

  pub lookup-insert :
      (k j : Str) (v : V) (m : Dict V)
      → lookup j (insert k v m) ≡ (if str_eq k j then some v else lookup j m)
  unfolding lookup insert
  lookup-insert k j v [] = refl
  lookup-insert k j v ((i, w) ∷ m) =
      ground (arith, str_eq_iff k j, str_eq_iff i k, str_eq_iff i j, lookup-insert k j v m)

  pub lookup-remove :
      (k j : Str) (m : Dict V) → lookup j (remove k m) ≡ (if str_eq k j then none else lookup j m)
  unfolding lookup remove
  lookup-remove k j [] = ground arith
  lookup-remove k j ((i, w) ∷ m) =
      ground (arith, str_eq_iff k j, str_eq_iff i k, str_eq_iff i j, lookup-remove k j m)

  -- No key of the list is `k`, and the keys are distinct, as in every Go map.
  abbrev pub Absent : Str → Dict V → Type 0
  Absent k [] = Unit
  Absent k ((j, v) ∷ m) = (not (str_eq j k) ≡ Bool.true) × Absent k m

  abbrev pub Distinct : Dict V → Type 0
  Distinct [] = Unit
  Distinct ((j, v) ∷ m) = Absent j m × Distinct m

  pub lookup-Absent : (k : Str) (m : Dict V) → Absent k m → lookup k m ≡ none
  unfolding lookup
  lookup-Absent k [] h = refl
  lookup-Absent k ((j, v) ∷ m) h = ground (arith, lookup-Absent k m)

  pub insert-Absent :
      (k j : Str) (v : V) (m : Dict V)
      → not (str_eq k j) ≡ Bool.true
      → Absent j m
      → Absent j (insert k v m)
  unfolding insert
  insert-Absent k j v [] h a = (h, tt)
  insert-Absent k j v ((i, w) ∷ m) h a = ground (arith, insert-Absent k j v m)

  pub retain-Absent :
      (keep : V → Bool) (j : Str) (m : Dict V) → Absent j m → Absent j (retain keep m)
  unfolding retain
  retain-Absent keep j [] a = tt
  retain-Absent keep j ((i, w) ∷ m) a = ground (arith, retain-Absent keep j m)

  pub remove-Absent : (k j : Str) (m : Dict V) → Absent j m → Absent j (remove k m)
  unfolding remove
  remove-Absent k j [] a = tt
  remove-Absent k j ((i, w) ∷ m) a = ground (arith, remove-Absent k j m)

  pub insert-Distinct : (k : Str) (v : V) (m : Dict V) → Distinct m → Distinct (insert k v m)
  unfolding insert
  insert-Distinct k v [] d = (tt, tt)
  insert-Distinct k v ((i, w) ∷ m) d =
      ground (arith, insert-Distinct k v m, insert-Absent k i v m, str_eq_iff i k, str_eq_iff k i)

  pub retain-Distinct : (keep : V → Bool) (m : Dict V) → Distinct m → Distinct (retain keep m)
  unfolding retain
  retain-Distinct keep [] d = tt
  retain-Distinct keep ((i, w) ∷ m) d =
      ground (arith, retain-Distinct keep m, retain-Absent keep i m)

  pub remove-Distinct : (k : Str) (m : Dict V) → Distinct m → Distinct (remove k m)
  unfolding remove
  remove-Distinct k [] d = tt
  remove-Distinct k ((i, w) ∷ m) d = ground (arith, remove-Distinct k m, remove-Absent k i m)

  -- What a map with distinct keys holds after the clean-up loop.
  pub lookup-retain :
      (keep : V → Bool) (k : Str) (m : Dict V)
      → Distinct m
      → lookup k (retain keep m)
        ≡ elim (lookup k m) [ none ↦ none | some v ↦ if keep v then some v else none ]
  unfolding lookup retain
  lookup-retain keep k [] d = refl
  lookup-retain keep k ((i, w) ∷ m) d = ground (
    arith,
    lookup-retain keep k m,
    lookup-Absent k (retain keep m),
    retain-Absent keep i m,
    str_eq_iff i k,
  )
