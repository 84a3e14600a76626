-- ===== src/Prelude/Split.antt =====
-- The functions of package `strings` that take texts apart at a character or around a text.
use Prim.Native.Nat.{ℕ, ◌-◌}
use mathlib.Core.Bool.{Bool, ◌&&◌}
use mathlib.Core.List.{List, [], ◌∷◌, ◌++◌, reverse}
use mathlib.Core.Option.{Option, none, some}
use chi_jie.Prelude.Tests.{leb, ◌==◌, if◌then◌else◌}
use chi_jie.Prelude.Lists.{length, drop}
use chi_jie.Prelude.Text.{Str, str_eq, cut_prefix}

-- A character at the front of the first part.
unfoldable pub lengthen : ℕ → List Str → List Str
lengthen c [] = (c ∷ []) ∷ []
lengthen c (p ∷ ps) = (c ∷ p) ∷ ps

-- strings.Split at a character
unfoldable pub split : ℕ → Str → List Str
unfolding lengthen
split sep [] = [] ∷ []
split sep (c ∷ s) = let parts = split sep s in if c == sep then [] ∷ parts else lengthen c parts

unfoldable pub drop_left : ℕ → Str → Str
drop_left c [] = []
drop_left c (d ∷ s) = let rest = drop_left c s in if d == c then rest else d ∷ s

-- strings.Trim with one character
unfoldable pub trim_char : ℕ → Str → Str
unfolding drop_left
trim_char c s = reverse (drop_left c (reverse (drop_left c s)))

-- strings.Join
unfoldable pub join : Str → List Str → Str
join sep [] = []
join sep (p ∷ []) = p
join sep (p ∷ q ∷ ps) = p ++ (sep ++ join sep (q ∷ ps))

-- strings.HasSuffix
unfoldable pub has_suffix : Str → Str → Bool
unfolding str_eq
has_suffix suffix s =
    leb (length suffix) (length s) && str_eq suffix (drop (length s - length suffix) s)

-- strings.Index: what follows the first occurrence of a part.
unfoldable pub after_first : Str → Str → Option Str
unfolding cut_prefix
after_first part [] = cut_prefix part []
after_first part (c ∷ s) = elim (cut_prefix part (c ∷ s)) [
  | some rest ↦ some rest
  | none ↦ after_first part s
]
