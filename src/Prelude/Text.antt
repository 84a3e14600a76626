-- ===== src/Prelude/Text.antt =====
-- Go strings as lists of code points, with the functions of package `strings` that the source
-- calls. Case mapping is exact on ASCII letters and on the four other runes whose image is ASCII;
-- the remaining letters are left alone, which no comparison with an ASCII text can see.
use Prim.Native.Char.{code}
use Prim.Native.Nat.{ℕ, zero, suc, ◌+◌, ◌-◌, ◌/◌, ◌%◌}
use chi_jie.Prelude.Lists.{length}
use mathlib.Core.Option.{Option, none, some}
use Prim.Native.String.{String}
use mathlib.Core.Path.{◌≡◌, refl}
use mathlib.Core.Logic.{◌↔◌}
use mathlib.Core.Bool.{Bool, true, false, ◌&&◌, ◌||◌}
use mathlib.Core.List.{List, [], ◌∷◌, ◌++◌, map, reverse}
use native.Mathlib.Omega.{arith}
use chi_jie.Prelude.Tests.{ltb, leb, ◌==◌, if◌then◌else◌}

abbrev pub Str : Type 0
Str = List ℕ

-- A literal.
abbrev pub text : String → Str
text String.[] = []
text (String.◌∷◌ c s) = code c ∷ text s

unfoldable pub str_eq : Str → Str → Bool
str_eq [] [] = true
str_eq [] (d ∷ t) = false
str_eq (c ∷ s) [] = false
str_eq (c ∷ s) (d ∷ t) = (c == d) && str_eq s t

pub str_eq_iff : (s t : Str) → (str_eq s t ≡ true) ↔ (s ≡ t)
unfolding str_eq
str_eq_iff [] [] = ground arith
str_eq_iff [] (d ∷ t) = ground arith
str_eq_iff (c ∷ s) [] = ground arith
str_eq_iff (c ∷ s) (d ∷ t) = ground (arith, str_eq_iff s t)

-- The order of Go strings, which is that of their code points.
unfoldable pub str_lt : Str → Str → Bool
str_lt [] [] = false
str_lt [] (d ∷ t) = true
str_lt (c ∷ s) [] = false
str_lt (c ∷ s) (d ∷ t) = ltb c d || ((c == d) && str_lt s t)

-- unicode.IsSpace
unfoldable pub is_space : ℕ → Bool
is_space c =
    (leb 9 c && leb c 13)
    || (c == 32)
    || (c == 0x85)
    || (c == 0xa0)
    || (c == 0x1680)
    || (leb 0x2000 c && leb c 0x200a)
    || (c == 0x2028)
    || (c == 0x2029)
    || (c == 0x202f)
    || (c == 0x205f)
    || (c == 0x3000)

unfoldable pub trim_left : Str → Str
unfolding is_space
trim_left [] = []
trim_left (c ∷ s) = if is_space c then trim_left s else c ∷ s

-- strings.TrimSpace
unfoldable pub trim_space : Str → Str
unfolding trim_left
trim_space s = reverse (trim_left (reverse (trim_left s)))

unfoldable pub lower_rune : ℕ → ℕ
lower_rune c =
    if leb b'A' c && leb c b'Z'
    then c + 32
    else if c == 0x212a
    then b'k'
    else if c == 0x130
    then b'i'
    else c

unfoldable pub upper_rune : ℕ → ℕ
upper_rune c =
    if leb b'a' c && leb c b'z'
    then c - 32
    else if c == 0x17f
    then b'S'
    else if c == 0x131
    then b'I'
    else c

unfoldable pub to_lower : Str → Str
unfolding lower_rune
to_lower = map lower_rune

unfoldable pub to_upper : Str → Str
unfolding upper_rune
to_upper = map upper_rune

-- The length of a string in bytes: UTF-8 widths.
unfoldable pub byte_len : Str → ℕ
byte_len [] = 0
byte_len (c ∷ s) =
    (if ltb c 0x80 then 1 else if ltb c 0x800 then 2 else if ltb c 0x10000 then 3 else 4)
    + byte_len s

-- The order of strings is strict and total.
pub str_lt-asym : (s t : Str) → str_lt s t ≡ true → str_lt t s ≡ false
unfolding str_lt
str_lt-asym [] [] h = refl
str_lt-asym [] (d ∷ t) h = refl
str_lt-asym (c ∷ s) [] h = absurd (ground arith)
str_lt-asym (c ∷ s) (d ∷ t) h = ground (arith, str_lt-asym s t)

pub str_lt-cotrans : (s t u : Str) → str_lt s t ≡ false → str_lt t u ≡ false → str_lt s u ≡ false
unfolding str_lt
str_lt-cotrans [] [] u h k = k
str_lt-cotrans [] (d ∷ t) u h k = absurd (ground arith)
str_lt-cotrans (c ∷ s) [] [] h k = refl
str_lt-cotrans (c ∷ s) [] (e ∷ u) h k = absurd (ground arith)
str_lt-cotrans (c ∷ s) (d ∷ t) [] h k = refl
str_lt-cotrans (c ∷ s) (d ∷ t) (e ∷ u) h k = ground (arith, str_lt-cotrans s t u)

pub str_lt-total : (s t : Str) → str_lt s t ≡ false → str_lt t s ≡ false → s ≡ t
unfolding str_lt
str_lt-total [] [] h k = refl
str_lt-total [] (d ∷ t) h k = absurd (ground arith)
str_lt-total (c ∷ s) [] h k = absurd (ground arith)
str_lt-total (c ∷ s) (d ∷ t) h k = ground (arith, str_lt-total s t)

-- strings.EqualFold: simple case folding, exact where one side is ASCII.
unfoldable pub fold_rune : ℕ → ℕ
fold_rune c =
    if leb b'A' c && leb c b'Z'
    then c + 32
    else if c == 0x212a
    then b'k'
    else if c == 0x17f
    then b's'
    else c

unfoldable pub equal_fold : Str → Str → Bool
unfolding fold_rune str_eq
equal_fold s t = str_eq (map fold_rune s) (map fold_rune t)

-- strings.CutPrefix
unfoldable pub cut_prefix : Str → Str → Option Str
cut_prefix [] s = some s
cut_prefix (c ∷ p) [] = none
cut_prefix (c ∷ p) (d ∷ s) = if c == d then cut_prefix p s else none

-- strings.ReplaceAll for a text that is not empty; each round uses up a character, so the length
-- of the text is fuel enough.
unfoldable pub replace_rounds : ℕ → Str → Str → Str → Str
unfolding cut_prefix
replace_rounds zero old new s = s
replace_rounds (suc f) old new [] = []
replace_rounds (suc f) old new (c ∷ s) = elim (cut_prefix old (c ∷ s)) [
  | some rest ↦ new ++ replace_rounds f old new rest
  | none ↦ c ∷ replace_rounds f old new s
]

unfoldable pub replace_all : Str → Str → Str → Str
unfolding replace_rounds
replace_all s old new = replace_rounds (length s) old new s

-- strings.HasPrefix
unfoldable pub has_prefix : Str → Str → Bool
has_prefix [] s = true
has_prefix (c ∷ p) [] = false
has_prefix (c ∷ p) (d ∷ s) = (c == d) && has_prefix p s

-- strings.Contains(s, sub)
unfoldable pub contains : Str → Str → Bool
unfolding has_prefix
contains [] sub = has_prefix sub []
contains (c ∷ s) sub = has_prefix sub (c ∷ s) || contains s sub

-- fmt's %d: the decimal digits, most significant first. A number has no more digits than its size.
unfoldable pub decimal_rounds : ℕ → ℕ → Str → Str
decimal_rounds zero n acc = acc
decimal_rounds (suc f) n acc =
    let acc' = (b'0' + n % 10) ∷ acc in
    let more = decimal_rounds f (n / 10) acc' in if n / 10 == 0 then acc' else more

unfoldable pub decimal : ℕ → Str
unfolding decimal_rounds
decimal n = decimal_rounds (suc n) n []
