-- ===== src/Pool/Region.antt =====
-- The region functions of internal/pool/manager.go. The loops over regionAliasToCode and
-- regionCodeToName run in whatever order Go picks, so that order is an argument.
pub mod Table
pub mod Ambiguity
use chi_jie.Prelude.{
  ℕ, zero, suc, ◌+◌, ◌-◌, Bool, true, false, not, ◌&&◌, ◌||◌, Option, none, some, List, [], ◌∷◌,
  if◌then◌else◌, ltb, leb, ◌==◌, Str, text, str_eq, trim_space, to_lower, to_upper, cut_prefix,
  contains, Dict, is_nil, length,
}

-- isASCIIUpperLetter
unfoldable pub is_ascii_upper_letter : ℕ → Bool
is_ascii_upper_letter b = leb b'A' b && leb b b'Z'

abbrev starts_upper : Str → Bool
starts_upper [] = false
starts_upper (c ∷ s) = is_ascii_upper_letter c

-- The loop that moves afterIdx past digits.
unfoldable pub skip_digits : Str → Str
skip_digits [] = []
skip_digits (c ∷ s) = if leb b'0' c && leb c b'9' then skip_digits s else c ∷ s

abbrev ends_upper : Option ℕ → Bool
ends_upper none = false
ends_upper (some c) = is_ascii_upper_letter c

abbrev last_rune : Str → Option ℕ
last_rune [] = none
last_rune (c ∷ []) = some c
last_rune (c ∷ d ∷ s) = last_rune (d ∷ s)

-- The loop over the occurrences that strings.Index finds: `before` is the byte in front of `s`.
-- Each round uses up a character.
unfoldable pub token_rounds : ℕ → Str → Option ℕ → Str → Bool
unfolding cut_prefix skip_digits is_ascii_upper_letter
token_rounds zero code before s = false
token_rounds (suc f) code before [] = false
token_rounds (suc f) code before (c ∷ s) = elim (cut_prefix code (c ∷ s)) [
  | none ↦ token_rounds f code (some c) s
  | some after ↦
      let more = token_rounds f code (last_rune code) after in
      if not (ends_upper before) && not (starts_upper (skip_digits after)) then true else more
]

-- containsRegionCodeToken
unfoldable pub contains_region_code_token : Str → Str → Bool
unfolding token_rounds to_upper trim_space
contains_region_code_token upper_name region =
    let code = to_upper (trim_space region) in
    if is_nil code then false else token_rounds (suc (length upper_name)) code none upper_name

-- regionalIndicatorLetter
unfoldable pub regional_indicator_letter : ℕ → ℕ
regional_indicator_letter r = if ltb r 0x1f1e6 || ltb 0x1f1ff r then 0 else b'A' + (r - 0x1f1e6)

-- flagRegionCode
unfoldable pub flag_region_code : Str → Str
unfolding regional_indicator_letter
flag_region_code [] = []
flag_region_code (r ∷ []) = []
flag_region_code (r ∷ q ∷ rest) =
    let more = flag_region_code (q ∷ rest) in
    let first = regional_indicator_letter r in
    let second = regional_indicator_letter q in
    if not (first == 0) && not (second == 0) then first ∷ second ∷ [] else more

-- The first alias, in the given order, that the name contains.
unfoldable pub find_alias : Dict Str → Str → Option Str
unfolding contains
find_alias [] lower_name = none
find_alias ((alias, region) ∷ rest) lower_name =
    if contains lower_name alias then some region else find_alias rest lower_name

-- The first code, in the given order, that stands as a word in the name.
unfoldable pub find_code : List Str → Str → Option Str
unfolding contains_region_code_token str_eq
find_code [] upper_name = none
find_code (code ∷ rest) upper_name =
    if not (str_eq code (text "UN")) && contains_region_code_token upper_name code
    then some code
    else find_code rest upper_name

-- What follows where the name holds no flag.
unfoldable pub detect_by_words : Dict Str → List Str → Str → Str
unfolding find_alias find_code to_lower to_upper
detect_by_words aliases codes name = elim (find_alias aliases (to_lower name)) [
  | some region ↦ region
  | none ↦ elim (find_code codes (to_upper name)) [ some code ↦ code | none ↦ text "UN" ]
]

-- detectRegionFromNodeName
unfoldable pub detect_region_from_node_name : Dict Str → List Str → Str → Str
unfolding flag_region_code detect_by_words contains_region_code_token str_eq to_upper
detect_region_from_node_name aliases codes name =
    let flag = flag_region_code name in
    if is_nil flag
    then detect_by_words aliases codes name
    else if str_eq flag (text "CN") && contains_region_code_token (to_upper name) (text "TW")
    then text "TW"
    else flag
