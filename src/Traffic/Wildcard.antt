-- ===== src/Traffic/Wildcard.antt =====
-- wildcardMatch, matchHostPattern and matchPathPattern of internal/traffic/grouping.go. A suffix
-- `value[index:]` of the value is passed on in place of the index.
pub mod Globs
pub mod Meaning
use chi_jie.Prelude.{
  ℕ, Bool, true, false, not, Option, none, some, List, [], ◌∷◌, if◌then◌else◌, length, ◌==◌, ◌&&◌,
  Str, text, str_eq, is_nil, contains, cut_prefix, split, has_suffix, after_first, trim_char,
  trim_space, to_lower,
}

abbrev pub star : ℕ
star = b'*'

-- The parts after the first: each in the middle at its first occurrence, the last at the end.
unfoldable pub match_rest : Str → List Str → Str → Bool
unfolding after_first has_suffix
match_rest last [] value = if is_nil last then true else has_suffix last value
match_rest part (next ∷ more) value =
    let here = match_rest next more value in
    if is_nil part
    then here
    else elim (after_first part value) [ none ↦ false | some rest ↦ match_rest next more rest ]

-- A pattern that holds a star has two parts at least, so that the other cases do not arise.
unfoldable pub match_parts : List Str → Str → Bool
unfolding match_rest cut_prefix
match_parts [] value = false
match_parts (only ∷ []) value = false
match_parts (first ∷ next ∷ more) value = elim (cut_prefix first value) [
  | none ↦ false
  | some rest ↦ match_rest next more rest
]

unfoldable pub wildcard_match : Str → Str → Bool
unfolding match_parts contains str_eq split
wildcard_match pattern value =
    if str_eq pattern (text "*")
    then true
    else if not (contains pattern (text "*"))
    then str_eq pattern value
    else match_parts (split star pattern) value

-- splitHostSegments, splitPathSegments
unfoldable pub segments : ℕ → Str → List Str
unfolding trim_char split
segments sep value = if is_nil (trim_char sep value) then [] else split sep (trim_char sep value)

-- The loop over the segments of pattern and value, of which there must be as many.
unfoldable pub match_all : List Str → List Str → Bool
unfolding wildcard_match
match_all [] [] = true
match_all [] (v ∷ vs) = false
match_all (p ∷ ps) [] = false
match_all (p ∷ ps) (v ∷ vs) = wildcard_match p v && match_all ps vs

unfoldable pub match_segments : ℕ → Str → Str → Bool
unfolding match_all segments
match_segments sep value pattern =
    if is_nil pattern
    then true
    else if not (length (segments sep value) == length (segments sep pattern))
    then false
    else match_all (segments sep pattern) (segments sep value)

unfoldable pub match_host_pattern : Str → Str → Bool
unfolding match_segments to_lower trim_space
match_host_pattern host pattern = match_segments b'.' host (to_lower (trim_space pattern))

unfoldable pub match_path_pattern : Str → Str → Bool
unfolding match_segments trim_space
match_path_pattern value pattern = match_segments b'/' value (trim_space pattern)
