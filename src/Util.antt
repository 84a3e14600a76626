-- ===== src/Util.antt =====
-- internal/util/strings.go.
pub mod Laws
use chi_jie.Prelude.{
  ℕ, zero, suc, Bool, true, false, not, ◌||◌, List, [], ◌∷◌, if◌then◌else◌, ◌==◌, Str, str_eq,
  trim_space, is_nil, select, reverse, map,
}

-- FirstNonEmpty
unfoldable pub first_non_empty : List Str → Str
unfolding trim_space
first_non_empty [] = []
first_non_empty (v ∷ values) = if is_nil (trim_space v) then first_non_empty values else v

-- ContainsString
unfoldable pub contains_string : List Str → Str → Bool
unfolding str_eq
contains_string [] value = false
contains_string (item ∷ values) value =
    if str_eq item value then true else contains_string values value

-- RemoveString
unfoldable pub remove_string : List Str → Str → List Str
unfolding str_eq
remove_string [] value = []
remove_string (item ∷ values) value =
    let rest = remove_string values value in if str_eq item value then rest else item ∷ rest

abbrev is_separator : ℕ → Bool
is_separator c = (c == b',') || ((c == b'\n') || (c == b'|'))

-- strings.FieldsFunc: the pieces between separators; `piece` is the one being read, reversed.
unfoldable pub pieces : (ℕ → Bool) → Str → Str → List Str
pieces sep piece [] = reverse piece ∷ []
pieces sep piece (c ∷ s) =
    if sep c then reverse piece ∷ pieces sep [] s else pieces sep (c ∷ piece) s

-- SplitList: empty pieces are dropped after trimming.
unfoldable pub split_list : Str → List Str
unfolding pieces trim_space
split_list value = select (λ p. not (is_nil p)) (map trim_space (pieces is_separator [] value))
