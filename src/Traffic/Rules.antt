-- ===== src/Traffic/Rules.antt =====
-- The rules of the settings, in internal/traffic/grouping.go and success_folding.go: how a rule is
-- brought into its normal form, and which rules are refused.
pub mod Texts
pub mod Names
pub mod Lists
pub mod Unions
use chi_jie.Prelude.{
  ℕ, zero, suc, ◌+◌, Bool, true, false, not, ◌&&◌, ◌||◌, Option, none, some, List, [], ◌∷◌, ◌++◌,
  map, any, if◌then◌else◌, length, ◌==◌, leb, Str, text, str_eq, str_lt, is_nil, contains,
  has_prefix, replace_all, trim_space, trim_char, to_lower, join, sort_by,
}
use chi_jie.Util.{contains_string}
use chi_jie.Traffic.Types.{
  UrlNormalizationMatch, UrlNormalizationRule, QueryNormalizationConfig, SuccessFoldingRule,
}
use chi_jie.Traffic.Wildcard.{segments}

unfoldable pub bool_value : Option Bool → Bool → Bool
bool_value none fallback = fallback
bool_value (some b) fallback = b

-- The loop of uniqueNonEmpty, with the values seen so far.
unfoldable pub distinct_values : List Str → List Str → List Str
unfolding trim_space contains_string
distinct_values seen [] = []
distinct_values seen (v ∷ more) =
    let value = trim_space v in
    let skipped = distinct_values seen more in
    let kept = value ∷ distinct_values (value ∷ seen) more in
    if is_nil value then skipped else if contains_string seen value then skipped else kept

unfoldable pub unique_non_empty : List Str → List Str
unfolding distinct_values sort_by str_lt
unique_non_empty values = sort_by str_lt (distinct_values [] values)

unfoldable pub merge_strings : List Str → List Str → List Str
unfolding unique_non_empty
merge_strings a b = unique_non_empty (a ++ b)

unfoldable pub clean_path_pattern : Str → Str
unfolding has_prefix
clean_path_pattern value =
    if is_nil value
    then []
    else if not (has_prefix (text "/") value)
    then text "/" ++ value
    else value

-- The rune map of defaultRuleName.
unfoldable pub name_rune : ℕ → ℕ
name_rune r =
    if (leb b'a' r && leb r b'z') || (leb b'0' r && leb r b'9')
    then r
    else if leb b'A' r && leb r b'Z'
    then r + 32
    else b'-'

-- The loop that replaces doubled dashes; each round shortens the name, so that its length is fuel
-- enough.
unfoldable pub squeeze : ℕ → Str → Str
unfolding contains replace_all
squeeze zero name = name
squeeze (suc f) name =
    let next = squeeze f (replace_all name (text "--") (text "-")) in
    if contains name (text "--") then next else name

-- The last of the segments of a path, if there is one.
unfoldable pub last_segment : List Str → List Str
last_segment [] = []
last_segment (s ∷ []) = s ∷ []
last_segment (s ∷ t ∷ more) = last_segment (t ∷ more)

unfoldable pub name_parts : UrlNormalizationMatch → List Str
unfolding last_segment segments
name_parts m =
    text "url-rule"
    ∷ ((if is_nil m.host_pattern then [] else m.host_pattern ∷ [])
        ++ (if is_nil m.path_pattern then [] else last_segment (segments b'/' m.path_pattern)))

unfoldable pub default_rule_name : UrlNormalizationMatch → Str
unfolding name_parts join name_rune trim_char squeeze
default_rule_name m =
    let name = trim_char b'-' (map name_rune (join (text "-") (name_parts m))) in
    let squeezed = squeeze (length name) name in
    if is_nil squeezed then text "url-rule" else squeezed

unfoldable pub normalize_match : UrlNormalizationMatch → UrlNormalizationMatch
unfolding clean_path_pattern trim_space to_lower
normalize_match m = record {
  host_pattern = to_lower (trim_space m.host_pattern);
  path_pattern = clean_path_pattern (trim_space m.path_pattern);
}

unfoldable pub named : Str → UrlNormalizationMatch → Str
unfolding default_rule_name trim_space
named name m = if is_nil (trim_space name) then default_rule_name m else trim_space name

unfoldable pub normalize_rule : UrlNormalizationRule → UrlNormalizationRule
unfolding normalize_match named unique_non_empty bool_value
normalize_rule r = record {
  name = named r.name (normalize_match r.match);
  match = normalize_match r.match;
  query = record {
    drop_keys = unique_non_empty r.query.drop_keys;
    sort = some (bool_value r.query.sort true);
  };
}

pub data RuleError : Type 0 where
  drop_keys_required : RuleError
  pattern_required : RuleError
  invalid_key : Str → RuleError
  host_pattern_required : RuleError
  path_pattern_required : RuleError

-- `strings.ContainsAny(key, "&=?#")`
unfoldable pub has_reserved : Str → Bool
has_reserved key = any (λ c. (c == b'&') || (c == b'=') || (c == b'?') || (c == b'#')) key

unfoldable pub check_keys : List Str → Option RuleError
unfolding has_reserved
check_keys [] = none
check_keys (key ∷ keys) =
    let rest = check_keys keys in if has_reserved key then some (invalid_key key) else rest

unfoldable pub validate_rule : UrlNormalizationRule → Option RuleError
unfolding check_keys
validate_rule r =
    if is_nil r.query.drop_keys
    then some drop_keys_required
    else if is_nil r.match.host_pattern && is_nil r.match.path_pattern
    then some pattern_required
    else check_keys r.query.drop_keys

unfoldable pub normalize_success_folding_rule : SuccessFoldingRule → SuccessFoldingRule
unfolding normalize_match named
normalize_success_folding_rule r = record {
  name = named r.name (normalize_match r.match);
  match = normalize_match r.match;
}

unfoldable pub validate_success_folding_rule : SuccessFoldingRule → Option RuleError
validate_success_folding_rule r =
    if is_nil r.match.host_pattern
    then some host_pattern_required
    else if is_nil r.match.path_pattern
    then some path_pattern_required
    else none
