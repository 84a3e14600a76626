-- ===== src/Traffic/Group.antt =====
-- Which traces are counted as one: failureGroupKey, successFoldGroup and the normal form of a URL,
-- in internal/traffic/grouping.go and success_folding.go. Package net/url is a parameter.
use chi_jie.Prelude.{
  pos, int_lt, int_eq, Bool, true, false, not, ◌&&◌, ◌||◌, Option, none, some, List, [], ◌∷◌, ◌++◌,
  any, select, concat_map, if◌then◌else◌, Str, text, is_nil, contains, trim_space, to_lower, join,
  Dict,
}
use chi_jie.Util.{contains_string}
use chi_jie.Traffic.Types.{Trace, TrafficConfig, UrlNormalizationMatch, UrlNormalizationRule}
use chi_jie.Traffic.Rules.{bool_value}
use chi_jie.Traffic.Wildcard.{match_host_pattern, match_path_pattern}

-- A parsed URL: the fields that the source reads or sets, and all others.
pub record ParsedUrl : Type 0 where
  pub host : Str
  pub fragment : Str
  pub raw_query : Str
  pub other : Str

-- What package net/url does.
pub record UrlApi : Type 0 where
  pub parse : Str → Option ParsedUrl
  pub hostname : ParsedUrl → Str
  pub escaped_path : ParsedUrl → Str
  pub query : ParsedUrl → Dict (List Str)
  pub encode : Dict (List Str) → Str
  pub string : ParsedUrl → Str

unfoldable pub non_empty : Str → Str → Str
unfolding trim_space
non_empty value fallback = if is_nil (trim_space value) then fallback else value

unfoldable pub target_area : Trace → Str
unfolding contains
target_area t =
    if not (is_nil t.egress_group)
    then t.egress_group
    else if not (is_nil t.region)
    then (if t.residential && not (contains t.region (text "-RES"))
        then t.region ++ text "-RES"
        else t.region)
    else text "DIRECT"

-- The parts of a key are joined by a zero byte.
unfoldable pub group_key : Trace → Str → Str
unfolding join non_empty target_area
group_key t target = join (0 ∷ []) (non_empty t.kind (text "proxy") ∷ target ∷ target_area t ∷ [])

unfoldable pub grouping_enabled : TrafficConfig → Bool
unfolding bool_value
grouping_enabled c = bool_value c.failure_grouping.enabled true

unfoldable pub url_normalization_enabled : TrafficConfig → Bool
unfolding bool_value
url_normalization_enabled c =
    let u = c.failure_grouping.url_normalization in bool_value u.enabled (not (is_nil u.rules))

unfoldable pub success_folding_enabled : TrafficConfig → Bool
unfolding bool_value
success_folding_enabled c =
    bool_value c.success_folding.enabled (not (is_nil c.success_folding.rules))

unfoldable pub is_failure : Trace → Bool
is_failure t = int_eq t.status (pos 0) || not (int_lt t.status (pos 400)) || not (is_nil t.error)

-- What a folded success is grouped by.
pub record Fold : Type 0 where
  pub key : Str
  pub target : Str

module _ (urls : UrlApi) where
  unfoldable pub url_rule_matches : UrlNormalizationMatch → ParsedUrl → Bool
  unfolding match_host_pattern match_path_pattern to_lower
  url_rule_matches m u =
      if not (match_host_pattern (to_lower (urls.hostname u)) m.host_pattern)
      then false
      else match_path_pattern (urls.escaped_path u) m.path_pattern

  -- The rules that match a URL.
  unfoldable pub matching_rules : TrafficConfig → ParsedUrl → List UrlNormalizationRule
  unfolding url_rule_matches
  matching_rules c u =
      select (λ (r : UrlNormalizationRule). url_rule_matches r.match u)
        c.failure_grouping.url_normalization.rules

  -- The query without the keys to drop, and whether there were any.
  unfoldable pub normalize_query : List Str → Bool → ParsedUrl → Str → Str
  unfolding contains_string to_lower
  normalize_query drop_keys sort_query u raw =
      let dropped = λ (kv : Str × List Str). contains_string drop_keys kv.0 in
      if not (any dropped (urls.query u)) && not sort_query
      then raw
      else urls.string (record u {
        host = to_lower u.host;
        fragment = [];
        raw_query = urls.encode (select (λ kv. not (dropped kv)) (urls.query u));
      })

  unfoldable pub normalize_parsed : TrafficConfig → ParsedUrl → Str → Str
  unfolding matching_rules normalize_query bool_value
  normalize_parsed c u raw =
      let rules = matching_rules c u in
      let drop_keys = concat_map (λ (r : UrlNormalizationRule). r.query.drop_keys) rules in
      let sort_query = any (λ (r : UrlNormalizationRule). bool_value r.query.sort true) rules in
      if is_nil drop_keys then raw else normalize_query drop_keys sort_query u raw

  unfoldable pub normalize_failure_url : Str → TrafficConfig → Str
  unfolding url_normalization_enabled normalize_parsed
  normalize_failure_url raw c =
      if not (url_normalization_enabled c) then raw else elim (urls.parse raw) [
        | none ↦ raw
        | some u ↦ if is_nil u.host then raw else normalize_parsed c u raw
      ]

  unfoldable pub failure_group_target : Trace → TrafficConfig → Str
  unfolding normalize_failure_url trim_space
  failure_group_target t c =
      if not (is_nil (trim_space t.url))
      then normalize_failure_url (trim_space t.url) c
      else trim_space t.target

  unfoldable pub failure_group_key : Trace → TrafficConfig → Str
  unfolding grouping_enabled failure_group_target group_key
  failure_group_key t c =
      if not (grouping_enabled c)
      then []
      else if is_nil (failure_group_target t c)
      then []
      else group_key t (failure_group_target t c)

  unfoldable pub fold_target : ParsedUrl → Str
  unfolding to_lower
  fold_target u =
      text "//"
      ++ (to_lower u.host
          ++ (if is_nil (urls.escaped_path u) then text "/" else urls.escaped_path u))

  unfoldable pub fold_parsed : Trace → TrafficConfig → ParsedUrl → Option Fold
  unfolding url_rule_matches fold_target group_key
  fold_parsed t c u =
      if is_nil u.host
      then none
      else if not (any (λ r. url_rule_matches r.match u) c.success_folding.rules)
      then none
      else some (record { key = group_key t (fold_target u); target = fold_target u })

  unfoldable pub success_fold_group : Trace → TrafficConfig → Option Fold
  unfolding success_folding_enabled fold_parsed trim_space
  success_fold_group t c =
      if not (success_folding_enabled c) || not (int_eq t.status (pos 200)) || not (is_nil t.error)
      then none
      else elim (urls.parse (trim_space t.url)) [ none ↦ none | some u ↦ fold_parsed t c u ]
