-- ===== src/Traffic/Config.antt =====
-- DefaultConfig, NormalizeConfig and the two Merge functions of internal/traffic.
pub mod Stable
pub mod Merging
use chi_jie.Prelude.{
  ℕ, ℤ, pos, is_not_positive, int_lt, Bool, true, false, not, ◌&&◌, ◌||◌, Option, none, some, List,
  [], ◌∷◌, ◌++◌, map, select, if◌then◌else◌, Str, str_eq, is_nil, trim_space,
}
use chi_jie.Traffic.Types.{
  TrafficConfig, PersistenceConfig, FailureGroupingConfig, UrlNormalizationConfig,
  UrlNormalizationMatch, UrlNormalizationRule, QueryNormalizationConfig, SuccessFoldingConfig,
  SuccessFoldingRule,
}
use chi_jie.Traffic.Rules.{
  bool_value, merge_strings, normalize_rule, RuleError, validate_rule,
  normalize_success_folding_rule, validate_success_folding_rule,
}

abbrev pub default_retention_days : ℕ
default_retention_days = 7

abbrev pub max_retention_days : ℕ
max_retention_days = 3650

unfoldable pub default_config : TrafficConfig
default_config = record {
  persistence = record { enabled = some true; retention_days = pos default_retention_days };
  failure_grouping = record {
    enabled = some true;
    url_normalization = record { enabled = some false; rules = [] };
  };
  success_folding = record { enabled = some false; rules = [] };
}

unfoldable pub retention : ℤ → ℤ
retention days =
    if int_lt days (pos 1) || int_lt (pos max_retention_days) days
    then pos default_retention_days
    else days

abbrev pub drops_keys : UrlNormalizationRule → Bool
drops_keys r = not (is_nil r.query.drop_keys)

abbrev pub is_accepted : Option RuleError → Bool
is_accepted none = true
is_accepted (some e) = false

unfoldable pub normalize_success_folding_config : SuccessFoldingConfig → SuccessFoldingConfig
unfolding bool_value normalize_success_folding_rule validate_success_folding_rule
normalize_success_folding_config c = record {
  enabled = some (bool_value c.enabled (not (is_nil c.rules)));
  rules =
      select (λ r. is_accepted (validate_success_folding_rule r))
        (map normalize_success_folding_rule c.rules);
}

unfoldable pub normalize_url_config : UrlNormalizationConfig → UrlNormalizationConfig
unfolding bool_value normalize_rule
normalize_url_config c = record {
  enabled = some (bool_value c.enabled (not (is_nil c.rules)));
  rules = select drops_keys (map normalize_rule c.rules);
}

unfoldable pub normalize_config : TrafficConfig → TrafficConfig
unfolding normalize_success_folding_config normalize_url_config retention bool_value
normalize_config c = record {
  persistence = record {
    enabled = some (bool_value c.persistence.enabled true);
    retention_days = retention c.persistence.retention_days;
  };
  failure_grouping = record {
    enabled = some (bool_value c.failure_grouping.enabled true);
    url_normalization = normalize_url_config c.failure_grouping.url_normalization;
  };
  success_folding = normalize_success_folding_config c.success_folding;
}

pub data Merged (R : Type 0) : Type 0 where
  merged : TrafficConfig → R → Merged R
  refused : RuleError → Merged R

abbrev pub same_match : UrlNormalizationMatch → UrlNormalizationMatch → Bool
same_match a b = str_eq a.host_pattern b.host_pattern && str_eq a.path_pattern b.path_pattern

-- A rule of the settings that takes over the keys of a new one for the same match.
unfoldable pub extend_rule : UrlNormalizationRule → UrlNormalizationRule → UrlNormalizationRule
unfolding merge_strings bool_value trim_space
extend_rule existing rule = record existing {
  query = record {
    drop_keys = merge_strings existing.query.drop_keys rule.query.drop_keys;
    sort = some (bool_value existing.query.sort true);
  };
  name = if is_nil (trim_space existing.name) then rule.name else existing.name;
}

-- The loop over the rules: the first for the same match is extended, or the rule is appended.
unfoldable pub merge_rules :
    UrlNormalizationRule
    → List UrlNormalizationRule
    → List UrlNormalizationRule × UrlNormalizationRule
unfolding extend_rule str_eq
merge_rules rule [] = (rule ∷ [], rule)
merge_rules rule (r ∷ rs) =
    let (rest, result) = merge_rules rule rs in
    if same_match r.match rule.match
    then (extend_rule r rule ∷ rs, extend_rule r rule)
    else (r ∷ rest, result)

unfoldable pub merge_url_normalization_rule :
    TrafficConfig → UrlNormalizationRule → Merged UrlNormalizationRule
unfolding normalize_rule validate_rule normalize_config merge_rules
merge_url_normalization_rule c rule = elim (validate_rule (normalize_rule rule)) [
  | some e ↦ refused e
  | none ↦
      let next = normalize_config c in
      let (rules, result) =
        merge_rules (normalize_rule rule) next.failure_grouping.url_normalization.rules in
      merged
        (record next {
          failure_grouping = record {
            enabled = some true;
            url_normalization = record { enabled = some true; rules = rules };
          };
        })
        result
]

unfoldable pub merge_folding_rules :
    SuccessFoldingRule → List SuccessFoldingRule → List SuccessFoldingRule × SuccessFoldingRule
unfolding str_eq trim_space
merge_folding_rules rule [] = (rule ∷ [], rule)
merge_folding_rules rule (r ∷ rs) =
    let (rest, result) = merge_folding_rules rule rs in
    let named = record r { name = if is_nil (trim_space r.name) then rule.name else r.name } in
    if same_match r.match rule.match then (named ∷ rs, named) else (r ∷ rest, result)

unfoldable pub merge_success_folding_rule :
    TrafficConfig → SuccessFoldingRule → Merged SuccessFoldingRule
unfolding normalize_success_folding_rule validate_success_folding_rule normalize_config
    merge_folding_rules
merge_success_folding_rule c rule =
    elim (validate_success_folding_rule (normalize_success_folding_rule rule)) [
      | some e ↦ refused e
      | none ↦
          let next = normalize_config c in
          let (rules, result) =
            merge_folding_rules (normalize_success_folding_rule rule) next.success_folding.rules in
          merged (record next { success_folding = record { enabled = some true; rules = rules } })
            result
    ]
