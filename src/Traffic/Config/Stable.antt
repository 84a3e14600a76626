-- ===== src/Traffic/Config/Stable.antt =====
-- Settings that have been normalised are left as they are.
use chi_jie.Prelude.{
  ℤ, pos, negsuc, ◌≡◌, refl, ap, ◌∙◌, Bool, true, some, List, [], ◌∷◌, map, select, arith,
  Bool-cases, inl, inr, Str, to_lower, trim_space,
}
use chi_jie.Traffic.Types.{
  TrafficConfig, UrlNormalizationMatch, UrlNormalizationRule, UrlNormalizationConfig,
  SuccessFoldingRule, SuccessFoldingConfig,
}
use chi_jie.Traffic.Rules.{
  bool_value, normalize_match, normalize_rule, normalize_success_folding_rule,
  validate_success_folding_rule, named,
}
use chi_jie.Traffic.Rules.Texts.{trim_space_idem, trim_space-lower, to_lower_idem, clean_path_idem}
use chi_jie.Traffic.Rules.Names.{named_idem}
use chi_jie.Traffic.Rules.Lists.{unique_non_empty_idem}
use chi_jie.Traffic.Config.{
  retention, drops_keys, is_accepted, normalize_url_config, normalize_success_folding_config,
  normalize_config,
}

pub host_idem :
    (h : Str) → to_lower (trim_space (to_lower (trim_space h))) ≡ to_lower (trim_space h)
host_idem h =
    rw (trim_space-lower (trim_space h), trim_space_idem h, to_lower_idem (trim_space h)) refl

pub normalize_match_idem :
    (m : UrlNormalizationMatch) → normalize_match (normalize_match m) ≡ normalize_match m
unfolding normalize_match
normalize_match_idem m = λ i. record {
  host_pattern = host_idem m.host_pattern i;
  path_pattern = clean_path_idem m.path_pattern i;
}

name_again :
    (name : Str) (m : UrlNormalizationMatch)
    → named (named name (normalize_match m)) (normalize_match (normalize_match m))
      ≡ named name (normalize_match m)
name_again name m =
    ap (named (named name (normalize_match m))) (normalize_match_idem m)
    ∙ named_idem name (normalize_match m)

pub normalize_rule_idem :
    (r : UrlNormalizationRule) → normalize_rule (normalize_rule r) ≡ normalize_rule r
unfolding normalize_rule bool_value
normalize_rule_idem r = λ i. record {
  name = name_again r.name r.match i;
  match = normalize_match_idem r.match i;
  query = record {
    drop_keys = unique_non_empty_idem r.query.drop_keys i;
    sort = some (bool_value r.query.sort true);
  };
}

pub normalize_folding_rule_idem :
    (r : SuccessFoldingRule)
    → normalize_success_folding_rule (normalize_success_folding_rule r)
      ≡ normalize_success_folding_rule r
unfolding normalize_success_folding_rule
normalize_folding_rule_idem r =
    λ i. record { name = name_again r.name r.match i; match = normalize_match_idem r.match i }

-- Rules that pass a test in normal form pass it again.
module _ {R : Type 0} (normal : R → R) (test : R → Bool)
    (idem : (r : R) → normal (normal r) ≡ normal r) where
  select_idem :
      (rs : List R)
      → select test (map normal (select test (map normal rs))) ≡ select test (map normal rs)
  select_idem [] = refl
  select_idem (r ∷ rs) = elim (Bool-cases (test (normal r))) [
    | inl e ↦ rw e (rw (idem r, e) (ap (λ l. normal r ∷ l) (select_idem rs)))
    | inr e ↦ rw e (select_idem rs)
  ]

retention_idem : (z : ℤ) → retention (retention z) ≡ retention z
unfolding retention
retention_idem (pos n) = ground arith
retention_idem (negsuc n) = refl

normalize_url_config_idem :
    (c : UrlNormalizationConfig)
    → normalize_url_config (normalize_url_config c) ≡ normalize_url_config c
unfolding normalize_url_config bool_value
normalize_url_config_idem c = λ i. record {
  enabled = (normalize_url_config c).enabled;
  rules = select_idem normalize_rule drops_keys normalize_rule_idem c.rules i;
}

accepted : SuccessFoldingRule → Bool
accepted r = is_accepted (validate_success_folding_rule r)

normalize_folding_config_idem :
    (c : SuccessFoldingConfig)
    → normalize_success_folding_config (normalize_success_folding_config c)
      ≡ normalize_success_folding_config c
unfolding normalize_success_folding_config bool_value accepted
normalize_folding_config_idem c = λ i. record {
  enabled = (normalize_success_folding_config c).enabled;
  rules = select_idem normalize_success_folding_rule accepted normalize_folding_rule_idem c.rules i;
}

-- Settings that have been normalised are left as they are when they are normalised again.
pub normalize_config_idem :
    (c : TrafficConfig) → normalize_config (normalize_config c) ≡ normalize_config c
unfolding normalize_config bool_value
normalize_config_idem c = λ i. record {
  persistence = record {
    enabled = (normalize_config c).persistence.enabled;
    retention_days = retention_idem c.persistence.retention_days i;
  };
  failure_grouping = record {
    enabled = (normalize_config c).failure_grouping.enabled;
    url_normalization = normalize_url_config_idem c.failure_grouping.url_normalization i;
  };
  success_folding = normalize_folding_config_idem c.success_folding i;
}
