-- ===== src/Traffic/Config/Merging.antt =====
-- A rule merged into the settings.
use chi_jie.Prelude.{
  ◌≡◌, refl, ap, Bool, true, not, none, some, List, [], ◌∷◌, select, Bool-cases, Option-cases, inl,
  inr, Str, str_eq_iff, All, All-select, All-map, drop, map, ◌||◌,
}
use chi_jie.Util.{contains_string}
use chi_jie.Traffic.Types.{TrafficConfig, UrlNormalizationMatch, UrlNormalizationRule}
use chi_jie.Traffic.Rules.{normalize_rule, validate_rule}
use chi_jie.Traffic.Rules.Lists.{IsValue, unique_non_empty-IsValue}
use chi_jie.Traffic.Rules.Unions.{contains-merge_strings}
use chi_jie.Traffic.Config.{
  same_match, drops_keys, normalize_url_config, extend_rule, merge_rules, normalize_config, Merged,
  merged, refused, merge_url_normalization_rule,
}

abbrev pub is_other : UrlNormalizationMatch → UrlNormalizationRule → Bool
is_other m r = not (same_match r.match m)

abbrev pub is_same : UrlNormalizationMatch → UrlNormalizationRule → Bool
is_same m r = same_match r.match m

-- The keys of the first rule of a list, if there is one.
abbrev pub first_keys : List UrlNormalizationRule → List Str
first_keys [] = []
first_keys (r ∷ rs) = r.query.drop_keys

-- The rules after a merge: those for other matches are as before; of those for the match, the first
-- is the result, and the others are as before; its keys are those of the rule merged and those of
-- the rule that was the first for the match before, if there was one.
pub record IsMerge (rule : UrlNormalizationRule) (before after : List UrlNormalizationRule)
    (result : UrlNormalizationRule) : Type 0 where
  pub others : select (is_other rule.match) after ≡ select (is_other rule.match) before
  pub same :
      select (is_same rule.match) after ≡ result ∷ drop 1 (select (is_same rule.match) before)
  pub keys :
      (k : Str)
      → contains_string result.query.drop_keys k ≡ (
          contains_string (first_keys (select (is_same rule.match) before)) k
          || contains_string rule.query.drop_keys k)

-- The keys of the rules are values.
abbrev KeyedByValues : List UrlNormalizationRule → Type 0
KeyedByValues = All (λ r. All IsValue r.query.drop_keys)

normalize_config-KeyedByValues :
    (c : TrafficConfig)
    → KeyedByValues (normalize_config c).failure_grouping.url_normalization.rules
unfolding normalize_config normalize_url_config normalize_rule
normalize_config-KeyedByValues c =
    let rules = c.failure_grouping.url_normalization.rules in
    All-select (λ (r : UrlNormalizationRule). All IsValue r.query.drop_keys) drops_keys
      (map normalize_rule rules)
      (All-map (λ (r : UrlNormalizationRule). All IsValue r.query.drop_keys) normalize_rule rules
        normalize_rule-IsValue)
  where
    normalize_rule-IsValue :
        (r : UrlNormalizationRule) → All IsValue (normalize_rule r).query.drop_keys
    normalize_rule-IsValue r = unique_non_empty-IsValue r.query.drop_keys

same_match_self : (m : UrlNormalizationMatch) → same_match m m ≡ true
same_match_self m =
    rw
      (
        (str_eq_iff m.host_pattern m.host_pattern).1 refl,
        (str_eq_iff m.path_pattern m.path_pattern).1 refl,
      )
      refl

merge_rules-IsMerge :
    (rule : UrlNormalizationRule) (rs : List UrlNormalizationRule)
    → All IsValue rule.query.drop_keys
    → KeyedByValues rs
    → IsMerge rule rs (merge_rules rule rs).0 (merge_rules rule rs).1
unfolding merge_rules extend_rule contains_string
merge_rules-IsMerge rule [] h hs = record {
  others = rw (same_match_self rule.match) refl;
  same = rw (same_match_self rule.match) refl;
  keys = λ k. refl;
}
merge_rules-IsMerge rule (r ∷ rs) h hs = elim (Bool-cases (same_match r.match rule.match)) [
  | inl e ↦ rw e (record {
    others = rw e refl;
    same = rw e refl;
    keys = λ k. rw e (contains-merge_strings r.query.drop_keys rule.query.drop_keys hs.0 h k);
  })
  | inr e ↦
      let i = merge_rules-IsMerge rule rs h hs.1 in
      rw e (record {
        others = rw e (ap (λ l. r ∷ l) i.others);
        same = rw e i.same;
        keys = λ k. rw e (i.keys k);
      })
]

-- A merge of a rule into some settings: the rule passes the checks, grouping and normalisation are
-- on, the rules are merged, and all else is as in the normal form of the settings.
pub record IsMergeOf (rule : UrlNormalizationRule) (c next : TrafficConfig)
    (result : UrlNormalizationRule) : Type 0 where
  pub checked : validate_rule (normalize_rule rule) ≡ none
  pub grouping : next.failure_grouping.enabled ≡ some true
  pub normalization : next.failure_grouping.url_normalization.enabled ≡ some true
  pub rules :
      IsMerge
        (normalize_rule rule)
        (normalize_config c).failure_grouping.url_normalization.rules
        next.failure_grouping.url_normalization.rules
        result
  pub persistence : next.persistence ≡ (normalize_config c).persistence
  pub folding : next.success_folding ≡ (normalize_config c).success_folding

abbrev pub IsMergeResult :
    (rule : UrlNormalizationRule) (c : TrafficConfig) → Merged UrlNormalizationRule → Type 0
IsMergeResult rule c (merged next result) = IsMergeOf rule c next result
IsMergeResult rule c (refused e) = validate_rule (normalize_rule rule) ≡ some e

-- A rule that the checks refuse is refused with the first of their complaints. Any other rule is
-- merged: failure grouping and the normal form of URLs are switched on; the rules for other
-- matches are those of the normalised settings; the first rule for its match is the result, and
-- further rules for it are left as they are; the result drops exactly the keys that the merged
-- rule drops and those that the first rule for its match dropped before, if there was one;
-- persistence and success folding are left as they are.
pub merge_url_normalization_rule-IsMergeOf :
    (c : TrafficConfig) (rule : UrlNormalizationRule)
    → IsMergeResult rule c (merge_url_normalization_rule c rule)
unfolding merge_url_normalization_rule normalize_rule
merge_url_normalization_rule-IsMergeOf c rule =
    elim (Option-cases (validate_rule (normalize_rule rule))) [
      | inl e ↦
          rw (e, merge_url_normalization_rule)
            (record {
              checked = e;
              grouping = refl;
              normalization = refl;
              rules =
                  merge_rules-IsMerge (normalize_rule rule)
                    (normalize_config c).failure_grouping.url_normalization.rules
                    (unique_non_empty-IsValue rule.query.drop_keys)
                    (normalize_config-KeyedByValues c);
              persistence = refl;
              folding = refl;
            })
      | inr (x, e) ↦ rw (e, merge_url_normalization_rule) e
    ]
