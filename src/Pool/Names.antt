-- ===== src/Pool/Names.antt =====
-- The functions of internal/pool/manager.go that bring names into a standard form.
use chi_jie.Prelude.{
  ◌≡◌, refl, Bool, true, false, Option, none, some, [], ◌∷◌, ◌++◌, if◌then◌else◌, ◌==◌, Str, text,
  str_eq, trim_space, to_lower, to_upper, byte_len, lookup, is_nil, any, List,
}
use chi_jie.Pool.Types.{PoolConfig, EgressSelector}
use chi_jie.Pool.Region.Table.{region_alias_to_code}

pub data Strategy : Type 0 where
  random round_robin least_latency : Strategy

abbrev one_of : List Str → Str → Bool
one_of names s = any (str_eq s) names

-- The name of a strategy, as NormalizeStrategy writes it.
unfoldable pub strategy_name : Strategy → Str
strategy_name random = text "random"
strategy_name round_robin = text "round-robin"
strategy_name least_latency = text "least-latency"

unfoldable pub normalize_strategy : Str → Strategy
unfolding trim_space to_lower str_eq
normalize_strategy value =
    let v = to_lower (trim_space value) in
    if one_of (text "least-latency" ∷ text "least_latency" ∷ text "latency" ∷ []) v
    then least_latency
    else if one_of (text "round-robin" ∷ text "round_robin" ∷ text "rr" ∷ []) v
    then round_robin
    else random

abbrev or_empty : Option Str → Str
or_empty none = []
or_empty (some s) = s

-- normalizeRegionCode: both of its last returns give the upper-case text.
unfoldable pub region_code_of : Str → Str
unfolding trim_space to_lower to_upper lookup str_eq region_alias_to_code
region_code_of value =
    let v = trim_space value in
    let by_alias = or_empty (lookup (to_lower v) region_alias_to_code) in
    if is_nil v then [] else if is_nil by_alias then to_upper v else by_alias

-- NormalizeRegionCode: a code has two bytes.
unfoldable pub normalize_region_code : Str → Str
unfolding region_code_of byte_len
normalize_region_code value =
    let region = region_code_of value in if byte_len region == 2 then region else []

-- EgressGroupFor
unfoldable pub egress_group_for : Str → EgressSelector → Str
egress_group_for region selector =
    let r = normalize_region_code region in
    if is_nil r then text "DIRECT" else if selector.residential then r ++ text "-RES" else r

-- AnyEgressGroupFor
unfoldable pub any_egress_group_for : EgressSelector → Str
any_egress_group_for selector = if selector.residential then text "ANY-RES" else text "ANY"

-- NormalizeTemplateType
unfoldable pub normalize_template_type : Str → Str
unfolding trim_space to_lower str_eq
normalize_template_type value =
    let v = to_lower (trim_space value) in
    if one_of ([] ∷ text "proxy" ∷ text "generic" ∷ text "generic-proxy" ∷ []) v
    then text "proxy"
    else v

-- NormalizeTemplateCoverage
unfoldable pub normalize_template_coverage : Str → Bool → Str → Str
unfolding trim_space to_lower str_eq
normalize_template_coverage value residential template_type =
    let v = to_lower (trim_space value) in
    if one_of (text "normal" ∷ text "residential" ∷ text "both" ∷ []) v
    then v
    else if str_eq (normalize_template_type template_type) (text "chijie")
    then text "both"
    else if residential
    then text "residential"
    else text "normal"

-- TemplateCoversResidential
unfoldable pub template_covers_residential : PoolConfig → Bool → Bool
unfolding str_eq
template_covers_residential cfg residential =
    let coverage = normalize_template_coverage cfg.coverage cfg.residential cfg.template_type in
    if str_eq coverage (text "both")
    then true
    else if str_eq coverage (text "residential")
    then residential
    else if residential
    then false
    else true

-- TemplateCoversSelector
unfoldable pub template_covers_selector : PoolConfig → EgressSelector → Bool
template_covers_selector cfg selector = template_covers_residential cfg selector.residential

-- A standard name stands for itself, so ordering may normalise it a second time.
pub normalize_strategy-name : (s : Strategy) → normalize_strategy (strategy_name s) ≡ s
unfolding normalize_strategy strategy_name
normalize_strategy-name random = refl
normalize_strategy-name round_robin = refl
normalize_strategy-name least_latency = refl

region_codes :
    (normalize_region_code (text " hong kong ") ≡ text "HK")
    × (normalize_region_code (text "uk") ≡ text "GB")
    × (normalize_region_code (text "usa!") ≡ [])
unfolding normalize_region_code
region_codes = (refl, refl, refl)
