-- ===== src/Proxy/Egress.antt =====
-- Where a request leaves: resolveEgress of internal/server/server.go.
pub mod Safety
use chi_jie.Prelude.{
  ℕ, ◌*◌, ◌%◌, ltb, Bool, true, false, not, ◌||◌, ◌&&◌, Option, none, some, List, [], ◌∷◌, ◌++◌,
  if◌then◌else◌, ℤ, magnitude, Str, text, str_eq, trim_space, to_upper, is_nil,
}
use chi_jie.Pool.Types.{EgressChoice, EgressSelector, Manager, Cursor}
use chi_jie.Pool.Names.{
  Strategy, strategy_name, normalize_strategy, normalize_region_code, egress_group_for,
  any_egress_group_for,
}
use chi_jie.Pool.Candidates.{Outside}
use chi_jie.Pool.Select.{
  SelectError, Selected, ok, err, select_egress_candidates_for, residential_fallback,
  select_egress_candidates_with_template_fallback_for, select_any_egress_candidates_for,
}
use chi_jie.Proxy.Settings.{ProxySettings, proxy_settings}

pub record EgressOptions : Type 0 where
  pub region : Str
  pub strategy : Str
  pub residential : Bool
  pub premium : Bool
  pub tls_fingerprint : Str
  pub any : Bool
  pub max_latency_ms : ℤ

pub record EgressRoute : Type 0 where
  pub direct : Bool
  pub any : Bool
  pub region : Str
  pub group : Str
  pub strategy : Str
  pub residential : Bool
  pub premium : Bool
  pub tls_fingerprint : Str
  pub max_latency_ms : ℕ
  pub choice : Option EgressChoice
  pub choices : List EgressChoice

-- The error returns: errInvalidRegion, an error of the selection, and the panic of `choices[0]` on
-- an empty list.
pub data RouteError : Type 0 where
  invalid_region no_first_choice : RouteError
  not_selected : SelectError → RouteError

pub data Resolved : Type 0 where
  routed : EgressRoute → Resolved
  failed : RouteError → Resolved

-- isAnyRegion
unfoldable pub is_any_region : Str → Bool
unfolding trim_space to_upper str_eq
is_any_region region =
    let r = to_upper (trim_space region) in
    str_eq r (text "*") || (str_eq r (text "ANY") || str_eq r (text "AUTO"))

-- `append(choices, fallbackChoices...)` where the second selection succeeds.
unfoldable pub append_selected : List EgressChoice → Selected → List EgressChoice
append_selected choices (ok more) = choices ++ more
append_selected choices (err e) = choices

-- The last return of selectAnyEgressCandidates, the first selection's error where the second fails.
unfoldable pub fall_back_any :
    EgressSelector → SelectError → Selected × Cursor → (Selected × EgressSelector) × Cursor
fall_back_any s e (ok more, c) = ((ok more, residential_fallback s), c)
fall_back_any s e (err f, c) = ((err e, s), c)

-- The first selection and the second, which the code makes where it needs one.
unfoldable pub combine_any :
    EgressSelector → Selected × Cursor → Selected × Cursor → (Selected × EgressSelector) × Cursor
unfolding append_selected fall_back_any
combine_any s (ok choices, c1) (second, c2) =
    if s.premium && not s.residential
    then ((ok (append_selected choices second), s), c2)
    else ((ok choices, s), c1)
combine_any s (err e, c1) (second, c2) =
    if s.residential then ((err e, s), c1) else fall_back_any s e (second, c2)

-- selectAnyEgressCandidates
unfoldable pub select_any_egress_candidates :
    Manager → Str → EgressSelector → ℕ → (Selected × EgressSelector) × Cursor
unfolding combine_any
select_any_egress_candidates m strategy s max_latency =
    let first = select_any_egress_candidates_for m strategy s max_latency in
    combine_any s first (
      select_any_egress_candidates_for (record m { cursor = first.1 }) strategy
        (residential_fallback s) max_latency)

-- The route of a selection in any region; the two places of the source that build it agree.
unfoldable pub any_route :
    Str → EgressOptions → (Selected × EgressSelector) × Cursor → Resolved × Cursor
any_route strategy o ((err e, s), c) = (failed (not_selected e), c)
any_route strategy o ((ok [], s), c) = (failed no_first_choice, c)
any_route strategy o ((ok (choice ∷ more), s), c) = (
  routed (record {
    direct = false;
    any = true;
    region = choice.region;
    group = any_egress_group_for s;
    strategy = strategy;
    residential = s.residential;
    premium = s.premium;
    tls_fingerprint = trim_space o.tls_fingerprint;
    max_latency_ms = magnitude o.max_latency_ms;
    choice = some choice;
    choices = choice ∷ more;
  }),
  c,
)

unfoldable pub region_route : Str → Str → EgressOptions → Selected × Cursor → Resolved × Cursor
region_route region strategy o (err e, c) = (failed (not_selected e), c)
region_route region strategy o (ok [], c) = (failed no_first_choice, c)
region_route region strategy o (ok (choice ∷ more), c) = (
  routed (record {
    direct = false;
    any = false;
    region = region;
    group =
        if is_nil choice.group
        then egress_group_for region (record { residential = choice.residential; premium = false })
        else choice.group;
    strategy = strategy;
    residential = choice.residential;
    premium = o.premium;
    tls_fingerprint = trim_space o.tls_fingerprint;
    max_latency_ms = 0;
    choice = some choice;
    choices = choice ∷ more;
  }),
  c,
)

unfoldable pub direct_route : Str → EgressOptions → EgressRoute
direct_route strategy o = record {
  direct = true;
  any = false;
  region = [];
  group = text "DIRECT";
  strategy = strategy;
  residential = false;
  premium = false;
  tls_fingerprint = trim_space o.tls_fingerprint;
  max_latency_ms = 0;
  choice = none;
  choices = [];
}

-- The selection in one region that the settings ask for.
unfoldable pub select_in :
    Outside → ProxySettings → Manager → Str → Str → EgressSelector → Selected × Cursor
select_in o settings m region strategy s =
    if (proxy_settings settings).template_fallback_after_attempts
    then select_egress_candidates_with_template_fallback_for o m region strategy s
    else select_egress_candidates_for o m region strategy s

unfoldable pub resolve_region :
    Outside → ProxySettings → Manager → EgressOptions → Str → EgressSelector → Resolved × Cursor
unfolding region_route select_in
resolve_region o settings m options strategy s =
    let region = normalize_region_code (trim_space options.region) in
    if is_nil region
    then (failed invalid_region, m.cursor)
    else region_route region strategy options (select_in o settings m region strategy s)

-- `time.Duration(maxLatencyMS)*time.Millisecond` on 64 bits, 0 where it is not positive: the selection
-- tests no more of such a duration.
unfoldable pub latency_limit : ℤ → ℕ
latency_limit ms =
    let wrapped = (1000000 * magnitude ms) % 18446744073709551616 in
    if ltb wrapped 9223372036854775808 then wrapped else 0

unfoldable pub resolve_any : Manager → EgressOptions → Str → EgressSelector → Resolved × Cursor
unfolding any_route latency_limit
resolve_any m options strategy s =
    any_route strategy options
      (select_any_egress_candidates m strategy s (latency_limit options.max_latency_ms))

-- resolveEgress
unfoldable pub resolve_egress :
    Outside → ProxySettings → Manager → EgressOptions → Resolved × Cursor
unfolding resolve_region resolve_any direct_route is_any_region
resolve_egress o settings m options =
    let strategy = strategy_name (normalize_strategy options.strategy) in
    let s : EgressSelector = record {
      residential = options.residential;
      premium = options.premium;
    } in
    if is_nil (trim_space options.region)
    then if options.any || options.premium
      then resolve_any m options strategy s
      else (routed (direct_route strategy options), m.cursor)
    else if is_any_region (trim_space options.region)
    then resolve_any m options strategy s
    else resolve_region o settings m options strategy s
