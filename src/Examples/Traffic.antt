-- ===== src/Examples/Traffic.antt =====
-- Traces on concrete data: two failures of one address, a success, and a success that is folded.
use chi_jie.Prelude.{
  ℕ, ◌-◌, ◌*◌, ◌≡◌, ◌≢◌, refl, pos, true, false, Option, none, some, List, [], ◌∷◌, ◌++◌, All, Str,
  text, arith, cut_prefix, split, join,
}
use chi_jie.Traffic.Types.{Trace, TrafficConfig, UrlNormalizationRule, SuccessFoldingRule}
use chi_jie.Traffic.Group.{ParsedUrl, UrlApi}
use chi_jie.Traffic.Wildcard.{wildcard_match}
use chi_jie.Traffic.Wildcard.Globs.{glob}
use chi_jie.Traffic.Wildcard.Meaning.{wildcard_match-glob}
use chi_jie.Traffic.Ids.{format_id, parse_trace_id}
use chi_jie.Traffic.Ids.RoundTrip.{parse_trace_id-format_id}
use chi_jie.Traffic.Config.{normalize_config, merge_url_normalization_rule}
use chi_jie.Traffic.Config.Stable.{normalize_config_idem}
use chi_jie.Traffic.Config.Merging.{IsMergeResult, merge_url_normalization_rule-IsMergeOf}
use chi_jie.Traffic.Store.{Store, Calendar, record_trace}
use chi_jie.Traffic.Store.Log.{
  Event, recorded, looked, IsCalendar, run, view, log_of, last_time, run-view,
}
use chi_jie.Traffic.Store.Invariant.{IsValid, save, step, step-IsValid, record_trace-id_ne}
use chi_jie.Traffic.Metrics.{metrics_of}
use chi_jie.Traffic.Metrics.Balance.{IsBalanced, metrics_of-IsBalanced}
use chi_jie.Traffic.Metrics.Failures.{failure_keys, IsCountOf, failures-IsCountOf}
use chi_jie.Traffic.Display.{display_traces}
use chi_jie.Traffic.Display.Grouping.{IsGrouping}
use chi_jie.Traffic.Display.Shown.{display_key, display_traces-IsGrouping}
use chi_jie.Traffic.Series.{build_series}
use chi_jie.Traffic.Series.Totals.{requests_in, failures_in, build_series-metrics_of}

abbrev head_of : List Str → Str
head_of [] = []
head_of (p ∷ ps) = p

abbrev tail_of : List Str → List Str
tail_of [] = []
tail_of (p ∷ ps) = p ∷ ps

abbrev url_of : List Str → ParsedUrl
url_of [] = record { host = []; fragment = []; raw_query = []; other = [] }
url_of (h ∷ path) = record {
  host = h;
  fragment = [];
  raw_query = [];
  other = join (text "/") ([] ∷ path);
}

abbrev parse_https : Option Str → Option ParsedUrl
parse_https none = none
parse_https (some rest) = some (url_of (split b'/' rest))

-- Addresses of the form https://host/path.
abbrev urls : UrlApi
urls = record {
  parse = λ s. parse_https (cut_prefix (text "https://") s);
  hostname = λ u. u.host;
  escaped_path = λ u. u.other;
  query = λ u. [];
  encode = λ q. [];
  string = λ u. text "https://" ++ (u.host ++ u.other);
}

abbrev success : Trace
success = record {
  id = [];
  timestamp = 0;
  kind = text "proxy";
  method = text "GET";
  url = text "https://api.example.com/v1";
  target = [];
  region = text "US";
  egress_group = text "US";
  strategy = [];
  residential = false;
  premium = false;
  egress_pool = [];
  egress_node = [];
  egress_source = [];
  egress_template = false;
  tls_fingerprint = [];
  status = pos 200;
  latency_ms = pos 40;
  request_bytes = 10;
  response_bytes = 100;
  error = [];
}

abbrev failure : Trace
failure = record success { status = pos 502; error = text "timeout" }

abbrev folding : SuccessFoldingRule
folding = record {
  name = text "poll";
  match = record { host_pattern = text "*.example.com"; path_pattern = text "/poll" };
}

abbrev settings : TrafficConfig
settings = record {
  persistence = record { enabled = some true; retention_days = pos 7 };
  failure_grouping = record {
    enabled = some true;
    url_normalization = record { enabled = none; rules = [] };
  };
  success_folding = record { enabled = none; rules = folding ∷ [] };
}

abbrev traces : List Trace
traces =
    failure ∷ record success { url = text "https://api.example.com/poll" } ∷ success ∷ failure ∷ []

abbrev day_length : ℕ
day_length = 86_400_000_000_000

abbrev calendar : Calendar
calendar days now = now - days * day_length

calendar-IsCalendar : IsCalendar calendar
calendar-IsCalendar = record { mono = λ d a b h. omega arith; past = λ d a. omega arith }

abbrev store : Store
store = record {
  capacity = 2;
  next_id = 0;
  traces = [];
  started_at = 0;
  active_tunnels = 0;
  config = settings;
  persistence = none;
}

abbrev events : List Event
events = recorded 10 success ∷ looked 20 ∷ recorded 30 failure ∷ recorded 40 success ∷ []

wildcard_match-glob_example :
    wildcard_match (text "a*b*c") (text "aXbYbc") ≡ glob (text "a*b*c") (text "aXbYbc")
wildcard_match-glob_example = wildcard_match-glob (text "a*b*c") (text "aXbYbc")

run-view_example :
    (run calendar events store).traces ≡ view calendar settings 2 40 (log_of 0 events)
unfolding last_time
run-view_example =
    run-view calendar calendar-IsCalendar events store refl
      (omega arith, (refl, (omega arith, (tt, (omega arith, (refl, (omega arith, (refl, tt))))))))

abbrev used_store : Store
used_store = record store {
  next_id = 7;
  traces = record success { id = text "trace-7"; timestamp = 30 } ∷ [];
}

used_store-IsValid : IsValid used_store
unfolding parse_trace_id
used_store-IsValid = record { bounded = omega arith; numbered = (refl, tt) }

step-IsValid_example : IsValid (step calendar (save failure 50) used_store)
step-IsValid_example =
    step-IsValid calendar (save failure 50) used_store (omega arith) used_store-IsValid

record_trace-id_ne_example :
    All (λ u. u.id ≢ (record_trace calendar success 40 used_store).1.id) used_store.traces
record_trace-id_ne_example =
    record_trace-id_ne calendar used_store success 40 (omega arith) used_store-IsValid

parse_trace_id-format_id_example : parse_trace_id (text "trace-" ++ format_id 1295) ≡ pos 1295
parse_trace_id-format_id_example = parse_trace_id-format_id 1295 (omega arith)

metrics_of-IsBalanced_example : IsBalanced 4 (metrics_of urls settings traces 1).counts
metrics_of-IsBalanced_example = metrics_of-IsBalanced urls settings traces 1

failures-IsCountOf_example :
    (shown : List Str) × IsCountOf
      (failure_keys urls settings traces)
      shown
      (metrics_of urls settings traces 1).counts.failures
failures-IsCountOf_example = failures-IsCountOf urls settings traces 1

display_traces-IsGrouping_example :
    IsGrouping (display_key urls settings) traces (display_traces urls settings traces)
display_traces-IsGrouping_example = display_traces-IsGrouping urls settings traces

build_series-metrics_of_example :
    (requests_in (build_series urls settings traces 60)
      ≡ (metrics_of urls settings traces 1).counts.requests)
    × (failures_in (build_series urls settings traces 60)
        ≡ (metrics_of urls settings traces 1).counts.failures)
build_series-metrics_of_example =
    build_series-metrics_of urls settings traces 60 1
      (omega arith, (omega arith, (omega arith, (omega arith, tt))))

normalize_config_idem_example :
    normalize_config (normalize_config settings) ≡ normalize_config settings
normalize_config_idem_example = normalize_config_idem settings

abbrev rule : UrlNormalizationRule
rule = record {
  name = [];
  match = record { host_pattern = text "API.example.com "; path_pattern = text "v1/*" };
  query = record { drop_keys = text "ts" ∷ text "sig" ∷ []; sort = none };
}

merge_url_normalization_rule-IsMergeOf_example :
    IsMergeResult rule settings (merge_url_normalization_rule settings rule)
merge_url_normalization_rule-IsMergeOf_example =
    merge_url_normalization_rule-IsMergeOf settings rule
