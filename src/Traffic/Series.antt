-- ===== src/Traffic/Series.antt =====
-- buildSeries of internal/traffic/store.go: the traces of the last day, counted by the minute. A
-- minute is named by the time at which it starts; the two maps of the source are lists.
pub mod Totals
use chi_jie.Prelude.{
  ℕ, zero, suc, ◌+◌, ◌-◌, ◌%◌, is_not_positive, magnitude, Bool, true, false, not, Option, none,
  some, List, [], ◌∷◌, ◌++◌, map, reverse, if◌then◌else◌, ltb, ◌==◌, Str, is_nil, sort_by,
}
use chi_jie.Util.{contains_string}
use chi_jie.Traffic.Types.{Trace, TrafficConfig}
use chi_jie.Traffic.Group.{UrlApi, success_fold_group, is_failure, failure_group_key}
use chi_jie.Traffic.Metrics.{average, p95}

pub record Bucket : Type 0 where
  pub time : ℕ
  pub requests : ℕ
  pub failures : ℕ
  pub avg_latency_ms : ℕ
  pub p95_latency_ms : ℕ

abbrev pub minute : ℕ
minute = 60_000_000_000

abbrev pub day : ℕ
day = 86_400_000_000_000

-- Time.Truncate(time.Minute), which counts from the zero time
unfoldable pub truncate_minute : ℕ → ℕ
truncate_minute t = t - t % minute

-- The buckets, the latencies of each, and the keys of the failures seen.
pub record SeriesState : Type 0 where
  pub buckets : List Bucket
  pub latencies : List (ℕ × List ℕ)
  pub seen : List Str

abbrev pub no_series : SeriesState
no_series = record { buckets = []; latencies = []; seen = [] }

unfoldable pub new_bucket : ℕ → Bucket
new_bucket m = record {
  time = m;
  requests = 0;
  failures = 0;
  avg_latency_ms = 0;
  p95_latency_ms = 0;
}

-- The bucket of a minute, made if there is none, under a change of its counts.
unfoldable pub change_bucket : ℕ → (Bucket → Bucket) → List Bucket → List Bucket
unfolding new_bucket
change_bucket m f [] = f (new_bucket m) ∷ []
change_bucket m f (b ∷ bs) =
    let rest = b ∷ change_bucket m f bs in if b.time == m then f b ∷ bs else rest

unfoldable pub latencies_of : ℕ → List (ℕ × List ℕ) → List ℕ
latencies_of m [] = []
latencies_of m ((k, values) ∷ more) = if k == m then values else latencies_of m more

unfoldable pub add_latency : ℕ → ℕ → List (ℕ × List ℕ) → List (ℕ × List ℕ)
add_latency m latency [] = (m, latency ∷ []) ∷ []
add_latency m latency ((k, values) ∷ more) =
    let rest = (k, values) ∷ add_latency m latency more in
    if k == m then (k, values ++ latency ∷ []) ∷ more else rest

abbrev pub one_request : Bucket → Bucket
one_request b = record b { requests = suc b.requests }

abbrev pub one_failure : Bucket → Bucket
one_failure b = record b { requests = suc b.requests; failures = suc b.failures }

abbrev pub untouched : Bucket → Bucket
untouched b = b

unfoldable pub series_success : Trace → ℕ → SeriesState → SeriesState
unfolding change_bucket add_latency
series_success t m s = record s {
  buckets = change_bucket m one_request s.buckets;
  latencies =
      if is_not_positive t.latency_ms
      then s.latencies
      else add_latency m (magnitude t.latency_ms) s.latencies;
}

-- A failure whose key was seen before leaves its bucket as it is, or empty.
unfoldable pub series_failure : Str → ℕ → SeriesState → SeriesState
unfolding change_bucket contains_string
series_failure key m s =
    if is_nil key
    then record s { buckets = change_bucket m one_failure s.buckets }
    else if contains_string s.seen key
    then record s { buckets = change_bucket m untouched s.buckets }
    else record s { buckets = change_bucket m one_failure s.buckets; seen = key ∷ s.seen }

unfoldable pub finish_bucket : List (ℕ × List ℕ) → Bucket → Bucket
unfolding latencies_of average p95
finish_bucket latencies b = record b {
  avg_latency_ms = average (latencies_of b.time latencies);
  p95_latency_ms = p95 (latencies_of b.time latencies);
}

abbrev pub less_time : Bucket → Bucket → Bool
less_time a b = ltb a.time b.time

module _ (urls : UrlApi) (c : TrafficConfig) where
  unfoldable pub series_trace : ℕ → Trace → SeriesState → SeriesState
  unfolding success_fold_group is_failure failure_group_key truncate_minute series_success
      series_failure
  series_trace since t s = elim (success_fold_group urls t c) [
    | some fold ↦ s
    | none ↦
        if ltb (truncate_minute t.timestamp) since
        then s
        else if is_failure t
        then series_failure (failure_group_key urls t c) (truncate_minute t.timestamp) s
        else series_success t (truncate_minute t.timestamp) s
  ]

  unfoldable pub series_all : ℕ → List Trace → SeriesState → SeriesState
  unfolding series_trace
  series_all since [] s = s
  series_all since (t ∷ ts) s = series_all since ts (series_trace since t s)

  unfoldable pub build_series : List Trace → ℕ → List Bucket
  unfolding series_all finish_bucket sort_by truncate_minute
  build_series traces now =
      let s = series_all (truncate_minute (now - day)) (reverse traces) no_series in
      sort_by less_time (map (finish_bucket s.latencies) s.buckets)
