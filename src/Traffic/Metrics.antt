-- ===== src/Traffic/Metrics.antt =====
-- metricsLocked of internal/traffic/store.go: the counts and latencies of the traces held, from the
-- newest to the oldest. The two quotients that the source computes in floating point, the success
-- rate and the requests per minute, are left out.
pub mod Balance
pub mod Failures
use chi_jie.Prelude.{
  ℕ, zero, suc, ◌+◌, ◌-◌, ◌*◌, ◌/◌, ℤ, is_not_positive, magnitude, Bool, true, false, not, Option,
  none, some, List, [], ◌∷◌, ◌++◌, reverse, if◌then◌else◌, ltb, leb, length, get_elem?, Str, is_nil,
  sort_by,
}
use chi_jie.Util.{contains_string}
use chi_jie.Traffic.Types.{Trace, TrafficConfig}
use chi_jie.Traffic.Group.{UrlApi, success_fold_group, is_failure, failure_group_key}

pub record Counts : Type 0 where
  pub requests : ℕ
  pub success : ℕ
  pub failures : ℕ
  pub raw_requests : ℕ
  pub raw_failures : ℕ
  pub ignored_success : ℕ
  pub request_bytes : ℕ
  pub response_bytes : ℕ

-- The counts so far, the latencies, and the keys of the failures seen.
pub record Tally : Type 0 where
  pub counts : Counts
  pub latencies : List ℕ
  pub seen : List Str

abbrev pub no_counts : Counts
no_counts = record {
  requests = 0;
  success = 0;
  failures = 0;
  raw_requests = 0;
  raw_failures = 0;
  ignored_success = 0;
  request_bytes = 0;
  response_bytes = 0;
}

abbrev pub empty_tally : Tally
empty_tally = record { counts = no_counts; latencies = []; seen = [] }

abbrev pub add_bytes : Trace → Counts → Counts
add_bytes t c = record c {
  request_bytes = c.request_bytes + t.request_bytes;
  response_bytes = c.response_bytes + t.response_bytes;
}

unfoldable pub count_ignored : Tally → Tally
count_ignored y = record y {
  counts = record y.counts {
    raw_requests = suc y.counts.raw_requests;
    ignored_success = suc y.counts.ignored_success;
  };
}

unfoldable pub count_success : Trace → Tally → Tally
count_success t y = record y {
  counts = add_bytes t (record y.counts {
    raw_requests = suc y.counts.raw_requests;
    requests = suc y.counts.requests;
    success = suc y.counts.success;
  });
  latencies =
      if is_not_positive t.latency_ms
      then y.latencies
      else y.latencies ++ magnitude t.latency_ms ∷ [];
}

-- A failure whose key was seen before.
unfoldable pub count_repeated : Trace → Tally → Tally
count_repeated t y = record y {
  counts = add_bytes t (record y.counts {
    raw_requests = suc y.counts.raw_requests;
    raw_failures = suc y.counts.raw_failures;
  });
}

unfoldable pub count_failure : Trace → List Str → Tally → Tally
count_failure t seen y = record y {
  counts = add_bytes t (record y.counts {
    raw_requests = suc y.counts.raw_requests;
    raw_failures = suc y.counts.raw_failures;
    requests = suc y.counts.requests;
    failures = suc y.counts.failures;
  });
  seen = seen;
}

unfoldable pub tally_failure : Trace → Str → Tally → Tally
unfolding count_repeated count_failure contains_string
tally_failure t key y =
    if is_nil key
    then count_failure t y.seen y
    else if contains_string y.seen key
    then count_repeated t y
    else count_failure t (key ∷ y.seen) y

module _ (urls : UrlApi) (c : TrafficConfig) where
  unfoldable pub tally_trace : Trace → Tally → Tally
  unfolding success_fold_group is_failure failure_group_key count_ignored tally_failure
      count_success
  tally_trace t y = elim (success_fold_group urls t c) [
    | some fold ↦ count_ignored y
    | none ↦
        if is_failure t then tally_failure t (failure_group_key urls t c) y else count_success t y
  ]

  unfoldable pub tally : List Trace → Tally → Tally
  unfolding tally_trace
  tally [] y = y
  tally (t ∷ ts) y = tally ts (tally_trace t y)

unfoldable pub sum : List ℕ → ℕ
sum [] = 0
sum (x ∷ xs) = x + sum xs

-- The index `int(float64(n)*0.95) - 1`, at least 0 and below n: for every length up to 200,000 the
-- product in floating point rounds to a number whose whole part is n*95/100.
unfoldable pub percentile_index : ℕ → ℕ
percentile_index n = let i = n * 95 / 100 - 1 in if leb n i then n - 1 else i

-- An empty list is never passed.
unfoldable pub percentile95 : List ℕ → ℕ
unfolding percentile_index
percentile95 sorted = elim (get_elem? sorted (percentile_index (length sorted))) [
  | none ↦ 0
  | some latency ↦ latency
]

pub record Metrics : Type 0 where
  pub counts : Counts
  pub active_tunnels : ℕ
  pub avg_latency_ms : ℕ
  pub p95_latency_ms : ℕ

unfoldable pub average : List ℕ → ℕ
unfolding sum
average latencies = if is_nil latencies then 0 else sum latencies / length latencies

unfoldable pub p95 : List ℕ → ℕ
unfolding percentile95 sort_by
p95 latencies = if is_nil latencies then 0 else percentile95 (sort_by ltb latencies)

-- The traces held, oldest first, and the open tunnels.
unfoldable pub metrics_of : UrlApi → TrafficConfig → List Trace → ℕ → Metrics
unfolding tally average p95
metrics_of urls c traces active_tunnels =
    let y = tally urls c (reverse traces) empty_tally in
    record {
      counts = y.counts;
      active_tunnels = active_tunnels;
      avg_latency_ms = average y.latencies;
      p95_latency_ms = p95 y.latencies;
    }
