-- ===== src/Traffic/Series/Totals.antt =====
-- The buckets of the last day beside the metrics.
use chi_jie.Prelude.{
  ℕ, ◌+◌, ◌-◌, ◌≤◌, ◌≡◌, refl, ap, ◌∙◌, Bool, true, false, List, [], ◌∷◌, map, reverse, Str, arith,
  Bool-cases, Option-cases, inl, inr, is_nil, ltb, All, All-append, insert_sorted, sort_by,
}
use mathlib.Core.List.{reverse-append}
use chi_jie.Util.{contains_string}
use chi_jie.Traffic.Types.{Trace, TrafficConfig}
use chi_jie.Traffic.Group.{UrlApi, success_fold_group, is_failure, failure_group_key}
use chi_jie.Traffic.Metrics.{
  Tally, empty_tally, tally_trace, tally, tally_failure, count_ignored, count_success,
  count_repeated, count_failure, metrics_of,
}
use chi_jie.Traffic.Series.{
  Bucket, SeriesState, no_series, new_bucket, change_bucket, one_request, one_failure, untouched,
  series_success, series_failure, series_trace, series_all, build_series, finish_bucket, less_time,
  truncate_minute, day,
}

pub requests_in : List Bucket → ℕ
requests_in [] = 0
requests_in (b ∷ bs) = b.requests + requests_in bs

pub failures_in : List Bucket → ℕ
failures_in [] = 0
failures_in (b ∷ bs) = b.failures + failures_in bs

-- The buckets hold what the tally counts, over the same keys.
record Agrees (s : SeriesState) (y : Tally) : Type 0 where
  requests : requests_in s.buckets ≡ y.counts.requests
  failures : failures_in s.buckets ≡ y.counts.failures
  seen : s.seen ≡ y.seen

change_bucket_totals :
    (m r k : ℕ) (f : Bucket → Bucket) (bs : List Bucket)
    → ((b : Bucket) → ((f b).requests ≡ b.requests + r) × ((f b).failures ≡ b.failures + k))
    → (requests_in (change_bucket m f bs) ≡ requests_in bs + r)
      × (failures_in (change_bucket m f bs) ≡ failures_in bs + k)
unfolding change_bucket requests_in failures_in new_bucket
change_bucket_totals m r k f [] h = ground (arith, h (new_bucket m))
change_bucket_totals m r k f (b ∷ bs) h = ground (arith, h b, change_bucket_totals m r k f bs h)

one_request_totals :
    (m : ℕ) (bs : List Bucket)
    → (requests_in (change_bucket m one_request bs) ≡ requests_in bs + 1)
      × (failures_in (change_bucket m one_request bs) ≡ failures_in bs + 0)
one_request_totals m bs =
    change_bucket_totals m 1 0 one_request bs (λ b. (omega arith, omega arith))

one_failure_totals :
    (m : ℕ) (bs : List Bucket)
    → (requests_in (change_bucket m one_failure bs) ≡ requests_in bs + 1)
      × (failures_in (change_bucket m one_failure bs) ≡ failures_in bs + 1)
one_failure_totals m bs =
    change_bucket_totals m 1 1 one_failure bs (λ b. (omega arith, omega arith))

untouched_totals :
    (m : ℕ) (bs : List Bucket)
    → (requests_in (change_bucket m untouched bs) ≡ requests_in bs + 0)
      × (failures_in (change_bucket m untouched bs) ≡ failures_in bs + 0)
untouched_totals m bs = change_bucket_totals m 0 0 untouched bs (λ b. (omega arith, omega arith))

series_success-Agrees :
    (t : Trace) (m : ℕ) (s : SeriesState) (y : Tally)
    → Agrees s y
    → Agrees (series_success t m s) (count_success t y)
unfolding series_success count_success
series_success-Agrees t m s y a = record {
  requests = omega (arith, one_request_totals m s.buckets, a.requests);
  failures = omega (arith, one_request_totals m s.buckets, a.failures);
  seen = a.seen;
}

series_failure-Agrees :
    (t : Trace) (key : Str) (m : ℕ) (s : SeriesState) (y : Tally)
    → Agrees s y
    → Agrees (series_failure key m s) (tally_failure t key y)
unfolding series_failure tally_failure count_repeated count_failure
series_failure-Agrees t key m s y a = elim (Bool-cases (is_nil key)) [
  | inl e ↦ rw e (record {
    requests = omega (arith, one_failure_totals m s.buckets, a.requests);
    failures = omega (arith, one_failure_totals m s.buckets, a.failures);
    seen = a.seen;
  })
  | inr e ↦ elim (Bool-cases (contains_string y.seen key)) [
    | inl k ↦
        rw (e, k, same true k)
          (record {
            requests = omega (arith, untouched_totals m s.buckets, a.requests);
            failures = omega (arith, untouched_totals m s.buckets, a.failures);
            seen = a.seen;
          })
    | inr k ↦
        rw (e, k, same false k)
          (record {
            requests = omega (arith, one_failure_totals m s.buckets, a.requests);
            failures = omega (arith, one_failure_totals m s.buckets, a.failures);
            seen = ap (λ ks. key ∷ ks) a.seen;
          })
  ]
]
  where
    same : (b : Bool) → contains_string y.seen key ≡ b → contains_string s.seen key ≡ b
    same b h = ap (λ ks. contains_string ks key) a.seen ∙ h

-- A trace of the last day, by the minute.
abbrev pub IsRecent : ℕ → Trace → Type 0
IsRecent now t = truncate_minute (now - day) ≤ truncate_minute t.timestamp

module _ (urls : UrlApi) (c : TrafficConfig) where
  series_trace-Agrees :
      (since : ℕ) (t : Trace) (s : SeriesState) (y : Tally)
      → since ≤ truncate_minute t.timestamp
      → Agrees s y
      → Agrees (series_trace urls c since t s) (tally_trace urls c t y)
  unfolding series_trace tally_trace count_ignored
  series_trace-Agrees since t s y h a = elim (Option-cases (success_fold_group urls t c)) [
    | inr (f, e) ↦
        rw (e, series_trace, tally_trace)
          (record { requests = a.requests; failures = a.failures; seen = a.seen })
    | inl e ↦ elim (Bool-cases (is_failure t)) [
      | inl f ↦
          rw (e, series_trace, tally_trace)
            (rw (f, in_window since (truncate_minute t.timestamp) h)
              (series_failure-Agrees t (failure_group_key urls t c) (truncate_minute t.timestamp) s
                y a))
      | inr f ↦
          rw (e, series_trace, tally_trace)
            (rw (f, in_window since (truncate_minute t.timestamp) h)
              (series_success-Agrees t (truncate_minute t.timestamp) s y a))
    ]
  ]
    where
      in_window : (a b : ℕ) → a ≤ b → ltb b a ≡ false
      in_window a b h = ground arith

  series_all-Agrees :
      (since : ℕ) (ts : List Trace) (s : SeriesState) (y : Tally)
      → All (λ t. since ≤ truncate_minute t.timestamp) ts
      → Agrees s y
      → Agrees (series_all urls c since ts s) (tally urls c ts y)
  unfolding series_all tally
  series_all-Agrees since [] s y h a = a
  series_all-Agrees since (t ∷ ts) s y h a =
      series_all-Agrees since ts _ _ h.1 (series_trace-Agrees since t s y h.0 a)

insert_sorted_totals :
    (b : Bucket) (bs : List Bucket)
    → (requests_in (insert_sorted less_time b bs) ≡ b.requests + requests_in bs)
      × (failures_in (insert_sorted less_time b bs) ≡ b.failures + failures_in bs)
unfolding insert_sorted requests_in failures_in
insert_sorted_totals b [] = (refl, refl)
insert_sorted_totals b (d ∷ bs) = ground (arith, insert_sorted_totals b bs)

sort_by_totals :
    (bs : List Bucket)
    → (requests_in (sort_by less_time bs) ≡ requests_in bs)
      × (failures_in (sort_by less_time bs) ≡ failures_in bs)
unfolding sort_by requests_in failures_in
sort_by_totals [] = (refl, refl)
sort_by_totals (b ∷ bs) =
    omega (arith, sort_by_totals bs, insert_sorted_totals b (sort_by less_time bs))

finish_totals :
    (l : List (ℕ × List ℕ)) (bs : List Bucket)
    → (requests_in (map (finish_bucket l) bs) ≡ requests_in bs)
      × (failures_in (map (finish_bucket l) bs) ≡ failures_in bs)
unfolding requests_in failures_in finish_bucket
finish_totals l [] = (refl, refl)
finish_totals l (b ∷ bs) = omega (arith, finish_totals l bs)

All-reverse : (P : Trace → Type 0) (ts : List Trace) → All P ts → All P (reverse ts)
All-reverse P [] h = tt
All-reverse P (t ∷ ts) h =
    rw (reverse-append (t ∷ []) ts)
      (All-append P (reverse ts) (t ∷ []) (All-reverse P ts h.1) (h.0, tt))

-- Where all the traces held are of the last day, the buckets of the series sum up to the requests
-- and to the failures of the metrics.
pub build_series-metrics_of :
    (urls : UrlApi) (c : TrafficConfig) (traces : List Trace) (now active_tunnels : ℕ)
    → All (IsRecent now) traces
    → (requests_in (build_series urls c traces now)
        ≡ (metrics_of urls c traces active_tunnels).counts.requests)
      × (failures_in (build_series urls c traces now)
          ≡ (metrics_of urls c traces active_tunnels).counts.failures)
unfolding build_series metrics_of requests_in failures_in
build_series-metrics_of urls c traces now active_tunnels h =
    let since = truncate_minute (now - day) in
    let s = series_all urls c since (reverse traces) no_series in
    let start : Agrees no_series empty_tally = record {
      requests = refl;
      failures = refl;
      seen = refl;
    } in
    let a =
      series_all-Agrees urls c since (reverse traces) no_series empty_tally
        (All-reverse (IsRecent now) traces h) start in
    omega (
      arith,
      sort_by_totals (map (finish_bucket s.latencies) s.buckets),
      finish_totals s.latencies s.buckets,
      a.requests,
      a.failures,
    )
