-- ===== src/Traffic/Metrics/Balance.antt =====
-- How the counts of the metrics hang together.
use chi_jie.Prelude.{
  ℕ, suc, ◌+◌, ◌≤◌, ◌≡◌, List, [], ◌∷◌, length, length-reverse, reverse, Str, arith, Bool-cases,
  Option-cases, inl, inr, subst,
}
use chi_jie.Traffic.Types.{Trace, TrafficConfig}
use chi_jie.Traffic.Group.{UrlApi, success_fold_group, is_failure, failure_group_key}
use chi_jie.Traffic.Metrics.{
  Counts, Tally, empty_tally, tally_trace, tally, tally_failure, count_ignored, count_success,
  count_repeated, count_failure, metrics_of,
}

-- So many traces are accounted for.
pub record IsBalanced (n : ℕ) (c : Counts) : Type 0 where
  pub all : c.raw_requests ≡ n
  pub split : c.raw_requests ≡ c.ignored_success + c.success + c.raw_failures
  pub shown : c.requests ≡ c.success + c.failures
  pub grouped : c.failures ≤ c.raw_failures

tally_failure-IsBalanced :
    (n : ℕ) (t : Trace) (key : Str) (y : Tally)
    → IsBalanced n y.counts
    → IsBalanced (suc n) (tally_failure t key y).counts
unfolding tally_failure count_repeated count_failure
tally_failure-IsBalanced n t key y b = ground arith

count_success-IsBalanced :
    (n : ℕ) (t : Trace) (y : Tally)
    → IsBalanced n y.counts
    → IsBalanced (suc n) (count_success t y).counts
unfolding count_success
count_success-IsBalanced n t y b = ground arith

count_ignored-IsBalanced :
    (n : ℕ) (y : Tally) → IsBalanced n y.counts → IsBalanced (suc n) (count_ignored y).counts
unfolding count_ignored
count_ignored-IsBalanced n y b = ground arith

module _ (urls : UrlApi) (c : TrafficConfig) where
  tally_trace-IsBalanced :
      (n : ℕ) (t : Trace) (y : Tally)
      → IsBalanced n y.counts
      → IsBalanced (suc n) (tally_trace urls c t y).counts
  unfolding tally_trace
  tally_trace-IsBalanced n t y b = elim (Option-cases (success_fold_group urls t c)) [
    | inr (f, e) ↦ rw (e, tally_trace) (count_ignored-IsBalanced n y b)
    | inl e ↦ elim (Bool-cases (is_failure t)) [
      | inl f ↦
          rw (e, tally_trace) (rw f (tally_failure-IsBalanced n t (failure_group_key urls t c) y b))
      | inr f ↦ rw (e, tally_trace) (rw f (count_success-IsBalanced n t y b))
    ]
  ]

  tally-IsBalanced :
      (ts : List Trace) (n : ℕ) (y : Tally)
      → IsBalanced n y.counts
      → IsBalanced (length ts + n) (tally urls c ts y).counts
  unfolding tally
  tally-IsBalanced [] n y b = subst (λ m. IsBalanced m y.counts) (omega arith) b
  tally-IsBalanced (t ∷ ts) n y b =
      let y' = tally_trace urls c t y in
      subst (λ m. IsBalanced m (tally urls c ts y').counts) (omega arith)
        (tally-IsBalanced ts (suc n) y' (tally_trace-IsBalanced n t y b))

  -- The metrics account for every trace held: each is an ignored success, a success or a failure;
  -- the requests shown are the successes and the failures shown, of which there are no more than
  -- failures.
  pub metrics_of-IsBalanced :
      (traces : List Trace) (active_tunnels : ℕ)
      → IsBalanced (length traces) (metrics_of urls c traces active_tunnels).counts
  unfolding metrics_of
  metrics_of-IsBalanced traces active_tunnels =
      subst (λ m. IsBalanced m (tally urls c (reverse traces) empty_tally).counts)
        (omega (arith, length-reverse traces))
        (tally-IsBalanced (reverse traces) 0 empty_tally (omega arith))
