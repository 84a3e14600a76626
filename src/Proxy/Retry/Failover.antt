-- ===== src/Proxy/Retry/Failover.antt =====
-- What a request with several candidates returns, and what it leaves of the pools.
use chi_jie.Prelude.{
  ℕ, ◌+◌, ◌≡◌, ◌⊎◌, inl, inr, refl, ap, sym, subst, Bool-cases, true, false, not, ◌||◌, none, some,
  List, [], ◌∷◌, ◌++◌, is_nil, length, arith,
}
use chi_jie.Pool.Types.{Manager}
use chi_jie.Proxy.Settings.{ProxySettings, proxy_settings}
use chi_jie.Proxy.Egress.{EgressRoute}
use chi_jie.Proxy.Attempts.{proxy_attempt_routes}
use chi_jie.Proxy.Attempts.Limits.{some_attempt}
use chi_jie.Proxy.Retry.{
  AttemptError, responded, broke, Observed, answered, gave_up, is_retryable, final_message,
  mark_failed, do_proxy_with_retry,
}
use chi_jie.Proxy.Retry.Runs.{
  mark_all, error_line, fails_over, FailedOver, error_lines, Outcome-cases, zero_add, suc_add,
  add_zero, retry_answered, retry_stopped,
}

module _ {R : Type 0} (try : ℕ → EgressRoute → Observed R) where
  -- The code ends the sequence of attempts at this one.
  abbrev pub Ends : ℕ → EgressRoute → List EgressRoute → Type 0
  Ends i route after =
      ((x : R) × ((try i route).outcome ≡ responded x))
      ⊎ ((a : AttemptError) × (((try i route).outcome ≡ broke a)
            × ((is_nil after || not (is_retryable (try i route).done_at_break a)) ≡ true)))

  abbrev pub Split : ℕ → List EgressRoute → Type 0
  Split i routes =
      (before : List EgressRoute) × (route : EgressRoute) × (after : List EgressRoute) × ((routes
          ≡ before ++ (route ∷ after))
        × (FailedOver try i before × Ends (i + length before) route after))

  cons-Split :
      (i : ℕ) (r : EgressRoute) (rs : List EgressRoute)
      → fails_over (try i r) ≡ true
      → Split (i + 1) rs
      → Split i (r ∷ rs)
  cons-Split i r rs f (before, route, after, (e, (fs, ends))) = (
    r ∷ before,
    route,
    after,
    (
      ap (λ more. r ∷ more) e,
      ((f, fs), subst (λ n. Ends n route after) (suc_add i (length before)) ends),
    ),
  )

  module _
      (stays : (i : ℕ) (r : EgressRoute)
        → (try i r).done_at_mark ≡ true
        → (try i r).done_at_break ≡ true) where
    continues :
        (i : ℕ) (r : EgressRoute) (after : List EgressRoute) (a : AttemptError)
        → (try i r).outcome ≡ broke a
        → (is_nil after || not (is_retryable (try i r).done_at_break a)) ≡ false
        → (fails_over (try i r) ≡ true) × (is_nil after ≡ false)
    unfolding is_retryable
    continues i r after a e go = ground (arith, stays i r)

    routes-Split : (i : ℕ) (routes : List EgressRoute) → is_nil routes ≡ false → Split i routes
    routes-Split i [] h = absurd (cc)
    routes-Split i (r ∷ rs) h = elim (Outcome-cases (try i r).outcome) [
      | inl (x, e) ↦
          ([], r, rs, (refl, (tt, subst (λ n. Ends n r rs) (sym (add_zero i)) (inl (x, e)))))
      | inr (a, e) ↦ elim (Bool-cases (is_nil rs || not (is_retryable (try i r).done_at_break a))) [
        | inl stop ↦ (
          [],
          r,
          rs,
          (refl, (tt, subst (λ n. Ends n r rs) (sym (add_zero i)) (inr (a, (e, stop))))),
        )
        | inr go ↦
            cons-Split i r rs (continues i r rs a e go).0
              (routes-Split (i + 1) rs (continues i r rs a e go).1)
      ]
    ]

module _ {R : Type 0} (try : ℕ → EgressRoute → Observed R) (held : ProxySettings) (m : Manager)
    (route : EgressRoute) where
  -- Let the routes that a request tries be some routes, then r, then others. If the attempts at
  -- the first ones all fail over and the attempt at r gets a response, the request returns that
  -- response and r, and the manager has the nodes of the routes before r marked, in their order,
  -- and nothing else changed.
  pub proxy_answered :
      (before : List EgressRoute) (r : EgressRoute) (after : List EgressRoute) (x : R)
      → proxy_attempt_routes route (proxy_settings held) ≡ before ++ (r ∷ after)
      → FailedOver try 0 before
      → (try (length before) r).outcome ≡ responded x
      → do_proxy_with_retry try held m route ≡ (answered x r, mark_all m before)
  unfolding do_proxy_with_retry
  proxy_answered before r after x e f h =
      rw e (retry_answered try 0 m [] none before r after x f (rw (zero_add (length before)) h))

  -- Let the routes that a request tries be some routes, then r, then others. If the attempts at
  -- the first ones all fail over and the attempt at r fails, with no route left or with a failure
  -- that the code does not retry, the request gives up at r with the error made from all the
  -- failures, the nodes before r are marked, and r's node is marked as well if the failure was
  -- retryable when the code marks.
  pub proxy_stopped :
      (before : List EgressRoute) (r : EgressRoute) (after : List EgressRoute) (a : AttemptError)
      → proxy_attempt_routes route (proxy_settings held) ≡ before ++ (r ∷ after)
      → FailedOver try 0 before
      → (try (length before) r).outcome ≡ broke a
      → (is_nil after || not (is_retryable (try (length before) r).done_at_break a)) ≡ true
      → do_proxy_with_retry try held m route ≡ (
        gave_up (some r) (final_message (error_lines try 0 before) (error_line r a) a),
        mark_failed try (mark_all m before) r (try (length before) r).done_at_mark a,
      )
  unfolding do_proxy_with_retry
  proxy_stopped before r after a e f h stop =
      rw e (retry_stopped try m none before r after a f h stop)

  -- The request ends at this attempt, and returns what the attempt did: its response, or the
  -- failure, after which no route was left or the code does not retry.
  abbrev pub EndsAs : List EgressRoute → EgressRoute → List EgressRoute → Type 0
  EndsAs before r after =
      ((x : R) × (((try (length before) r).outcome ≡ responded x)
          × (do_proxy_with_retry try held m route ≡ (answered x r, mark_all m before))))
      ⊎ ((a : AttemptError) × (((try (length before) r).outcome ≡ broke a)
            × (((is_nil after || not (is_retryable (try (length before) r).done_at_break a)) ≡ true)
                × (do_proxy_with_retry try held m route ≡ (
                  gave_up (some r) (final_message (error_lines try 0 before) (error_line r a) a),
                  mark_failed try (mark_all m before) r (try (length before) r).done_at_mark a,
                )))))

  ends_as :
      (before : List EgressRoute) (r : EgressRoute) (after : List EgressRoute)
      → proxy_attempt_routes route (proxy_settings held) ≡ before ++ (r ∷ after)
      → FailedOver try 0 before
      → Ends try (length before) r after
      → EndsAs before r after
  ends_as before r after e f (inl (x, h)) = inl (x, (h, proxy_answered before r after x e f h))
  ends_as before r after e f (inr (a, (h, stop))) =
      inr (a, (h, (stop, proxy_stopped before r after a e f h stop)))

  -- If a request's context, once done, stays done, then the routes that the request tries are some
  -- routes whose attempts all fail over, then one route r, then others, and the request ends at r.
  -- Either the attempt at r, in its place in the sequence, gets a response, and the request
  -- returns that response and r with the nodes before r marked; or it fails, with no route left or
  -- with a failure that the code does not retry, and the request gives up at r with the error made
  -- from the failures up to that one, with the nodes before r marked and r's node as well if that
  -- failure was retryable when the code marks.
  pub proxy_ends :
      ((i : ℕ) (r : EgressRoute) → (try i r).done_at_mark ≡ true → (try i r).done_at_break ≡ true)
      → (before : List EgressRoute) × (r : EgressRoute) × (after : List EgressRoute)
        × ((proxy_attempt_routes route (proxy_settings held) ≡ before ++ (r ∷ after))
            × (FailedOver try 0 before × EndsAs before r after))
  proxy_ends stays =
      let (before, r, after, (e, (f, ends))) =
        routes-Split try stays 0 _ (some_attempt route (proxy_settings held)) in
      (
        before,
        r,
        after,
        (
          e,
          (
            f,
            ends_as before r after e f
                (subst (λ n. Ends try n r after) (zero_add (length before)) ends),
          ),
        ),
      )
