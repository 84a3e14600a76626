-- ===== src/Proxy/Retry/Runs.antt =====
-- Runs of the loop over the attempts: past failures that fail over, to the attempt that ends them.
use mathlib.Core.List.{append_assoc, append-nil}
use chi_jie.Prelude.{
  ℕ, suc, ◌∙◌, ◌+◌, ◌≡◌, ◌⊎◌, inl, inr, refl, ap, Bool, true, false, not, ◌&&◌, ◌||◌, Option, some,
  List, [], ◌∷◌, ◌++◌, Str, text, is_nil, length, arith,
}
use chi_jie.Pool.Types.{Manager}
use chi_jie.Proxy.Egress.{EgressRoute}
use chi_jie.Proxy.Retry.{
  AttemptError, Outcome, responded, broke, Observed, answered, gave_up, is_retryable,
  route_attempt_name, mark_attempt_node_unavailable, final_message, mark_failed, retry,
}

-- The manager after the nodes of several routes are marked, one after the other.
unfoldable pub mark_all : Manager → List EgressRoute → Manager
mark_all m [] = m
mark_all m (r ∷ rs) = mark_all (mark_attempt_node_unavailable m r) rs

-- A failure's line in the error that the request returns.
abbrev pub error_line : EgressRoute → AttemptError → Str
error_line route e = route_attempt_name route ++ (text ": " ++ e.message)

pub add_zero : (i : ℕ) → i + 0 ≡ i
add_zero i = omega arith

pub zero_add : (i : ℕ) → 0 + i ≡ i
zero_add i = omega arith

pub suc_add : (i n : ℕ) → i + 1 + n ≡ i + suc n
suc_add i n = omega arith

module _ {R : Type 0} where
  -- The attempt failed, and the code may turn to the next one.
  abbrev pub fails_over : Observed R → Bool
  fails_over o = elim o.outcome [
    | responded x ↦ false
    | broke e ↦ is_retryable o.done_at_mark e && is_retryable o.done_at_break e
  ]

  abbrev pub failure_line : EgressRoute → Observed R → List Str
  failure_line r o = elim o.outcome [ responded x ↦ [] | broke e ↦ error_line r e ∷ [] ]

  pub Outcome-cases :
      (o : Outcome R) → ((x : R) × (o ≡ responded x)) ⊎ ((e : AttemptError) × (o ≡ broke e))
  Outcome-cases (responded x) = inl (x, refl)
  Outcome-cases (broke e) = inr (e, refl)

module _ {R : Type 0} (try : ℕ → EgressRoute → Observed R) where
  -- The attempts at the routes, from the i-th on, all fail over.
  abbrev pub FailedOver : ℕ → List EgressRoute → Type 0
  FailedOver i [] = Unit
  FailedOver i (r ∷ rs) = (fails_over (try i r) ≡ true) × FailedOver (i + 1) rs

  -- The lines of those failures.
  unfoldable pub error_lines : ℕ → List EgressRoute → List Str
  error_lines i [] = []
  error_lines i (r ∷ rs) = failure_line r (try i r) ++ error_lines (i + 1) rs

  step_past :
      (i : ℕ) (m : Manager) (errors : List Str) (last : Option EgressRoute) (r : EgressRoute)
      (more : List EgressRoute)
      → fails_over (try i r) ≡ true
      → is_nil more ≡ false
      → retry try i m errors last (r ∷ more)
        ≡ retry try
            (i + 1)
            (mark_attempt_node_unavailable m r)
            (errors ++ failure_line r (try i r))
            (some r)
            more
  unfolding retry mark_failed
  step_past i m errors last r more f nonempty = elim (Outcome-cases (try i r).outcome) [
    | inl (x, e) ↦ absurd (ground arith)
    | inr (a, e) ↦ ground arith
  ]

  is_nil-append :
      (before : List EgressRoute) (r : EgressRoute) (after : List EgressRoute)
      → is_nil (before ++ (r ∷ after)) ≡ false
  is_nil-append [] r after = refl
  is_nil-append (b ∷ before) r after = refl

  -- On some route the last one does not matter.
  retry_last :
      (i : ℕ) (m : Manager) (errors : List Str) (last last' : Option EgressRoute)
      (more : List EgressRoute)
      → is_nil more ≡ false
      → retry try i m errors last more ≡ retry try i m errors last' more
  unfolding retry
  retry_last i m errors last last' [] h = absurd (cc)
  retry_last i m errors last last' (r ∷ more) h = refl

  retry_past :
      (i : ℕ) (m : Manager) (errors : List Str) (last : Option EgressRoute)
      → (before : List EgressRoute) (route : EgressRoute) (after : List EgressRoute)
      → FailedOver i before
      → retry try i m errors last (before ++ (route ∷ after))
        ≡ retry try
            (i + length before)
            (mark_all m before)
            (errors ++ error_lines i before)
            last
            (route ∷ after)
  unfolding retry mark_all error_lines
  retry_past i m errors last [] route after f = rw (append-nil errors, add_zero i) refl
  retry_past i m errors last (r ∷ rs) route after f =
      step_past i m errors last r (rs ++ (route ∷ after)) f.0 (is_nil-append rs route after)
      ∙ (retry_last (i + 1) _ _ (some r) last (rs ++ (route ∷ after)) (is_nil-append rs route after)
          ∙ (retry_past (i + 1) (mark_attempt_node_unavailable m r)
                (errors ++ failure_line r (try i r)) last rs route after f.1
              ∙ (ap
                    (λ n.
                      retry try n (mark_all m (r ∷ rs))
                        ((errors ++ failure_line r (try i r)) ++ error_lines (i + 1) rs) last
                        (route ∷ after))
                    (suc_add i (length rs))
                  ∙ ap
                      (λ es.
                        retry try (i + suc (length rs)) (mark_all m (r ∷ rs)) es last
                          (route ∷ after))
                      (append_assoc errors (failure_line r (try i r)) (error_lines (i + 1) rs)))))

  stop_at :
      (i : ℕ) (m : Manager) (errors : List Str) (last : Option EgressRoute) (route : EgressRoute)
      (after : List EgressRoute) (a : AttemptError)
      → (try i route).outcome ≡ broke a
      → (is_nil after || not (is_retryable (try i route).done_at_break a)) ≡ true
      → retry try i m errors last (route ∷ after) ≡ (
        gave_up (some route) (final_message errors (error_line route a) a),
        mark_failed try m route (try i route).done_at_mark a,
      )
  unfolding retry
  stop_at i m errors last route after a e stop = rw (e, stop, retry) refl

  -- Attempts that fail over, then an answer.
  pub retry_answered :
      (i : ℕ) (m : Manager) (errors : List Str) (last : Option EgressRoute)
      → (before : List EgressRoute) (route : EgressRoute) (after : List EgressRoute) (x : R)
      → FailedOver i before
      → (try (i + length before) route).outcome ≡ responded x
      → retry try i m errors last (before ++ (route ∷ after))
        ≡ (answered x route, mark_all m before)
  unfolding retry
  retry_answered i m errors last before route after x f e =
      retry_past i m errors last before route after f ∙ rw (e, retry) refl

  -- Attempts that fail over, then a failure that does not.
  pub retry_stopped :
      (m : Manager) (last : Option EgressRoute)
      → (before : List EgressRoute) (route : EgressRoute) (after : List EgressRoute)
        (a : AttemptError)
      → FailedOver 0 before
      → (try (length before) route).outcome ≡ broke a
      → (is_nil after || not (is_retryable (try (length before) route).done_at_break a)) ≡ true
      → retry try 0 m [] last (before ++ (route ∷ after)) ≡ (
        gave_up (some route) (final_message (error_lines 0 before) (error_line route a) a),
        mark_failed try (mark_all m before) route (try (length before) route).done_at_mark a,
      )
  unfolding retry
  retry_stopped m last before route after a f e stop =
      retry_past 0 m [] last before route after f
      ∙ rw (zero_add (length before)) (
          stop_at (length before) (mark_all m before) (error_lines 0 before) last route after a e
            stop)
