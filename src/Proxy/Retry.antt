-- ===== src/Proxy/Retry.antt =====
-- doProxyWithRetry of internal/server/server.go. One attempt, doProxy, is network traffic: `try` is
-- what it returns, by its place in the sequence and its route, with what the request's context says
-- at the two tests that follow a failure.
pub mod Runs
pub mod Failover
use chi_jie.Prelude.{
  ℕ, ◌+◌, Bool, true, false, not, ◌||◌, ◌&&◌, Option, none, some, List, [], ◌∷◌, ◌++◌,
  if◌then◌else◌, Str, text, is_nil,
}
use chi_jie.Pool.Types.{EgressChoice, Manager}
use chi_jie.Pool.Nodes.{mark_node_unavailable}
use chi_jie.Proxy.Settings.{ProxySettings, proxy_settings}
use chi_jie.Proxy.Egress.{EgressRoute}
use chi_jie.Proxy.Attempts.{proxy_attempt_routes}

-- An error of doProxy: whether errors.As finds a proxyRedirectError or a proxyAttemptError in it.
pub record AttemptError : Type 0 where
  pub is_redirect : Bool
  pub is_attempt : Bool
  pub message : Str

pub data Outcome (R : Type 0) : Type 0 where
  responded : R → Outcome R
  broke : AttemptError → Outcome R

pub record Observed (R : Type 0) : Type 0 where
  pub outcome : Outcome R
  pub done_at_mark : Bool
  pub done_at_break : Bool

pub data Proxied (R : Type 0) : Type 0 where
  answered : R → EgressRoute → Proxied R
  gave_up : Option EgressRoute → Str → Proxied R

-- isRetryableProxyAttempt
unfoldable pub is_retryable : Bool → AttemptError → Bool
is_retryable done e = not done && (not e.is_redirect && e.is_attempt)

-- routeAttemptName
unfoldable pub route_attempt_name : EgressRoute → Str
route_attempt_name route = elim route.choice [
  | none ↦ route.group
  | some c ↦
      if not (is_nil c.node_name)
      then c.node_name
      else if not (is_nil c.pool_name)
      then c.pool_name
      else route.group
]

-- markAttemptNodeUnavailable
unfoldable pub mark_attempt_node_unavailable : Manager → EgressRoute → Manager
unfolding mark_node_unavailable
mark_attempt_node_unavailable m route = elim route.choice [
  | none ↦ m
  | some c ↦ if c.template then m else (mark_node_unavailable m c.pool_name c.node_name).1
]

-- `strings.Join(attemptErrors, "; ")`
unfoldable pub join_errors : List Str → Str
join_errors [] = []
join_errors (s ∷ []) = s
join_errors (s ∷ (t ∷ more)) = s ++ (text "; " ++ join_errors (t ∷ more))

-- The error returned after the attempts, from those before the last, the last one's line and itself.
unfoldable pub final_message : List Str → Str → AttemptError → Str
unfolding join_errors
final_message earlier line e =
    if is_nil earlier then e.message else join_errors (earlier ++ (line ∷ []))

module _ {R : Type 0} (try : ℕ → EgressRoute → Observed R) where
  -- The state after a failed attempt's mark.
  unfoldable pub mark_failed : Manager → EgressRoute → Bool → AttemptError → Manager
  unfolding is_retryable mark_attempt_node_unavailable
  mark_failed m route done e =
      if is_retryable done e then mark_attempt_node_unavailable m route else m

  -- The loop over the attempts, with the index, the errors so far and the last route.
  unfoldable pub retry :
      ℕ → Manager → List Str → Option EgressRoute → List EgressRoute → Proxied R × Manager
  unfolding mark_failed final_message route_attempt_name is_retryable
  retry i m errors last [] = (gave_up last (text "proxy request failed"), m)
  retry i m errors last (route ∷ routes) = elim (try i route).outcome [
    | responded r ↦ (answered r route, m)
    | broke e ↦
        (let line = route_attempt_name route ++ (text ": " ++ e.message) in
          let marked = mark_failed m route (try i route).done_at_mark e in
          let more = retry (i + 1) marked (errors ++ (line ∷ [])) (some route) routes in
          if is_nil routes || not (is_retryable (try i route).done_at_break e)
          then (gave_up (some route) (final_message errors line e), marked)
          else more)
  ]

  -- doProxyWithRetry, with the settings that the server holds
  unfoldable pub do_proxy_with_retry : ProxySettings → Manager → EgressRoute → Proxied R × Manager
  unfolding retry
  do_proxy_with_retry held m route =
      retry 0 m [] none (proxy_attempt_routes route (proxy_settings held))
