-- ===== src/Examples/Proxy.antt =====
-- A request that fails over from one node to the next.
use chi_jie.Prelude.{
  ℕ, zero, suc, ◌≡◌, refl, true, false, Option, some, List, [], ◌∷◌, ◌++◌, map, Str, text, ℤ, pos,
  select, take, magnitude, any,
}
use chi_jie.Pool.Types.{EgressChoice}
use chi_jie.Proxy.Settings.{
  ProxySettings, ProxySettingsConfig, default_proxy_settings, proxy_settings,
  validate_proxy_settings,
}
use chi_jie.Proxy.Settings.Bounds.{IsBounded, proxy_settings-IsBounded}
use chi_jie.Proxy.Egress.{EgressRoute, EgressOptions, resolve_egress}
use chi_jie.Proxy.Egress.Safety.{panics, resolve_egress_safe}
use chi_jie.Proxy.Attempts.{attempt_route, is_node_choice, checked_settings, proxy_attempt_routes}
use chi_jie.Proxy.Attempts.Limits.{
  at_node, at_template, is_admitted, nodes_of_attempts, templates_of_attempts,
}
use chi_jie.Proxy.Retry.{
  AttemptError, is_retryable, Observed, responded, broke, answered, gave_up, do_proxy_with_retry,
  final_message, mark_failed,
}
use chi_jie.Proxy.Retry.Runs.{FailedOver, mark_all, error_line, error_lines}
use chi_jie.Proxy.Retry.Failover.{EndsAs, proxy_answered, proxy_stopped, proxy_ends}
use chi_jie.Examples.Data.{manager, outside, choice_of}

abbrev c1 : EgressChoice
c1 = choice_of (text "n1") false 30

abbrev c2 : EgressChoice
c2 = choice_of (text "n2") false 20

abbrev c3 : EgressChoice
c3 = choice_of (text "t") true 0

abbrev route : EgressRoute
route = record {
  direct = false;
  any = false;
  region = text "US";
  group = text "US";
  strategy = text "random";
  residential = false;
  premium = false;
  tls_fingerprint = [];
  max_latency_ms = 0;
  choice = some c1;
  choices = c1 ∷ c2 ∷ c3 ∷ [];
}

abbrev dial_error : AttemptError
dial_error = record { is_redirect = false; is_attempt = true; message = text "refused" }

abbrev read_error : AttemptError
read_error = record { is_redirect = false; is_attempt = false; message = text "cut" }

-- The first attempt fails, the second answers 200.
abbrev try : ℕ → EgressRoute → Observed ℕ
try zero r = record { outcome = broke dial_error; done_at_mark = false; done_at_break = false }
try (suc i) r = record { outcome = responded 200; done_at_mark = false; done_at_break = false }

-- The first attempt fails, the second while its response is read.
abbrev cut : ℕ → EgressRoute → Observed ℕ
cut zero r = record { outcome = broke dial_error; done_at_mark = false; done_at_break = false }
cut (suc i) r = record { outcome = broke read_error; done_at_mark = false; done_at_break = false }

never_done :
    (i : ℕ) (r : EgressRoute) → (try i r).done_at_mark ≡ true → (try i r).done_at_break ≡ true
never_done zero r h = h
never_done (suc i) r h = h

abbrev r1 : EgressRoute
r1 = record route { choice = some c1 }

abbrev r2 : EgressRoute
r2 = record route { choice = some c2 }

abbrev r3 : EgressRoute
r3 = record route { choice = some c3 }

proxy_answered_example :
    do_proxy_with_retry try default_proxy_settings manager route
    ≡ (answered 200 r2, mark_all manager (r1 ∷ []))
unfolding proxy_attempt_routes validate_proxy_settings proxy_settings default_proxy_settings
    is_node_choice is_retryable
proxy_answered_example =
    proxy_answered try default_proxy_settings manager route (r1 ∷ []) r2 (r3 ∷ []) 200 refl
      (refl, tt) refl

proxy_stopped_example : do_proxy_with_retry cut default_proxy_settings manager route ≡ (
  gave_up
      (some r2)
      (final_message (error_lines cut 0 (r1 ∷ [])) (error_line r2 read_error) read_error),
  mark_failed cut (mark_all manager (r1 ∷ [])) r2 false read_error,
)
unfolding proxy_attempt_routes validate_proxy_settings proxy_settings default_proxy_settings
    is_node_choice is_retryable
proxy_stopped_example =
    proxy_stopped cut default_proxy_settings manager route (r1 ∷ []) r2 (r3 ∷ []) read_error refl
      (refl, tt) refl refl

proxy_ends_example :
    (before : List EgressRoute) × (r : EgressRoute) × (after : List EgressRoute)
    × ((proxy_attempt_routes route (proxy_settings default_proxy_settings) ≡ before ++ (r ∷ after))
        × (FailedOver try 0 before
            × EndsAs try default_proxy_settings manager route before r after))
proxy_ends_example = proxy_ends try default_proxy_settings manager route never_done

abbrev single : ProxySettings
single = record default_proxy_settings {
  max_attempts = pos 1;
  template_fallback_after_attempts = false;
}

nodes_of_attempts_example :
    select at_node (proxy_attempt_routes route single)
    ≡ map (attempt_route route) (
        take
          (magnitude (checked_settings single).max_attempts)
          (select is_node_choice route.choices))
nodes_of_attempts_example = nodes_of_attempts route single (λ e. cc e)

templates_of_attempts_example :
    select at_template (proxy_attempt_routes route single)
    ≡ map (attempt_route route) (
        select
          (is_admitted route (checked_settings single) (any is_node_choice route.choices))
          route.choices)
templates_of_attempts_example = templates_of_attempts route single (λ e. cc e)

abbrev options : EgressOptions
options = record {
  region = text "us";
  strategy = [];
  residential = false;
  premium = true;
  tls_fingerprint = [];
  any = false;
  max_latency_ms = pos 100;
}

resolve_egress_safe_example :
    panics (resolve_egress outside default_proxy_settings manager options).0 ≡ false
resolve_egress_safe_example = resolve_egress_safe outside default_proxy_settings manager options

abbrev configured : ProxySettingsConfig
configured = record {
  max_attempts = pos 70;
  max_redirects = pos 0;
  template_fallback_after_attempts = some false;
  response_header_timeout = text " 2s ";
  total_timeout = [];
  request_timeout = [];
}

abbrev two_seconds : Str → Option ℤ
two_seconds s = some (pos 2000000000)

proxy_settings-IsBounded_example : IsBounded (proxy_settings single)
proxy_settings-IsBounded_example = proxy_settings-IsBounded single
