-- ===== src/Proxy/Redirect.antt =====
-- The redirect tracker of internal/server/redirect.go. validateTargetURL, over net/url and the
-- resolver, is a parameter: `none` where it accepts the URL. The tracker of a request is never nil,
-- and it has a server.
pub mod Limits
use chi_jie.Prelude.{
  ℕ, ◌+◌, Bool, true, false, not, Option, none, some, List, [], ◌∷◌, ◌++◌, if◌then◌else◌, ltb, Str,
  length, ℤ, pos, is_not_positive, int_lt,
}
use chi_jie.Proxy.Settings.{ProxySettings, proxy_settings, default_proxy_max_redirects}

pub record ProxyRedirect : Type 0 where
  pub status_code : ℤ
  pub from_method : Str
  pub to_method : Str
  pub from_url : Str
  pub to_url : Str
  pub location : Str

pub record Tracker : Type 0 where
  pub follow : Bool
  pub max_redirects : ℤ
  pub redirects : List ProxyRedirect
  pub limit_reached : Bool

-- What the code reads of an http.Request: `none` is a nil URL, and a nil response.
pub record Request : Type 0 where
  pub method : Str
  pub url : Option Str
  pub response : Option (ℤ × Str)

-- The returned error: none, http.ErrUseLastResponse, or a proxyRedirectError.
pub data Verdict : Type 0 where
  go_on use_last_response : Verdict
  refused : Str → Verdict

-- newProxyRedirectTracker, with the settings that the server holds
unfoldable pub new_proxy_redirect_tracker : ProxySettings → Bool → Tracker
new_proxy_redirect_tracker held follow_redirects = record {
  follow = follow_redirects;
  max_redirects = (proxy_settings held).max_redirects;
  redirects = [];
  limit_reached = false;
}

abbrev pub with_default : Tracker → Tracker
with_default t =
    if is_not_positive t.max_redirects
    then record t { max_redirects = pos default_proxy_max_redirects }
    else t

-- `via[len(via)-1]`
abbrev pub last_request : List Request → Option Request
last_request [] = none
last_request (r ∷ []) = some r
last_request (r ∷ (s ∷ more)) = last_request (s ∷ more)

abbrev pub url_or_empty : Option Str → Str
url_or_empty none = []
url_or_empty (some u) = u

unfoldable pub redirect_step : Request → Str → List Request → ProxyRedirect
redirect_step next to via = record {
  status_code = elim next.response [ none ↦ pos 0 | some r ↦ r.0 ];
  from_method = elim (last_request via) [ none ↦ [] | some p ↦ p.method ];
  to_method = next.method;
  from_url = elim (last_request via) [ none ↦ [] | some p ↦ url_or_empty p.url ];
  to_url = to;
  location = elim next.response [ none ↦ [] | some r ↦ r.1 ];
}

-- The end of CheckRedirect, for a request with a URL.
unfoldable pub check_target :
    (Str → Option Str) → Tracker → Request → Str → List Request → Verdict × Tracker
unfolding redirect_step
check_target validate t next to via = elim (validate to) [
  | some e ↦ (refused e, t)
  | none ↦ (go_on, record t { redirects = t.redirects ++ (redirect_step next to via ∷ []) })
]

-- The tests of CheckRedirect, once the limit has its default.
unfoldable pub check_limit :
    (Str → Option Str) → Tracker → Request → List Request → Verdict × Tracker
unfolding check_target
check_limit validate t next via =
    if int_lt t.max_redirects (pos (length via))
    then (use_last_response, record t { limit_reached = true })
    else elim next.url [
      | none ↦ (use_last_response, t)
      | some to ↦ check_target validate t next to via
    ]

-- CheckRedirect
unfoldable pub check_redirect :
    (Str → Option Str) → Tracker → Request → List Request → Verdict × Tracker
unfolding check_limit
check_redirect validate t next via =
    if not t.follow then (use_last_response, t) else check_limit validate (with_default t) next via
