-- ===== src/Examples/Targets.antt =====
-- Targets, redirects and bodies of concrete requests.
use chi_jie.Prelude.{
  ℕ, ◌≤◌, ◌≡◌, refl, true, false, Option, none, some, List, [], ◌∷◌, Str, text, pos, length,
  magnitude, All, any, arith, trim_space,
}
use chi_jie.Guard.{Ip, v4, is_blocked_ip, check_host}
use chi_jie.Guard.Hosts.{IsSafe, check_host-IsSafe}
use chi_jie.Guard.Ranges.{address, within, blocks, blocked_ranges}
use chi_jie.Proxy.Settings.{default_proxy_settings, proxy_settings}
use chi_jie.Proxy.Redirect.{Request, new_proxy_redirect_tracker}
use chi_jie.Proxy.Redirect.Limits.{IsAllowed, chase, chain_bounded, chain-IsAllowed}
use chi_jie.Proxy.Body.{Body, read_proxy_response_body, read_proxy_response_body-whole}
use chi_jie.Proxy.Target.{Url, is_supported, validate_target_url, validate_target_url-IsSafe}

abbrev site : Str
site = text "a.example"

abbrev no_literal : Str → Option Ip
no_literal s = none

abbrev one_address : Str → Option (List (Option Ip))
one_address s = some (some (v4 8 8 8 8) ∷ [])

abbrev one_url : Str → Option Url
one_url s = some (record { scheme = text "https"; host = site; hostname = site })

check_host-IsSafe_example : IsSafe no_literal one_address (trim_space site)
unfolding check_host trim_space
check_host-IsSafe_example = check_host-IsSafe no_literal one_address site refl

blocked_ranges_example :
    is_blocked_ip (some (v4 100 100 1 1)) ≡ any (within (address 100 100 1 1)) blocks
blocked_ranges_example =
    blocked_ranges 100 100 1 1 (omega arith) (omega arith) (omega arith) (omega arith)

validate_target_url-IsSafe_example :
    (u : Url) × ((one_url site ≡ some u)
      × ((is_supported u.scheme ≡ true) × IsSafe no_literal one_address (trim_space u.hostname)))
unfolding validate_target_url check_host trim_space
validate_target_url-IsSafe_example =
    validate_target_url-IsSafe one_url no_literal one_address false site refl refl

abbrev accept : Str → Option Str
accept s = none

abbrev get : Request
get = record { method = text "GET"; url = some site; response = some (pos 302, site) }

chain_bounded_example :
    length
      (chase accept
        (new_proxy_redirect_tracker default_proxy_settings true)
        (get ∷ [])
        (get ∷ get ∷ [])).redirects
    ≤ magnitude (proxy_settings default_proxy_settings).max_redirects
chain_bounded_example = chain_bounded accept default_proxy_settings true get (get ∷ get ∷ [])

chain-IsAllowed_example :
    All
      (IsAllowed accept)
      (chase accept
        (new_proxy_redirect_tracker default_proxy_settings true)
        (get ∷ [])
        (get ∷ get ∷ [])).redirects
chain-IsAllowed_example = chain-IsAllowed accept default_proxy_settings true get (get ∷ get ∷ [])

abbrev two_bytes : List ℕ
two_bytes = 1 ∷ 2 ∷ []

abbrev short_body : Body
short_body = record { bytes = two_bytes; fails = false }

read_proxy_response_body-whole_example :
    (two_bytes ≡ short_body.bytes)
    × ((length two_bytes ≤ magnitude (pos 2)) × (short_body.fails ≡ false))
unfolding read_proxy_response_body
read_proxy_response_body-whole_example =
    read_proxy_response_body-whole (pos 2) short_body (pos 2) two_bytes refl refl refl
