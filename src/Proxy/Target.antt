-- ===== src/Proxy/Target.antt =====
-- validateTargetURL of internal/server/server.go. url.Parse is a parameter, `none` for its error.
use chi_jie.Prelude.{
  ◌≡◌, inl, inr, Bool, true, false, not, Option, none, some, if◌then◌else◌, List, [], ◌∷◌, Str,
  text, str_eq, to_lower, trim_space, is_nil, any, arith, Option-cases,
}
use chi_jie.Guard.{Ip, HostError, check_host}
use chi_jie.Guard.Hosts.{IsSafe, check_host-IsSafe}

-- What the code reads of a url.URL.
pub record Url : Type 0 where
  pub scheme : Str
  pub host : Str
  pub hostname : Str

pub data TargetError : Type 0 where
  unparsed unsupported_scheme no_host : TargetError
  bad_host : HostError → TargetError

-- The cases of the switch.
unfoldable pub is_supported : Str → Bool
unfolding to_lower str_eq
is_supported scheme =
    any (str_eq (to_lower scheme)) (text "http" ∷ text "https" ∷ text "ws" ∷ text "wss" ∷ [])

module _ (parse_url : Str → Option Url) (parse_ip : Str → Option Ip)
    (lookup_ip : Str → Option (List (Option Ip))) (allow_private : Bool) where
  unfoldable pub check_url : Url → Option TargetError
  unfolding is_supported
  check_url u =
      if not (is_supported u.scheme)
      then some unsupported_scheme
      else if is_nil u.host
      then some no_host
      else if allow_private
      then none
      else elim (check_host parse_ip lookup_ip u.hostname) [
        | none ↦ none
        | some e ↦ some (bad_host e)
      ]

  -- validateTargetURL: `none` where the target is accepted.
  unfoldable pub validate_target_url : Str → Option TargetError
  unfolding check_url
  validate_target_url raw = elim (parse_url raw) [ none ↦ some unparsed | some u ↦ check_url u ]

  check_url-accepted :
      (u : Url)
      → allow_private ≡ false
      → check_url u ≡ none
      → (is_supported u.scheme ≡ true) × IsSafe parse_ip lookup_ip (trim_space u.hostname)
  unfolding check_url
  check_url-accepted u public h = elim (Option-cases (check_host parse_ip lookup_ip u.hostname)) [
    | inl e ↦ (ground arith, check_host-IsSafe parse_ip lookup_ip u.hostname e)
    | inr (e, bad) ↦ absurd (ground arith)
  ]

  -- Where private targets are not allowed, an accepted target has a URL that parses, with one of
  -- the four schemes, and its host, trimmed, is an address that is not blocked or a name that
  -- resolves to at least one address, none of them blocked.
  pub validate_target_url-IsSafe :
      (raw : Str)
      → allow_private ≡ false
      → validate_target_url raw ≡ none
      → (u : Url) × ((parse_url raw ≡ some u)
          × ((is_supported u.scheme ≡ true) × IsSafe parse_ip lookup_ip (trim_space u.hostname)))
  unfolding validate_target_url
  validate_target_url-IsSafe raw public h = elim (Option-cases (parse_url raw)) [
    | inl e ↦ absurd (ground arith)
    | inr (u, e) ↦ (u, (e, check_url-accepted u public (ground arith)))
  ]
