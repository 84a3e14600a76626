-- ===== src/Proxy/Settings/Bounds.antt =====
-- The bounds of the settings that a request reads.
use chi_jie.Prelude.{
  ℕ, ◌≡◌, inl, inr, refl, false, Option, none, some, if◌then◌else◌, ℤ, pos, int_lt, is_not_positive,
  Str, trim_space, Bool-cases, Option-cases,
}
use chi_jie.Proxy.Settings.{
  ProxySettings, ProxySettingsConfig, Settings, valid, refused, or_default, validate_proxy_settings,
  default_proxy_settings, parse_proxy_settings, parse_counts, parse_total, parse_timeout,
  total_timeout_text, bad_max_attempts, bad_max_redirects, proxy_settings, update_proxy_settings,
}

-- A number from 1 to 50; and a positive number.
abbrev pub IsCount : ℤ → Type 0
IsCount z = (is_not_positive z ≡ false) × (int_lt (pos 50) z ≡ false)

abbrev pub IsBounded : ProxySettings → Type 0
IsBounded s =
    IsCount s.max_attempts
    × (IsCount s.max_redirects
        × ((is_not_positive s.response_header_timeout ≡ false)
            × (is_not_positive s.total_timeout ≡ false)))

-- The settings are within their bounds, or there is an error.
abbrev pub IsSound : Settings → Type 0
IsSound (valid s) = IsBounded s
IsSound (refused e) = Unit

or_default-positive :
    (v : ℤ) (d : ℕ)
    → is_not_positive (pos d) ≡ false
    → is_not_positive (or_default v (pos d)) ≡ false
unfolding or_default
or_default-positive v d h = elim (Bool-cases (is_not_positive v)) [
  | inl e ↦ rw (e, or_default) h
  | inr e ↦ rw (e, or_default) e
]

module _ (s : ProxySettings) (a r h t : ℤ) where
  -- The last lines of ValidateProxySettings, on the values it has replaced.
  abbrev checked : Settings
  checked =
      if int_lt (pos 50) a
      then refused bad_max_attempts
      else if int_lt (pos 50) r
      then refused bad_max_redirects
      else valid (record s {
        max_attempts = a;
        max_redirects = r;
        response_header_timeout = h;
        total_timeout = t;
      })

  checked-IsSound :
      is_not_positive a ≡ false
      → is_not_positive r ≡ false
      → is_not_positive h ≡ false
      → is_not_positive t ≡ false
      → IsSound checked
  checked-IsSound pa pr ph pt = elim (Bool-cases (int_lt (pos 50) a)) [
    | inl e ↦ rw e tt
    | inr e ↦ elim (Bool-cases (int_lt (pos 50) r)) [
      | inl f ↦ rw (e, f) tt
      | inr f ↦ rw (e, f) ((pa, e), ((pr, f), (ph, pt)))
    ]
  ]

pub validate-IsSound : (s : ProxySettings) → IsSound (validate_proxy_settings s)
unfolding validate_proxy_settings or_default
validate-IsSound s =
    checked-IsSound s _ _ _ _ (or_default-positive s.max_attempts 5 refl)
      (or_default-positive s.max_redirects 5 refl)
      (or_default-positive s.response_header_timeout 3000000000 refl)
      (or_default-positive s.total_timeout 30000000000 refl)

parse_total-IsSound :
    (parse : Str → Option ℤ) (cfg : ProxySettingsConfig) (s : ProxySettings)
    → IsSound (parse_total parse cfg s)
unfolding parse_total
parse_total-IsSound parse cfg s =
    elim (Option-cases (parse_timeout parse (total_timeout_text cfg) s.total_timeout)) [
      | inl e ↦ rw (e, parse_total) tt
      | inr (t, e) ↦ rw (e, parse_total) (validate-IsSound (record s { total_timeout = t }))
    ]

-- Whatever the configuration is and whatever time.ParseDuration yields, the settings parsed from
-- it are an error or within the same bounds.
pub parse-IsSound :
    (parse : Str → Option ℤ) (cfg : Option ProxySettingsConfig)
    → IsSound (parse_proxy_settings parse cfg)
unfolding parse_proxy_settings default_proxy_settings
parse-IsSound parse none = ((refl, refl), ((refl, refl), (refl, refl)))
parse-IsSound parse (some cfg) =
    elim (Option-cases (
      parse_timeout parse (trim_space cfg.response_header_timeout)
        (parse_counts cfg).response_header_timeout)) [
          | inl e ↦ rw (e, parse_proxy_settings) tt
          | inr (t, e) ↦
              rw (e, parse_proxy_settings)
                (parse_total-IsSound parse cfg
                  (record (parse_counts cfg) { response_header_timeout = t }))
        ]

-- The settings in a result, or some others.
abbrev pub settings_or : ProxySettings → Settings → ProxySettings
settings_or s (valid v) = v
settings_or s (refused e) = s

pub settings_or-IsBounded :
    (s : ProxySettings) (r : Settings) → IsBounded s → IsSound r → IsBounded (settings_or s r)
settings_or-IsBounded s (valid v) b h = h
settings_or-IsBounded s (refused e) b h = b

-- Whatever settings the server holds, those that a request reads allow from 1 to 50 attempts and
-- from 1 to 50 redirects, and have positive timeouts.
pub proxy_settings-IsBounded : (held : ProxySettings) → IsBounded (proxy_settings held)
unfolding proxy_settings default_proxy_settings
proxy_settings-IsBounded held =
    settings_or-IsBounded default_proxy_settings _ ((refl, refl), ((refl, refl), (refl, refl)))
      (validate-IsSound
        (if is_not_positive held.max_attempts then default_proxy_settings else held))

-- An update leaves settings within bounds where they were, or takes the new ones.
pub update-IsBounded :
    (held new : ProxySettings) → IsBounded held → IsBounded (update_proxy_settings held new)
unfolding update_proxy_settings
update-IsBounded held new b = settings_or-IsBounded held _ b (validate-IsSound new)
