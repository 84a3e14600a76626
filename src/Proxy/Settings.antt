-- ===== src/Proxy/Settings.antt =====
-- The /proxy settings of internal/server/server.go. Durations are nanoseconds; time.ParseDuration is
-- a parameter, `none` for its error.
pub mod Bounds
use chi_jie.Prelude.{
  ℕ, ◌*◌, ◌≡◌, Bool, true, false, ◌||◌, Option, none, some, if◌then◌else◌, ℤ, pos, negsuc, int_lt,
  is_not_positive, Str, trim_space, is_nil,
}

pub record ProxySettingsConfig : Type 0 where
  pub max_attempts : ℤ
  pub max_redirects : ℤ
  pub template_fallback_after_attempts : Option Bool
  pub response_header_timeout : Str
  pub total_timeout : Str
  pub request_timeout : Str

pub record ProxySettings : Type 0 where
  pub max_attempts : ℤ
  pub max_redirects : ℤ
  pub template_fallback_after_attempts : Bool
  pub response_header_timeout : ℤ
  pub total_timeout : ℤ

abbrev pub second : ℕ
second = 1000000000

abbrev pub default_proxy_max_attempts : ℕ
default_proxy_max_attempts = 5

abbrev pub default_proxy_max_redirects : ℕ
default_proxy_max_redirects = 5

-- DefaultProxySettings
unfoldable pub default_proxy_settings : ProxySettings
default_proxy_settings = record {
  max_attempts = pos default_proxy_max_attempts;
  max_redirects = pos default_proxy_max_redirects;
  template_fallback_after_attempts = true;
  response_header_timeout = pos (3 * second);
  total_timeout = pos (30 * second);
}

-- The errors of the two functions below.
pub data SettingsError : Type 0 where
  bad_max_attempts bad_max_redirects bad_header_timeout bad_total_timeout : SettingsError

pub data Settings : Type 0 where
  valid : ProxySettings → Settings
  refused : SettingsError → Settings

unfoldable pub or_default : ℤ → ℤ → ℤ
or_default value default = if is_not_positive value then default else value

-- ValidateProxySettings
unfoldable pub validate_proxy_settings : ProxySettings → Settings
unfolding or_default
validate_proxy_settings s =
    let attempts = or_default s.max_attempts (pos default_proxy_max_attempts) in
    let redirects = or_default s.max_redirects (pos default_proxy_max_redirects) in
    if int_lt (pos 50) attempts
    then refused bad_max_attempts
    else if int_lt (pos 50) redirects
    then refused bad_max_redirects
    else valid (record s {
      max_attempts = attempts;
      max_redirects = redirects;
      response_header_timeout = or_default s.response_header_timeout (pos (3 * second));
      total_timeout = or_default s.total_timeout (pos (30 * second));
    })

-- A timeout of the configuration: the value kept where the text is blank, `none` for an error.
unfoldable pub parse_timeout : (Str → Option ℤ) → Str → ℤ → Option ℤ
parse_timeout parse text kept =
    if is_nil text
    then some kept
    else elim (parse text) [ none ↦ none | some t ↦ if is_not_positive t then none else some t ]

-- The total timeout's text: the older field where the newer is blank.
unfoldable pub total_timeout_text : ProxySettingsConfig → Str
unfolding trim_space
total_timeout_text cfg =
    let newer = trim_space cfg.total_timeout in
    if is_nil newer then trim_space cfg.request_timeout else newer

-- The settings before the timeouts are read.
unfoldable pub parse_counts : ProxySettingsConfig → ProxySettings
unfolding or_default
parse_counts cfg =
    let d = default_proxy_settings in
    record d {
      max_attempts = or_default cfg.max_attempts d.max_attempts;
      max_redirects = or_default cfg.max_redirects d.max_redirects;
      template_fallback_after_attempts = elim cfg.template_fallback_after_attempts [
        | none ↦ true
        | some b ↦ b
      ];
    }

unfoldable pub parse_total : (Str → Option ℤ) → ProxySettingsConfig → ProxySettings → Settings
unfolding parse_timeout total_timeout_text validate_proxy_settings
parse_total parse cfg s = elim (parse_timeout parse (total_timeout_text cfg) s.total_timeout) [
  | none ↦ refused bad_total_timeout
  | some t ↦ validate_proxy_settings (record s { total_timeout = t })
]

-- ParseProxySettings; `none` is the nil configuration.
unfoldable pub parse_proxy_settings : (Str → Option ℤ) → Option ProxySettingsConfig → Settings
unfolding parse_counts parse_total parse_timeout
parse_proxy_settings parse none = valid default_proxy_settings
parse_proxy_settings parse (some cfg) =
    let s = parse_counts cfg in
    elim (parse_timeout parse (trim_space cfg.response_header_timeout) s.response_header_timeout) [
      | none ↦ refused bad_header_timeout
      | some t ↦ parse_total parse cfg (record s { response_header_timeout = t })
    ]

-- ProxySettings(): what a request reads of the settings that the server holds.
unfoldable pub proxy_settings : ProxySettings → ProxySettings
unfolding validate_proxy_settings
proxy_settings held =
    let s = if is_not_positive held.max_attempts then default_proxy_settings else held in
    elim (validate_proxy_settings s) [ refused e ↦ default_proxy_settings | valid v ↦ v ]

-- UpdateProxySettings
unfoldable pub update_proxy_settings : ProxySettings → ProxySettings → ProxySettings
unfolding validate_proxy_settings
update_proxy_settings held new = elim (validate_proxy_settings new) [
  | refused e ↦ held
  | valid v ↦ v
]
