-- ===== src/Proxy/Attempts.antt =====
-- The routes that one request tries: proxyAttemptRoutes of internal/server/server.go. The choices
-- that selection returns are never nil.
pub mod Limits
use chi_jie.Prelude.{
  ℕ, ◌+◌, Bool, true, false, not, ◌&&◌, ◌||◌, Option, none, some, List, [], ◌∷◌, if◌then◌else◌, any,
  is_nil, ltb, magnitude,
}
use chi_jie.Pool.Types.{EgressChoice}
use chi_jie.Proxy.Settings.{
  ProxySettings, Settings, valid, refused, validate_proxy_settings, default_proxy_settings,
}
use chi_jie.Proxy.Egress.{EgressRoute}

unfoldable pub attempt_route : EgressRoute → EgressChoice → EgressRoute
attempt_route route c = record route {
  choice = some c;
  region = c.region;
  group = c.group;
  residential = c.residential;
}

-- A template that the rules leave out.
unfoldable pub is_left_out : EgressRoute → ProxySettings → Bool → EgressChoice → Bool
is_left_out route settings has_node c =
    has_node && (not settings.template_fallback_after_attempts && not (route.premium && c.premium))

-- The loop over the choices; `tried` counts the attempts at nodes.
unfoldable pub attempt_routes :
    EgressRoute → ProxySettings → Bool → ℕ → List EgressChoice → List EgressRoute
unfolding attempt_route is_left_out
attempt_routes route settings has_node tried [] = []
attempt_routes route settings has_node tried (c ∷ cs) =
    let rest = attempt_routes route settings has_node tried cs in
    let next = attempt_routes route settings has_node (tried + 1) cs in
    if c.template
    then if is_left_out route settings has_node c then rest else attempt_route route c ∷ rest
    else if ltb tried (magnitude settings.max_attempts)
    then attempt_route route c ∷ next
    else rest

unfoldable pub is_node_choice : EgressChoice → Bool
is_node_choice c = not c.template

unfoldable pub checked_settings : ProxySettings → ProxySettings
checked_settings s = elim (validate_proxy_settings s) [
  | refused e ↦ default_proxy_settings
  | valid v ↦ v
]

-- proxyAttemptRoutes
unfoldable pub proxy_attempt_routes : EgressRoute → ProxySettings → List EgressRoute
unfolding attempt_routes checked_settings
proxy_attempt_routes route s =
    if is_nil route.choices
    then route ∷ []
    else attempt_routes route (checked_settings s) (any is_node_choice route.choices) 0
        route.choices
