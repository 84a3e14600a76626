-- ===== src/Proxy/Attempts/Limits.antt =====
-- Which routes a request tries, and how many.
use chi_jie.Prelude.{
  ℕ, zero, suc, ◌+◌, ◌-◌, ◌≤◌, ◌≡◌, ◌≢◌, inl, inr, refl, sym, ap, Bool, true, false, not, ◌&&◌,
  ◌||◌, none, some, List, [], ◌∷◌, map, ltb, ltb→le, lt→ltb, ℤ, pos, negsuc, is_not_positive,
  int_lt, magnitude, any, is_nil, nil-cases, length-map, length-take, select, take, length, arith,
  Bool-cases,
}
use chi_jie.Pool.Types.{EgressChoice}
use chi_jie.Proxy.Settings.{ProxySettings, default_proxy_settings}
use chi_jie.Proxy.Settings.Bounds.{IsBounded, settings_or-IsBounded, validate-IsSound}
use chi_jie.Proxy.Egress.{EgressRoute}
use chi_jie.Proxy.Attempts.{
  attempt_route, is_left_out, attempt_routes, is_node_choice, checked_settings,
  proxy_attempt_routes,
}

-- The route is at a node; and at a template.
abbrev pub at_node : EgressRoute → Bool
at_node route = elim route.choice [ none ↦ false | some c ↦ not c.template ]

abbrev pub at_template : EgressRoute → Bool
at_template route = elim route.choice [ none ↦ false | some c ↦ c.template ]

-- A template is tried where no candidate is a node, where templates are a fallback after the nodes,
-- and where a premium template meets a request for premium.
abbrev pub is_admitted : EgressRoute → ProxySettings → Bool → EgressChoice → Bool
is_admitted route settings has_node c =
    c.template
    && (not has_node || (settings.template_fallback_after_attempts || (route.premium && c.premium)))

sub_none : (m : ℕ) → m - 0 ≡ m
sub_none m = omega arith

suc_sub : (m t : ℕ) → ltb t m ≡ true → m - t ≡ suc (m - (t + 1))
suc_sub m t h = ground arith

sub_zero : (m t : ℕ) → ltb t m ≡ false → m - t ≡ 0
sub_zero m t h = ground arith

module _ {ℓ} {A : Type ℓ} where
  take-nil : (n : ℕ) → ◌≡◌ {A = List A} (take n []) []
  take-nil zero = refl
  take-nil (suc n) = refl

  take-sub_lt :
      (m t : ℕ) (x : A) (xs : List A)
      → ltb t m ≡ true
      → take (m - t) (x ∷ xs) ≡ x ∷ take (m - (t + 1)) xs
  take-sub_lt m t x xs h = rw (suc_sub m t h) refl

  take-sub_ge : (m t : ℕ) (xs : List A) → ltb t m ≡ false → take (m - t) xs ≡ []
  take-sub_ge m t xs h = rw (sub_zero m t h) refl

module _ (route : EgressRoute) (settings : ProxySettings) (has_node : Bool) where
  nodes_tried :
      (tried : ℕ) (cs : List EgressChoice)
      → select at_node (attempt_routes route settings has_node tried cs)
        ≡ map
            (attempt_route route)
            (take (magnitude settings.max_attempts - tried) (select is_node_choice cs))
  unfolding attempt_routes attempt_route is_node_choice
  nodes_tried tried [] =
      ap (map (attempt_route route)) (sym (take-nil (magnitude settings.max_attempts - tried)))
  nodes_tried tried (c ∷ cs) = elim (Bool-cases c.template) [
    | inl template ↦ ground (arith, nodes_tried tried cs)
    | inr node ↦ elim (Bool-cases (ltb tried (magnitude settings.max_attempts))) [
      | inl more ↦ ground (
        arith,
        nodes_tried (tried + 1) cs,
        take-sub_lt (magnitude settings.max_attempts) tried c (select is_node_choice cs),
      )
      | inr enough ↦ ground (
        arith,
        nodes_tried tried cs,
        take-sub_ge (magnitude settings.max_attempts) tried (select is_node_choice cs),
        take-sub_ge (magnitude settings.max_attempts) tried (c ∷ select is_node_choice cs),
      )
    ]
  ]

  templates_tried :
      (tried : ℕ) (cs : List EgressChoice)
      → select at_template (attempt_routes route settings has_node tried cs)
        ≡ map (attempt_route route) (select (is_admitted route settings has_node) cs)
  unfolding attempt_routes attempt_route is_left_out
  templates_tried tried [] = refl
  templates_tried tried (c ∷ cs) =
      ground (arith, templates_tried tried cs, templates_tried (tried + 1) cs)

-- The settings that the loop reads are within bounds.
checked_settings-IsBounded : (s : ProxySettings) → IsBounded (checked_settings s)
unfolding checked_settings default_proxy_settings
checked_settings-IsBounded s =
    settings_or-IsBounded default_proxy_settings _ ((refl, refl), ((refl, refl), (refl, refl)))
      (validate-IsSound s)

count_positive : (z : ℤ) → is_not_positive z ≡ false → 1 ≤ magnitude z
count_positive (pos zero) h = absurd (cc)
count_positive (pos (suc n)) h = omega arith
count_positive (negsuc n) h = absurd (cc)

count_small : (z : ℤ) → int_lt (pos 50) z ≡ false → magnitude z ≤ 50
count_small (pos n) h = ltb→le 50 n h
count_small (negsuc n) h = omega arith

is_nil_ne {ℓ} : {A : Type ℓ} (xs : List A) → xs ≢ [] → is_nil xs ≡ false
is_nil_ne [] h = absurd (h refl)
is_nil_ne (x ∷ xs) h = refl

module _ (route : EgressRoute) (settings : ProxySettings) where
  some_node :
      (h : Bool) (tried : ℕ) (cs : List EgressChoice)
      → any is_node_choice cs ≡ true
      → ltb tried (magnitude settings.max_attempts) ≡ true
      → is_nil (attempt_routes route settings h tried cs) ≡ false
  unfolding attempt_routes is_node_choice
  some_node h tried [] some_choice left = absurd (cc)
  some_node h tried (c ∷ cs) some_choice left = ground (arith, some_node h tried cs)

  some_template :
      (c : EgressChoice) (cs : List EgressChoice)
      → any is_node_choice (c ∷ cs) ≡ false
      → is_nil (attempt_routes route settings false 0 (c ∷ cs)) ≡ false
  unfolding attempt_routes is_node_choice is_left_out
  some_template c cs no_node = ground arith

  some_route :
      (cs : List EgressChoice)
      → cs ≢ []
      → 1 ≤ magnitude settings.max_attempts
      → is_nil (attempt_routes route settings (any is_node_choice cs) 0 cs) ≡ false
  some_route [] some_choice left = absurd (some_choice refl)
  some_route (c ∷ cs) some_choice left = elim (Bool-cases (any is_node_choice (c ∷ cs))) [
    | inl e ↦ some_node (any is_node_choice (c ∷ cs)) 0 (c ∷ cs) e (lt→ltb _ _ left)
    | inr e ↦ rw e (some_template c cs e)
  ]

choices_loop :
    (route : EgressRoute) (s : ProxySettings)
    → route.choices ≢ []
    → proxy_attempt_routes route s
      ≡ attempt_routes route (checked_settings s) (any is_node_choice route.choices) 0 route.choices
unfolding proxy_attempt_routes checked_settings
choices_loop route s some_choice = elim (nil-cases route.choices) [
  | inl e ↦ absurd (some_choice e)
  | inr e ↦ rw (is_nil_ne route.choices e, proxy_attempt_routes) refl
]

module _ (route : EgressRoute) (s : ProxySettings) where
  -- Of a route that has candidates, the attempts at nodes are exactly the first max_attempts node
  -- candidates, in their order, where max_attempts is that of the validated settings.
  pub nodes_of_attempts :
      route.choices ≢ []
      → select at_node (proxy_attempt_routes route s)
        ≡ map (attempt_route route) (
            take
              (magnitude (checked_settings s).max_attempts)
              (select is_node_choice route.choices))
  nodes_of_attempts some_choice = rw (choices_loop route s some_choice) (
      rw (sub_none (magnitude (checked_settings s).max_attempts)) at
        (nodes_tried route (checked_settings s) (any is_node_choice route.choices) 0 route.choices))

  -- Of a route that has candidates, the attempts at templates are exactly these template
  -- candidates, in their order: all of them where no candidate is a node or the validated settings
  -- make templates a fallback after the attempts, and otherwise the premium ones if the route asks
  -- for premium, and none if it does not.
  pub templates_of_attempts :
      route.choices ≢ []
      → select at_template (proxy_attempt_routes route s)
        ≡ map (attempt_route route) (
            select
              (is_admitted route (checked_settings s) (any is_node_choice route.choices))
              route.choices)
  templates_of_attempts some_choice = rw (choices_loop route s some_choice) (
      templates_tried route (checked_settings s) (any is_node_choice route.choices) 0 route.choices)

  -- Of a route that has candidates, at most fifty nodes are tried, whatever the settings are.
  pub at_most_fifty :
      route.choices ≢ [] → length (select at_node (proxy_attempt_routes route s)) ≤ 50
  at_most_fifty some_choice = rw (nodes_of_attempts some_choice) (
      omega (
        arith,
        length-map (attempt_route route) (
            take (magnitude (checked_settings s).max_attempts)
              (select is_node_choice route.choices)),
        length-take (magnitude (checked_settings s).max_attempts)
            (select is_node_choice route.choices),
        count_small (checked_settings s).max_attempts (checked_settings-IsBounded s).0.1,
      ))

  -- Whatever the route and the settings are, some route is tried.
  pub some_attempt : is_nil (proxy_attempt_routes route s) ≡ false
  unfolding proxy_attempt_routes
  some_attempt = elim (nil-cases route.choices) [
    | inl e ↦ rw (e, proxy_attempt_routes) refl
    | inr e ↦ rw (choices_loop route s e) (
        some_route route (checked_settings s) route.choices e
          (count_positive (checked_settings s).max_attempts (checked_settings-IsBounded s).0.0))
  ]
