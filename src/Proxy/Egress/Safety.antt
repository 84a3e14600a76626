-- ===== src/Proxy/Egress/Safety.antt =====
-- The first choice that resolveEgress takes.
use chi_jie.Prelude.{
  ℕ, ◌≡◌, refl, Bool, true, false, not, ◌||◌, inl, inr, List, [], ◌∷◌, ◌++◌, Str, Dict, is_nil,
  trim_space, Bool-cases, arith,
}
use chi_jie.Pool.Types.{Pool, EgressChoice, EgressSelector, Manager, Cursor}
use chi_jie.Pool.Names.{Strategy, normalize_strategy, normalize_region_code, strategy_name}
use chi_jie.Pool.Candidates.{Outside}
use chi_jie.Pool.Select.{
  Selected, ok, err, residential_fallback, egress_candidate_group,
  append_premium_residential_fallback, select_fallback, select_in_region, select_candidates,
  select_egress_candidates_for, select_egress_candidates_with_template_fallback_for,
  select_any_egress_candidates_for,
}
use chi_jie.Proxy.Settings.{ProxySettings, proxy_settings}
use chi_jie.Proxy.Egress.{
  EgressOptions, invalid_region, no_first_choice, not_selected, Resolved, routed, failed,
  is_any_region, append_selected, combine_any, fall_back_any, select_any_egress_candidates,
  any_route, region_route, select_in, resolve_region, resolve_any, resolve_egress, latency_limit,
}

-- A selection that succeeds has a first choice.
abbrev pub has_first : Selected → Bool
has_first (ok cs) = not (is_nil cs)
has_first (err e) = true

-- The request ends in the panic of an index out of range.
abbrev pub panics : Resolved → Bool
panics (routed r) = false
panics (failed no_first_choice) = true
panics (failed invalid_region) = false
panics (failed (not_selected e)) = false

has_first-append :
    (cs : List EgressChoice) (s : Selected)
    → is_nil cs ≡ false
    → is_nil (append_selected cs s) ≡ false
unfolding append_selected
has_first-append [] s h = absurd (cc)
has_first-append (c ∷ cs) (ok more) h = refl
has_first-append (c ∷ cs) (err e) h = refl

is_nil-append : (xs ys : List EgressChoice) → is_nil xs ≡ false → is_nil (xs ++ ys) ≡ false
is_nil-append [] ys h = absurd (cc)
is_nil-append (x ∷ xs) ys h = refl

module _ (o : Outside) (pools : Dict Pool) (region : Str) (strategy : Strategy) (s : EgressSelector)
    (include : Bool) where
  has_first-fallback :
      (c : Cursor) → has_first (select_fallback o pools c region strategy s include).0 ≡ true
  unfolding select_fallback
  has_first-fallback c = ground arith

  has_first-appended :
      (c : Cursor) (cs : List EgressChoice)
      → is_nil cs ≡ false
      → is_nil (append_premium_residential_fallback o pools c region strategy s cs include).0
        ≡ false
  unfolding append_premium_residential_fallback
  has_first-appended c cs h = ground (arith, is_nil-append cs)

  has_first-in_region :
      (c : Cursor) → has_first (select_in_region o pools c region strategy s include).0 ≡ true
  unfolding select_in_region
  has_first-in_region c = ground (
    arith,
    has_first-fallback (egress_candidate_group o pools c region strategy s include).1,
    has_first-appended (egress_candidate_group o pools c region strategy s include).1
        (egress_candidate_group o pools c region strategy s include).0,
  )

has_first-candidates :
    (include : Bool) (o : Outside) (m : Manager) (region strategy : Str) (s : EgressSelector)
    → has_first (select_candidates include o m region strategy s).0 ≡ true
unfolding select_candidates
has_first-candidates include o m region strategy s = ground (
  arith,
  has_first-in_region o m.pools (normalize_region_code region) (normalize_strategy strategy) s
      include m.cursor,
)

has_first-anywhere :
    (m : Manager) (strategy : Str) (s : EgressSelector) (limit : ℕ)
    → has_first (select_any_egress_candidates_for m strategy s limit).0 ≡ true
unfolding select_any_egress_candidates_for
has_first-anywhere m strategy s limit = ground arith

has_first-combined :
    (s : EgressSelector) (first second : Selected × Cursor)
    → has_first first.0 ≡ true
    → has_first second.0 ≡ true
    → has_first (combine_any s first second).0.0 ≡ true
unfolding combine_any fall_back_any
has_first-combined s (ok cs, c1) (second, c2) h k = ground (arith, has_first-append cs second)
has_first-combined s (err e, c1) (ok ds, c2) h k = ground arith
has_first-combined s (err e, c1) (err f, c2) h k = ground arith

module _ (m : Manager) (strategy : Str) (s : EgressSelector) (limit : ℕ) where
  has_first-any : has_first (select_any_egress_candidates m strategy s limit).0.0 ≡ true
  unfolding select_any_egress_candidates
  has_first-any = has_first-combined s _ _ (has_first-anywhere m strategy s limit) (
      has_first-anywhere
        (record m { cursor = (select_any_egress_candidates_for m strategy s limit).1 }) strategy
        (residential_fallback s) limit)

any_route_safe :
    (strategy : Str) (o : EgressOptions) (r : (Selected × EgressSelector) × Cursor)
    → has_first r.0.0 ≡ true
    → panics (any_route strategy o r).0 ≡ false
unfolding any_route
any_route_safe strategy o ((err e, s), c) h = refl
any_route_safe strategy o ((ok [], s), c) h = absurd (cc)
any_route_safe strategy o ((ok (x ∷ xs), s), c) h = refl

region_route_safe :
    (region strategy : Str) (o : EgressOptions) (r : Selected × Cursor)
    → has_first r.0 ≡ true
    → panics (region_route region strategy o r).0 ≡ false
unfolding region_route
region_route_safe region strategy o (err e, c) h = refl
region_route_safe region strategy o (ok [], c) h = absurd (cc)
region_route_safe region strategy o (ok (x ∷ xs), c) h = refl

module _ (o : Outside) (settings : ProxySettings) (m : Manager) (options : EgressOptions) where
  has_first-in :
      (region strategy : Str) (s : EgressSelector)
      → has_first (select_in o settings m region strategy s).0 ≡ true
  unfolding select_in select_egress_candidates_for
      select_egress_candidates_with_template_fallback_for
  has_first-in region strategy s =
      elim (Bool-cases (proxy_settings settings).template_fallback_after_attempts) [
        | inl e ↦ rw (e, select_in) (has_first-candidates true o m region strategy s)
        | inr e ↦ rw (e, select_in) (has_first-candidates false o m region strategy s)
      ]

  resolve_region_safe :
      (strategy : Str) (s : EgressSelector)
      → panics (resolve_region o settings m options strategy s).0 ≡ false
  unfolding resolve_region
  resolve_region_safe strategy s = ground (
    arith,
    region_route_safe (normalize_region_code (trim_space options.region)) strategy options
        (select_in o settings m (normalize_region_code (trim_space options.region)) strategy s)
        (has_first-in (normalize_region_code (trim_space options.region)) strategy s),
  )

  resolve_any_safe :
      (strategy : Str) (s : EgressSelector) → panics (resolve_any m options strategy s).0 ≡ false
  unfolding resolve_any
  resolve_any_safe strategy s =
      any_route_safe strategy options
        (select_any_egress_candidates m strategy s (latency_limit options.max_latency_ms))
        (has_first-any m strategy s (latency_limit options.max_latency_ms))

  abbrev strategy : Str
  strategy = strategy_name (normalize_strategy options.strategy)

  abbrev selector : EgressSelector
  selector = record { residential = options.residential; premium = options.premium }

  -- Whatever the options, the settings and the pools are, resolveEgress never takes the first
  -- element of an empty list of candidates.
  pub resolve_egress_safe : panics (resolve_egress o settings m options).0 ≡ false
  unfolding resolve_egress
  resolve_egress_safe = elim (Bool-cases (is_nil (trim_space options.region))) [
    | inl blank ↦ elim (Bool-cases (options.any || options.premium)) [
      | inl e ↦ rw (blank, e, resolve_egress) (resolve_any_safe strategy selector)
      | inr e ↦ rw (blank, e, resolve_egress) refl
    ]
    | inr e ↦ elim (Bool-cases (is_any_region (trim_space options.region))) [
      | inl f ↦ rw (e, f, resolve_egress) (resolve_any_safe strategy selector)
      | inr f ↦ rw (e, f, resolve_egress) (resolve_region_safe strategy selector)
    ]
  ]
