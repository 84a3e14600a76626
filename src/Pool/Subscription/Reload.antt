-- ===== src/Pool/Subscription/Reload.antt =====
-- What a reload of the file of nodes does to a subscription whose fetch fails.
use chi_jie.Prelude.{
  ℕ, ◌≡◌, refl, ap, sym, subst, ◌∙◌, ◌⊎◌, inl, inr, Bool, true, false, not, ◌&&◌, Option, none,
  some, List, [], ◌∷◌, map, if◌then◌else◌, Str, text, str_eq, str_eq_iff, lookup, Dict, arith,
  Bool-cases, is_nil,
}
use chi_jie.Pool.Types.{Node, NodeEntry, PoolConfig, Pool, Manager, pool_enabled}
use chi_jie.Pool.Entries.{Packages, RegionOrder, later, keeping, Checked, good, bad, Prepared}
use chi_jie.Pool.Subscription.{
  not_fetched, record_subscription_refresh_failure, restore_subscription_entries_after_failure,
  restore_prepared, restore_cached, build_from, build_subscription, build_pool, new_pool, Yield,
  Built, built, not_built, BuildError, keep_entry, keep_entries, preserve_entries,
  previous_subscription_pool, add_pool, install, load_pools, load_from_file,
}

-- What a health check has found out of an entry, with its node and its dialer.
pub record Health : Type 0 where
  pub node : Node
  pub dialer : Option ℕ
  pub alive : Bool
  pub latency : ℕ
  pub fail_count : ℕ

abbrev pub health : NodeEntry → Health
health e = record {
  node = e.node;
  dialer = e.dialer;
  alive = e.alive;
  latency = e.latency;
  fail_count = e.fail_count;
}

health-keep_entries :
    (orders : ℕ → RegionOrder) (cfg : PoolConfig) (es : List NodeEntry)
    → map health (keep_entries orders cfg es) ≡ map health es
unfolding keep_entries keep_entry
health-keep_entries orders cfg [] = refl
health-keep_entries orders cfg (e ∷ es) =
    ap (λ l. health e ∷ l) (health-keep_entries (later orders) cfg es)

restore_prepared_failed :
    (c : Checked Prepared) (message : Str) (now : ℕ) (pool : Pool)
    → (restore_prepared c message now pool).last_refresh_failed ≡ true
unfolding restore_prepared record_subscription_refresh_failure
    restore_subscription_entries_after_failure
restore_prepared_failed (bad e) message now pool = refl
restore_prepared_failed (good p) message now pool = elim (Bool-cases (is_nil p.entries)) [
  | inl e ↦ rw e refl
  | inr e ↦ rw e refl
]

restore_cached_failed :
    (packages : Packages) (cached : Option (List Node)) (message : Str) (now : ℕ) (pool : Pool)
    → (restore_cached packages cached message now pool).last_refresh_failed ≡ true
unfolding restore_cached record_subscription_refresh_failure
restore_cached_failed packages none message now pool = refl
restore_cached_failed packages (some nodes) message now pool =
    restore_prepared_failed _ message now pool

Built-cases {ℓ} :
    {A : Type ℓ} (b : Built A) → ((a : A) × (b ≡ built a)) ⊎ ((e : BuildError) × (b ≡ not_built e))
Built-cases (built a) = inl (a, refl)
Built-cases (not_built e) = inr (e, refl)

not_direct : str_eq (text "subscription") (text "direct") ≡ false
unfolding str_eq
not_direct = refl

not_static : str_eq (text "subscription") (text "static") ≡ false
unfolding str_eq
not_static = refl

not_template : str_eq (text "subscription") (text "template") ≡ false
unfolding str_eq
not_template = refl

fifth {ℓ} :
    {A : Type ℓ} (sub on direct static template : Bool) (a b c d e f : A)
    → sub ≡ true
    → on ≡ true
    → direct ≡ false
    → static ≡ false
    → template ≡ false
    → (if sub && not on
        then a
        else if direct
        then b
        else if static
        then c
        else if template
        then d
        else if sub
        then e
        else f)
      ≡ e
fifth sub on direct static template a b c d e f hs ho hd ht hm = rw (hs, ho, hd, ht, hm) refl

other_source :
    (source other : Str)
    → str_eq source (text "subscription") ≡ true
    → str_eq (text "subscription") other ≡ false
    → str_eq source other ≡ false
other_source source other h e =
    ap (λ s. str_eq s other) ((str_eq_iff source (text "subscription")).0 h) ∙ e

-- A subscription that is switched on is made of its fetch and its cache.
build_pool-subscription :
    (packages : Packages) (y : Yield) (now : ℕ) (name : Str) (cfg : PoolConfig)
    → str_eq cfg.source (text "subscription") ≡ true
    → pool_enabled cfg ≡ true
    → build_pool packages y now name cfg
      ≡ built (build_subscription packages y now (new_pool name cfg))
unfolding build_pool
build_pool-subscription packages y now name cfg s on =
    fifth (str_eq cfg.source (text "subscription")) (pool_enabled cfg)
      (str_eq cfg.source (text "direct")) (str_eq cfg.source (text "static"))
      (str_eq cfg.source (text "template")) _ _ _ _ _ _ s on
      (other_source cfg.source (text "direct") s not_direct)
      (other_source cfg.source (text "static") s not_static)
      (other_source cfg.source (text "template") s not_template)

build_subscription_failed :
    (packages : Packages) (y : Yield) (now : ℕ) (pool : Pool) (e : Str)
    → y.fetch ≡ not_fetched e
    → (build_subscription packages y now pool).last_refresh_failed ≡ true
unfolding build_subscription build_from
build_subscription_failed packages y now pool e f =
    subst (λ x. (build_from packages x y.cached now pool).last_refresh_failed ≡ true) (sym f)
      (restore_cached_failed packages y.cached _ now pool)

-- Of a pool whose refresh failed, the entries of the previous pool are kept.
preserve_entries-health :
    (packages : Packages) (cfg : PoolConfig) (current previous : Pool)
    → str_eq cfg.source (text "subscription") ≡ true
    → current.last_refresh_failed ≡ true
    → is_nil previous.entries ≡ false
    → (map health (preserve_entries packages cfg current (some previous)).entries
        ≡ map health previous.entries)
      × ((preserve_entries packages cfg current (some previous)).last_refresh_failed ≡ true)
unfolding preserve_entries
preserve_entries-health packages cfg current previous s f n =
    rw (s, n) (simp f (health-keep_entries (packages.orders keeping) cfg previous.entries, refl))

add_pool_found :
    (k : Str) (preserve : Pool → Pool) (b : Built Pool) (rest : Built (Dict Pool))
    (pools : Dict Pool)
    → add_pool k preserve b rest ≡ built pools
    → (pool : Pool) × ((more : Dict Pool) × ((b ≡ built pool)
          × ((rest ≡ built more) × (pools ≡ (k, preserve pool) ∷ more))))
add_pool_found k preserve (not_built e) rest pools h = absurd (ground arith)
add_pool_found k preserve (built pool) (not_built e) pools h = absurd (ground arith)
add_pool_found k preserve (built pool) (built more) pools h =
    (pool, (more, (refl, (refl, ground arith))))

module _ {V : Type 0} where
  lookup_here :
      (k name : Str) (v : V) (m : Dict V) → str_eq k name ≡ true → lookup name ((k, v) ∷ m) ≡ some v
  unfolding lookup
  lookup_here k name v m h = rw h refl

  lookup_skip :
      (k name : Str) (v : V) (m : Dict V)
      → str_eq k name ≡ false
      → lookup name ((k, v) ∷ m) ≡ lookup name m
  unfolding lookup
  lookup_skip k name v m h = rw h refl

lookup_nil : (name : Str) (cfg : PoolConfig) → lookup name [] ≡ some cfg → ⊥
unfolding lookup
lookup_nil name cfg l = absurd (ground arith)

some_inj {ℓ} : {A : Type ℓ} (x y : A) → some x ≡ some y → x ≡ y
some_inj x y h = cc

module _ (packages : Str → Packages) (outside : Str → Yield) (now : ℕ) (old_pools : Dict Pool) where
  -- A pool of the file was made, and stands among the pools, with the entries of its predecessor
  -- where these are kept.
  abbrev Loaded : Dict Pool → Str → PoolConfig → Type 0
  Loaded pools name cfg =
      (pool : Pool) × ((build_pool (packages name) (outside name) now name cfg ≡ built pool)
        × (lookup name pools
            ≡ some (
                preserve_entries (packages name) cfg pool
                  (previous_subscription_pool name cfg old_pools))))

  load_pools_found :
      (configs : Dict PoolConfig) (pools : Dict Pool) (name : Str) (cfg : PoolConfig)
      → load_pools packages outside now old_pools configs ≡ built pools
      → lookup name configs ≡ some cfg
      → Loaded pools name cfg
  unfolding load_pools
  load_pools_found [] pools name cfg h l = absurd (lookup_nil name cfg l)
  load_pools_found ((k, c) ∷ configs) pools name cfg h l =
      let (pool, (more, (b, (r, e)))) = add_pool_found k _ _ _ pools h in
      elim (Bool-cases (str_eq k name)) [
        | inl same ↦
            let base : Loaded pools k c =
              (pool, (b, ap (lookup k) e ∙ lookup_here k k _ more ((str_eq_iff k k).1 refl))) in
            subst (λ n. Loaded pools n cfg) ((str_eq_iff k name).0 same)
              (subst (λ g. Loaded pools k g)
                (some_inj c cfg (sym (lookup_here k name c configs same) ∙ l)) base)
        | inr other ↦
            let (pool', (b', l')) =
              load_pools_found configs more name cfg r
                (sym (lookup_skip k name c configs other) ∙ l) in
            (pool', (b', ap (lookup name) e ∙ (lookup_skip k name _ more other ∙ l')))
      ]

install_ok :
    (m : Manager) (b : Built (Dict Pool))
    → (install m b).1 ≡ none
    → (pools : Dict Pool) × ((b ≡ built pools) × ((install m b).0.pools ≡ pools))
install_ok m (not_built e) h = absurd (ground arith)
install_ok m (built pools) h = (pools, (refl, refl))

previous_found :
    (name : Str) (cfg : PoolConfig) (old_pools : Dict Pool) (previous : Pool)
    → str_eq cfg.source (text "subscription") ≡ true
    → lookup name old_pools ≡ some previous
    → str_eq previous.config.source (text "subscription") ≡ true
    → previous_subscription_pool name cfg old_pools ≡ some previous
unfolding previous_subscription_pool
previous_found name cfg old_pools previous s old o = rw (s, old, o) refl

built_inj {ℓ} : {A : Type ℓ} (x y : A) → built x ≡ built y → x ≡ y
built_inj x y h = cc

-- Let a reload of the file of nodes succeed, let the file name a subscription that is switched on,
-- and let the pool of that name be a subscription already, with some entries. If its fetch fails,
-- then, whatever the cache yields, the pool has the nodes that it had, in their order, each with
-- its dialer and with what the health checks had found out of it, and the failure is noted.
pub reload_keeps :
    (packages : Str → Packages) (outside : Str → Yield) (now : ℕ) (configs : Dict PoolConfig)
    (m : Manager) (name : Str) (cfg : PoolConfig) (e : Str) (previous : Pool)
    → (load_from_file packages outside now configs m).1 ≡ none
    → lookup name configs ≡ some cfg
    → str_eq cfg.source (text "subscription") ≡ true
    → pool_enabled cfg ≡ true
    → (outside name).fetch ≡ not_fetched e
    → lookup name m.pools ≡ some previous
    → str_eq previous.config.source (text "subscription") ≡ true
    → is_nil previous.entries ≡ false
    → (pool : Pool) × ((lookup name (load_from_file packages outside now configs m).0.pools
          ≡ some pool)
        × ((map health pool.entries ≡ map health previous.entries)
            × (pool.last_refresh_failed ≡ true)))
unfolding load_from_file
reload_keeps packages outside now configs m name cfg e previous ok l s on f old o n =
    let (pools, (b, pe)) = install_ok m (load_pools packages outside now m.pools configs) ok in
    let (pool, (bp, lk)) =
      load_pools_found packages outside now m.pools configs pools name cfg b l in
    let made = build_subscription (packages name) (outside name) now (new_pool name cfg) in
    let same : made ≡ pool =
      built_inj made pool
        (sym (build_pool-subscription (packages name) (outside name) now name cfg s on) ∙ bp) in
    let failed =
      subst (λ (p : Pool). p.last_refresh_failed ≡ true) same
        (build_subscription_failed (packages name) (outside name) now (new_pool name cfg) e f) in
    (
      preserve_entries (packages name) cfg pool (some previous),
      (
        ap (lookup name) pe
            ∙ (lk
                ∙ ap (λ q. some (preserve_entries (packages name) cfg pool q))
                    (previous_found name cfg m.pools previous s old o)),
        preserve_entries-health (packages name) cfg pool previous s failed n,
      ),
    )
