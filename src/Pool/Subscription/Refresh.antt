-- ===== src/Pool/Subscription/Refresh.antt =====
-- What a refresh does to the pools.
use chi_jie.Prelude.{
  ℕ, ◌≡◌, ◌≢◌, refl, ◌⊎◌, inl, inr, true, false, Option, none, some, List, Str, text, str_eq,
  str_eq_iff, lookup, insert, lookup-insert, Bool-cases,
}
use chi_jie.Pool.Types.{Node, Pool, Manager, pool_enabled}
use chi_jie.Pool.Entries.{Packages, Checked, good, bad, Prepared, prepare_subscription_entries}
use chi_jie.Pool.Subscription.{
  Fetched, fetched, not_fetched, record_subscription_refresh_failure,
  record_subscription_refresh_success, RefreshError, take_prepared, take_fetched, refresh_pool,
  refresh_subscription,
}

-- What is left of a pool, by the result of the refresh. With no error its entries are those made of
-- the nodes fetched, and it says so; with an error it has the entries that it had, and either the
-- failure is noted or the pool was not one to refresh and nothing is changed.
abbrev pub IsRefreshed : Packages → Fetched → Pool → Pool → Option RefreshError → Type 0
IsRefreshed packages fetch before after none =
    (nodes : List Node) × ((fetch ≡ fetched nodes)
      × ((p : Prepared) × ((prepare_subscription_entries packages nodes before.config ≡ good p)
            × ((after.entries ≡ p.entries) × (after.last_refresh_failed ≡ false)))))
IsRefreshed packages fetch before after (some e) =
    (after.entries ≡ before.entries) × ((after.last_refresh_failed ≡ true) ⊎ (after ≡ before))

take_prepared-IsRefreshed :
    (packages : Packages) (nodes : List Node) (now : ℕ) (pool : Pool) (c : Checked Prepared)
    → prepare_subscription_entries packages nodes pool.config ≡ c
    → IsRefreshed packages
        (fetched nodes)
        pool
        (take_prepared c now pool).0
        (take_prepared c now pool).1
unfolding take_prepared record_subscription_refresh_failure record_subscription_refresh_success
take_prepared-IsRefreshed packages nodes now pool (bad e) h = (refl, inl refl)
take_prepared-IsRefreshed packages nodes now pool (good p) h =
    (nodes, (refl, (p, (h, (refl, refl)))))

take_fetched-IsRefreshed :
    (packages : Packages) (fetch : Fetched) (now : ℕ) (pool : Pool)
    → IsRefreshed packages fetch pool
        (take_fetched packages fetch now pool).0
        (take_fetched packages fetch now pool).1
unfolding take_fetched record_subscription_refresh_failure
take_fetched-IsRefreshed packages (not_fetched e) now pool = (refl, inl refl)
take_fetched-IsRefreshed packages (fetched nodes) now pool =
    take_prepared-IsRefreshed packages nodes now pool _ refl

refresh_pool-IsRefreshed :
    (packages : Packages) (fetch : Fetched) (now : ℕ) (pool : Pool)
    → IsRefreshed packages fetch pool
        (refresh_pool packages fetch now pool).0
        (refresh_pool packages fetch now pool).1
unfolding refresh_pool
refresh_pool-IsRefreshed packages fetch now pool =
    elim (Bool-cases (str_eq pool.config.source (text "subscription"))) [
      | inr e ↦ rw e (refl, inr refl)
      | inl e ↦ elim (Bool-cases (pool_enabled pool.config)) [
        | inr d ↦ rw (e, d) (refl, inr refl)
        | inl d ↦ rw (e, d) (take_fetched-IsRefreshed packages fetch now pool)
      ]
    ]

-- A refresh of a pool that the manager holds leaves the pool there and every other pool as it was.
-- If it reports no error, the nodes were fetched and prepared, and the pool has exactly the
-- entries so made and no failure noted. If it reports an error, the pool keeps all its entries,
-- and either a failure is noted or the pool is unchanged.
pub refresh_subscription-IsRefreshed :
    (packages : Packages) (fetch : Fetched) (now : ℕ) (name : Str) (m : Manager) (pool : Pool)
    → lookup name m.pools ≡ some pool
    → ((after : Pool) × ((lookup name (refresh_subscription packages fetch now name m).0.pools
            ≡ some after)
          × IsRefreshed packages fetch pool after
              (refresh_subscription packages fetch now name m).1))
      × ((other : Str)
          → name ≢ other
          → lookup other (refresh_subscription packages fetch now name m).0.pools
            ≡ lookup other m.pools)
unfolding refresh_subscription
refresh_subscription-IsRefreshed packages fetch now name m pool h =
    rw (h, refresh_subscription)
      (
        (
          (refresh_pool packages fetch now pool).0,
          (found, refresh_pool-IsRefreshed packages fetch now pool),
        ),
        others,
      )
  where
    found :
        lookup name (insert name (refresh_pool packages fetch now pool).0 m.pools)
        ≡ some (refresh_pool packages fetch now pool).0
    found =
        rw (lookup-insert name name (refresh_pool packages fetch now pool).0 m.pools)
          (rw ((str_eq_iff name name).1 refl) refl)

    others :
        (other : Str)
        → name ≢ other
        → lookup other (insert name (refresh_pool packages fetch now pool).0 m.pools)
          ≡ lookup other m.pools
    others other ne =
        rw (lookup-insert name other (refresh_pool packages fetch now pool).0 m.pools)
          (elim (Bool-cases (str_eq name other)) [
            | inl e ↦ absurd (ne ((str_eq_iff name other).0 e))
            | inr e ↦ rw e refl
          ])
