-- ===== src/Examples/Subscription.antt =====
-- A subscription on concrete data, refreshed and read again from the file.
use chi_jie.Prelude.{
  ◌≡◌, ◌≢◌, refl, true, false, none, some, List, [], ◌∷◌, ◌++◌, map, if◌then◌else◌, Str, text,
  str_eq, contains, lookup, Dict,
}
use chi_jie.Pool.Types.{Node, PoolConfig, Pool, Manager}
use chi_jie.Pool.Entries.{Packages, dialed, not_dialed, compiled, prepare_subscription_entries}
use chi_jie.Pool.Entries.Accepted.{IsPrepared, prepare-IsPrepared}
use chi_jie.Pool.Subscription.{fetched, not_fetched, Yield, refresh_subscription, load_from_file}
use chi_jie.Pool.Subscription.Refresh.{IsRefreshed, refresh_subscription-IsRefreshed}
use chi_jie.Pool.Subscription.Reload.{health, reload_keeps}
use chi_jie.Examples.Data.{node_of, entry_of, config_of, pool_of}

abbrev packages : Packages
packages = record {
  new_dialer =
      λ n. if str_eq n.type (text "vmess") then dialed 1 else not_dialed (text "unsupported type");
  direct_dialer = 0;
  compile = λ p. compiled (λ name. contains name p);
  quote = λ p. text "\"" ++ (p ++ text "\"");
  orders = λ loop i. record {
    aliases = (text "hong kong", text "HK") ∷ [];
    codes = text "HK" ∷ text "US" ∷ [];
  };
}

abbrev settings : PoolConfig
settings = record (config_of (text "subscription") []) {
  reject_regex = text "expired" ∷ text " " ∷ [];
}

abbrev nodes : List Node
nodes =
    node_of (text "Hong Kong 1")
    ∷ node_of (text "expired 2")
    ∷ record (node_of (text "US 3")) { type = text "tuic" }
    ∷ []

abbrev old_pool : Pool
old_pool = pool_of (text "sub") settings (entry_of (text "Hong Kong 1") (text "HK") false 80 ∷ [])

abbrev manager : Manager
manager = record {
  pools = (text "sub", old_pool) ∷ [];
  cursor = record { rr_by_group = []; draws = [] };
}

prepare-IsPrepared_example :
    IsPrepared packages settings nodes (prepare_subscription_entries packages nodes settings)
prepare-IsPrepared_example = prepare-IsPrepared packages settings nodes

refresh_subscription-IsRefreshed_example :
    ((after : Pool) × ((lookup
            (text "sub")
            (refresh_subscription packages (fetched nodes) 5 (text "sub") manager).0.pools
          ≡ some after)
        × IsRefreshed packages
            (fetched nodes)
            old_pool
            after
            (refresh_subscription packages (fetched nodes) 5 (text "sub") manager).1))
    × ((other : Str)
        → text "sub" ≢ other
        → lookup other
            (refresh_subscription packages (fetched nodes) 5 (text "sub") manager).0.pools
          ≡ lookup other manager.pools)
unfolding lookup str_eq
refresh_subscription-IsRefreshed_example =
    refresh_subscription-IsRefreshed packages (fetched nodes) 5 (text "sub") manager old_pool refl

abbrev outside : Str → Yield
outside name = record {
  fetch = not_fetched (text "timeout");
  cached = some nodes;
  endpoint_error = λ e p. none;
}

abbrev configs : Dict PoolConfig
configs = (text "sub", settings) ∷ []

reload_keeps_example :
    (pool : Pool) × ((lookup
          (text "sub")
          (load_from_file (λ name. packages) outside 9 configs manager).0.pools
        ≡ some pool)
      × ((map health pool.entries ≡ map health old_pool.entries)
          × (pool.last_refresh_failed ≡ true)))
unfolding lookup load_from_file
reload_keeps_example =
    reload_keeps (λ name. packages) outside 9 configs manager (text "sub") settings (text "timeout")
      old_pool refl refl refl refl refl refl refl refl
