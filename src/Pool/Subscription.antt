-- ===== src/Pool/Subscription.antt =====
-- The life of a subscription pool: buildPool, RefreshSubscription and LoadFromFile of
-- internal/pool/manager.go, and what internal/pool/status.go records of a refresh. The fetch of a
-- subscription, the file of nodes and the cache are I/O, and what they yield is an argument. A
-- refresh is one step: the pool is not replaced between its fetch and its end.
pub mod Refresh
pub mod Reload
use chi_jie.Prelude.{
  ℕ, ℤ, Bool, true, false, not, ◌&&◌, ◌||◌, Option, none, some, List, [], ◌∷◌, ◌++◌, map,
  if◌then◌else◌, Str, text, str_eq, trim_space, is_nil, Dict, lookup, insert,
}
use chi_jie.Pool.Types.{Dialer, Node, NodeEntry, PoolConfig, Pool, Manager, pool_enabled}
use chi_jie.Pool.Names.{normalize_template_type}
use chi_jie.Pool.Entries.{
  Packages, RegionOrder, later, making, keeping, Dialed, dialed, not_dialed, Checked, good, bad,
  Prepared, new_node_entry, prepare_subscription_entries,
}

-- SubscriptionParser.Fetch
pub data Fetched : Type 0 where
  fetched : List Node → Fetched
  not_fetched : Str → Fetched

unfoldable pub record_subscription_refresh_failure : Str → ℕ → Pool → Pool
record_subscription_refresh_failure message now pool = record pool {
  error = message;
  last_refresh_at = now;
  last_refresh_failed = true;
}

unfoldable pub record_subscription_refresh_success : List NodeEntry → Str → ℕ → Pool → Pool
record_subscription_refresh_success entries warning now pool = record pool {
  entries = entries;
  error = warning;
  last_refresh_at = now;
  last_refresh_failed = false;
}

unfoldable pub restore_subscription_entries_after_failure : List NodeEntry → Str → ℕ → Pool → Pool
restore_subscription_entries_after_failure entries message now pool = record pool {
  entries = entries;
  error = message;
  last_refresh_at = now;
  last_refresh_failed = true;
}

abbrev fetch_message : Str → Str
fetch_message e = text "fetch subscription: " ++ e

pub data RefreshError : Type 0 where
  pool_not_found : RefreshError
  not_a_subscription : RefreshError
  pool_disabled : RefreshError
  fetch_failed : Str → RefreshError
  not_prepared : Str → RefreshError

-- The entries of a fetch, taken into the pool.
unfoldable pub take_prepared : Checked Prepared → ℕ → Pool → Pool × Option RefreshError
unfolding record_subscription_refresh_failure record_subscription_refresh_success
take_prepared (bad e) now pool =
    (record_subscription_refresh_failure e now pool, some (not_prepared e))
take_prepared (good p) now pool =
    (record_subscription_refresh_success p.entries p.warning now pool, none)

unfoldable pub take_fetched : Packages → Fetched → ℕ → Pool → Pool × Option RefreshError
unfolding prepare_subscription_entries take_prepared record_subscription_refresh_failure
take_fetched packages (not_fetched e) now pool =
    (record_subscription_refresh_failure (fetch_message e) now pool, some (fetch_failed e))
take_fetched packages (fetched nodes) now pool =
    take_prepared (prepare_subscription_entries packages nodes pool.config) now pool

unfoldable pub refresh_pool : Packages → Fetched → ℕ → Pool → Pool × Option RefreshError
unfolding take_fetched pool_enabled str_eq
refresh_pool packages fetch now pool =
    if not (str_eq pool.config.source (text "subscription"))
    then (pool, some not_a_subscription)
    else if not (pool_enabled pool.config)
    then (pool, some pool_disabled)
    else take_fetched packages fetch now pool

-- RefreshSubscription
unfoldable pub refresh_subscription :
    Packages → Fetched → ℕ → Str → Manager → Manager × Option RefreshError
unfolding refresh_pool lookup insert
refresh_subscription packages fetch now pool_name m = elim (lookup pool_name m.pools) [
  | none ↦ (m, some pool_not_found)
  | some pool ↦
      let (pool', error) = refresh_pool packages fetch now pool in
      (record m { pools = insert pool_name pool' m.pools }, error)
]

pub data BuildError : Type 0 where
  no_dialer : Str → Str → BuildError
  bad_endpoint : Str → BuildError
  bearer_token_required : BuildError
  unknown_source : Str → BuildError

pub data Built {ℓ} (A : Type ℓ) : Type ℓ where
  built : A → Built A
  not_built : BuildError → Built A

abbrev pub new_pool : Str → PoolConfig → Pool
new_pool name cfg = record {
  name = name;
  config = cfg;
  entries = [];
  error = [];
  last_refresh_at = 0;
  last_refresh_failed = false;
}

-- What the outside yields to the making of one pool: the fetch, the nodes of the cache if it has
-- them, and what ChijieProxyURL says against an endpoint.
pub record Yield : Type 0 where
  pub fetch : Fetched
  pub cached : Option (List Node)
  pub endpoint_error : Str → ℤ → Option Str

-- The loop over the nodes of a static pool.
unfoldable pub static_entries :
    Packages → PoolConfig → (ℕ → RegionOrder) → List Node → Built (List NodeEntry)
unfolding new_node_entry
static_entries packages cfg orders [] = built []
static_entries packages cfg orders (node ∷ nodes) =
    let rest = static_entries packages cfg (later orders) nodes in
    elim (packages.new_dialer node) [
      | not_dialed e ↦ not_built (no_dialer node.name e)
      | dialed d ↦ elim rest [
        | not_built e ↦ not_built e
        | built es ↦ built (new_node_entry (orders 0) node (some d) cfg ∷ es)
      ]
    ]

abbrev direct_node : Node
direct_node = record {
  name = text "direct";
  type = text "direct";
  server = [];
  port = ℤ.pos 0;
  region = [];
  username = [];
  password = [];
  enabled = none;
  residential = false;
  premium = false;
  tags = [];
  extra = [];
}

unfoldable pub check_template : Yield → PoolConfig → Option BuildError
unfolding normalize_template_type trim_space str_eq
check_template y cfg =
    if str_eq (normalize_template_type cfg.template_type) (text "chijie")
    then elim (y.endpoint_error cfg.endpoint cfg.port) [
      | some e ↦ some (bad_endpoint e)
      | none ↦ if is_nil (trim_space cfg.bearer_token) then some bearer_token_required else none
    ]
    else none

-- A failed fetch: the nodes of the cache, if they can be prepared and there are any.
unfoldable pub restore_prepared : Checked Prepared → Str → ℕ → Pool → Pool
unfolding record_subscription_refresh_failure restore_subscription_entries_after_failure
restore_prepared (bad e) message now pool =
    record_subscription_refresh_failure (message ++ (text "; cached subscription rejected: " ++ e))
      now pool
restore_prepared (good p) message now pool =
    if is_nil p.entries
    then record_subscription_refresh_failure message now pool
    else restore_subscription_entries_after_failure p.entries message now pool

unfoldable pub restore_cached : Packages → Option (List Node) → Str → ℕ → Pool → Pool
unfolding prepare_subscription_entries restore_prepared record_subscription_refresh_failure
restore_cached packages none message now pool = record_subscription_refresh_failure message now pool
restore_cached packages (some nodes) message now pool =
    restore_prepared (prepare_subscription_entries packages nodes pool.config) message now pool

unfoldable pub build_from : Packages → Fetched → Option (List Node) → ℕ → Pool → Pool
unfolding restore_cached prepare_subscription_entries take_prepared
build_from packages (not_fetched e) cached now pool =
    restore_cached packages cached (fetch_message e) now pool
build_from packages (fetched nodes) cached now pool =
    (take_prepared (prepare_subscription_entries packages nodes pool.config) now pool).0

unfoldable pub build_subscription : Packages → Yield → ℕ → Pool → Pool
unfolding build_from
build_subscription packages y now pool = build_from packages y.fetch y.cached now pool

unfoldable pub build_static : Packages → PoolConfig → Pool → Built Pool
unfolding static_entries
build_static packages cfg pool =
    elim (static_entries packages cfg (packages.orders making) cfg.nodes) [
      | not_built e ↦ not_built e
      | built es ↦ built (record pool { entries = es })
    ]

unfoldable pub build_template : Yield → PoolConfig → Pool → Built Pool
unfolding check_template
build_template y cfg pool = elim (check_template y cfg) [ some e ↦ not_built e | none ↦ built pool ]

unfoldable pub build_pool : Packages → Yield → ℕ → Str → PoolConfig → Built Pool
unfolding build_subscription build_static build_template new_node_entry pool_enabled str_eq
build_pool packages y now name cfg =
    let pool = new_pool name cfg in
    if str_eq cfg.source (text "subscription") && not (pool_enabled cfg)
    then built pool
    else if str_eq cfg.source (text "direct")
    then built (record pool {
      entries =
          new_node_entry (packages.orders making 0) direct_node (some packages.direct_dialer) cfg
          ∷ [];
    })
    else if str_eq cfg.source (text "static")
    then build_static packages cfg pool
    else if str_eq cfg.source (text "template")
    then build_template y cfg pool
    else if str_eq cfg.source (text "subscription")
    then built (build_subscription packages y now pool)
    else not_built (unknown_source cfg.source)

abbrev is_subscription : PoolConfig → Bool
is_subscription cfg = str_eq cfg.source (text "subscription")

-- The loop of previousSubscriptionPool over the old pools, in the map's iteration order.
unfoldable pub find_by_url : Str → Dict Pool → Option Pool
unfolding trim_space str_eq
find_by_url url [] = none
find_by_url url ((name, p) ∷ more) =
    if is_subscription p.config && str_eq (trim_space p.config.url) (trim_space url)
    then some p
    else find_by_url url more

abbrev pub subscription_or : Option Pool → Option Pool → Option Pool
subscription_or none otherwise = otherwise
subscription_or (some p) otherwise = if is_subscription p.config then some p else otherwise

unfoldable pub previous_subscription_pool : Str → PoolConfig → Dict Pool → Option Pool
unfolding find_by_url lookup str_eq
previous_subscription_pool name cfg old_pools =
    if not (is_subscription cfg)
    then none
    else subscription_or (lookup name old_pools) (find_by_url cfg.url old_pools)

unfoldable pub keep_entry : RegionOrder → PoolConfig → NodeEntry → NodeEntry
unfolding new_node_entry
keep_entry order cfg e = record (new_node_entry order e.node e.dialer cfg) {
  alive = e.alive;
  latency = e.latency;
  fail_count = e.fail_count;
}

-- The loop over the entries of the previous pool.
unfoldable pub keep_entries : (ℕ → RegionOrder) → PoolConfig → List NodeEntry → List NodeEntry
unfolding keep_entry
keep_entries orders cfg [] = []
keep_entries orders cfg (e ∷ es) = keep_entry (orders 0) cfg e ∷ keep_entries (later orders) cfg es

-- preserveSubscriptionEntriesOnError, with the pool that goes on.
unfoldable pub preserve_entries : Packages → PoolConfig → Pool → Option Pool → Pool
unfolding keep_entries str_eq
preserve_entries packages cfg current none = current
preserve_entries packages cfg current (some previous) =
    if not (is_subscription cfg)
    then current
    else if not current.last_refresh_failed
    then current
    else if is_nil previous.entries
    then current
    else record current { entries = keep_entries (packages.orders keeping) cfg previous.entries }

abbrev pub add_pool : Str → (Pool → Pool) → Built Pool → Built (Dict Pool) → Built (Dict Pool)
add_pool name preserve (not_built e) rest = not_built e
add_pool name preserve (built pool) (not_built e) = not_built e
add_pool name preserve (built pool) (built pools) = built ((name, preserve pool) ∷ pools)

-- The loop of LoadFromFile over the pools of the file. The packages are those of each pool by its
-- name, since each has its own draws of the orders.
unfoldable pub load_pools :
    (Str → Packages) → (Str → Yield) → ℕ → Dict Pool → Dict PoolConfig → Built (Dict Pool)
unfolding build_pool preserve_entries previous_subscription_pool
load_pools packages outside now old_pools [] = built []
load_pools packages outside now old_pools ((name, cfg) ∷ more) =
    add_pool name
      (λ pool.
        preserve_entries (packages name) cfg pool (previous_subscription_pool name cfg old_pools))
      (build_pool (packages name) (outside name) now name cfg)
      (load_pools packages outside now old_pools more)

abbrev pub install : Manager → Built (Dict Pool) → Manager × Option BuildError
install m (not_built e) = (m, some e)
install m (built pools) = (record m { pools = pools }, none)

-- LoadFromFile, once the file is read: the pools are replaced, or left alone after an error.
unfoldable pub load_from_file :
    (Str → Packages) → (Str → Yield) → ℕ → Dict PoolConfig → Manager → Manager × Option BuildError
unfolding load_pools
load_from_file packages outside now configs m =
    install m (load_pools packages outside now m.pools configs)
