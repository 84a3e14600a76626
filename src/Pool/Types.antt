-- ===== src/Pool/Types.antt =====
-- The records of internal/pool/manager.go and internal/dialer/dialer.go. A dialer is an object of
-- another package: the model keeps its identity, a number, and `none` for nil. Times and durations
-- that the code measures are nanoseconds.
use chi_jie.Prelude.{ℕ, Bool, true, Option, none, some, List, Str, Dict, ℤ}

abbrev pub Dialer : Type 0
Dialer = ℕ

-- dialer.Node
pub record Node : Type 0 where
  pub name : Str
  pub type : Str
  pub server : Str
  pub port : ℤ
  pub region : Str
  pub username : Str
  pub password : Str
  pub enabled : Option Bool
  pub residential : Bool
  pub premium : Bool
  pub tags : List Str
  pub extra : Dict Str

pub record HealthCheckConfig : Type 0 where
  pub interval : Str
  pub url : Str
  pub timeout : Str
  pub max_fail : ℤ

-- `filter_region` is `Filter.Region`, empty where `Filter` is nil: the code tests both alike.
pub record PoolConfig : Type 0 where
  pub source : Str
  pub enabled : Option Bool
  pub residential : Bool
  pub premium : Bool
  pub url : Str
  pub allow_private_host : Bool
  pub update_interval : Str
  pub filter_region : List Str
  pub health_check : Option HealthCheckConfig
  pub try_offline : Bool
  pub nodes : List Node
  pub disabled_nodes : List Str
  pub template_type : Str
  pub type : Str
  pub server : Str
  pub port : ℤ
  pub endpoint : Str
  pub bearer_token : Str
  pub username_template : Str
  pub password : Str
  pub priority : ℤ
  pub coverage : Str
  pub tags : List Str
  pub reject_regex : List Str
  pub node_regions : Dict Str
  pub node_aliases : Dict Str
  pub node_tags : Dict (List Str)
  pub node_server_regions : Dict Str
  pub node_server_aliases : Dict Str
  pub node_server_tags : Dict (List Str)
  pub region_group_names : Dict Str

pub record NodeEntry : Type 0 where
  pub node : Node
  pub dialer : Option Dialer
  pub enabled : Bool
  pub alive : Bool
  pub latency : ℕ
  pub fail_count : ℕ
  pub region : Str
  pub alias : Str
  pub residential : Bool
  pub premium : Bool
  pub tags : List Str

pub record Pool : Type 0 where
  pub name : Str
  pub config : PoolConfig
  pub entries : List NodeEntry
  pub error : Str
  pub last_refresh_at : ℕ
  pub last_refresh_failed : Bool

pub record EgressChoice : Type 0 where
  pub dialer : Option Dialer
  pub pool_name : Str
  pub node_name : Str
  pub source : Str
  pub template_type : Str
  pub region : Str
  pub group : Str
  pub residential : Bool
  pub premium : Bool
  pub template : Bool
  pub priority : ℤ
  pub endpoint : Str
  pub bearer_token : Str
  pub latency : ℕ

pub record EgressSelector : Type 0 where
  pub residential : Bool
  pub premium : Bool

-- The part of the manager that selection changes: the round-robin counters, and the tape of draws
-- from which package rand shuffles.
pub record Cursor : Type 0 where
  pub rr_by_group : Dict ℕ
  pub draws : List ℕ

pub record Manager : Type 0 where
  pub pools : Dict Pool
  pub cursor : Cursor

-- poolEnabled
unfoldable pub pool_enabled : PoolConfig → Bool
pool_enabled cfg = elim cfg.enabled [ none ↦ true | some b ↦ b ]
