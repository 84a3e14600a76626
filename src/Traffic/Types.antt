-- ===== src/Traffic/Types.antt =====
-- The records of internal/traffic: a trace of a request, and the settings by which traces are
-- grouped and kept. A pointer to a bool is an option. Times are nanoseconds since Go's zero time.
use chi_jie.Prelude.{ℕ, ℤ, Bool, Option, List, Str}

pub record Trace : Type 0 where
  pub id : Str
  pub timestamp : ℕ
  pub kind : Str
  pub method : Str
  pub url : Str
  pub target : Str
  pub region : Str
  pub egress_group : Str
  pub strategy : Str
  pub residential : Bool
  pub premium : Bool
  pub egress_pool : Str
  pub egress_node : Str
  pub egress_source : Str
  pub egress_template : Bool
  pub tls_fingerprint : Str
  pub status : ℤ
  pub latency_ms : ℤ
  pub request_bytes : ℕ
  pub response_bytes : ℕ
  pub error : Str

pub record PersistenceConfig : Type 0 where
  pub enabled : Option Bool
  pub retention_days : ℤ

pub record UrlNormalizationMatch : Type 0 where
  pub host_pattern : Str
  pub path_pattern : Str

pub record QueryNormalizationConfig : Type 0 where
  pub drop_keys : List Str
  pub sort : Option Bool

pub record UrlNormalizationRule : Type 0 where
  pub name : Str
  pub match : UrlNormalizationMatch
  pub query : QueryNormalizationConfig

pub record UrlNormalizationConfig : Type 0 where
  pub enabled : Option Bool
  pub rules : List UrlNormalizationRule

pub record FailureGroupingConfig : Type 0 where
  pub enabled : Option Bool
  pub url_normalization : UrlNormalizationConfig

pub record SuccessFoldingRule : Type 0 where
  pub name : Str
  pub match : UrlNormalizationMatch

pub record SuccessFoldingConfig : Type 0 where
  pub enabled : Option Bool
  pub rules : List SuccessFoldingRule

pub record TrafficConfig : Type 0 where
  pub persistence : PersistenceConfig
  pub failure_grouping : FailureGroupingConfig
  pub success_folding : SuccessFoldingConfig
