-- ===== src/Pool/Health.antt =====
-- internal/pool/health.go: what a probe does to a node, and when a pool is due.
-- An `int` or a duration from the settings may be negative, so those are signed.
pub mod Runs
pub mod Schedule
use chi_jie.Prelude.{
  ℕ, zero, ◌+◌, ◌-◌, Bool, true, false, not, ◌&&◌, Option, none, some, List, [], ◌∷◌, if◌then◌else◌,
  ltb, leb, ◌==◌, Str, text, str_eq, trim_space, is_nil, Dict, lookup, insert, select, ℤ, pos,
  is_not_positive, magnitude,
}
use chi_jie.Pool.Types.{NodeEntry, Pool, PoolConfig, HealthCheckConfig, pool_enabled}

-- HealthCheckDefaults, and healthCheckOptions, which has the same fields.
pub record HealthCheckDefaults : Type 0 where
  pub interval : ℤ
  pub timeout : ℤ
  pub test_url : Str
  pub max_fail : ℤ

-- DefaultHealthCheckDefaults
abbrev pub default_health_check_defaults : HealthCheckDefaults
default_health_check_defaults = record {
  interval = pos 30_000_000_000;
  timeout = pos 5_000_000_000;
  test_url = text "https://www.google.com/generate_204";
  max_fail = pos 3;
}

abbrev positive_or : ℤ → ℤ → ℤ
positive_or a b = if is_not_positive a then b else a

-- normalizeHealthCheckDefaults
unfoldable pub normalize_health_check_defaults : HealthCheckDefaults → HealthCheckDefaults
unfolding trim_space
normalize_health_check_defaults d =
    let base = default_health_check_defaults in
    record {
      interval = positive_or d.interval base.interval;
      timeout = positive_or d.timeout base.timeout;
      test_url = if is_nil (trim_space d.test_url) then base.test_url else d.test_url;
      max_fail = positive_or d.max_fail base.max_fail;
    }

-- A parsed duration counts where it is positive; `none` is a parse error.
abbrev pub parsed_or : Option ℤ → ℤ → ℤ
parsed_or none b = b
parsed_or (some a) b = positive_or a b

-- healthCheckOptionsForPool; `parse` is ParseDurationWithDays, over package time.
unfoldable pub health_check_options_for_pool :
    (Str → Option ℤ) → PoolConfig → HealthCheckDefaults → HealthCheckDefaults
unfolding normalize_health_check_defaults trim_space
health_check_options_for_pool parse cfg defaults =
    let d = normalize_health_check_defaults defaults in
    elim cfg.health_check [
      | none ↦ d
      | some h ↦ record {
        interval = parsed_or (parse (trim_space h.interval)) d.interval;
        timeout = parsed_or (parse (trim_space h.timeout)) d.timeout;
        test_url = if is_nil (trim_space h.url) then d.test_url else trim_space h.url;
        max_fail = positive_or h.max_fail d.max_fail;
      }
    ]

-- A probe: its latency, or an error.
pub data Probe : Type 0 where
  reached : ℕ → Probe
  failed : Probe

-- The results of updateNodeHealth besides the entry: whether the probe took the node down.
pub record HealthUpdate : Type 0 where
  pub entry : NodeEntry
  pub marked_dead : Bool

abbrev pub fail_limit : ℤ → ℕ
fail_limit max_fail = if is_not_positive max_fail then 3 else magnitude max_fail

-- updateNodeHealth
unfoldable pub update_node_health : NodeEntry → Probe → ℤ → HealthUpdate
update_node_health e (reached latency) max_fail = record {
  entry = record e { alive = true; fail_count = 0; latency = latency };
  marked_dead = false;
}
update_node_health e failed max_fail =
    if e.alive
    then if leb (fail_limit max_fail) (e.fail_count + 1)
      then record {
        entry = record e { alive = false; fail_count = e.fail_count + 1 };
        marked_dead = true;
      }
      else record { entry = record e { fail_count = e.fail_count + 1 }; marked_dead = false }
    else record { entry = e; marked_dead = false }

-- The last run of each pool.
abbrev pub LastRun : Type 0
LastRun = Dict ℕ

abbrev pub last_or_zero : Option ℕ → ℕ
last_or_zero none = 0
last_or_zero (some t) = t

-- shouldRunPool: the run is noted where the pool is due.
unfoldable pub should_run_pool : LastRun → Str → ℤ → ℤ → ℕ → Bool × LastRun
should_run_pool last pool_name own_interval interval now =
    let every = magnitude (positive_or interval own_interval) in
    let before = last_or_zero (lookup pool_name last) in
    if not (before == 0) && ltb now (before + every)
    then (false, last)
    else (true, insert pool_name now last)

-- markPoolRun
unfoldable pub mark_pool_run : LastRun → Str → ℕ → LastRun
mark_pool_run last pool_name now = insert pool_name now last

-- The entries that listHealthTargets probes.
unfoldable pub is_probed : NodeEntry → Bool
unfolding str_eq
is_probed e = not (str_eq e.node.type (text "direct")) && e.enabled

pub record HealthTarget : Type 0 where
  pub pool_name : Str
  pub entries : List NodeEntry
  pub options : HealthCheckDefaults

-- listHealthTargets
unfoldable pub list_health_targets :
    (Str → Option ℤ) → HealthCheckDefaults → Dict Pool → List HealthTarget
unfolding is_probed health_check_options_for_pool pool_enabled
list_health_targets parse defaults [] = []
list_health_targets parse defaults ((name, pool) ∷ rest) =
    let more = list_health_targets parse defaults rest in
    let probed = select is_probed pool.entries in
    if pool_enabled pool.config && not (is_nil probed)
    then record {
      pool_name = name;
      entries = probed;
      options = health_check_options_for_pool parse pool.config defaults;
    }
      ∷ more
    else more
