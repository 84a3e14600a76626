-- ===== src/Traffic/Store.antt =====
-- The store of traces of internal/traffic/store.go. The traces are held from the oldest to the
-- newest. The clock is read once in a call and is an argument; what the store hands to the writer
-- of the daily files is a list, and a store without a writer has none.
pub mod Recent
pub mod Log
pub mod Invariant
use chi_jie.Prelude.{
  ℕ, zero, suc, ◌+◌, ◌-◌, ℤ, pos, is_not_positive, magnitude, int_lt, Bool, true, false, not,
  Option, none, some, List, [], ◌∷◌, ◌++◌, map, select, drop, length, if◌then◌else◌, ltb, leb, ◌==◌,
  Str, text, is_nil, sort_by,
}
use chi_jie.Traffic.Types.{Trace, TrafficConfig}
use chi_jie.Traffic.Rules.{bool_value}
use chi_jie.Traffic.Config.{default_config, normalize_config, default_retention_days}
use chi_jie.Traffic.Ids.{format_id, parse_trace_id}

pub record Store : Type 0 where
  pub capacity : ℕ
  pub next_id : ℕ
  pub traces : List Trace
  pub started_at : ℕ
  pub active_tunnels : ℕ
  pub config : TrafficConfig
  pub persistence : Option (List Trace)

unfoldable pub new_store : ℤ → ℕ → Store
unfolding default_config
new_store capacity now = record {
  capacity = if is_not_positive capacity then 1000 else magnitude capacity;
  next_id = 0;
  traces = [];
  started_at = now;
  active_tunnels = 0;
  config = default_config;
  persistence = none;
}

-- The calendar, package time: the start of the local day that many days before a time.
abbrev pub Calendar : Type 0
Calendar = ℕ → ℕ → ℕ

unfoldable pub retained_days : TrafficConfig → ℕ
retained_days c =
    if int_lt c.persistence.retention_days (pos 1)
    then default_retention_days
    else magnitude c.persistence.retention_days

-- The time before which a trace has expired.
unfoldable pub cutoff : Calendar → TrafficConfig → ℕ → ℕ
unfolding retained_days
cutoff days_before c now = days_before (retained_days c - 1) now

-- `!trace.Timestamp.Before(cutoff)`
abbrev pub is_fresh : ℕ → Trace → Bool
is_fresh since t = not (ltb t.timestamp since)

unfoldable pub persistence_enabled : TrafficConfig → Bool
unfolding bool_value
persistence_enabled c = bool_value c.persistence.enabled true

-- The newest elements of a list, as many as there is room for.
unfoldable pub newest : ℕ → List Trace → List Trace
newest capacity traces =
    if ltb capacity (length traces) then drop (length traces - capacity) traces else traces

-- A trace as it is recorded.
unfoldable pub stamp : ℕ → ℕ → Trace → Trace
unfolding format_id
stamp number now t = record t {
  id = text "trace-" ++ format_id number;
  timestamp = if t.timestamp == 0 then now else t.timestamp;
}

abbrev pub enqueue : Bool → Trace → Option (List Trace) → Option (List Trace)
enqueue persist t none = none
enqueue persist t (some queue) = some (if persist then queue ++ t ∷ [] else queue)

module _ (days_before : Calendar) where
  unfoldable pub prune_expired : ℕ → Store → Store
  unfolding cutoff
  prune_expired now s = record s {
    traces = select (is_fresh (cutoff days_before s.config now)) s.traces;
  }

  -- Record
  unfoldable pub record_trace : Trace → ℕ → Store → Store × Trace
  unfolding prune_expired newest stamp persistence_enabled
  record_trace t now s =
      let pruned = prune_expired now s in
      let stamped = stamp (suc pruned.next_id) now t in
      (
        record pruned {
          next_id = suc pruned.next_id;
          traces = newest pruned.capacity (pruned.traces ++ stamped ∷ []);
          persistence = enqueue (persistence_enabled pruned.config) stamped pruned.persistence;
        },
        stamped,
      )

  unfoldable pub update_config : TrafficConfig → ℕ → Store → Store
  unfolding normalize_config prune_expired
  update_config c now s = prune_expired now (record s { config = normalize_config c })

-- Config
unfoldable pub stored_config : Store → TrafficConfig
unfolding normalize_config
stored_config s = normalize_config s.config

unfoldable pub tunnel_opened : Store → Store
tunnel_opened s = record s { active_tunnels = s.active_tunnels + 1 }

unfoldable pub tunnel_closed : Store → Store
tunnel_closed s =
    if ltb 0 s.active_tunnels then record s { active_tunnels = s.active_tunnels - 1 } else s

abbrev pub less_timestamp : Trace → Trace → Bool
less_timestamp a b = ltb a.timestamp b.timestamp

-- The loop that raises the counter above the identifiers of the traces loaded.
unfoldable pub raise_id : ℕ → List Trace → ℕ
unfolding parse_trace_id
raise_id id [] = id
raise_id id (t ∷ ts) =
    raise_id (if int_lt (pos id) (parse_trace_id t.id) then magnitude (parse_trace_id t.id) else id)
      ts

abbrev pub first_timestamp : List Trace → ℕ → ℕ
first_timestamp [] otherwise = otherwise
first_timestamp (t ∷ ts) otherwise = if t.timestamp == 0 then otherwise else t.timestamp

unfoldable pub merge_loaded : List Trace → Store → Store
unfolding newest raise_id sort_by
merge_loaded loaded s =
    if is_nil loaded
    then s
    else (let traces = newest s.capacity (sort_by less_timestamp (loaded ++ s.traces)) in
        record s {
          traces = traces;
          next_id = raise_id s.next_id traces;
          started_at = first_timestamp traces s.started_at;
        })

-- EnablePersistence, with what newTracePersistence loaded; `none` is its error.
unfoldable pub enable_persistence : Option (List Trace) → Store → Store
unfolding merge_loaded persistence_enabled
enable_persistence none s = s
enable_persistence (some loaded) s = elim s.persistence [
  | some queue ↦ s
  | none ↦
      merge_loaded (if persistence_enabled s.config then loaded else [])
        (record s { persistence = some [] })
]
