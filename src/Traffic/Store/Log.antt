-- ===== src/Traffic/Store/Log.antt =====
-- The store beside a log of everything that was ever recorded.
use chi_jie.Prelude.{
  ℕ, suc, ◌-◌, ◌≤◌, ◌≡◌, refl, sym, subst, ap, ◌∙◌, List, [], ◌∷◌, ◌++◌, select, All-imp,
  All-append, arith,
}
use mathlib.Core.List.{append_assoc, append-nil}
use chi_jie.Traffic.Types.{Trace, TrafficConfig}
use chi_jie.Traffic.Store.{
  Store, Calendar, cutoff, retained_days, is_fresh, newest, stamp, prune_expired, record_trace,
}
use chi_jie.Traffic.Store.Recent.{
  IsChronological, IsBefore, newest_within, newest-append, select_twice, select-newest,
  select-IsChronological, append-IsChronological, select-append_one,
}

-- What callers do: a request is recorded, or the store is read.
pub data Event : Type 0 where
  recorded : ℕ → Trace → Event
  looked : ℕ → Event

abbrev pub time_of : Event → ℕ
time_of (recorded now t) = now
time_of (looked now) = now

-- The time comes with the call: the trace has none of its own.
abbrev pub IsUnstamped : Event → Type 0
IsUnstamped (recorded now t) = t.timestamp ≡ 0
IsUnstamped (looked now) = Unit

-- The clock does not go back.
abbrev pub IsTimely : ℕ → List Event → Type 0
IsTimely now [] = Unit
IsTimely now (e ∷ es) = (now ≤ time_of e) × (IsUnstamped e × IsTimely (time_of e) es)

unfoldable pub last_time : ℕ → List Event → ℕ
last_time now [] = now
last_time now (e ∷ es) = last_time (time_of e) es

-- What documented behaviour of package time the store relies on.
pub record IsCalendar (days_before : Calendar) : Type 0 where
  pub mono : (d a b : ℕ) → a ≤ b → days_before d a ≤ days_before d b
  pub past : (d a : ℕ) → days_before d a ≤ a

-- Everything recorded, numbered from the counter on.
unfoldable pub log_of : ℕ → List Event → List Trace
log_of n [] = []
log_of n (recorded now t ∷ es) = stamp (suc n) now t ∷ log_of (suc n) es
log_of n (looked now ∷ es) = log_of n es

stamp_time : (n now : ℕ) (t : Trace) → t.timestamp ≡ 0 → (stamp n now t).timestamp ≡ now
unfolding stamp
stamp_time n now t z = rw (z) refl

module _ (days_before : Calendar) where
  unfoldable pub run_event : Event → Store → Store
  run_event (recorded now t) s = (record_trace days_before t now s).0
  run_event (looked now) s = prune_expired days_before now s

  unfoldable pub run : List Event → Store → Store
  unfolding run_event
  run [] s = s
  run (e ∷ es) s = run es (run_event e s)

  -- The newest of the fresh traces of a log.
  unfoldable pub view : TrafficConfig → ℕ → ℕ → List Trace → List Trace
  view c capacity now log = newest capacity (select (is_fresh (cutoff days_before c now)) log)

  run-config : (es : List Event) (s : Store) → (run es s).config ≡ s.config
  unfolding run record_trace prune_expired
  run-config [] s = refl
  run-config (recorded now t ∷ es) s = run-config es (record_trace days_before t now s).0
  run-config (looked now ∷ es) s = run-config es (prune_expired days_before now s)

  run-capacity : (es : List Event) (s : Store) → (run es s).capacity ≡ s.capacity
  unfolding run record_trace prune_expired
  run-capacity [] s = refl
  run-capacity (recorded now t ∷ es) s = run-capacity es (record_trace days_before t now s).0
  run-capacity (looked now ∷ es) s = run-capacity es (prune_expired days_before now s)

  record Holds (s : Store) (now : ℕ) (log : List Trace) : Type 0 where
    held : s.traces ≡ view s.config s.capacity now log
    chronological : IsChronological log
    before : IsBefore now log

  module _ (cal : IsCalendar days_before) where
    prune-Holds :
        (s : Store) (now now' : ℕ) (log : List Trace)
        → now ≤ now'
        → Holds s now log
        → Holds (prune_expired days_before now' s) now' log
    unfolding prune_expired view cutoff
    prune-Holds s now now' log le h = record {
      held = rw h.held (
          select-newest _ s.capacity _ (select-IsChronological _ log h.chronological)
          ∙ ap (newest s.capacity) (select_twice _ _ log (cal.mono _ now now' le)));
      chronological = h.chronological;
      before =
          All-imp (λ u. u.timestamp ≤ now) (λ u. u.timestamp ≤ now') log (λ u k. omega arith)
            h.before;
    }

    view-append :
        (c : TrafficConfig) (capacity now : ℕ) (log : List Trace) (u : Trace)
        → u.timestamp ≡ now
        → newest capacity (view c capacity now log ++ u ∷ []) ≡ view c capacity now (log ++ u ∷ [])
    unfolding view cutoff
    view-append c capacity now log u e =
        newest-append capacity _ u
        ∙ ap (newest capacity)
            (sym (select-append_one _ log u (omega (arith, cal.past (retained_days c - 1) now))))

    record-Holds :
        (s : Store) (now now' : ℕ) (log : List Trace) (t : Trace)
        → t.timestamp ≡ 0
        → now ≤ now'
        → Holds s now log
        → Holds
            (record_trace days_before t now' s).0
            now'
            (log ++ stamp (suc s.next_id) now' t ∷ [])
    unfolding record_trace prune_expired
    record-Holds s now now' log t z le h =
        let p = prune-Holds s now now' log le h in
        let u = stamp (suc s.next_id) now' t in
        let e = stamp_time (suc s.next_id) now' t z in
        record {
          held = rw p.held (view-append s.config s.capacity now' log u e);
          chronological = append-IsChronological now' log u p.chronological p.before (omega arith);
          before = All-append (λ v. v.timestamp ≤ now') log (u ∷ []) p.before (omega arith, tt);
        }

    run-Holds :
        (es : List Event) (s : Store) (now : ℕ) (log : List Trace)
        → IsTimely now es
        → Holds s now log
        → Holds (run es s) (last_time now es) (log ++ log_of s.next_id es)
    unfolding run last_time log_of prune_expired record_trace
    run-Holds [] s now log timely h = rw append-nil h
    run-Holds (recorded now' t ∷ es) s now log timely h =
        subst (λ l. Holds (run es (record_trace days_before t now' s).0) (last_time now' es) l)
          (append_assoc log (stamp (suc s.next_id) now' t ∷ []) (log_of (suc s.next_id) es))
          (run-Holds es (record_trace days_before t now' s).0 now'
            (log ++ stamp (suc s.next_id) now' t ∷ []) timely.1.1
            (record-Holds s now now' log t timely.1.0 timely.0 h))
    run-Holds (looked now' ∷ es) s now log timely h =
        run-Holds es (prune_expired days_before now' s) now' log timely.1.1
          (prune-Holds s now now' log timely.0 h)

    -- Let a store hold no traces, and let requests be recorded and the store be read in any order
    -- under a clock that does not go back, the traces coming without a time of their own; let the
    -- start of the day so many days ago never go back as the clock goes on, nor lie ahead of it.
    -- Then the store holds what its log would show: of everything recorded, with the numbers and
    -- times given out, what had not expired at the last call, and of that the newest, as many as
    -- the capacity allows.
    pub run-view :
        (es : List Event) (s : Store)
        → s.traces ≡ []
        → IsTimely 0 es
        → (run es s).traces ≡ view s.config s.capacity (last_time 0 es) (log_of s.next_id es)
    unfolding view
    run-view es s empty timely =
        let start : Holds s 0 [] = record {
          held = empty ∙ sym (newest_within s.capacity [] (omega arith));
          chronological = tt;
          before = tt;
        } in
        simp (run-config es s, run-capacity es s) at ((run-Holds es s 0 [] timely start).held)
