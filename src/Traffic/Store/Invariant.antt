-- ===== src/Traffic/Store/Invariant.antt =====
-- What every operation of the store keeps, and the identifiers it gives out.
use chi_jie.Prelude.{
  ℕ, zero, suc, ◌-◌, ◌≤◌, ◌<◌, ◌≡◌, ◌≢◌, refl, ap, ◌∙◌, ℤ, pos, negsuc, int_lt, magnitude, false,
  none, some, Option, List, [], ◌∷◌, ◌++◌, drop, length, if◌then◌else◌, ltb, All, All-imp,
  All-select, All-append, arith, Bool-cases, inl, inr, length-select-le, sort_by,
}
use chi_jie.Traffic.Types.{Trace, TrafficConfig}
use chi_jie.Traffic.Ids.{parse_trace_id, int64_limit}
use chi_jie.Traffic.Ids.RoundTrip.{parse_trace_id-format_id}
use chi_jie.Traffic.Store.{
  Store, Calendar, newest, stamp, is_fresh, cutoff, new_store, prune_expired, record_trace,
  update_config, tunnel_opened, tunnel_closed, enable_persistence, merge_loaded, raise_id,
  less_timestamp,
}
use chi_jie.Traffic.Store.Recent.{length-newest}

-- The number of an identifier is not above the counter.
abbrev pub IsNumbered : ℕ → Trace → Type 0
IsNumbered counter t = int_lt (pos counter) (parse_trace_id t.id) ≡ false

pub record IsValid (s : Store) : Type 0 where
  pub bounded : length s.traces ≤ s.capacity
  pub numbered : All (IsNumbered s.next_id) s.traces

-- The calls that change a store.
pub data Operation : Type 0 where
  save : Trace → ℕ → Operation
  look : ℕ → Operation
  configure : TrafficConfig → ℕ → Operation
  open_tunnel : Operation
  close_tunnel : Operation
  load : Option (List Trace) → Operation

unfoldable pub step : Calendar → Operation → Store → Store
step days_before (save t now) s = (record_trace days_before t now s).0
step days_before (look now) s = prune_expired days_before now s
step days_before (configure c now) s = update_config days_before c now s
step days_before open_tunnel s = tunnel_opened s
step days_before close_tunnel s = tunnel_closed s
step days_before (load loaded) s = enable_persistence loaded s

IsNumbered-suc : (n : ℕ) (t : Trace) → IsNumbered n t → IsNumbered (suc n) t
IsNumbered-suc n t h = int_lt-suc n (parse_trace_id t.id) h
  where
    int_lt-suc : (n : ℕ) (z : ℤ) → int_lt (pos n) z ≡ false → int_lt (pos (suc n)) z ≡ false
    int_lt-suc n (pos m) h = ground arith
    int_lt-suc n (negsuc m) h = refl

stamp-IsNumbered : (n now : ℕ) (t : Trace) → n < int64_limit → IsNumbered n (stamp n now t)
unfolding stamp
stamp-IsNumbered n now t h = rw (parse_trace_id-format_id n h) (ground arith)

module _ (P : Trace → Type 0) where
  All-drop : (k : ℕ) (ts : List Trace) → All P ts → All P (drop k ts)
  All-drop zero ts h = h
  All-drop (suc k) [] h = h
  All-drop (suc k) (t ∷ ts) h = All-drop k ts h.1

  All-newest : (k : ℕ) (ts : List Trace) → All P ts → All P (newest k ts)
  unfolding newest
  All-newest k ts h = elim (Bool-cases (ltb k (length ts))) [
    | inl e ↦ rw e (All-drop (length ts - k) ts h)
    | inr e ↦ rw e h
  ]

module _ (days_before : Calendar) where
  prune-IsValid : (s : Store) (now : ℕ) → IsValid s → IsValid (prune_expired days_before now s)
  unfolding prune_expired
  prune-IsValid s now v = record {
    bounded = omega (
      arith,
      length-select-le {0} (is_fresh (cutoff days_before s.config now)) s.traces,
      v.bounded,
    );
    numbered =
        All-select (IsNumbered s.next_id) (is_fresh (cutoff days_before s.config now)) s.traces
          v.numbered;
  }

  record-IsValid :
      (s : Store) (t : Trace) (now : ℕ)
      → suc s.next_id < int64_limit
      → IsValid s
      → IsValid (record_trace days_before t now s).0
  unfolding record_trace prune_expired
  record-IsValid s t now h v =
      let p = prune-IsValid s now v in
      let kept = (prune_expired days_before now s).traces in
      let u = stamp (suc s.next_id) now t in
      record {
        bounded = length-newest s.capacity (kept ++ u ∷ []);
        numbered = All-newest (IsNumbered (suc s.next_id)) s.capacity (kept ++ u ∷ []) (
            All-append (IsNumbered (suc s.next_id)) kept (u ∷ [])
              (All-imp (IsNumbered s.next_id) (IsNumbered (suc s.next_id)) kept
                (IsNumbered-suc s.next_id) p.numbered)
              (stamp-IsNumbered (suc s.next_id) now t h, tt));
      }

raised : ℕ → ℤ → ℕ
raised id z = if int_lt (pos id) z then magnitude z else id

raised-le : (id : ℕ) (z : ℤ) → id ≤ raised id z
unfolding raised
raised-le id (pos m) = ground arith
raised-le id (negsuc m) = ground arith

raised-lt : (id m : ℕ) (z : ℤ) → raised id z ≤ m → int_lt (pos m) z ≡ false
unfolding raised
raised-lt id m (pos n) h = ground arith
raised-lt id m (negsuc n) h = refl

raise_id-le : (id : ℕ) (ts : List Trace) → id ≤ raise_id id ts
unfolding raise_id raised
raise_id-le id [] = omega arith
raise_id-le id (t ∷ ts) =
    omega
      (arith, raised-le id (parse_trace_id t.id), raise_id-le (raised id (parse_trace_id t.id)) ts)

-- The counter is raised above every number read.
raise_id-IsNumbered : (id : ℕ) (ts : List Trace) → All (IsNumbered (raise_id id ts)) ts
unfolding raise_id raised
raise_id-IsNumbered id [] = tt
raise_id-IsNumbered id (t ∷ ts) =
    let next = raised id (parse_trace_id t.id) in
    (
      raised-lt id (raise_id next ts) (parse_trace_id t.id) (raise_id-le next ts),
      raise_id-IsNumbered next ts,
    )

merge_loaded-IsValid :
    (loaded : List Trace) (s : Store) → IsValid s → IsValid (merge_loaded loaded s)
unfolding merge_loaded
merge_loaded-IsValid [] s v = v
merge_loaded-IsValid (t ∷ loaded) s v = record {
  bounded = length-newest s.capacity (sort_by less_timestamp ((t ∷ loaded) ++ s.traces));
  numbered =
      raise_id-IsNumbered s.next_id
        (newest s.capacity (sort_by less_timestamp ((t ∷ loaded) ++ s.traces)));
}

enable_persistence-IsValid :
    (loaded : Option (List Trace)) (s : Store) → IsValid s → IsValid (enable_persistence loaded s)
unfolding enable_persistence
enable_persistence-IsValid none s v = v
enable_persistence-IsValid (some loaded) s v =
    either s.persistence s _ v
      (merge_loaded-IsValid _ _ (record { bounded = v.bounded; numbered = v.numbered }))
  where
    either :
        (o : Option (List Trace)) (s s' : Store)
        → IsValid s
        → IsValid s'
        → IsValid (elim o [ some queue ↦ s | none ↦ s' ])
    either none s s' v v' = v'
    either (some queue) s s' v v' = v

tunnel_closed-IsValid : (s : Store) → IsValid s → IsValid (tunnel_closed s)
unfolding tunnel_closed
tunnel_closed-IsValid s v = ground arith

-- Every operation of a store keeps it valid, as long as the counter of traces stays below 2^63: no
-- more traces than the capacity, and no number of a trace held above the counter.
pub step-IsValid :
    (days_before : Calendar) (op : Operation) (s : Store)
    → suc s.next_id < int64_limit
    → IsValid s
    → IsValid (step days_before op s)
unfolding step update_config tunnel_opened
step-IsValid days_before (save t now) s h v = record-IsValid days_before s t now h v
step-IsValid days_before (look now) s h v = prune-IsValid days_before s now v
step-IsValid days_before (configure c now) s h v =
    prune-IsValid days_before _ now (record { bounded = v.bounded; numbered = v.numbered })
step-IsValid days_before open_tunnel s h v = record { bounded = v.bounded; numbered = v.numbered }
step-IsValid days_before close_tunnel s h v = tunnel_closed-IsValid s v
step-IsValid days_before (load loaded) s h v = enable_persistence-IsValid loaded s v

pub new_store-IsValid : (capacity : ℤ) (now : ℕ) → IsValid (new_store capacity now)
unfolding new_store
new_store-IsValid capacity now = record { bounded = omega arith; numbered = tt }

-- In a valid store whose counter stays below 2^63, the identifier that Record gives out is that of
-- none of the traces held.
pub record_trace-id_ne :
    (days_before : Calendar) (s : Store) (t : Trace) (now : ℕ)
    → suc s.next_id < int64_limit
    → IsValid s
    → All (λ u. u.id ≢ (record_trace days_before t now s).1.id) s.traces
unfolding record_trace prune_expired stamp
record_trace-id_ne days_before s t now h v =
    All-imp (IsNumbered s.next_id) _ s.traces
      (λ u n e. clash n (ap parse_trace_id e ∙ parse_trace_id-format_id (suc s.next_id) h))
      v.numbered
  where
    late : (n : ℕ) → int_lt (pos n) (pos (suc n)) ≡ false → ⊥
    late n h = ground arith

    clash : {n : ℕ} {z : ℤ} → int_lt (pos n) z ≡ false → z ≡ pos (suc n) → ⊥
    clash {n} h e = absurd (late n (rw e at h))
