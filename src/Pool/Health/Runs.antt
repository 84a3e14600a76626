-- ===== src/Pool/Health/Runs.antt =====
-- Series of probes of one node.
use chi_jie.Prelude.{
  ℕ, zero, suc, ◌+◌, ◌<◌, ◌≡◌, refl, ◌∙◌, ap, Bool-cases, inl, inr, true, false, List, [], ◌∷◌,
  ◌++◌, arith, ltb, leb, ℤ,
}
use chi_jie.Pool.Types.{NodeEntry}
use chi_jie.Pool.Health.{Probe, reached, failed, fail_limit, update_node_health}

unfoldable pub probe_all : NodeEntry → List Probe → ℤ → NodeEntry
probe_all e [] max_fail = e
probe_all e (p ∷ ps) max_fail = probe_all (update_node_health e p max_fail).entry ps max_fail

abbrev pub failures : ℕ → List Probe
failures zero = []
failures (suc k) = failed ∷ failures k

fail_limit_pos : (m : ℤ) → 0 < fail_limit m
fail_limit_pos (ℤ.pos zero) = omega arith
fail_limit_pos (ℤ.pos (suc n)) = omega arith
fail_limit_pos (ℤ.negsuc n) = omega arith

abbrev after_failure : NodeEntry → ℤ → NodeEntry
after_failure e m = (update_node_health e failed m).entry

failure_of_dead : (e : NodeEntry) (m : ℤ) → e.alive ≡ false → after_failure e m ≡ e
unfolding update_node_health
failure_of_dead e m h = ground arith

failure_at_limit :
    (e : NodeEntry) (m : ℤ)
    → e.alive ≡ true
    → leb (fail_limit m) (e.fail_count + 1) ≡ true
    → (after_failure e m).alive ≡ false
unfolding update_node_health
failure_at_limit e m up h = ground arith

failure_below_limit :
    (e : NodeEntry) (m : ℤ)
    → e.alive ≡ true
    → leb (fail_limit m) (e.fail_count + 1) ≡ false
    → ((after_failure e m).alive ≡ true) × ((after_failure e m).fail_count ≡ e.fail_count + 1)
unfolding update_node_health
failure_below_limit e m up h = ground arith

failure-latency : (e : NodeEntry) (m : ℤ) → (after_failure e m).latency ≡ e.latency
unfolding update_node_health
failure-latency e m = ground arith

probe_dead :
    (k : ℕ) (e : NodeEntry) (m : ℤ) → e.alive ≡ false → (probe_all e (failures k) m).alive ≡ false
unfolding probe_all
probe_dead zero e m h = h
probe_dead (suc k) e m h =
    probe_dead k (after_failure e m) m (ap (λ (n : NodeEntry). n.alive) (failure_of_dead e m h) ∙ h)

-- A node that is up, with fewer counted failures than the limit, is up after k more failures
-- exactly where the sum is below the limit.
pub probe_all_failures :
    (k : ℕ) (e : NodeEntry) (m : ℤ)
    → e.alive ≡ true
    → e.fail_count < fail_limit m
    → (probe_all e (failures k) m).alive ≡ ltb (e.fail_count + k) (fail_limit m)
unfolding probe_all
probe_all_failures zero e m up room = up ∙ ground arith
probe_all_failures (suc k) e m up room = elim (Bool-cases (leb (fail_limit m) (e.fail_count + 1))) [
  | inl full ↦ probe_dead k (after_failure e m) m (failure_at_limit e m up full) ∙ ground arith
  | inr more ↦
      let (up', count) = failure_below_limit e m up more in
      probe_all_failures k (after_failure e m) m up' (ground arith) ∙ ground arith
]

latency_failures :
    (k : ℕ) (e : NodeEntry) (m : ℤ) → (probe_all e (failures k) m).latency ≡ e.latency
unfolding probe_all
latency_failures zero e m = refl
latency_failures (suc k) e m = latency_failures k (after_failure e m) m ∙ failure-latency e m

probe_all-append :
    (e : NodeEntry) (ps qs : List Probe) (m : ℤ)
    → probe_all e (ps ++ qs) m ≡ probe_all (probe_all e ps m) qs m
unfolding probe_all
probe_all-append e [] qs m = refl
probe_all-append e (p ∷ ps) qs m = probe_all-append (update_node_health e p m).entry ps qs m

-- After any series of probes, a success and then k failures leave the node up exactly where k is
-- below the failure limit, with the latency of that success.
pub probe_after_success :
    (e : NodeEntry) (ps : List Probe) (latency k : ℕ) (m : ℤ)
    → ((probe_all e (ps ++ (reached latency ∷ failures k)) m).alive ≡ ltb k (fail_limit m))
      × ((probe_all e (ps ++ (reached latency ∷ failures k)) m).latency ≡ latency)
unfolding update_node_health probe_all
probe_after_success e ps latency k m = rw (probe_all-append e ps (reached latency ∷ failures k) m) (
    let up = (update_node_health (probe_all e ps m) (reached latency) m).entry in
    (probe_all_failures k up m refl (fail_limit_pos m) ∙ ground arith, latency_failures k up m))
