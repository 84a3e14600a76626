-- ===== src/Pool/Health/Schedule.antt =====
-- When a pool is due.
use chi_jie.Prelude.{
  ℕ, ◌+◌, ◌≤◌, ◌<◌, ◌≡◌, ◌↔◌, true, if◌then◌else◌, arith, Str, str_eq_iff, lookup-insert, ℤ, pos,
  suc, zero,
}
use chi_jie.Pool.Health.{LastRun, should_run_pool, mark_pool_run}

-- After a run at a time t after the zero time, with a positive interval of its own, a pool is due
-- at a time exactly where the interval has passed since t.
pub should_run_again :
    (last : LastRun) (name : Str) (own : ℤ) (every t now : ℕ)
    → 0 < every
    → 0 < t
    → ((should_run_pool (mark_pool_run last name t) name own (pos every) now).0 ≡ true)
      ↔ (t + every ≤ now)
unfolding should_run_pool mark_pool_run
should_run_again last name own zero t now h k = elim h [ ]
should_run_again last name own (suc every) t now h k = (
  λ e. ground (arith, lookup-insert name name t last, str_eq_iff name name),
  λ e. ground (arith, lookup-insert name name t last, str_eq_iff name name),
)

-- A pool that is due is noted as run now; one that is not leaves the record as it was.
pub should_run_noted :
    (last : LastRun) (name : Str) (own interval : ℤ) (now : ℕ)
    → (should_run_pool last name own interval now).1 ≡ (
        if (should_run_pool last name own interval now).0
        then mark_pool_run last name now
        else last)
unfolding should_run_pool mark_pool_run
should_run_noted last name own interval now = ground arith
