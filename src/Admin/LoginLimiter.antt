-- ===== src/Admin/LoginLimiter.antt =====
-- internal/admin/login_limiter.go: failed logins counted per client address, with a lockout.
-- Times are nanoseconds since Go's zero time, which is 0; `time.Now()` is an argument of each call.
-- A Go subtraction of times is written as an addition on the other side.
pub mod Laws
pub mod Window
use chi_jie.Prelude.{
  ℕ, zero, ◌+◌, ◌-◌, Bool, true, false, not, ◌&&◌, ◌||◌, Option, none, some, [], if◌then◌else◌, ltb,
  leb, ◌==◌, Str, Dict, lookup, insert, retain, remove, is_nil, ℤ, is_not_positive, magnitude,
}

pub record Attempt : Type 0 where
  pub failures : ℕ
  pub first_fail : ℕ
  pub locked_till : ℕ

pub record Limiter : Type 0 where
  pub max_failures : ℕ
  pub window : ℕ
  pub lockout : ℕ
  pub entries : Dict Attempt

-- newLoginLimiter: a setting that is not positive takes its default.
unfoldable pub new_login_limiter : ℤ → ℤ → ℤ → Limiter
new_login_limiter max_failures window lockout = record {
  max_failures = if is_not_positive max_failures then 5 else magnitude max_failures;
  window = if is_not_positive window then 60_000_000_000 else magnitude window;
  lockout = if is_not_positive lockout then 300_000_000_000 else magnitude lockout;
  entries = [];
}

-- The answer of `allow`: whether the login may go on, and how long to wait if not.
pub record Answer : Type 0 where
  pub allowed : Bool
  pub retry_after : ℕ

abbrev pub go_on : Answer
go_on = record { allowed = true; retry_after = 0 }

-- `!entry.firstFail.IsZero() && now.Sub(entry.firstFail) > l.window`
unfoldable pub has_expired : ℕ → ℕ → Attempt → Bool
has_expired window now e = not (e.first_fail == 0) && ltb (e.first_fail + window) now

unfoldable pub allow_entry : Limiter → Str → ℕ → Attempt → Limiter × Answer
unfolding has_expired
allow_entry l ip now e =
    if ltb now e.locked_till
    then (l, record { allowed = false; retry_after = e.locked_till - now })
    else if has_expired l.window now e
    then (
      record l { entries = insert ip (record e { failures = 0; first_fail = 0 }) l.entries },
      go_on,
    )
    else (l, go_on)

unfoldable pub allow : Limiter → Str → ℕ → Limiter × Answer
unfolding allow_entry
allow l ip now =
    if is_nil ip
    then (l, go_on)
    else elim (lookup ip l.entries) [ none ↦ (l, go_on) | some e ↦ allow_entry l ip now e ]

abbrev pub new_attempt : Attempt
new_attempt = record { failures = 0; first_fail = 0; locked_till = 0 }

abbrev pub entry_or_new : Option Attempt → Attempt
entry_or_new none = new_attempt
entry_or_new (some e) = e

-- The window restarts at a first failure and once it has run out.
unfoldable pub open_window : ℕ → ℕ → Attempt → Attempt
open_window window now e =
    if (e.first_fail == 0) || ltb (e.first_fail + window) now
    then record e { first_fail = now; failures = 0 }
    else e

-- One more failure, and the lock once the threshold is met.
unfoldable pub count_failure : ℕ → ℕ → ℕ → Attempt → Attempt
count_failure max_failures lockout now e =
    if leb max_failures (e.failures + 1)
    then record e { failures = e.failures + 1; locked_till = now + lockout }
    else record e { failures = e.failures + 1 }

-- The clean-up's test: an entry whose lock and window ran out long ago is dropped.
unfoldable pub is_stale : ℕ → ℕ → ℕ → Attempt → Bool
is_stale window lockout now e = ltb (e.locked_till + lockout) now && ltb (e.first_fail + window) now

unfoldable pub record_failure : Limiter → Str → ℕ → Limiter
record_failure l ip now = if is_nil ip then l else record l {
  entries =
      retain (λ e. not (is_stale l.window l.lockout now e))
        (insert ip
          (count_failure l.max_failures l.lockout now
            (open_window l.window now (entry_or_new (lookup ip l.entries))))
          l.entries);
}

unfoldable pub record_success : Limiter → Str → Limiter
record_success l ip = if is_nil ip then l else record l { entries = remove ip l.entries }
