-- ===== src/Examples/Login.antt =====
-- The login limiter on concrete failures.
use chi_jie.Prelude.{◌≡◌, ◌≢◌, refl, false, [], ◌∷◌, Str, text, str_eq, str_eq_iff, arith, lookup}
use chi_jie.Admin.LoginLimiter.{Limiter, allow, record_failure, go_on}
use chi_jie.Admin.LoginLimiter.Laws.{IsValid, allow-record_failure_ne}
use chi_jie.Admin.LoginLimiter.Window.{fail_all, burst_locks, short_burst_allowed}

abbrev limiter : Limiter
limiter = record { entries = []; max_failures = 3; window = 10; lockout = 60 }

limiter-IsValid : IsValid limiter
limiter-IsValid = record { keys = tt; threshold = omega arith }

abbrev a_ip : Str
a_ip = text "192.0.2.7"

abbrev b_ip : Str
b_ip = text "192.0.2.8"

burst_locks_example :
    (allow (fail_all limiter a_ip (1 ∷ 4 ∷ 9 ∷ [])) a_ip 20).1
    ≡ record { allowed = false; retry_after = 49 }
unfolding lookup
burst_locks_example =
    burst_locks limiter a_ip 1 (4 ∷ 9 ∷ []) 20 limiter-IsValid refl refl (omega arith)
      (omega arith, (omega arith, tt)) (omega arith) (omega arith)

short_burst_allowed_example : (allow (fail_all limiter a_ip (1 ∷ 4 ∷ [])) a_ip 5).1 ≡ go_on
unfolding lookup
short_burst_allowed_example =
    short_burst_allowed limiter a_ip 1 (4 ∷ []) 5 limiter-IsValid refl (omega arith)
      (omega arith, tt) (omega arith)

-- One address is locked already.
abbrev locked : Limiter
locked = record limiter {
  entries = (b_ip, record { failures = 3; first_fail = 1; locked_till = 63 }) ∷ [];
}

locked-IsValid : IsValid locked
unfolding lookup
locked-IsValid = record { keys = (tt, tt); threshold = omega arith }

apart : a_ip ≢ b_ip
unfolding str_eq
apart e = cc ((str_eq_iff a_ip b_ip).1 e)

allow-record_failure_ne_example :
    (allow (record_failure locked a_ip 20) b_ip 30).1 ≡ (allow locked b_ip 30).1
allow-record_failure_ne_example =
    allow-record_failure_ne locked a_ip b_ip 20 30 locked-IsValid apart (omega arith)
