-- ===== src/Admin/LoginLimiter/Laws.antt =====
-- Single calls of the limiter, and its invariant.
use chi_jie.Prelude.{
  ℕ, ◌-◌, ◌≤◌, ◌<◌, ◌≡◌, Bool, true, false, not, none, some, arith, if◌then◌else◌, ltb, Str, str_eq,
  str_eq_iff, lookup, insert, Distinct, is_nil, lookup-insert, lookup-retain, lookup-remove,
  insert-Distinct, retain-Distinct, remove-Distinct, ◌≢◌, Bool-cases, inl, inr, Option-cases,
}
use chi_jie.Admin.LoginLimiter.{
  Attempt, Limiter, Answer, go_on, allow, allow_entry, entry_or_new, open_window, count_failure,
  is_stale, record_failure, record_success,
}

-- The map's keys are distinct, and the threshold is one that can be met.
pub record IsValid (l : Limiter) : Type 0 where
  pub keys : Distinct l.entries
  pub threshold : 0 < l.max_failures

allow_entry-IsValid :
    (l : Limiter) (ip : Str) (now : ℕ) (e : Attempt)
    → IsValid l
    → IsValid (allow_entry l ip now e).0
unfolding allow_entry
allow_entry-IsValid l ip now e v =
    ground (arith, insert-Distinct ip (record e { failures = 0; first_fail = 0 }) l.entries v.keys)

pub allow-IsValid : (l : Limiter) (ip : Str) (now : ℕ) → IsValid l → IsValid (allow l ip now).0
unfolding allow
allow-IsValid l ip now v = elim (Option-cases (lookup ip l.entries)) [
  | inl e ↦ rw (e, allow) (ground arith)
  | inr (a, e) ↦ rw (e, allow) (ground (arith, allow_entry-IsValid l ip now a v))
]

pub record_success-IsValid : (l : Limiter) (ip : Str) → IsValid l → IsValid (record_success l ip)
unfolding record_success
record_success-IsValid l ip v = ground (arith, remove-Distinct ip l.entries v.keys)

abbrev pub counted : Limiter → Str → ℕ → Attempt
counted l ip now =
    count_failure l.max_failures l.lockout now
      (open_window l.window now (entry_or_new (lookup ip l.entries)))

abbrev pub keeps : Limiter → ℕ → Attempt → Bool
keeps l now e = not (is_stale l.window l.lockout now e)

-- A counted failure, with its clean-up, keeps the limiter valid: the addresses distinct and the
-- threshold positive.
pub record_failure-IsValid :
    (l : Limiter) (ip : Str) (now : ℕ) → IsValid l → IsValid (record_failure l ip now)
unfolding record_failure
record_failure-IsValid l ip now v = ground (
  arith,
  retain-Distinct (keeps l now) (insert ip (counted l ip now) l.entries)
      (insert-Distinct ip (counted l ip now) l.entries v.keys),
)

-- The entry just counted is never dropped by the clean-up.
counted-keeps : (l : Limiter) (ip : Str) (now : ℕ) → keeps l now (counted l ip now) ≡ true
unfolding count_failure open_window is_stale
counted-keeps l ip now = ground arith

-- The map that a failure of `ip` leaves, at any address.
pub lookup-record_failure :
    (l : Limiter) (ip j : Str) (now : ℕ)
    → IsValid l
    → is_nil ip ≡ false
    → lookup j (record_failure l ip now).entries ≡ (
        if str_eq ip j then some (counted l ip now) else elim (lookup j l.entries) [
          | none ↦ none
          | some e ↦ if keeps l now e then some e else none
        ])
unfolding record_failure
lookup-record_failure l ip j now v h =
    let after = insert ip (counted l ip now) l.entries in
    let d : Distinct after = insert-Distinct ip (counted l ip now) l.entries v.keys in
    ground (
      arith,
      lookup-retain (keeps l now) j after d,
      lookup-insert ip j (counted l ip now) l.entries,
      counted-keeps l ip now,
    )

-- A successful login forgets the address.
pub allow-record_success :
    (l : Limiter) (ip : Str) (now : ℕ) → (allow (record_success l ip) ip now).1 ≡ go_on
unfolding allow record_success
allow-record_success l ip now = ground (arith, lookup-remove ip ip l.entries, str_eq_iff ip ip)

-- The answer depends on the lock alone.
unfoldable pub answer_at : ℕ → Attempt → Answer
answer_at now e =
    if ltb now e.locked_till
    then record { allowed = false; retry_after = e.locked_till - now }
    else go_on

pub allow-answer :
    (l : Limiter) (ip : Str) (now : ℕ)
    → (allow l ip now).1 ≡ (
        if is_nil ip
        then go_on
        else elim (lookup ip l.entries) [ none ↦ go_on | some e ↦ answer_at now e ])
unfolding allow answer_at
allow-answer l ip now = ground arith

-- In a valid limiter, a failure of one address, with the clean-up that follows it, changes the
-- answer for no other address, at that time or later.
pub allow-record_failure_ne :
    (l : Limiter) (ip j : Str) (now later : ℕ)
    → IsValid l
    → ip ≢ j
    → now ≤ later
    → (allow (record_failure l ip now) j later).1 ≡ (allow l j later).1
unfolding is_stale answer_at record_failure
allow-record_failure_ne l ip j now later v ne le = elim (Bool-cases (is_nil ip)) [
  | inl e ↦ rw (e, record_failure)
  | inr e ↦
      rw (allow-answer l j later, allow-answer (record_failure l ip now) j later)
        (ground (arith, lookup-record_failure l ip j now v e, str_eq_iff ip j))
]
