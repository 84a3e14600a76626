-- ===== src/Admin/LoginLimiter/Window.antt =====
-- Sequences of failures at one address.
use chi_jie.Prelude.{
  ℕ, ◌+◌, ◌-◌, ◌≤◌, ◌<◌, ◌≡◌, refl, false, none, some, arith, Str, lookup, is_nil, List, [], ◌∷◌,
  length, All, str_eq_iff, ◌∙◌, Bool-cases, inl, inr,
}
use chi_jie.Admin.LoginLimiter.{
  Attempt, Limiter, go_on, allow, open_window, count_failure, record_failure,
}
use chi_jie.Admin.LoginLimiter.Laws.{
  IsValid, lookup-record_failure, record_failure-IsValid, allow-answer, answer_at,
}

-- The failures of one address at the given times, in order.
unfoldable pub fail_all : Limiter → Str → List ℕ → Limiter
fail_all l ip [] = l
fail_all l ip (t ∷ ts) = fail_all (record_failure l ip t) ip ts

abbrev pub last_of : ℕ → List ℕ → ℕ
last_of t [] = t
last_of t (u ∷ us) = last_of u us

count_all : ℕ → ℕ → List ℕ → Attempt → Attempt
count_all m d [] e = e
count_all m d (t ∷ ts) e = count_all m d ts (count_failure m d t e)

failures-count : (m d t : ℕ) (e : Attempt) → (count_failure m d t e).failures ≡ e.failures + 1
unfolding count_failure
failures-count m d t e = ground arith

first_fail-count : (m d t : ℕ) (e : Attempt) → (count_failure m d t e).first_fail ≡ e.first_fail
unfolding count_failure
first_fail-count m d t e = ground arith

locked-count_all :
    (m d t : ℕ) (ts : List ℕ) (e : Attempt)
    → m ≤ e.failures + 1 + length ts
    → (count_all m d (t ∷ ts) e).locked_till ≡ last_of t ts + d
unfolding count_all
locked-count_all m d t [] e h = unfold count_failure in ground arith
locked-count_all m d t (u ∷ us) e h =
    locked-count_all m d u us (count_failure m d t e) (omega (arith, failures-count m d t e))

unlocked-count_all :
    (m d : ℕ) (ts : List ℕ) (e : Attempt)
    → e.failures + length ts < m
    → (count_all m d ts e).locked_till ≡ e.locked_till
unfolding count_all
unlocked-count_all m d [] e h = refl
unlocked-count_all m d (t ∷ ts) e h =
    unlocked-count_all m d ts (count_failure m d t e) (omega (arith, failures-count m d t e))
    ∙ unfold count_failure in ground arith

-- The entry of an address whose window opens.
abbrev started : ℕ → Attempt
started t = record { failures = 0; first_fail = t; locked_till = 0 }

-- The settings do not change.
record Same (m w d : ℕ) (l : Limiter) : Type 0 where
  max_failures : l.max_failures ≡ m
  window : l.window ≡ w
  lockout : l.lockout ≡ d

record_failure-Same :
    (m w d : ℕ) (l : Limiter) (ip : Str) (t : ℕ) → Same m w d l → Same m w d (record_failure l ip t)
unfolding record_failure
record_failure-Same m w d l ip t s = ground arith

module _ (ip : Str) (named : is_nil ip ≡ false) where
  -- A failure within the open window adds one to the entry.
  entry-record_failure :
      (l : Limiter) (t : ℕ) (e : Attempt)
      → IsValid l
      → lookup ip l.entries ≡ some e
      → 0 < e.first_fail
      → t ≤ e.first_fail + l.window
      → lookup ip (record_failure l ip t).entries
        ≡ some (count_failure l.max_failures l.lockout t e)
  unfolding open_window
  entry-record_failure l t e v found opened within =
      ground (arith, lookup-record_failure l ip ip t v named, str_eq_iff ip ip)

  entry-fail_all :
      (m w d : ℕ) (l : Limiter) (ts : List ℕ) (e : Attempt)
      → IsValid l
      → Same m w d l
      → lookup ip l.entries ≡ some e
      → 0 < e.first_fail
      → All (λ t. t ≤ e.first_fail + w) ts
      → lookup ip (fail_all l ip ts).entries ≡ some (count_all m d ts e)
  unfolding fail_all count_all
  entry-fail_all m w d l [] e v same found opened within = found
  entry-fail_all m w d l (t ∷ ts) e v same found opened within =
      entry-fail_all m w d (record_failure l ip t) ts (count_failure m d t e)
        (record_failure-IsValid l ip t v) (record_failure-Same m w d l ip t same)
        (entry-record_failure l t e v found opened (omega (arith, within.0)) ∙ ground arith)
        (omega (arith, first_fail-count m d t e)) (rw (first_fail-count m d t e) within.1)

  entry-first :
      (l : Limiter) (t : ℕ)
      → IsValid l
      → lookup ip l.entries ≡ none
      → lookup ip (record_failure l ip t).entries
        ≡ some (count_failure l.max_failures l.lockout t (started t))
  unfolding open_window
  entry-first l t v missing =
      ground (arith, lookup-record_failure l ip ip t v named, str_eq_iff ip ip)

  -- The entry after a first failure at `t` and further ones in its window.
  entry-burst :
      (l : Limiter) (t : ℕ) (ts : List ℕ)
      → IsValid l
      → lookup ip l.entries ≡ none
      → 0 < t
      → All (λ u. u ≤ t + l.window) ts
      → lookup ip (fail_all l ip (t ∷ ts)).entries
        ≡ some (count_all l.max_failures l.lockout (t ∷ ts) (started t))
  unfolding fail_all count_all
  entry-burst l t ts v missing later within =
      let e = count_failure l.max_failures l.lockout t (started t) in
      let same =
        record_failure-Same l.max_failures l.window l.lockout l ip t
          (record { max_failures = refl; window = refl; lockout = refl }) in
      entry-fail_all l.max_failures l.window l.lockout (record_failure l ip t) ts e
        (record_failure-IsValid l ip t v) same (entry-first l t v missing)
        (omega (arith, first_fail-count l.max_failures l.lockout t (started t)))
        (rw (first_fail-count l.max_failures l.lockout t (started t)) within)

-- For an address without an entry, in a valid limiter: failures at times t and later ones, none
-- after t plus the window, that number at least the threshold lock the address at any time before
-- the last failure plus the lockout, and the answer says how long that is.
pub burst_locks :
    (l : Limiter) (ip : Str) (t : ℕ) (ts : List ℕ) (now : ℕ)
    → IsValid l
    → is_nil ip ≡ false
    → lookup ip l.entries ≡ none
    → 0 < t
    → All (λ u. u ≤ t + l.window) ts
    → l.max_failures ≤ length (t ∷ ts)
    → now < last_of t ts + l.lockout
    → (allow (fail_all l ip (t ∷ ts)) ip now).1
      ≡ record { allowed = false; retry_after = last_of t ts + l.lockout - now }
unfolding answer_at
burst_locks l ip t ts now v named missing later within enough early =
    rw (allow-answer (fail_all l ip (t ∷ ts)) ip now, named)
      (ground (
        arith,
        entry-burst ip named l t ts v missing later within,
        locked-count_all l.max_failures l.lockout t ts (started t),
      ))

-- For an address without an entry, in a valid limiter: failures at time t and later ones, none
-- after t plus the window, that number fewer than the threshold leave the address free to log in
-- at any time.
pub short_burst_allowed :
    (l : Limiter) (ip : Str) (t : ℕ) (ts : List ℕ) (now : ℕ)
    → IsValid l
    → lookup ip l.entries ≡ none
    → 0 < t
    → All (λ u. u ≤ t + l.window) ts
    → length (t ∷ ts) < l.max_failures
    → (allow (fail_all l ip (t ∷ ts)) ip now).1 ≡ go_on
unfolding answer_at
short_burst_allowed l ip t ts now v missing later within short = elim (Bool-cases (is_nil ip)) [
  | inl e ↦ rw (allow-answer (fail_all l ip (t ∷ ts)) ip now, e)
  | inr named ↦
      rw (allow-answer (fail_all l ip (t ∷ ts)) ip now, named)
        (ground (
          arith,
          entry-burst ip named l t ts v missing later within,
          unlocked-count_all l.max_failures l.lockout (t ∷ ts) (started t),
        ))
]
