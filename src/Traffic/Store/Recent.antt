-- ===== src/Traffic/Store/Recent.antt =====
-- The newest elements of a chronological list, and those that are fresh.
use chi_jie.Prelude.{
  ℕ, suc, ◌-◌, ◌≤◌, ◌≡◌, refl, sym, ◌∙◌, Bool, List, [], ◌∷◌, ◌++◌, select, length, ltb, All, arith,
  length-append, length-select-le, All-imp, All-select, All-append, Bool-cases, inl, inr,
}
use chi_jie.Traffic.Types.{Trace}
use chi_jie.Traffic.Store.{newest, is_fresh}

-- From the oldest to the newest.
abbrev pub IsChronological : List Trace → Type 0
IsChronological [] = Unit
IsChronological (t ∷ ts) = All (λ u. t.timestamp ≤ u.timestamp) ts × IsChronological ts

abbrev pub IsBefore : ℕ → List Trace → Type 0
IsBefore now ts = All (λ u. u.timestamp ≤ now) ts

pub newest_within : (k : ℕ) (ts : List Trace) → length ts ≤ k → newest k ts ≡ ts
unfolding newest
newest_within k ts h = ground arith

pub newest-cons :
    (k : ℕ) (t : Trace) (ts : List Trace) → k ≤ length ts → newest k (t ∷ ts) ≡ newest k ts
unfolding newest
newest-cons k t ts h = rw (suc-sub (length ts) k h) (ground arith)
  where
    suc-sub : (a b : ℕ) → b ≤ a → suc a - b ≡ suc (a - b)
    suc-sub a b h = omega arith

pub length-newest : (k : ℕ) (ts : List Trace) → length (newest k ts) ≤ k
length-newest k [] = ground (arith, newest_within k [])
length-newest k (t ∷ ts) =
    ground (arith, newest_within k (t ∷ ts), newest-cons k t ts, length-newest k ts)

-- To add to the newest elements is as good as to add to all.
pub newest-append :
    (k : ℕ) (ts : List Trace) (u : Trace)
    → newest k (newest k ts ++ u ∷ []) ≡ newest k (ts ++ u ∷ [])
newest-append k [] u = rw (newest_within k [] (omega arith)) refl
newest-append k (t ∷ ts) u = elim (Bool-cases (ltb (length ts) k)) [
  | inl e ↦ rw (newest_within k (t ∷ ts) (ground arith)) refl
  | inr e ↦
      rw
        (
          newest-cons k t ts (ground arith),
          newest-cons k t (ts ++ u ∷ []) (ground (arith, length-append {0} ts (u ∷ []))),
        )
        (newest-append k ts u)
]

select-IsFresh_of_All :
    (since : ℕ) (ts : List Trace)
    → All (λ u. since ≤ u.timestamp) ts
    → select (is_fresh since) ts ≡ ts
select-IsFresh_of_All since [] h = refl
select-IsFresh_of_All since (t ∷ ts) h = ground (arith, select-IsFresh_of_All since ts h.1)

-- What is fresh later was fresh before.
pub select_twice :
    (a b : ℕ) (ts : List Trace)
    → a ≤ b
    → select (is_fresh b) (select (is_fresh a) ts) ≡ select (is_fresh b) ts
select_twice a b [] h = refl
select_twice a b (t ∷ ts) h = ground (arith, select_twice a b ts)

-- Of a chronological list, the fresh among the newest are the newest of the fresh.
pub select-newest :
    (since k : ℕ) (ts : List Trace)
    → IsChronological ts
    → select (is_fresh since) (newest k ts) ≡ newest k (select (is_fresh since) ts)
select-newest since k [] c = rw (newest_within k [] (omega arith)) refl
select-newest since k (t ∷ ts) c = elim (Bool-cases (ltb (length ts) k)) [
  | inl e ↦ rw (newest_within k (t ∷ ts) (ground arith)) (
      sym (
        newest_within k (select (is_fresh since) (t ∷ ts))
          (ground (arith, length-select-le {0} (is_fresh since) (t ∷ ts)))))
  | inr e ↦
      rw (newest-cons k t ts (ground arith))
        (select-newest since k ts c.1 ∙ skip since k t ts c (ground arith))
]
  where
    skip :
        (since k : ℕ) (t : Trace) (ts : List Trace)
        → IsChronological (t ∷ ts)
        → k ≤ length ts
        → newest k (select (is_fresh since) ts) ≡ newest k (select (is_fresh since) (t ∷ ts))
    skip since k t ts c h = elim (Bool-cases (ltb t.timestamp since)) [
      | inl e ↦ rw e refl
      | inr e ↦
          rw
            (
              e,
              select-IsFresh_of_All since ts (
                  All-imp (λ u. t.timestamp ≤ u.timestamp) (λ u. since ≤ u.timestamp) ts
                    (λ u le. ground arith) c.0),
            )
            (sym (newest-cons k t ts h))
    ]

pub select-IsChronological :
    (p : Trace → Bool) (ts : List Trace) → IsChronological ts → IsChronological (select p ts)
select-IsChronological p [] c = tt
select-IsChronological p (t ∷ ts) c = elim (Bool-cases (p t)) [
  | inl e ↦
      rw e (All-select (λ u. t.timestamp ≤ u.timestamp) p ts c.0, select-IsChronological p ts c.1)
  | inr e ↦ rw e (select-IsChronological p ts c.1)
]

pub append-IsChronological :
    (now : ℕ) (ts : List Trace) (u : Trace)
    → IsChronological ts
    → IsBefore now ts
    → now ≤ u.timestamp
    → IsChronological (ts ++ u ∷ [])
append-IsChronological now [] u c b h = (tt, tt)
append-IsChronological now (t ∷ ts) u c b h = (
  All-append (λ v. t.timestamp ≤ v.timestamp) ts (u ∷ []) c.0 (omega arith, tt),
  append-IsChronological now ts u c.1 b.1 h,
)

pub select-append_one :
    (since : ℕ) (ts : List Trace) (u : Trace)
    → since ≤ u.timestamp
    → select (is_fresh since) (ts ++ u ∷ []) ≡ select (is_fresh since) ts ++ u ∷ []
select-append_one since [] u h = ground arith
select-append_one since (t ∷ ts) u h = ground (arith, select-append_one since ts u h)
