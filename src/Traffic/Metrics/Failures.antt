-- ===== src/Traffic/Metrics/Failures.antt =====
-- The failures that the metrics show, and the keys by which they are grouped.
use chi_jie.Prelude.{
  ℕ, suc, ◌+◌, ◌≡◌, refl, true, false, ◌||◌, none, some, List, [], ◌∷◌, ◌++◌, length, reverse, Str,
  arith, Bool-cases, Option-cases, inl, inr, is_nil, if◌then◌else◌, select, concat_map, All,
  All-imp, str_eq_iff,
}
use mathlib.Core.List.{reverse-append}
use chi_jie.Util.{contains_string}
use chi_jie.Traffic.Types.{Trace, TrafficConfig}
use chi_jie.Traffic.Group.{UrlApi, success_fold_group, is_failure, failure_group_key}
use chi_jie.Traffic.Metrics.{
  Tally, empty_tally, tally_trace, tally, tally_failure, count_ignored, count_success,
  count_repeated, count_failure, metrics_of,
}

abbrev pub IsDistinct : List Str → Type 0
IsDistinct [] = Unit
IsDistinct (k ∷ ks) = (contains_string ks k ≡ false) × IsDistinct ks

-- A count of some keys, one for each different key and one for each empty one: `shown` lists the
-- different keys, without the empty one.
pub record IsCountOf (keys shown : List Str) (n : ℕ) : Type 0 where
  pub distinct : IsDistinct shown
  pub not_empty : All (λ k. is_nil k ≡ false) shown
  pub sound : All (λ k. contains_string keys k ≡ true) shown
  pub complete : All (λ k. is_nil k || contains_string shown k ≡ true) keys
  pub count : n ≡ length shown + length (select is_nil keys)

contains-cons :
    (x : Str) (ks : List Str) (k : Str)
    → contains_string ks k ≡ true
    → contains_string (x ∷ ks) k ≡ true
unfolding contains_string
contains-cons x ks k h = ground arith

contains_self : (k : Str) (ks : List Str) → contains_string (k ∷ ks) k ≡ true
unfolding contains_string
contains_self k ks = ground (arith, str_eq_iff k k)

complete-cons :
    (x : Str) (ks : List Str) (k : Str)
    → is_nil k || contains_string ks k ≡ true
    → is_nil k || contains_string (x ∷ ks) k ≡ true
complete-cons x ks k h = ground (arith, contains-cons x ks k)

-- A key that adds nothing to the list of different keys.
again :
    (key : Str) (keys shown : List Str) (n : ℕ)
    → is_nil key || contains_string shown key ≡ true
    → IsCountOf keys shown n
    → IsCountOf (key ∷ keys) shown (if is_nil key then suc n else n)
again key keys shown n h i = record {
  distinct = i.distinct;
  not_empty = i.not_empty;
  sound =
      All-imp (λ k. contains_string keys k ≡ true) (λ k. contains_string (key ∷ keys) k ≡ true)
        shown (contains-cons key keys) i.sound;
  complete = (h, i.complete);
  count = ground (arith, i.count);
}

-- A key that is new.
fresh :
    (key : Str) (keys shown : List Str) (n : ℕ)
    → is_nil key ≡ false
    → contains_string shown key ≡ false
    → IsCountOf keys shown n
    → IsCountOf (key ∷ keys) (key ∷ shown) (suc n)
fresh key keys shown n h f i = record {
  distinct = (f, i.distinct);
  not_empty = (h, i.not_empty);
  sound = (
    contains_self key keys,
    All-imp (λ k. contains_string keys k ≡ true) (λ k. contains_string (key ∷ keys) k ≡ true) shown
        (contains-cons key keys) i.sound,
  );
  complete = (
    ground (arith, contains_self key shown),
    All-imp (λ k. is_nil k || contains_string shown k ≡ true)
        (λ k. is_nil k || contains_string (key ∷ shown) k ≡ true) keys (complete-cons key shown)
        i.complete,
  );
  count = ground (arith, i.count);
}

tally_failure-IsCountOf :
    (t : Trace) (key : Str) (y : Tally) (keys : List Str)
    → IsCountOf keys y.seen y.counts.failures
    → IsCountOf (key ∷ keys) (tally_failure t key y).seen (tally_failure t key y).counts.failures
unfolding tally_failure count_repeated count_failure
tally_failure-IsCountOf t key y keys i = elim (Bool-cases (is_nil key)) [
  | inl e ↦ rw e (rw e at (again key keys y.seen y.counts.failures (ground arith) i))
  | inr e ↦ elim (Bool-cases (contains_string y.seen key)) [
    | inl s ↦ rw (e, s) (rw e at (again key keys y.seen y.counts.failures (ground arith) i))
    | inr s ↦ rw (e, s) (fresh key keys y.seen y.counts.failures e s i)
  ]
]

module _ (urls : UrlApi) (c : TrafficConfig) where
  -- The key of a trace that the metrics treat as a failure.
  unfoldable pub failure_keys_of : Trace → List Str
  failure_keys_of t = elim (success_fold_group urls t c) [
    | some fold ↦ []
    | none ↦ if is_failure t then failure_group_key urls t c ∷ [] else []
  ]

  unfoldable pub failure_keys : List Trace → List Str
  unfolding failure_keys_of
  failure_keys = concat_map failure_keys_of

  tally_trace-IsCountOf :
      (t : Trace) (y : Tally) (keys : List Str)
      → IsCountOf keys y.seen y.counts.failures
      → IsCountOf
          (failure_keys_of t ++ keys)
          (tally_trace urls c t y).seen
          (tally_trace urls c t y).counts.failures
  unfolding tally_trace failure_keys_of count_ignored count_success
  tally_trace-IsCountOf t y keys i = elim (Option-cases (success_fold_group urls t c)) [
    | inr (f, e) ↦ rw (e, tally_trace, failure_keys_of) i
    | inl e ↦ elim (Bool-cases (is_failure t)) [
      | inl f ↦
          rw (e, tally_trace, failure_keys_of)
            (rw f (tally_failure-IsCountOf t (failure_group_key urls t c) y keys i))
      | inr f ↦ rw (e, tally_trace, failure_keys_of) (rw f i)
    ]
  ]

  tally-append :
      (ts : List Trace) (t : Trace) (y : Tally)
      → tally urls c (ts ++ t ∷ []) y ≡ tally_trace urls c t (tally urls c ts y)
  unfolding tally
  tally-append [] t y = refl
  tally-append (u ∷ ts) t y = tally-append ts t (tally_trace urls c u y)

  tally-IsCountOf :
      (ts : List Trace)
      → IsCountOf
          (failure_keys ts)
          (tally urls c (reverse ts) empty_tally).seen
          (tally urls c (reverse ts) empty_tally).counts.failures
  unfolding tally failure_keys
  tally-IsCountOf [] = record {
    distinct = tt;
    not_empty = tt;
    sound = tt;
    complete = tt;
    count = refl;
  }
  tally-IsCountOf (t ∷ ts) =
      rw (reverse-append (t ∷ []) ts, tally-append (reverse ts) t empty_tally)
        (tally_trace-IsCountOf t (tally urls c (reverse ts) empty_tally) (failure_keys ts)
          (tally-IsCountOf ts))

  -- The metrics show the failures by their keys: there is a list of different keys, the empty one
  -- not among them, that holds exactly the keys of the failures other than the empty one, and the
  -- failures shown are as many as these and the failures whose key is empty.
  pub failures-IsCountOf :
      (traces : List Trace) (active_tunnels : ℕ)
      → (shown : List Str) × IsCountOf
          (failure_keys traces)
          shown
          (metrics_of urls c traces active_tunnels).counts.failures
  unfolding metrics_of
  failures-IsCountOf traces active_tunnels =
      ((tally urls c (reverse traces) empty_tally).seen, tally-IsCountOf traces)
