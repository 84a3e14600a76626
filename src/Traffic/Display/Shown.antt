-- ===== src/Traffic/Display/Shown.antt =====
-- The rows of displayTraces as the console receives them.
use chi_jie.Prelude.{
  ℕ, suc, ◌≡◌, refl, ap, sym, ◌∙◌, inl, inr, Bool, true, false, none, some, List, [], ◌∷◌, ◌++◌,
  map, length, Str, arith, Option, Bool-cases, Option-cases, is_nil, if◌then◌else◌, concat_map, All,
  Perm, subst, leb,
}
use mathlib.Core.List.Perm
use mathlib.Core.List.{perm_middle, append-nil}
use chi_jie.Traffic.Types.{Trace, TrafficConfig}
use chi_jie.Traffic.Group.{
  UrlApi, Fold, success_fold_group, is_failure, failure_group_key, failure_group_target,
}
use chi_jie.Traffic.Display.{
  DisplayTrace, Rows, no_rows, add_keyed, display_trace, display_all, display_traces, finish,
}
use chi_jie.Traffic.Display.Members.{members, IsRow}
use chi_jie.Traffic.Display.Grouping.{
  keys_of, IsGrouping, Placed, add_plain-Placed, add_keyed-Placed,
}

reverse_onto : List Trace → List Trace → List Trace
reverse_onto [] done = done
reverse_onto (t ∷ ts) done = reverse_onto ts (t ∷ done)

reverse_onto-perm : (ts done : List Trace) → Perm (reverse_onto ts done) (ts ++ done)
unfolding reverse_onto
reverse_onto-perm [] done = Perm.refl done
reverse_onto-perm (t ∷ ts) done = Perm.trans (reverse_onto-perm ts (t ∷ done)) (perm_middle ts done)

abbrev pub key_of_fold : Option Fold → Str → Str
key_of_fold none otherwise = otherwise
key_of_fold (some f) otherwise = f.key

-- The key by which a trace is grouped: none for an ordinary success.
unfoldable pub display_key : UrlApi → TrafficConfig → Trace → Str
display_key urls c t =
    key_of_fold (success_fold_group urls t c)
      (if is_failure t then failure_group_key urls t c else [])

is_nil-eq : (k : Str) → is_nil k ≡ true → k ≡ []
is_nil-eq [] h = refl
is_nil-eq (x ∷ k) h = absurd (ground arith)

module _ (urls : UrlApi) (c : TrafficConfig) where
  fold_key :
      (t : Trace) (f : Fold) → success_fold_group urls t c ≡ some f → display_key urls c t ≡ f.key
  unfolding display_key
  fold_key t f e = rw (e, display_key) refl

  plain_key :
      (t : Trace)
      → success_fold_group urls t c ≡ none
      → is_failure t ≡ false
      → display_key urls c t ≡ []
  unfolding display_key
  plain_key t e h = rw (e, display_key) (rw h refl)

  failure_key :
      (t : Trace)
      → success_fold_group urls t c ≡ none
      → is_failure t ≡ true
      → display_key urls c t ≡ failure_group_key urls t c
  unfolding display_key
  failure_key t e h = rw (e, display_key) (rw h refl)

  display_trace-Placed :
      (t : Trace) (traces : List Trace) (s : Rows)
      → Placed (display_key urls c) traces s
      → Placed (display_key urls c) (t ∷ traces) (display_trace urls c t s)
  unfolding display_trace
  display_trace-Placed t traces s p = elim (Option-cases (success_fold_group urls t c)) [
    | inr (f, e) ↦ rw (e, display_trace) (keyed f.key f.target true (fold_key t f e))
    | inl e ↦ elim (Bool-cases (is_failure t)) [
      | inr h ↦
          rw (e, display_trace)
            (rw h (add_plain-Placed (display_key urls c) t traces s (plain_key t e h) p))
      | inl h ↦ elim (Bool-cases (is_nil (failure_group_key urls t c))) [
        | inl n ↦
            rw (e, display_trace)
              (rw (h, n)
                (add_plain-Placed (display_key urls c) t traces s
                  (failure_key t e h ∙ is_nil-eq _ n) p))
        | inr n ↦
            rw (e, display_trace)
              (rw (h, n)
                (keyed (failure_group_key urls t c) (failure_group_target urls t c) false
                  (failure_key t e h)))
      ]
    ]
  ]
    where
      keyed :
          (key target : Str) (excluded : Bool)
          → display_key urls c t ≡ key
          → Placed (display_key urls c) (t ∷ traces) (add_keyed t key target excluded s)
      keyed key target excluded e =
          subst (λ k. Placed (display_key urls c) (t ∷ traces) (add_keyed t k target excluded s)) e
            (add_keyed-Placed (display_key urls c) t traces s target excluded p)

  display_all-Placed :
      (ts traces : List Trace) (s : Rows)
      → Placed (display_key urls c) traces s
      → Placed (display_key urls c) (reverse_onto ts traces) (display_all urls c ts s)
  unfolding display_all reverse_onto
  display_all-Placed [] traces s p = p
  display_all-Placed (t ∷ ts) traces s p =
      display_all-Placed ts (t ∷ traces) (display_trace urls c t s)
        (display_trace-Placed t traces s p)

module _ (key_of : Trace → Str) where
  members-finish : (row : DisplayTrace) → IsRow key_of row → members (finish row) ≡ members row
  unfolding members finish
  members-finish row r = elim (Bool-cases (leb row.group_count 1)) [
    | inr e ↦ rw e refl
    | inl e ↦ rw e (
        sym (
          r.shape
          ∙ ap (λ ts. row.trace ∷ ts)
              (length_zero r.rest (alone row.group_count (length r.rest) r.count e))))
  ]
    where
      length_zero : (ts : List Trace) → length ts ≡ 0 → ts ≡ []
      length_zero [] h = refl
      length_zero (t ∷ ts) h = absurd (omega arith)

      alone : (n m : ℕ) → n ≡ suc m → leb n 1 ≡ true → m ≡ 0
      alone n m e h = ground arith

  finish-IsRow : (row : DisplayTrace) → IsRow key_of row → IsRow key_of (finish row)
  unfolding finish
  finish-IsRow row r = record {
    rest = r.rest;
    shape = members-finish row r ∙ r.shape;
    count = r.count;
    keys = r.keys;
  }

  finish_same :
      (rows : List DisplayTrace)
      → All (IsRow key_of) rows
      → concat_map members (map finish rows) ≡ concat_map members rows
  finish_same [] h = refl
  finish_same (row ∷ rows) h = rw (members-finish row h.0, finish_same rows h.1) refl

  finish_sound :
      (rows : List DisplayTrace) → All (IsRow key_of) rows → All (IsRow key_of) (map finish rows)
  finish_sound [] h = tt
  finish_sound (row ∷ rows) h = (finish-IsRow row h.0, finish_sound rows h.1)

  finish_keys : (rows : List DisplayTrace) → keys_of (map finish rows) ≡ keys_of rows
  unfolding finish
  finish_keys [] = refl
  finish_keys (row ∷ rows) = ap (λ ks. row.group_key ∷ ks) (finish_keys rows)

  finish-IsGrouping :
      (traces : List Trace) (rows : List DisplayTrace)
      → IsGrouping key_of traces rows
      → IsGrouping key_of traces (map finish rows)
  finish-IsGrouping traces rows g = record {
    all = rw (finish_same rows g.sound) g.all;
    sound = finish_sound rows g.sound;
    distinct = rw (finish_keys rows) g.distinct;
  }

-- The rows that the console shows for some traces hold each of them, as often as it was recorded.
-- A row stands for the trace that it shows and those that it lists, says how many these are, and
-- they all have its key; no two rows have the same key, unless it is empty.
pub display_traces-IsGrouping :
    (urls : UrlApi) (c : TrafficConfig) (traces : List Trace)
    → IsGrouping (display_key urls c) traces (display_traces urls c traces)
unfolding display_traces
display_traces-IsGrouping urls c traces =
    let start : Placed (display_key urls c) [] no_rows = record {
      grouping = record { all = Perm.refl []; sound = tt; distinct = tt };
      indexed = record { points = tt; known = tt };
    } in
    let p = display_all-Placed urls c traces [] no_rows start in
    let g = finish-IsGrouping (display_key urls c) _ _ p.grouping in
    record {
      all = Perm.trans g.all (rw append-nil at (reverse_onto-perm traces []));
      sound = g.sound;
      distinct = g.distinct;
    }
