-- ===== src/Traffic/Display/Grouping.antt =====
-- How displayTraces distributes the traces over rows.
use chi_jie.Prelude.{
  ℕ, zero, suc, ◌≡◌, refl, ap, sym, inl, inr, Bool, true, false, not, ◌||◌, none, some, List, [],
  ◌∷◌, ◌++◌, map, length, Str, arith, Option, Bool-cases, Option-cases, is_nil, concat_map, All,
  All-append, All-imp, str_eq, str_eq_iff, lookup, insert, Dict, Perm, subst, lookup-insert,
}
use mathlib.Core.List.Perm
use mathlib.Core.List.{perm_append_singleton, append-nil, append_assoc}
use chi_jie.Traffic.Types.{Trace}
use chi_jie.Traffic.Display.{DisplayTrace, Rows, bump, plain_row, keyed_row, add_plain, add_keyed}
use chi_jie.Traffic.Display.Members.{
  members, Points, Points-append, Points-append_self, Points-bump, lookup-Points, insert-Points,
  members-bump, IsRow, bump-IsRow,
}

abbrev pub keys_of : List DisplayTrace → List Str
keys_of rows = map (λ (row : DisplayTrace). row.group_key) rows

-- No key but the empty one comes twice.
abbrev pub KeysDistinct : List Str → Type 0
KeysDistinct [] = Unit
KeysDistinct (k ∷ ks) = All (λ j. is_nil k || not (str_eq k j) ≡ true) ks × KeysDistinct ks

-- Every trace is in a row, as often as it was recorded; the traces of a row have its key; different
-- rows have different keys, unless they have none.
pub record IsGrouping (key_of : Trace → Str) (traces : List Trace) (rows : List DisplayTrace)
    : Type 0 where
  pub all : Perm (concat_map members rows) traces
  pub sound : All (IsRow key_of) rows
  pub distinct : KeysDistinct (keys_of rows)

abbrev pub has : Option ℕ → Bool
has none = false
has (some i) = true

pub record IsIndexed (rows : List DisplayTrace) (index : Dict ℕ) : Type 0 where
  pub points : All (λ kv. Points rows kv.0 kv.1) index
  pub known : All (λ k. is_nil k || has (lookup k index) ≡ true) (keys_of rows)

keys_of-bump :
    (rows : List DisplayTrace) (t : Trace) (i : ℕ) → keys_of (bump i t rows) ≡ keys_of rows
unfolding bump
keys_of-bump [] t i = refl
keys_of-bump (r ∷ rows) t zero = refl
keys_of-bump (r ∷ rows) t (suc i) = ap (λ ks. r.group_key ∷ ks) (keys_of-bump rows t i)

keys_of-append :
    (rows : List DisplayTrace) (row : DisplayTrace)
    → keys_of (rows ++ row ∷ []) ≡ keys_of rows ++ row.group_key ∷ []
keys_of-append [] row = refl
keys_of-append (r ∷ rows) row = ap (λ ks. r.group_key ∷ ks) (keys_of-append rows row)

members-append :
    (rows : List DisplayTrace) (row : DisplayTrace)
    → concat_map members (rows ++ row ∷ []) ≡ concat_map members rows ++ members row
members-append [] row = rw append-nil refl
members-append (r ∷ rows) row =
    rw (members-append rows row)
      (sym (append_assoc (members r) (concat_map members rows) (members row)))

KeysDistinct-append :
    (ks : List Str) (key : Str)
    → All (λ k. is_nil k || not (str_eq k key) ≡ true) ks
    → KeysDistinct ks
    → KeysDistinct (ks ++ key ∷ [])
KeysDistinct-append [] key h d = (tt, tt)
KeysDistinct-append (k ∷ ks) key h d = (
  All-append (λ j. is_nil k || not (str_eq k j) ≡ true) ks (key ∷ []) d.0 (h.0, tt),
  KeysDistinct-append ks key h.1 d.1,
)

All-intro : (P : Str → Type 0) (ks : List Str) → ((k : Str) → P k) → All P ks
All-intro P [] f = tt
All-intro P (k ∷ ks) f = (f k, All-intro P ks f)

ne_nil : (k : Str) → is_nil k || not (str_eq k []) ≡ true
unfolding str_eq
ne_nil [] = refl
ne_nil (c ∷ k) = refl

unknown-ne :
    (key : Str) (index : Dict ℕ)
    → lookup key index ≡ none
    → (k : Str) → is_nil k || has (lookup k index) ≡ true
    → is_nil k || not (str_eq k key) ≡ true
unknown-ne key index e k h = elim (Bool-cases (str_eq k key)) [
  | inl s ↦
      let same = (str_eq_iff k key).0 s in
      let known : is_nil key || has (lookup key index) ≡ true =
        subst (λ w. is_nil w || has (lookup w index) ≡ true) same h in
      subst (λ w. is_nil w || not (str_eq w key) ≡ true) (sym same)
        (clash (is_nil key) _ (rw e at known))
  | inr s ↦ rw s (or_true (is_nil k))
]
  where
    clash : (b x : Bool) → b || false ≡ true → b || x ≡ true
    clash true x h = refl
    clash false x h = absurd (ground arith)

    or_true : (b : Bool) → b || true ≡ true
    or_true true = refl
    or_true false = refl

still_known :
    (key : Str) (i : ℕ) (index : Dict ℕ) (k : Str)
    → is_nil k || has (lookup k index) ≡ true
    → is_nil k || has (lookup k (insert key i index)) ≡ true
still_known key i index k h =
    rw (lookup-insert key k i index)
      (elim (Bool-cases (str_eq key k)) [ inl e ↦ rw e (ground arith) | inr e ↦ rw e h ])

now_known :
    (key : Str) (i : ℕ) (index : Dict ℕ)
    → is_nil key || has (lookup key (insert key i index)) ≡ true
now_known key i index = rw (lookup-insert key key i index) (ground (arith, str_eq_iff key key))

module _ (key_of : Trace → Str) where
  pub record Placed (traces : List Trace) (s : Rows) : Type 0 where
    pub grouping : IsGrouping key_of traces s.rows
    pub indexed : IsIndexed s.rows s.index_by_key

  plain-IsRow : (t : Trace) → key_of t ≡ [] → IsRow key_of (plain_row t)
  unfolding plain_row members
  plain-IsRow t e = record { rest = []; shape = refl; count = refl; keys = (e, tt) }

  keyed-IsRow :
      (t : Trace) (key target : Str) (excluded : Bool)
      → key_of t ≡ key
      → IsRow key_of (keyed_row t key target excluded)
  unfolding keyed_row members
  keyed-IsRow t key target excluded e = record {
    rest = [];
    shape = refl;
    count = refl;
    keys = (e, tt);
  }

  -- A row more, of a trace whose key is new or empty.
  pub append-IsGrouping :
      (t : Trace) (traces : List Trace) (rows : List DisplayTrace) (row : DisplayTrace)
      → members row ≡ t ∷ []
      → IsRow key_of row
      → All (λ k. is_nil k || not (str_eq k row.group_key) ≡ true) (keys_of rows)
      → IsGrouping key_of traces rows
      → IsGrouping key_of (t ∷ traces) (rows ++ row ∷ [])
  append-IsGrouping t traces rows row m r n g = record {
    all =
        rw (members-append rows row, m)
          (Perm.trans (perm_append_singleton t (concat_map members rows)) (Perm.cons t g.all));
    sound = All-append (IsRow key_of) rows (row ∷ []) g.sound (r, tt);
    distinct =
        rw (keys_of-append rows row)
          (KeysDistinct-append (keys_of rows) row.group_key n g.distinct);
  }

  pub add_plain-Placed :
      (t : Trace) (traces : List Trace) (s : Rows)
      → key_of t ≡ []
      → Placed traces s
      → Placed (t ∷ traces) (add_plain t s)
  unfolding add_plain members plain_row
  add_plain-Placed t traces s e p = record {
    grouping =
        append-IsGrouping t traces s.rows (plain_row t) refl (plain-IsRow t e)
          (All-intro (λ k. is_nil k || not (str_eq k []) ≡ true) (keys_of s.rows) ne_nil)
          p.grouping;
    indexed = record {
      points =
          All-imp (λ kv. Points s.rows kv.0 kv.1)
            (λ kv. Points (s.rows ++ plain_row t ∷ []) kv.0 kv.1) s.index_by_key
            (λ kv. Points-append s.rows (plain_row t) kv.0 kv.1) p.indexed.points;
      known = rw (keys_of-append s.rows (plain_row t)) (
          All-append (λ k. is_nil k || has (lookup k s.index_by_key) ≡ true) (keys_of s.rows)
            ((plain_row t).group_key ∷ []) p.indexed.known (refl, tt));
    };
  }

  bump-Placed :
      (t : Trace) (traces : List Trace) (s : Rows) (i : ℕ)
      → lookup (key_of t) s.index_by_key ≡ some i
      → Placed traces s
      → Placed (t ∷ traces) (record s { rows = bump i t s.rows })
  bump-Placed t traces s i e p =
      let at = lookup-Points s.rows s.index_by_key (key_of t) i p.indexed.points e in
      record {
        grouping = record {
          all = Perm.trans (members-bump s.rows t (key_of t) i at) (Perm.cons t p.grouping.all);
          sound = bump-IsRow key_of s.rows t i at p.grouping.sound;
          distinct = rw (keys_of-bump s.rows t i) p.grouping.distinct;
        };
        indexed = record {
          points =
              All-imp (λ kv. Points s.rows kv.0 kv.1) (λ kv. Points (bump i t s.rows) kv.0 kv.1)
                s.index_by_key (λ kv. Points-bump s.rows t kv.0 i kv.1) p.indexed.points;
          known = rw (keys_of-bump s.rows t i) p.indexed.known;
        };
      }

  new-Placed :
      (t : Trace) (traces : List Trace) (s : Rows) (target : Str) (excluded : Bool)
      → lookup (key_of t) s.index_by_key ≡ none
      → Placed traces s
      → Placed (t ∷ traces) (record {
        rows = s.rows ++ keyed_row t (key_of t) target excluded ∷ [];
        index_by_key = insert (key_of t) (length s.rows) s.index_by_key;
      })
  unfolding keyed_row members
  new-Placed t traces s target excluded e p =
      let key = key_of t in
      let row = keyed_row t key target excluded in
      record {
        grouping =
            append-IsGrouping t traces s.rows row refl (keyed-IsRow t key target excluded refl)
              (All-imp (λ k. is_nil k || has (lookup k s.index_by_key) ≡ true)
                (λ k. is_nil k || not (str_eq k key) ≡ true) (keys_of s.rows)
                (unknown-ne key s.index_by_key e) p.indexed.known)
              p.grouping;
        indexed = record {
          points =
              insert-Points (s.rows ++ row ∷ []) s.index_by_key key (length s.rows)
                (All-imp (λ kv. Points s.rows kv.0 kv.1)
                  (λ kv. Points (s.rows ++ row ∷ []) kv.0 kv.1) s.index_by_key
                  (λ kv. Points-append s.rows row kv.0 kv.1) p.indexed.points)
                (Points-append_self s.rows row key (refl, refl));
          known = rw (keys_of-append s.rows row) (
              All-append
                (λ k. is_nil k || has (lookup k (insert key (length s.rows) s.index_by_key)) ≡ true)
                (keys_of s.rows) (key ∷ [])
                (All-imp (λ k. is_nil k || has (lookup k s.index_by_key) ≡ true)
                  (λ k.
                    is_nil k || has (lookup k (insert key (length s.rows) s.index_by_key)) ≡ true)
                  (keys_of s.rows) (still_known key (length s.rows) s.index_by_key) p.indexed.known)
                (now_known key (length s.rows) s.index_by_key, tt));
        };
      }

  pub add_keyed-Placed :
      (t : Trace) (traces : List Trace) (s : Rows) (target : Str) (excluded : Bool)
      → Placed traces s
      → Placed (t ∷ traces) (add_keyed t (key_of t) target excluded s)
  unfolding add_keyed
  add_keyed-Placed t traces s target excluded p =
      elim (Option-cases (lookup (key_of t) s.index_by_key)) [
        | inl e ↦ rw (e, add_keyed) (new-Placed t traces s target excluded e p)
        | inr (i, e) ↦ rw (e, add_keyed) (bump-Placed t traces s i e p)
      ]
