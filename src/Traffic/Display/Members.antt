-- ===== src/Traffic/Display/Members.antt =====
-- The rows of the console and the traces that each stands for.
use chi_jie.Prelude.{
  ℕ, zero, suc, ◌≡◌, refl, ap, sym, ◌∙◌, inl, inr, false, some, List, [], ◌∷◌, ◌++◌, length, Str,
  arith, Bool-cases, is_nil, if◌then◌else◌, concat_map, length-append, All, All-append, str_eq,
  str_eq_iff, lookup, insert, Dict, Perm, subst,
}
use mathlib.Core.List.Perm
use mathlib.Core.List.{perm_middle, perm_append_singleton}
use chi_jie.Traffic.Types.{Trace}
use chi_jie.Traffic.Display.{DisplayTrace, join_row, bump}

-- The traces that a row stands for.
unfoldable pub members : DisplayTrace → List Trace
members row = if is_nil row.children then row.trace ∷ [] else row.children

-- A row under a key that lists its traces.
abbrev pub IsKeyed : Str → DisplayTrace → Type 0
IsKeyed key row = (row.group_key ≡ key) × (is_nil row.children ≡ false)

-- The place `i` holds such a row.
abbrev pub Points : List DisplayTrace → Str → ℕ → Type 0
Points [] key i = ⊥
Points (row ∷ rows) key zero = IsKeyed key row
Points (row ∷ rows) key (suc i) = Points rows key i

pub Points-append :
    (rows : List DisplayTrace) (row : DisplayTrace) (key : Str) (i : ℕ)
    → Points rows key i
    → Points (rows ++ row ∷ []) key i
Points-append [] row key i p = elim p [ ]
Points-append (r ∷ rows) row key zero p = p
Points-append (r ∷ rows) row key (suc i) p = Points-append rows row key i p

pub Points-append_self :
    (rows : List DisplayTrace) (row : DisplayTrace) (key : Str)
    → IsKeyed key row
    → Points (rows ++ row ∷ []) key (length rows)
Points-append_self [] row key k = k
Points-append_self (r ∷ rows) row key k = Points-append_self rows row key k

is_nil-append : (ts : List Trace) (t : Trace) → is_nil (ts ++ t ∷ []) ≡ false
is_nil-append [] t = refl
is_nil-append (u ∷ ts) t = refl

pub Points-bump :
    (rows : List DisplayTrace) (t : Trace) (key : Str) (i j : ℕ)
    → Points rows key j
    → Points (bump i t rows) key j
unfolding bump
Points-bump [] t key i j p = elim p [ ]
Points-bump (r ∷ rows) t key zero zero p = (p.0, is_nil-append r.children t)
Points-bump (r ∷ rows) t key zero (suc j) p = p
Points-bump (r ∷ rows) t key (suc i) zero p = p
Points-bump (r ∷ rows) t key (suc i) (suc j) p = Points-bump rows t key i j p

pub lookup-Points :
    (rows : List DisplayTrace) (index : Dict ℕ) (key : Str) (i : ℕ)
    → All (λ kv. Points rows kv.0 kv.1) index
    → lookup key index ≡ some i
    → Points rows key i
unfolding lookup
lookup-Points rows [] key i h e = absurd (ground arith)
lookup-Points rows ((k, j) ∷ index) key i h e = elim (Bool-cases (str_eq k key)) [
  | inl s ↦
      subst (λ n. Points rows key n) (ground arith)
        (subst (λ w. Points rows w j) ((str_eq_iff k key).0 s) h.0)
  | inr s ↦ lookup-Points rows index key i h.1 (ground arith)
]

pub insert-Points :
    (rows : List DisplayTrace) (index : Dict ℕ) (key : Str) (i : ℕ)
    → All (λ kv. Points rows kv.0 kv.1) index
    → Points rows key i
    → All (λ kv. Points rows kv.0 kv.1) (insert key i index)
unfolding insert
insert-Points rows [] key i h p = (p, tt)
insert-Points rows ((k, j) ∷ index) key i h p = elim (Bool-cases (str_eq k key)) [
  | inl s ↦ rw s (p, h.1)
  | inr s ↦ rw s (h.0, insert-Points rows index key i h.1 p)
]

members-join :
    (t : Trace) (row : DisplayTrace) (key : Str)
    → IsKeyed key row
    → members (join_row t row) ≡ members row ++ t ∷ []
unfolding members
members-join t row key k = rw (k.1, is_nil-append row.children t) refl

-- A trace joins the row at which its key points.
pub members-bump :
    (rows : List DisplayTrace) (t : Trace) (key : Str) (i : ℕ)
    → Points rows key i
    → Perm (concat_map members (bump i t rows)) (t ∷ concat_map members rows)
unfolding bump
members-bump [] t key i p = elim p [ ]
members-bump (r ∷ rows) t key zero p =
    rw (members-join t r key p)
      (Perm.append_right (concat_map members rows) (perm_append_singleton t (members r)))
members-bump (r ∷ rows) t key (suc i) p =
    Perm.trans (Perm.append_left (members r) (members-bump rows t key i p))
      (perm_middle (members r) (concat_map members rows))

-- A row stands for its own trace and `rest`, which are as many as it says and all of its key.
pub record IsRow (key_of : Trace → Str) (row : DisplayTrace) : Type 0 where
  pub rest : List Trace
  pub shape : members row ≡ row.trace ∷ rest
  pub count : row.group_count ≡ suc (length rest)
  pub keys : All (λ u. key_of u ≡ row.group_key) (row.trace ∷ rest)

module _ (key_of : Trace → Str) where
  pub bump-IsRow :
      (rows : List DisplayTrace) (t : Trace) (i : ℕ)
      → Points rows (key_of t) i
      → All (IsRow key_of) rows
      → All (IsRow key_of) (bump i t rows)
  unfolding bump
  bump-IsRow [] t i p h = elim p [ ]
  bump-IsRow (r ∷ rows) t zero p h = (join-IsRow r t p h.0, h.1)
    where
      join-IsRow :
          (r : DisplayTrace) (t : Trace)
          → IsKeyed (key_of t) r
          → IsRow key_of r
          → IsRow key_of (join_row t r)
      join-IsRow r t p h = record {
        rest = h.rest ++ t ∷ [];
        shape = members-join t r (key_of t) p ∙ ap (λ l. l ++ t ∷ []) h.shape;
        count = omega (arith, h.count, length-append {0} h.rest (t ∷ []));
        keys =
            All-append (λ u. key_of u ≡ r.group_key) (r.trace ∷ h.rest) (t ∷ []) h.keys
              (sym p.0, tt);
      }
  bump-IsRow (r ∷ rows) t (suc i) p h = (h.0, bump-IsRow rows t i p h.1)
