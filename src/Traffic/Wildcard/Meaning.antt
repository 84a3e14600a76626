-- ===== src/Traffic/Wildcard/Meaning.antt =====
-- The wildcard match of internal/traffic/grouping.go beside the meaning of a pattern.
use chi_jie.Prelude.{
  ℕ, suc, ◌-◌, ◌≤◌, ◌<◌, ◌≡◌, refl, ap, ◌⊎◌, inl, inr, Bool, true, false, List, [], ◌∷◌,
  if◌then◌else◌, length, ◌==◌, Str, text, str_eq, str_eq_iff, contains, has_prefix, cut_prefix,
  split, lengthen, has_suffix, after_first, arith, Bool-cases, Option-cases, sym, ◌∙◌,
}
use mathlib.Core.Path.{fun_ext}
use chi_jie.Traffic.Wildcard.{star, match_rest, match_parts, wildcard_match}
use chi_jie.Traffic.Wildcard.Globs.{
  any_tail, glob, glob_char, after, seg, segs, any_tail_idem, first_is_enough,
}

-- Either a text has no star and is its only part, or it has one and at least two parts.
split-cases :
    (p : Str)
    → ((contains p (text "*") ≡ false) × (split star p ≡ p ∷ []))
      ⊎ ((contains p (text "*") ≡ true)
          × ((s : Str) × ((t : Str) × ((ts : List Str) × (split star p ≡ s ∷ t ∷ ts)))))
unfolding contains split has_prefix lengthen
split-cases [] = inl (refl, refl)
split-cases (c ∷ p) = elim (split-cases p) [
  | inl (n, e) ↦ elim (Bool-cases (c == star)) [
    | inl h ↦ inr (ground arith, ([], (p, ([], rw e (ground arith)))))
    | inr h ↦ inl (ground arith, rw e (ground arith))
  ]
  | inr (y, (s, (t, (ts, e)))) ↦ elim (Bool-cases (c == star)) [
    | inl h ↦ inr (ground arith, ([], (s, (t ∷ ts, rw e (ground arith)))))
    | inr h ↦ inr (ground arith, (c ∷ s, (t, (ts, rw e (ground arith)))))
  ]
]

segs-lengthen :
    (c : ℕ) (s : Str) (ts : List Str) (v : Str)
    → segs (lengthen c (s ∷ ts)) v ≡ glob_char c (segs (s ∷ ts)) v
unfolding segs seg lengthen str_eq cut_prefix glob_char after
segs-lengthen c s [] [] = refl
segs-lengthen c s [] (d ∷ v) = refl
segs-lengthen c s (t ∷ ts) [] = refl
segs-lengthen c s (t ∷ ts) (d ∷ v) = ground arith

split-cons : (p : Str) → (s : Str) × ((ts : List Str) × (split star p ≡ s ∷ ts))
split-cons p = elim (split-cases p) [
  | inl (n, e) ↦ (p, ([], e))
  | inr (y, (s, (t, (ts, e)))) ↦ (s, (t ∷ ts, e))
]

glob-segs_cons :
    (c : ℕ) (f : Str → Bool) (s : Str) (ts : List Str) (v : Str)
    → f ≡ segs (s ∷ ts)
    → (if c == star then any_tail f v else glob_char c f v)
      ≡ segs (if c == star then [] ∷ s ∷ ts else lengthen c (s ∷ ts)) v
unfolding segs any_tail cut_prefix
glob-segs_cons c f s ts v h = elim (Bool-cases (c == star)) [
  | inl e ↦ rw (e, h) (star_part s ts v)
  | inr e ↦ rw (e, h) (sym (segs-lengthen c s ts v))
]
  where
    star_part :
        (s : Str) (ts : List Str) (v : Str) → any_tail (segs (s ∷ ts)) v ≡ segs ([] ∷ s ∷ ts) v
    star_part s ts v = refl

-- Reading a pattern by its parts or by its characters is the same.
glob-segs : (p v : Str) → glob p v ≡ segs (split star p) v
unfolding glob segs seg split str_eq
glob-segs [] [] = refl
glob-segs [] (c ∷ v) = refl
glob-segs (c ∷ p) v =
    let (s, (ts, e)) = split-cons p in
    rw e (glob-segs_cons c (glob p) s ts v (fun_ext (λ w. rw e at (glob-segs p w))))

has_suffix-cons : (s v : Str) (c : ℕ) → length s ≤ length v → has_suffix s (c ∷ v) ≡ has_suffix s v
unfolding has_suffix
has_suffix-cons s v c h = rw (suc-sub (length v) (length s) h) (ground arith)
  where
    suc-sub : (a b : ℕ) → b ≤ a → suc a - b ≡ suc (a - b)
    suc-sub a b h = omega arith

str_eq-length_ne : (s v : Str) → (length s ≡ length v → ⊥) → str_eq s v ≡ false
str_eq-length_ne s v h = elim (Bool-cases (str_eq s v)) [
  | inl e ↦ absurd (h (ap length ((str_eq_iff s v).0 e)))
  | inr e ↦ e
]

has_suffix-short : (s v : Str) → length v < length s → has_suffix s v ≡ false
unfolding has_suffix
has_suffix-short s v h = ground arith

has_suffix-exact : (s v : Str) → length s ≡ length v → has_suffix s v ≡ str_eq s v
unfolding has_suffix
has_suffix-exact s v h = rw (sub_self (length v) (length s) h) (ground arith)
  where
    sub_self : (a b : ℕ) → b ≡ a → a - b ≡ 0
    sub_self a b h = omega arith

any_tail-has_suffix : (s v : Str) → any_tail (str_eq s) v ≡ has_suffix s v
unfolding any_tail
any_tail-has_suffix [] [] = sym (has_suffix-exact [] [] refl)
any_tail-has_suffix (d ∷ s) [] =
    ground (arith, has_suffix-short (d ∷ s) [], str_eq-length_ne (d ∷ s) [])
any_tail-has_suffix s (c ∷ v) = ground (
  arith,
  any_tail-has_suffix s v,
  has_suffix-cons s v c,
  has_suffix-short s v,
  has_suffix-short s (c ∷ v),
  has_suffix-exact s (c ∷ v),
  str_eq-length_ne s (c ∷ v),
)

any_tail-any : (v : Str) → any_tail (str_eq []) v ≡ true
unfolding any_tail str_eq
any_tail-any [] = refl
any_tail-any (c ∷ v) = any_tail-any v

match_rest-seg : (s : Str) (ts : List Str) (v : Str) → match_rest s ts v ≡ any_tail (seg s ts) v
unfolding match_rest seg after cut_prefix
match_rest-seg [] [] v = sym (any_tail-any v)
match_rest-seg (c ∷ s) [] v = sym (any_tail-has_suffix (c ∷ s) v)
match_rest-seg [] (t ∷ ts) v = match_rest-seg t ts v ∙ sym (any_tail_idem (seg t ts) v)
match_rest-seg (c ∷ s) (t ∷ ts) v = elim (Option-cases (after_first (c ∷ s) v)) [
  | inl e ↦ simp (first_is_enough (seg t ts) (c ∷ s) v, e, after)
  | inr (r, e) ↦ simp (first_is_enough (seg t ts) (c ∷ s) v, e, after) (match_rest-seg t ts r)
]

match_parts-segs :
    (s t : Str) (ts : List Str) (v : Str) → match_parts (s ∷ t ∷ ts) v ≡ segs (s ∷ t ∷ ts) v
unfolding match_parts segs seg after
match_parts-segs s t ts v = elim (Option-cases (cut_prefix s v)) [
  | inl e ↦ rw (e, match_parts) refl
  | inr (r, e) ↦ rw (e, match_parts) (match_rest-seg t ts r)
]

glob-star : (v : Str) → glob (text "*") v ≡ true
unfolding glob any_tail
glob-star [] = refl
glob-star (c ∷ v) = glob-star v

-- The wildcard match of a pattern and a value, with its search for the first occurrence of each
-- part, answers as the pattern read character by character, where a star stands for any text and
-- every other character for itself.
pub wildcard_match-glob : (pattern value : Str) → wildcard_match pattern value ≡ glob pattern value
unfolding wildcard_match segs seg
wildcard_match-glob p v = elim (Bool-cases (str_eq p (text "*"))) [
  | inl e ↦ rw (e, (str_eq_iff p (text "*")).0 e) (sym (glob-star v))
  | inr n ↦ elim (split-cases p) [
    | inl (h, e) ↦ rw (n, h, glob-segs p v, e) refl
    | inr (h, (s, (t, (ts, e)))) ↦ rw (n, h, glob-segs p v, e) (match_parts-segs s t ts v)
  ]
]
