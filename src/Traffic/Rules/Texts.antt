-- ===== src/Traffic/Rules/Texts.antt =====
-- Texts without spaces around them, under the changes that a rule's texts undergo.
use chi_jie.Prelude.{
  ℕ, ◌≡◌, refl, ap, sym, ◌∙◌, false, [], ◌∷◌, ◌++◌, map, reverse, Str, arith, Bool-cases, inl, inr,
  All, All-append, is_space, trim_left, trim_space, lower_rune, to_lower, has_prefix, ◌==◌,
}
use mathlib.Core.List.{reverse-append, reverse-reverse}
use chi_jie.Traffic.Rules.{clean_path_pattern}

-- The text starts with no space.
abbrev pub StartsClean : Str → Type 0
StartsClean [] = Unit
StartsClean (c ∷ s) = is_space c ≡ false

trim_left-StartsClean : (s : Str) → StartsClean (trim_left s)
unfolding trim_left
trim_left-StartsClean [] = tt
trim_left-StartsClean (c ∷ s) = elim (Bool-cases (is_space c)) [
  | inl e ↦ rw e (trim_left-StartsClean s)
  | inr e ↦ rw e e
]

trim_left-eq : (s : Str) → StartsClean s → trim_left s ≡ s
unfolding trim_left
trim_left-eq [] h = refl
trim_left-eq (c ∷ s) h = rw h refl

trim_left-append :
    (s : Str) (c : ℕ) → is_space c ≡ false → trim_left (s ++ c ∷ []) ≡ trim_left s ++ c ∷ []
unfolding trim_left
trim_left-append [] c h = rw h refl
trim_left-append (d ∷ s) c h = ground (arith, trim_left-append s c h)

reverse-cons : (c : ℕ) (s : Str) → reverse (c ∷ s) ≡ reverse s ++ c ∷ []
reverse-cons c s = reverse-append (c ∷ []) s

-- Trimming a text that starts with a rune that is no space.
trim_space-cons :
    (c : ℕ) (s : Str)
    → is_space c ≡ false
    → trim_space (c ∷ s) ≡ c ∷ reverse (trim_left (reverse s))
unfolding trim_space
trim_space-cons c s h =
    ap (λ w. reverse (trim_left (reverse w))) (trim_left-eq (c ∷ s) h)
    ∙ (ap (λ w. reverse (trim_left w)) (reverse-cons c s)
        ∙ (ap reverse (trim_left-append (reverse s) c h)
            ∙ reverse-append (trim_left (reverse s)) (c ∷ [])))

trim_space-left : (s : Str) → trim_space s ≡ trim_space (trim_left s)
unfolding trim_space
trim_space-left s =
    ap (λ w. reverse (trim_left (reverse w)))
      (sym (trim_left-eq (trim_left s) (trim_left-StartsClean s)))

trim_nil : trim_space [] ≡ []
unfolding trim_space trim_left
trim_nil = refl

trim_space_clean : (s : Str) → StartsClean s → trim_space (trim_space s) ≡ trim_space s
trim_space_clean [] h = ap trim_space trim_nil
trim_space_clean (c ∷ s) h =
    rw
      (
        trim_space-cons c s h,
        trim_space-cons c (reverse (trim_left (reverse s))) h,
        reverse-reverse (trim_left (reverse s)),
        trim_left-eq (trim_left (reverse s)) (trim_left-StartsClean (reverse s)),
      )
      refl

pub trim_space_idem : (s : Str) → trim_space (trim_space s) ≡ trim_space s
trim_space_idem s =
    rw (trim_space-left s) (trim_space_clean (trim_left s) (trim_left-StartsClean s))

is_space-lower : (c : ℕ) → is_space (lower_rune c) ≡ is_space c
unfolding is_space lower_rune
is_space-lower c = ground arith

lower_rune_idem : (c : ℕ) → lower_rune (lower_rune c) ≡ lower_rune c
unfolding lower_rune
lower_rune_idem c = ground arith

pub to_lower_idem : (s : Str) → to_lower (to_lower s) ≡ to_lower s
unfolding to_lower
to_lower_idem [] = refl
to_lower_idem (c ∷ s) = rw (lower_rune_idem c, to_lower_idem s) refl

trim_left-lower : (s : Str) → trim_left (to_lower s) ≡ to_lower (trim_left s)
unfolding trim_left to_lower
trim_left-lower [] = refl
trim_left-lower (c ∷ s) = elim (Bool-cases (is_space c)) [
  | inl e ↦ rw (is_space-lower c, e) (trim_left-lower s)
  | inr e ↦ rw (is_space-lower c, e) refl
]

reverse-lower : (s : Str) → reverse (to_lower s) ≡ to_lower (reverse s)
unfolding to_lower
reverse-lower [] = refl
reverse-lower (c ∷ s) =
    rw (reverse-cons (lower_rune c) (to_lower s), reverse-cons c s, reverse-lower s)
      (sym (lower-append (reverse s) c))
  where
    lower-append :
        (s : Str) (c : ℕ) → map lower_rune (s ++ c ∷ []) ≡ map lower_rune s ++ lower_rune c ∷ []
    lower-append [] c = refl
    lower-append (d ∷ s) c = ap (λ w. lower_rune d ∷ w) (lower-append s c)

pub trim_space-lower : (s : Str) → trim_space (to_lower s) ≡ to_lower (trim_space s)
unfolding trim_space
trim_space-lower s =
    rw
      (
        trim_left-lower s,
        reverse-lower (trim_left s),
        trim_left-lower (reverse (trim_left s)),
        reverse-lower (trim_left (reverse (trim_left s))),
      )
      refl

-- A text with no space in it.
abbrev pub HasNoSpace : Str → Type 0
HasNoSpace = All (λ c. is_space c ≡ false)

pub reverse-HasNoSpace : (s : Str) → HasNoSpace s → HasNoSpace (reverse s)
reverse-HasNoSpace [] h = tt
reverse-HasNoSpace (c ∷ s) h =
    rw (reverse-cons c s) (
      All-append (λ c. is_space c ≡ false) (reverse s) (c ∷ []) (reverse-HasNoSpace s h.1)
        (h.0, tt))

pub trim_space-eq : (s : Str) → HasNoSpace s → trim_space s ≡ s
trim_space-eq [] h = trim_nil
trim_space-eq (c ∷ s) h =
    rw
      (
        trim_space-cons c s h.0,
        trim_left-eq (reverse s) (starts (reverse s) (reverse-HasNoSpace s h.1)),
        reverse-reverse s,
      )
      refl
  where
    starts : (s : Str) → HasNoSpace s → StartsClean s
    starts [] h = tt
    starts (c ∷ s) h = h.0

trim_space_end : (s : Str) → trim_left (reverse (trim_space s)) ≡ reverse (trim_space s)
unfolding trim_space
trim_space_end s =
    rw (reverse-reverse (trim_left (reverse (trim_left s))))
      (trim_left-eq _ (trim_left-StartsClean (reverse (trim_left s))))

clean_path_trimmed :
    (t : Str)
    → trim_space t ≡ t
    → trim_left (reverse t) ≡ reverse t
    → clean_path_pattern (trim_space (clean_path_pattern t)) ≡ clean_path_pattern t
unfolding clean_path_pattern has_prefix is_space
clean_path_trimmed [] h k = rw trim_nil refl
clean_path_trimmed (c ∷ s) h k = elim (Bool-cases (b'/' == c)) [
  | inl e ↦ rw e (rw h (rw e refl))
  | inr e ↦ rw e (rw (trim_space-cons b'/' (c ∷ s) refl, k, reverse-reverse (c ∷ s)) refl)
]

pub clean_path_idem :
    (s : Str)
    → clean_path_pattern (trim_space (clean_path_pattern (trim_space s)))
      ≡ clean_path_pattern (trim_space s)
clean_path_idem s = clean_path_trimmed (trim_space s) (trim_space_idem s) (trim_space_end s)
