-- ===== src/Traffic/Wildcard/Globs.antt =====
-- What a wildcard pattern means, read character by character, and the parts of a pattern.
use chi_jie.Prelude.{
  ℕ, zero, suc, ◌≡◌, refl, inl, inr, Bool, true, false, ◌&&◌, ◌||◌, none, some, List, [], ◌∷◌,
  if◌then◌else◌, length, ◌==◌, Str, str_eq, is_nil, cut_prefix, after_first, drop, arith,
  Bool-cases, Option-cases, Option,
}
use chi_jie.Traffic.Wildcard.{star}

-- Some tail of the text passes, the text itself and the empty one included.
unfoldable pub any_tail : (Str → Bool) → Str → Bool
any_tail f [] = f []
any_tail f (c ∷ s) = f (c ∷ s) || any_tail f s

unfoldable pub glob_char : ℕ → (Str → Bool) → Str → Bool
glob_char p rest [] = false
glob_char p rest (c ∷ v) = (p == c) && rest v

-- A star stands for any text, every other character for itself.
unfoldable pub glob : Str → Str → Bool
unfolding any_tail glob_char
glob [] v = is_nil v
glob (p ∷ ps) v = let rest = glob ps in if p == star then any_tail rest v else glob_char p rest v

unfoldable pub after : Option Str → (Str → Bool) → Bool
after none f = false
after (some rest) f = f rest

-- A pattern by its parts, each part but the first at any later place.
unfoldable pub seg : Str → List Str → Str → Bool
unfolding after any_tail
seg s [] v = str_eq s v
seg s (t ∷ ts) v = after (cut_prefix s v) (any_tail (seg t ts))

unfoldable pub segs : List Str → Str → Bool
unfolding seg
segs [] v = false
segs (s ∷ ts) v = seg s ts v

any_tail-lengthen :
    (f : Str → Bool) (c : ℕ) (v : Str) (n : ℕ)
    → any_tail f (drop n v) ≡ true
    → any_tail f (drop n (c ∷ v)) ≡ true
unfolding any_tail
any_tail-lengthen f c v zero h = ground arith
any_tail-lengthen f c [] (suc zero) h = h
any_tail-lengthen f c [] (suc (suc n)) h = h
any_tail-lengthen f c (d ∷ v) (suc n) h = any_tail-lengthen f d v n h

pub any_tail_idem : (f : Str → Bool) (v : Str) → any_tail (any_tail f) v ≡ any_tail f v
unfolding any_tail
any_tail_idem f [] = refl
any_tail_idem f (c ∷ v) = ground (arith, any_tail_idem f v)

cut_prefix-drop : (t v r : Str) → cut_prefix t v ≡ some r → drop (length t) v ≡ r
unfolding cut_prefix
cut_prefix-drop [] v r h = ground arith
cut_prefix-drop (c ∷ t) [] r h = ground arith
cut_prefix-drop (c ∷ t) (d ∷ v) r h = ground (arith, cut_prefix-drop t v r)

after-drop :
    (f : Str → Bool) (t v : Str) → after (cut_prefix t v) f ≡ true → f (drop (length t) v) ≡ true
unfolding after
after-drop f t v h = elim (Option-cases (cut_prefix t v)) [
  | inl e ↦ absurd (ground arith)
  | inr (r, e) ↦ rw (cut_prefix-drop t v r e) (ground arith)
]

-- Wherever a part is found, what follows it is a tail of what follows its first possible place.
later-after :
    (f : Str → Bool) (t v : Str)
    → any_tail (λ w. after (cut_prefix t w) (any_tail f)) v ≡ true
    → any_tail f (drop (length t) v) ≡ true
unfolding any_tail
later-after f t [] h = after-drop (any_tail f) t [] h
later-after f t (c ∷ v) h = elim (Bool-cases (after (cut_prefix t (c ∷ v)) (any_tail f))) [
  | inl e ↦ after-drop (any_tail f) t (c ∷ v) e
  | inr e ↦ any_tail-lengthen f c v (length t) (later-after f t v (ground arith))
]

after_first-skip :
    (t : Str) (c : ℕ) (v : Str)
    → cut_prefix t (c ∷ v) ≡ none
    → after_first t (c ∷ v) ≡ after_first t v
unfolding after_first
after_first-skip t c v e = ground arith

after_first-here :
    (t : Str) (c : ℕ) (v r : Str) → cut_prefix t (c ∷ v) ≡ some r → after_first t (c ∷ v) ≡ some r
unfolding after_first
after_first-here t c v r e = ground arith

or_absorb : (a b : Bool) → (b ≡ true → a ≡ true) → a || b ≡ a
or_absorb true b h = refl
or_absorb false b h = ground arith

-- The first occurrence of a part is as good as any.
pub first_is_enough :
    (f : Str → Bool) (t v : Str)
    → any_tail (λ w. after (cut_prefix t w) (any_tail f)) v ≡ after (after_first t v) (any_tail f)
unfolding any_tail after_first after
first_is_enough f t [] = refl
first_is_enough f t (c ∷ v) = elim (Option-cases (cut_prefix t (c ∷ v))) [
  | inl e ↦ rw (after_first-skip t c v e) (rw e (first_is_enough f t v))
  | inr (r, e) ↦ rw (after_first-here t c v r e) (
      rw e (
        or_absorb (any_tail f r) _ (λ l.
          rw (cut_prefix-drop t (c ∷ v) r e) at
            (any_tail-lengthen f c v (length t) (later-after f t v l)))))
]
