-- ===== src/Traffic/Rules/Names.antt =====
-- The names that defaultRuleName makes.
use chi_jie.Prelude.{
  ℕ, zero, suc, ◌≡◌, refl, false, some, [], ◌∷◌, map, length, Str, text, arith, Bool-cases,
  Option-cases, inl, inr, is_nil, if◌then◌else◌, All-append, All-map, subst, is_space, trim_space,
  trim_char, drop_left, contains, replace_rounds, replace_all, cut_prefix, ◌==◌, join,
}
use chi_jie.Traffic.Types.{UrlNormalizationMatch}
use chi_jie.Traffic.Rules.{name_rune, name_parts, squeeze, default_rule_name, named}
use chi_jie.Traffic.Rules.Texts.{HasNoSpace, reverse-HasNoSpace, trim_space-eq, trim_space_idem}

name_rune-clean : (c : ℕ) → is_space (name_rune c) ≡ false
unfolding is_space name_rune
name_rune-clean c = ground arith

drop_left-HasNoSpace : (c : ℕ) (s : Str) → HasNoSpace s → HasNoSpace (drop_left c s)
unfolding drop_left
drop_left-HasNoSpace c [] h = tt
drop_left-HasNoSpace c (d ∷ s) h = elim (Bool-cases (d == c)) [
  | inl e ↦ rw e (drop_left-HasNoSpace c s h.1)
  | inr e ↦ rw e h
]

trim_char-HasNoSpace : (c : ℕ) (s : Str) → HasNoSpace s → HasNoSpace (trim_char c s)
unfolding trim_char
trim_char-HasNoSpace c s h =
    reverse-HasNoSpace _
      (drop_left-HasNoSpace c _ (reverse-HasNoSpace _ (drop_left-HasNoSpace c s h)))

cut_prefix-HasNoSpace : (p s r : Str) → cut_prefix p s ≡ some r → HasNoSpace s → HasNoSpace r
unfolding cut_prefix
cut_prefix-HasNoSpace [] s r e h = subst_some s r e h
  where
    subst_some : (s r : Str) → some s ≡ some r → HasNoSpace s → HasNoSpace r
    subst_some s r e h = subst HasNoSpace (ground arith) h
cut_prefix-HasNoSpace (c ∷ p) [] r e h = absurd (ground arith)
cut_prefix-HasNoSpace (c ∷ p) (d ∷ s) r e h = elim (Bool-cases (c == d)) [
  | inl k ↦ cut_prefix-HasNoSpace p s r (rw k at e) h.1
  | inr k ↦ absurd (ground arith)
]

replace-HasNoSpace :
    (f : ℕ) (old new s : Str)
    → HasNoSpace new
    → HasNoSpace s
    → HasNoSpace (replace_rounds f old new s)
unfolding replace_rounds
replace-HasNoSpace zero old new s n h = h
replace-HasNoSpace (suc f) old new [] n h = h
replace-HasNoSpace (suc f) old new (c ∷ s) n h = elim (Option-cases (cut_prefix old (c ∷ s))) [
  | inl e ↦ rw (e, replace_rounds) (h.0, replace-HasNoSpace f old new s n h.1)
  | inr (r, e) ↦
      rw (e, replace_rounds)
        (All-append (λ c. is_space c ≡ false) new _ n
          (replace-HasNoSpace f old new r n (cut_prefix-HasNoSpace old (c ∷ s) r e h)))
]

squeeze-HasNoSpace : (f : ℕ) (s : Str) → HasNoSpace s → HasNoSpace (squeeze f s)
unfolding squeeze replace_all is_space
squeeze-HasNoSpace zero s h = h
squeeze-HasNoSpace (suc f) s h = elim (Bool-cases (contains s (text "--"))) [
  | inl e ↦
      rw e (
        squeeze-HasNoSpace f _
          (replace-HasNoSpace (length s) (text "--") (text "-") s (refl, tt) h))
  | inr e ↦ rw e h
]

default_rule_name-HasNoSpace : (m : UrlNormalizationMatch) → HasNoSpace (default_rule_name m)
unfolding default_rule_name is_space
default_rule_name-HasNoSpace m =
    let name = trim_char b'-' (map name_rune (join (text "-") (name_parts m))) in
    or_fallback (squeeze (length name) name) (
      squeeze-HasNoSpace (length name) name (
        trim_char-HasNoSpace b'-' _ (
          All-map (λ c. is_space c ≡ false) name_rune (join (text "-") (name_parts m))
            name_rune-clean)))
  where
    fallback : HasNoSpace (text "url-rule")
    fallback = (refl, (refl, (refl, (refl, (refl, (refl, (refl, (refl, tt))))))))

    or_fallback : (s : Str) → HasNoSpace s → HasNoSpace (if is_nil s then text "url-rule" else s)
    or_fallback [] h = fallback
    or_fallback (c ∷ s) h = h

-- A name that a rule was given is kept when it is read again.
pub named_idem : (name : Str) (m : UrlNormalizationMatch) → named (named name m) m ≡ named name m
unfolding named
named_idem name m = elim (Bool-cases (is_nil (trim_space name))) [
  | inl e ↦ rw e (
      rw (trim_space-eq (default_rule_name m) (default_rule_name-HasNoSpace m))
        (same (default_rule_name m)))
  | inr e ↦ rw e (rw (trim_space_idem name, e) refl)
]
  where
    same : (s : Str) → (if is_nil s then s else s) ≡ s
    same [] = refl
    same (c ∷ s) = refl
