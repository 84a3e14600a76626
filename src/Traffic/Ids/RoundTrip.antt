-- ===== src/Traffic/Ids/RoundTrip.antt =====
-- Identifiers printed and read back.
use chi_jie.Prelude.{
  ℕ, zero, suc, ◌*◌, ◌/◌, ◌%◌, ◌≤◌, ◌<◌, ◌≡◌, ◌≢◌, refl, ◌∙◌, ap, pos, false, some, [], ◌∷◌, ◌++◌,
  Str, text, arith, Bool-cases, inl, inr, ltb, ◌==◌,
}
use chi_jie.Traffic.Ids.{
  digit, fill, format_id, digit_value, scan, parse_magnitude, parse_int, trim_trace, parse_trace_id,
  int64_limit,
}

-- What so many digits can hold.
room : ℕ → ℕ
room zero = 1
room (suc free) = 36 * room free

digit_value-digit : (d : ℕ) → d < 36 → digit_value (digit d) ≡ some d
unfolding digit_value digit
digit_value-digit d h = ground arith

-- Reading a last digit after what stands before it.
scan_last : (n : ℕ) (s : Str) → scan (digit (n % 36) ∷ s) (n / 36) ≡ scan s n
unfolding scan
scan_last n s = rw (digit_value-digit (n % 36) (omega arith), scan) (ap (scan s) (omega arith))

scan-fill : (free n : ℕ) (s : Str) → n < room free → scan (fill free n s) 0 ≡ scan s n
unfolding fill room
scan-fill zero n s h = ap (scan s) (omega arith)
scan-fill (suc free) n s h = elim (Bool-cases (ltb 0 n)) [
  | inl e ↦ rw e (scan-fill free (n / 36) (digit (n % 36) ∷ s) (omega arith) ∙ scan_last n s)
  | inr e ↦ rw e (ap (scan s) (ground arith))
]

-- A text that does not start with a sign.
abbrev Unsigned : Str → Type 0
Unsigned [] = ⊥
Unsigned (c ∷ s) = (c ≢ b'+') × (c ≢ b'-')

digit-Unsigned : (d : ℕ) (s : Str) → d < 36 → Unsigned (digit d ∷ s)
unfolding digit
digit-Unsigned d s h = ground arith

fill-Unsigned : (free n : ℕ) (s : Str) → Unsigned s → Unsigned (fill free n s)
unfolding fill
fill-Unsigned zero n s h = h
fill-Unsigned (suc free) n s h = elim (Bool-cases (ltb 0 n)) [
  | inl e ↦
      rw e
        (fill-Unsigned free (n / 36) (digit (n % 36) ∷ s) (digit-Unsigned (n % 36) s (omega arith)))
  | inr e ↦ rw e h
]

fill_positive : (free n : ℕ) → 0 < n → Unsigned (fill (suc free) n [])
unfolding fill
fill_positive free n h = ground (
  arith,
  fill-Unsigned free (n / 36) (digit (n % 36) ∷ []) (digit-Unsigned (n % 36) [] (omega arith)),
)

parse-scan :
    (s : Str) (n : ℕ)
    → Unsigned s
    → scan s 0 ≡ some n
    → n < int64_limit
    → parse_int s ≡ some (pos n)
unfolding parse_int parse_magnitude
parse-scan [] n u h k = elim u [ ]
parse-scan (c ∷ s) n u h k = ground arith

zero-format : parse_int (format_id 0) ≡ some (pos 0)
unfolding format_id parse_int parse_magnitude scan digit_value
zero-format = refl

format-fill : (n : ℕ) → 0 < n → format_id n ≡ fill 16 n []
unfolding format_id
format-fill n h = rw (==_ne n h) refl
  where
    ==_ne : (n : ℕ) → 0 < n → (n == 0) ≡ false
    ==_ne n h = ground arith

room_enough : int64_limit ≤ room 16
unfolding room
room_enough = omega arith

scan-fill_all : (n : ℕ) → n < int64_limit → scan (fill 16 n []) 0 ≡ some n
unfolding scan
scan-fill_all n h = scan-fill 16 n [] (omega (arith, room_enough))

parse-format : (n : ℕ) → n < int64_limit → parse_int (format_id n) ≡ some (pos n)
parse-format zero h = zero-format
parse-format (suc n) h = rw (format-fill (suc n) (omega arith)) (
    parse-scan (fill 16 (suc n) []) (suc n) (fill_positive 15 (suc n) (omega arith))
      (scan-fill_all (suc n) h) h)

-- The number of a trace below 2^63 is read back from the identifier that Record gives it.
pub parse_trace_id-format_id :
    (n : ℕ) → n < int64_limit → parse_trace_id (text "trace-" ++ format_id n) ≡ pos n
unfolding parse_trace_id trim_trace
parse_trace_id-format_id n h = rw (parse-format n h, parse_trace_id, trim_trace) refl

-- Different numbers have different identifiers.
pub format_id-inj :
    (m n : ℕ) → m < int64_limit → n < int64_limit → format_id m ≡ format_id n → m ≡ n
format_id-inj m n h k e = ground (arith, parse-format m h, parse-format n k, ap parse_int e)
