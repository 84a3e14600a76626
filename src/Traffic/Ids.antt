-- ===== src/Traffic/Ids.antt =====
-- formatID and parseTraceID of internal/traffic/store.go, with strconv.ParseInt in base 36.
pub mod RoundTrip
use chi_jie.Prelude.{
  ℕ, zero, suc, ◌+◌, ◌-◌, ◌*◌, ◌/◌, ◌%◌, ℤ, pos, negsuc, Bool, true, false, ◌&&◌, Option, none,
  some, [], ◌∷◌, ◌++◌, if◌then◌else◌, ltb, leb, ◌==◌, Str, text, is_nil, cut_prefix,
}

-- digits[d]
unfoldable pub digit : ℕ → ℕ
digit d = if ltb d 10 then b'0' + d else b'a' + (d - 10)

-- The loop over the buffer, filled from its end; the fuel is the number of free bytes.
unfoldable pub fill : ℕ → ℕ → Str → Str
unfolding digit
fill zero value buf = buf
fill (suc free) value buf =
    let more = fill free (value / 36) (digit (value % 36) ∷ buf) in
    if ltb 0 value then more else buf

unfoldable pub format_id : ℕ → Str
unfolding fill
format_id value = if value == 0 then text "0" else fill 16 value []

unfoldable pub digit_value : ℕ → Option ℕ
digit_value c =
    if leb b'0' c && leb c b'9'
    then some (c - b'0')
    else if leb b'a' c && leb c b'z'
    then some (c - b'a' + 10)
    else if leb b'A' c && leb c b'Z'
    then some (c - b'A' + 10)
    else none

unfoldable pub scan : Str → ℕ → Option ℕ
unfolding digit_value
scan [] value = some value
scan (c ∷ s) value = elim (digit_value c) [ none ↦ none | some d ↦ scan s (value * 36 + d) ]

abbrev pub int64_limit : ℕ
int64_limit = 0x8000000000000000

-- The number after its sign: a result out of range is an error.
unfoldable pub parse_magnitude : Bool → Str → Option ℤ
unfolding scan
parse_magnitude negative s = if is_nil s then none else elim (scan s 0) [
  | none ↦ none
  | some n ↦
      if negative
      then (if n == 0
          then some (pos 0)
          else if leb n int64_limit
          then some (negsuc (n - 1))
          else none)
      else if ltb n int64_limit
      then some (pos n)
      else none
]

-- strconv.ParseInt(s, 36, 64)
unfoldable pub parse_int : Str → Option ℤ
unfolding parse_magnitude
parse_int [] = none
parse_int (c ∷ s) =
    if c == b'+'
    then parse_magnitude false s
    else if c == b'-'
    then parse_magnitude true s
    else parse_magnitude false (c ∷ s)

unfoldable pub trim_trace : Str → Str
unfolding cut_prefix
trim_trace value = elim (cut_prefix (text "trace-") value) [ none ↦ value | some rest ↦ rest ]

unfoldable pub parse_trace_id : Str → ℤ
unfolding parse_int trim_trace
parse_trace_id value = elim (parse_int (trim_trace value)) [ none ↦ pos 0 | some n ↦ n ]
