-- ===== src/Guard/Ranges.antt =====
-- The blocked addresses of four bytes, as ranges of 32-bit numbers.
use chi_jie.Prelude.{
  ℕ, ◌+◌, ◌*◌, ◌<◌, ◌≡◌, sym, ◌∙◌, Bool, true, false, ◌/◌, ◌==◌, ◌&&◌, ◌||◌, some, List, [], ◌∷◌,
  if◌then◌else◌, leb, any, arith,
}
use chi_jie.Guard.{v4, is_blocked_ip}

abbrev pub address : ℕ → ℕ → ℕ → ℕ → ℕ
address a b c d = 16777216 * a + 65536 * b + 256 * c + d

abbrev pub within : ℕ → ℕ × ℕ → Bool
within n (low, high) = leb low n && leb n high

-- 0/8, 10/8, 100.64/10, 127/8, 169.254/16, 172.16/12, 192.168/16, and all from 224 on.
abbrev pub blocks : List (ℕ × ℕ)
blocks =
    (0, 16777215)
    ∷ (167772160, 184549375)
    ∷ (1681915904, 1686110207)
    ∷ (2130706432, 2147483647)
    ∷ (2851995648, 2852061183)
    ∷ (2886729728, 2887778303)
    ∷ (3232235520, 3232301055)
    ∷ (3758096384, 4294967295)
    ∷ []

any_ors :
    (p q r s t u v w : Bool)
    → (if p
        then true
        else if q
        then true
        else if r
        then true
        else if s
        then true
        else if t
        then true
        else if u
        then true
        else if v
        then true
        else if w
        then true
        else false)
      ≡ (p || (q || (r || (s || (t || (u || (v || w)))))))
any_ors p q r s t u v w = ground arith

-- The tests of the code in its order, of which two are part of others, and those of the ranges.
tests_joined :
    (lo z u l e y m p h r s hi top : Bool)
    → (m || hi) ≡ top
    → (e && top) ≡ e
    → (if lo || ((z && u) || (l || ((e && y) || (false || (m || (p || (h || r)))))))
        then true
        else s || (z || hi))
      ≡ (z || (p || (s || (lo || (l || (h || (r || top)))))))
tests_joined true z u l e y m p h r s hi top k i = ground arith
tests_joined false true u l e y m p h r s hi top k i = ground arith
tests_joined false false u true e y m p h r s hi top k i = ground arith
tests_joined false false u false e y m true h r s hi top k i = ground arith
tests_joined false false u false e y m false true r s hi top k i = ground arith
tests_joined false false u false e y m false false true s hi top k i = ground arith
tests_joined false false u false e y m false false false true hi top k i = ground arith
tests_joined false false u false e y m false false false false hi top k i = ground arith

module _ (a b c d : ℕ) (ha : a < 256) (hb : b < 256) (hc : c < 256) (hd : d < 256) where
  abbrev n : ℕ
  n = address a b c d

  one_byte : (k : ℕ) → (leb (16777216 * k) n && leb n (16777216 * k + 16777215)) ≡ (a == k)
  one_byte k = ground arith

  two_bytes :
      (j k : ℕ)
      → k < 256
      → (leb (16777216 * j + 65536 * k) n && leb n (16777216 * j + 65536 * k + 65535))
        ≡ ((a == j) && (b == k))
  two_bytes j k h = ground arith

  shared : within n (1681915904, 1686110207) ≡ ((a == 100) && (b / 64 == 1))
  shared = ground arith

  home : within n (2886729728, 2887778303) ≡ ((a == 172) && (b / 16 == 1))
  home = ground arith

  top : within n (3758096384, 4294967295) ≡ leb 224 a
  top = ground arith

  classes : ((a / 16 == 14) || leb 240 a) ≡ leb 224 a
  classes = ground arith

  -- The ranges by the bytes.
  abbrev by_bytes : Bool
  by_bytes =
      (a == 0)
      || ((a == 10)
          || (((a == 100) && (b / 64 == 1))
              || ((a == 127)
                  || (((a == 169) && (b == 254))
                      || (((a == 172) && (b / 16 == 1))
                          || (((a == 192) && (b == 168)) || leb 224 a))))))

  ranges_by_bytes : any (within n) blocks ≡ by_bytes
  ranges_by_bytes =
      rw
        (
          one_byte 0,
          one_byte 10,
          shared,
          one_byte 127,
          two_bytes 169 254 (omega arith),
          home,
          two_bytes 192 168 (omega arith),
          top,
        )
        (any_ors (a == 0) (a == 10) ((a == 100) && (b / 64 == 1)) (a == 127)
          ((a == 169) && (b == 254)) ((a == 172) && (b / 16 == 1)) ((a == 192) && (b == 168))
          (leb 224 a))

  first_224 : ((a == 224) && leb 224 a) ≡ (a == 224)
  first_224 = ground arith

  blocked_by_bytes : is_blocked_ip (some (v4 a b c d)) ≡ by_bytes
  unfolding is_blocked_ip
  blocked_by_bytes =
      tests_joined (a == 127) (a == 0) ((b == 0) && ((c == 0) && (d == 0)))
        ((a == 169) && (b == 254)) (a == 224) ((b == 0) && (c == 0)) (a / 16 == 14) (a == 10)
        ((a == 172) && (b / 16 == 1)) ((a == 192) && (b == 168)) ((a == 100) && (b / 64 == 1))
        (leb 240 a) (leb 224 a) classes first_224

-- For four bytes, the address is blocked exactly where its 32-bit number lies in one of the ranges
-- 0/8, 10/8, 100.64/10, 127/8, 169.254/16, 172.16/12, 192.168/16, or from 224.0.0.0 on.
pub blocked_ranges :
    (a b c d : ℕ)
    → a < 256
    → b < 256
    → c < 256
    → d < 256
    → is_blocked_ip (some (v4 a b c d)) ≡ any (within (address a b c d)) blocks
blocked_ranges a b c d ha hb hc hd =
    blocked_by_bytes a b c d ha hb hc hd ∙ sym (ranges_by_bytes a b c d ha hb hc hd)
