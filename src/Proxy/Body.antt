-- ===== src/Proxy/Body.antt =====
-- readProxyResponseBody of internal/server/server.go. A body is what its reader yields: some bytes,
-- and then the end or an error.
use native.Mathlib.Nat.{mod-eq_of_lt}
use chi_jie.Prelude.{
  ℕ, ◌+◌, ◌≤◌, ◌<◌, ◌≡◌, Bool, true, false, Option, none, some, List, [], if◌then◌else◌, ltb,
  length, take, ℤ, pos, int_lt, int64, is_not_positive, magnitude, arith, Bool-cases, inl, inr,
  length-take,
}

pub record Body : Type 0 where
  pub bytes : List ℕ
  pub fails : Bool

pub record Response : Type 0 where
  pub content_length : ℤ
  pub body : Option Body

-- The returns: a body, errProxyResponseTooLarge, an error of the reader.
pub data ReadResult : Type 0 where
  whole : List ℕ → ReadResult
  too_large read_failed : ReadResult

-- io.ReadAll
unfoldable pub read_all : Body → ReadResult
read_all b = if b.fails then read_failed else whole b.bytes

-- io.ReadAll over io.LimitReader, which yields no bytes for a limit that is not positive: the
-- reader's error is met only if the limit lets it be read.
unfoldable pub read_limited : Body → ℤ → ReadResult
unfolding read_all
read_limited b n =
    if is_not_positive n
    then whole []
    else if ltb (length b.bytes) (magnitude n)
    then read_all b
    else whole (take (magnitude n) b.bytes)

unfoldable pub check_length : ℕ → ReadResult → ReadResult
check_length limit (whole bytes) = if ltb limit (length bytes) then too_large else whole bytes
check_length limit too_large = too_large
check_length limit read_failed = read_failed

-- readProxyResponseBody; no response and no body yield no bytes.
unfoldable pub read_proxy_response_body : Option Response → ℤ → ReadResult
unfolding read_all read_limited check_length
read_proxy_response_body none limit = whole []
read_proxy_response_body (some r) limit = elim r.body [
  | none ↦ whole []
  | some b ↦
      if is_not_positive limit
      then read_all b
      else if int_lt limit r.content_length
      then too_large
      else check_length (magnitude limit) (read_limited b (int64 (magnitude limit + 1)))
]

whole_injective : (xs ys : List ℕ) → whole xs ≡ whole ys → xs ≡ ys
whole_injective xs ys e = cc e

-- Below the greatest limit, a limit and one more do not wrap around.
int64_small :
    (limit : ℕ) → ltb limit 9223372036854775807 ≡ true → int64 (limit + 1) ≡ pos (limit + 1)
int64_small limit h = rw (mod-eq_of_lt (below limit h)) (ground arith)
  where
    below : (n : ℕ) → ltb n 9223372036854775807 ≡ true → n + 1 < 18446744073709551616
    below n k = ground arith

limited_whole :
    (b : Body) (limit : ℕ) (bytes : List ℕ)
    → check_length limit (read_limited b (pos (limit + 1))) ≡ whole bytes
    → (bytes ≡ b.bytes) × ((length bytes ≤ limit) × (b.fails ≡ false))
unfolding check_length read_limited read_all
limited_whole b limit bytes h = elim (Bool-cases (ltb (length b.bytes) (limit + 1))) [
  | inl small ↦ ground arith
  | inr large ↦ absurd (ground (arith, length-take (limit + 1) b.bytes))
]

-- Under a positive limit below the greatest 64-bit integer, a response body that is returned is
-- all that the reader yields, is no longer than the limit, and was read without an error.
pub read_proxy_response_body-whole :
    (content_length : ℤ) (b : Body) (limit : ℤ) (bytes : List ℕ)
    → is_not_positive limit ≡ false
    → ltb (magnitude limit) 9223372036854775807 ≡ true
    → read_proxy_response_body
        (some (record { content_length = content_length; body = some b }))
        limit
      ≡ whole bytes
    → (bytes ≡ b.bytes) × ((length bytes ≤ magnitude limit) × (b.fails ≡ false))
unfolding read_proxy_response_body
read_proxy_response_body-whole content_length b limit bytes h small k =
    limited_whole b (magnitude limit) bytes (ground (arith, int64_small (magnitude limit) small))

-- Under a positive limit below the greatest 64-bit integer, a body that the reader yields without
-- an error, that is no longer than the limit and whose declared length is not above it, is returned
-- whole.
pub read_proxy_response_body-fits :
    (content_length : ℤ) (b : Body) (limit : ℤ)
    → is_not_positive limit ≡ false
    → ltb (magnitude limit) 9223372036854775807 ≡ true
    → int_lt limit content_length ≡ false
    → length b.bytes ≤ magnitude limit
    → b.fails ≡ false
    → read_proxy_response_body
        (some (record { content_length = content_length; body = some b }))
        limit
      ≡ whole b.bytes
unfolding read_proxy_response_body check_length read_limited read_all
read_proxy_response_body-fits content_length b limit h small k short good =
    ground (arith, int64_small (magnitude limit) small)
