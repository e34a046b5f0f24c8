-- ===== src/Wire.antt =====
-- The integer codecs of common.h: `int2store`, `int4store`, `int8store` and the `uintNkorr` macros.
-- A buffer is a byte string; `A[i]` is its i-th byte. The macros join bytes that occupy disjoint
-- bits by `|`, which is the sum written here.
pub mod RoundTrip
use mysqlpcap.Base.{ℕ, ◌+◌, ◌*◌, ◌/◌, ◌%◌, ◌^◌, [], ◌∷◌, ◌++◌, Bytes, drop, get_or}

-- `(uchar) (x >> k)`, with the shift given as a power of two
abbrev pub byte_at : ℕ → ℕ → ℕ
byte_at x k = x / 2 ^ k % 256

-- `(uchar) (A)[i]`
abbrev pub at : Bytes → ℕ → ℕ
at bs i = get_or bs i 0 % 256

-- `uint def_temp = (uint) (A)` cuts the value to 32 bits first
unfoldable pub int2store : ℕ → Bytes
int2store a = let t = a % 2 ^ 32 in byte_at t 0 ∷ byte_at t 8 ∷ []

unfoldable pub int4store : ℕ → Bytes
int4store a = byte_at a 0 ∷ byte_at a 8 ∷ byte_at a 16 ∷ byte_at a 24 ∷ []

unfoldable pub int8store : ℕ → Bytes
unfolding int4store
int8store a = int4store (a % 2 ^ 32) ++ int4store (a / 2 ^ 32 % 2 ^ 32)

unfoldable pub uint2korr : Bytes → ℕ
uint2korr bs = (at bs 0 + at bs 1 * 2 ^ 8) % 2 ^ 16

-- `uint32` is `unsigned long` here, so that the sum is not cut
unfoldable pub uint3korr : Bytes → ℕ
uint3korr bs = at bs 0 + at bs 1 * 2 ^ 8 + at bs 2 * 2 ^ 16

unfoldable pub uint4korr : Bytes → ℕ
uint4korr bs = at bs 0 + at bs 1 * 2 ^ 8 + at bs 2 * 2 ^ 16 + at bs 3 * 2 ^ 24

unfoldable pub uint8korr : Bytes → ℕ
unfolding uint4korr
uint8korr bs = uint4korr bs + uint4korr (drop 4 bs) * 2 ^ 32
