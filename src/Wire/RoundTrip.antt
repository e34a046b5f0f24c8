-- ===== src/Wire/RoundTrip.antt =====
-- Each store of common.h is read back by the `korr` macro of its width, whatever stands behind it.
use mysqlpcap.Base.{ℕ, ◌%◌, ◌^◌, ◌<◌, ◌≡◌, ◌++◌, arith, Bytes, AreBytes}
use mysqlpcap.Wire.{int2store, int4store, int8store, uint2korr, uint4korr, uint8korr}

pub uint2korr-int2store : (a : ℕ) (rest : Bytes) → a < 2 ^ 16 → uint2korr (int2store a ++ rest) ≡ a
unfolding uint2korr int2store
uint2korr-int2store a rest h = omega arith

pub uint4korr-int4store : (a : ℕ) (rest : Bytes) → a < 2 ^ 32 → uint4korr (int4store a ++ rest) ≡ a
unfolding uint4korr int4store
uint4korr-int4store a rest h = omega arith

pub uint8korr-int8store : (a : ℕ) (rest : Bytes) → a < 2 ^ 64 → uint8korr (int8store a ++ rest) ≡ a
unfolding uint8korr int8store
uint8korr-int8store a rest h = omega arith

-- A value that does not fit is cut to the width of the field.
pub int4store-mod : (a : ℕ) → int4store a ≡ int4store (a % 2 ^ 32)
unfolding int4store
int4store-mod a = ground arith

pub int4store-AreBytes : (a : ℕ) → AreBytes (int4store a)
unfolding int4store
int4store-AreBytes a = omega arith

pub int8store-AreBytes : (a : ℕ) → AreBytes (int8store a)
unfolding int8store
int8store-AreBytes a = omega arith
