-- ===== src/Packet/Append.antt =====
-- `Mysql_packet::append` copies what fits, and never past the end of the buffer.
use mysqlpcap.Base.{
  ℕ, zero, suc, ◌+◌, ◌-◌, ◌^◌, ◌≤◌, ◌<◌, ◌≡◌, refl, inl, inr, true, some, [], ◌∷◌, ◌++◌, append-nil,
  Bytes, arith, ==_iff, length, take, min, Bool-cases, ◌==◌, leb, length-append, length-take,
  take-all, drop-all, sym, ap, ◌∙◌,
}
use native.Mathlib.Decide.{dec_le}
use mysqlpcap.Packet.{Packet, memcpy, append_len, append}

-- A packet that is being filled with `bs`.
pub record IsFilled (p : Packet) (bs : Bytes) : Type 0 where
  pub payload_is : p.payload ≡ some bs
  pub cur_len_is : p.cur_len ≡ length bs
  pub within : p.cur_len ≤ p.len

abbrev pub fill : Packet → Bytes → Packet
fill p bs = record p { payload = some bs; cur_len = length bs }

append_len-min :
    (p : Packet) (n : ℕ)
    → p.cur_len ≤ p.len
    → p.len < 2 ^ 32
    → p.cur_len + n < 2 ^ 32
    → append_len p n ≡ min n (p.len - p.cur_len)
unfolding append_len
append_len-min p n h k l = ground arith

memcpy-append :
    (bs src : Bytes) (size : ℕ)
    → length bs + length src ≤ size
    → memcpy (some bs) size (length bs) src ≡ some (some (bs ++ src))
unfolding memcpy
memcpy-append bs src size h = rw (
  le→leb h,
  take-all (length bs) bs (omega arith),
  drop-all (length bs + length src) bs (omega arith),
  append-nil,
)
  where
    le→leb : length bs + length src ≤ size → leb (length bs + length src) size ≡ true
    le→leb h = ground arith

take-min : (m : ℕ) (src : Bytes) → take (min (length src) m) src ≡ take m src
take-min m src = elim (dec_le (length src) m) [
  | yes h ↦
      ap (λ k. take k src) (omega arith)
      ∙ take-all (length src) src (omega arith)
      ∙ sym (take-all m src h)
  | no h ↦ ap (λ k. take k src) (omega arith)
]

take-eq_nil : (m : ℕ) (src : Bytes) → min (length src) m ≡ 0 → take m src ≡ []
take-eq_nil zero src h = refl
take-eq_nil (suc m) [] h = refl
take-eq_nil (suc m) (x ∷ src) h = absurd (omega arith)

fill_same : {p : Packet} {bs : Bytes} → IsFilled p bs → p ≡ fill p bs
fill_same {p} f = λ i. record p { payload = f.payload_is i; cur_len = f.cur_len_is i }

append_room :
    {p : Packet} {bs : Bytes} (src : Bytes)
    → IsFilled p bs
    → memcpy p.payload p.len p.cur_len (take (min (length src) (p.len - p.cur_len)) src)
      ≡ some (some (bs ++ take (p.len - p.cur_len) src))
append_room {p} {bs} src f =
    rw (f.payload_is, f.cur_len_is, take-min)
      (memcpy-append bs _ p.len
        (omega (arith, length-take (p.len - length bs) src, f.within, f.cur_len_is)))

-- Provided that the lengths do not wrap, `append` copies the bytes up to the packet's length behind
-- those it has, says how many are left, and faults on no input.
pub append-fill :
    {p : Packet} {bs : Bytes} (src : Bytes)
    → IsFilled p bs
    → p.len < 2 ^ 32
    → p.cur_len + length src < 2 ^ 32
    → append p src
      ≡ some (fill p (bs ++ take (p.len - p.cur_len) src), length src - (p.len - p.cur_len))
unfolding append
append-fill {p} {bs} src f h k =
    let room = append_len-min p (length src) f.within h k in
    elim (Bool-cases (min (length src) (p.len - p.cur_len) == 0)) [
      | inl nothing ↦
          rw
            (
              room,
              nothing,
              take-eq_nil (p.len - p.cur_len) src ((==_iff _ 0).0 nothing),
              append-nil,
            )
            (let left : length src ≡ length src - (p.len - p.cur_len) = ground arith in
              λ i. some (fill_same f i, left i))
      | inr something ↦
          rw (room, something, append_room src f)
            (λ i. some (
              record p { payload = some (bs ++ take (p.len - p.cur_len) src); cur_len = copied i },
              left i,
            ))
    ]
  where
    left : length src - min (length src) (p.len - p.cur_len) ≡ length src - (p.len - p.cur_len)
    left = omega arith

    copied :
        p.cur_len + min (length src) (p.len - p.cur_len)
        ≡ length (bs ++ take (p.len - p.cur_len) src)
    copied = omega (
      arith,
      f.cur_len_is,
      length-append bs (take (p.len - p.cur_len) src),
      length-take (p.len - p.cur_len) src,
    )
