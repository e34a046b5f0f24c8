-- ===== src/Packet/Captured.antt =====
-- Packets of a capture, and data that come to a packet in two parts.
use mysqlpcap.Base.{
  ◌+◌, ◌-◌, ◌^◌, ◌≤◌, ◌<◌, ◌≡◌, ◌∙◌, sym, ap, refl, some, ◌++◌, append_assoc, Bytes, arith, length,
  length-append, length-take, take, take-all, take-append_ge, take-append_le,
}
use mysqlpcap.Base.Maybe.{Gives}
use mysqlpcap.Packet.{Packet, append}
use mysqlpcap.Packet.Append.{IsFilled, fill, append-fill}
use mysqlpcap.Packet.Bounds.{IsBounded}

-- The length has three bytes, and the buffer holds what was received.
pub record IsCaptured (p : Packet) : Type 0 where
  pub bytes : Bytes
  pub payload_is : p.payload ≡ some bytes
  pub cur_len_is : p.cur_len ≡ length bytes
  pub within : p.cur_len ≤ p.len
  pub narrow : p.len < 2 ^ 24

pub captured-IsFilled : {p : Packet} (g : IsCaptured p) → IsFilled p g.bytes
captured-IsFilled g = record {
  payload_is = g.payload_is;
  cur_len_is = g.cur_len_is;
  within = g.within;
}

pub filled-IsCaptured : {p : Packet} {bs : Bytes} → IsFilled p bs → p.len < 2 ^ 24 → IsCaptured p
filled-IsCaptured {bs} f h = record {
  bytes = bs;
  payload_is = f.payload_is;
  cur_len_is = f.cur_len_is;
  within = f.within;
  narrow = h;
}

pub captured-IsBounded : {p : Packet} → IsCaptured p → IsBounded p
captured-IsBounded g = record {
  within = g.within;
  narrow = omega (arith, g.narrow);
  inside = rw g.payload_is (omega (arith, g.cur_len_is, g.within));
}

pub append-filled :
    {p : Packet} {bs : Bytes} (src : Bytes)
    → IsFilled p bs
    → p.len < 2 ^ 24
    → length src < 2 ^ 31
    → append p src
      ≡ some (fill p (bs ++ take (p.len - p.cur_len) src), length src - (p.len - p.cur_len))
append-filled src f h k = append-fill src f (omega arith) (omega (arith, f.within))

pub fill-IsFilled : (p : Packet) (bs : Bytes) → length bs ≤ p.len → IsFilled (fill p bs) bs
fill-IsFilled p bs h = record { payload_is = refl; cur_len_is = refl; within = h }

pub append-IsCaptured :
    (p : Packet) (src : Bytes)
    → IsCaptured p
    → length src < 2 ^ 31
    → Gives (λ r. IsCaptured r.0) (append p src)
append-IsCaptured p src g h = rw (append-filled src (captured-IsFilled g) g.narrow h) (
    filled-IsCaptured
      (fill-IsFilled p (g.bytes ++ take (p.len - p.cur_len) src) (
        omega (
          arith,
          g.cur_len_is,
          g.within,
          length-append g.bytes (take (p.len - p.cur_len) src),
          length-take (p.len - p.cur_len) src,
        )))
      g.narrow)

-- Data that do not fill the packet are taken whole, and it takes what comes behind them as if all had
-- come at once.
pub append_part :
    {p : Packet} {bs : Bytes} (xs cs : Bytes)
    → IsFilled p bs
    → p.len < 2 ^ 24
    → length xs + length cs < 2 ^ 31
    → length xs < p.len - p.cur_len
    → (append p xs ≡ some (fill p (bs ++ xs), 0))
      × (append p (xs ++ cs) ≡ append (fill p (bs ++ xs)) cs)
append_part {p} {bs} xs cs f h k room = (
  append-filled xs f h (omega arith) ∙ λ i. some (fill p (bs ++ whole i), nothing i),
  append-filled (xs ++ cs) f h (omega (arith, length-append xs cs))
      ∙ (λ i. some (fill p (text i), left i))
      ∙ sym (
          append-filled cs
            (fill-IsFilled p (bs ++ xs)
              (omega (arith, f.cur_len_is, f.within, length-append bs xs)))
            h (omega arith)),
)
  where
    whole : take (p.len - p.cur_len) xs ≡ xs
    whole = take-all (p.len - p.cur_len) xs (omega arith)

    nothing : length xs - (p.len - p.cur_len) ≡ 0
    nothing = omega arith

    text :
        bs ++ take (p.len - p.cur_len) (xs ++ cs)
        ≡ (bs ++ xs) ++ take (p.len - length (bs ++ xs)) cs
    text =
        ap (◌++◌ bs) (take-append_ge (p.len - p.cur_len) xs cs (omega arith))
        ∙ sym (append_assoc bs xs (take (p.len - p.cur_len - length xs) cs))
        ∙ ap (λ n. (bs ++ xs) ++ take n cs) (omega (arith, f.cur_len_is, length-append bs xs))

    left : length (xs ++ cs) - (p.len - p.cur_len) ≡ length cs - (p.len - length (bs ++ xs))
    left = omega (arith, f.cur_len_is, f.within, length-append bs xs, length-append xs cs)

-- Data that fill the packet are taken in part, whatever comes behind them.
pub append_whole :
    {p : Packet} {bs : Bytes} (xs cs : Bytes)
    → IsFilled p bs
    → p.len < 2 ^ 24
    → length xs + length cs < 2 ^ 31
    → p.len - p.cur_len ≤ length xs
    → append p (xs ++ cs)
      ≡ some
          (fill p (bs ++ take (p.len - p.cur_len) xs), length xs + length cs - (p.len - p.cur_len))
append_whole {p} {bs} xs cs f h k full =
    append-filled (xs ++ cs) f h (omega (arith, length-append xs cs)) ∙ λ i. some (
      fill p (bs ++ take-append_le (p.len - p.cur_len) xs cs full i),
      length-append xs cs i - (p.len - p.cur_len),
    )
