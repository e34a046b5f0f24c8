-- ===== src/Packet/Bounds.antt =====
-- A packet never holds more bytes than its buffer has room for.
use mysqlpcap.Base.{
  ℕ, ◌+◌, ◌-◌, ◌^◌, ◌≤◌, ◌<◌, ◌≡◌, refl, ◌⊎◌, inl, inr, Option, none, some, [], ◌++◌, Bytes, arith,
  length, take, drop, Bool-cases, ◌==◌, leb, length-append, length-take, length-drop,
}
use mysqlpcap.Base.Maybe.{◌>>=◌, Gives}
use mysqlpcap.Packet.{Packet, PerfStats, memcpy, append_len, append, cleanup, mark_ref, unmark_ref}

-- The bytes that were written to a buffer.
abbrev pub buffered : Option Bytes → Bytes
buffered none = []
buffered (some bs) = bs

-- What holds for every packet that a stream keeps.
pub record IsBounded (p : Packet) : Type 0 where
  pub within : p.cur_len ≤ p.len
  pub narrow : p.len < 2 ^ 32
  pub inside : length (buffered p.payload) ≤ p.len

append_len-le : (p : Packet) (n : ℕ) → IsBounded p → append_len p n ≤ n
unfolding append_len
append_len-le p n g = ground (arith, g.within, g.narrow)

append_len-positive :
    (p : Packet) (n : ℕ) → IsBounded p → p.cur_len < p.len → 0 < n → 0 < append_len p n
unfolding append_len
append_len-positive p n g h k = ground (arith, g.within, g.narrow)

memcpy-inside :
    (payload : Option Bytes) (size off : ℕ) (src : Bytes)
    → length (buffered payload) ≤ size
    → Gives
        (λ r. (off + length src ≤ size) × (length (buffered r) ≤ size))
        (memcpy payload size off src)
unfolding memcpy
memcpy-inside none size off src h = tt
memcpy-inside (some bs) size off src h = elim (Bool-cases (leb (off + length src) size)) [
  | inl fits ↦ rw fits (
    ground arith,
    ground (
      arith,
      length-append (take off bs ++ src) (drop (off + length src) bs),
      length-append (take off bs) src,
      length-take off bs,
      length-drop (off + length src) bs,
    ),
  )
  | inr over ↦ rw over tt
]

-- What `append` leaves of a packet and of the data: the packet is still bounded, and a packet that
-- was not complete takes a byte at least.
abbrev pub IsAppended : Packet → ℕ → Packet × ℕ → Type 0
IsAppended p n (q, left) = IsBounded q × (left ≤ n) × (p.cur_len < p.len → 0 < n → left < n)

pub append-IsAppended :
    (p : Packet) (src : Bytes) → IsBounded p → Gives (IsAppended p (length src)) (append p src)
unfolding append
append-IsAppended p src g = elim (Bool-cases (append_len p (length src) == 0)) [
  | inl nothing ↦
      rw nothing
        (g, omega arith, λ h k. absurd (ground (arith, append_len-positive p (length src) g h k)))
  | inr something ↦ rw something (
      copied (memcpy p.payload p.len p.cur_len (take n src))
        (memcpy-inside p.payload p.len p.cur_len (take n src) g.inside))
]
  where
    n : ℕ
    n = append_len p (length src)

    taken : length (take n src) ≡ n
    taken = omega (arith, length-take n src, append_len-le p (length src) g)

    copied :
        (o : Option (Option Bytes))
        → Gives (λ r. (p.cur_len + length (take n src) ≤ p.len) × (length (buffered r) ≤ p.len)) o
        → Gives (IsAppended p (length src)) (
            o >>= λ payload.
            some (record p { payload = payload; cur_len = p.cur_len + n }, length src - n))
    copied none h = tt
    copied (some r) h = (
      record { within = omega (arith, taken, h.0); narrow = g.narrow; inside = h.1 },
      omega arith,
      λ a b. omega (arith, append_len-positive p (length src) g a b),
    )

some_or_none : (o : Option Bytes) → (o ≡ none) ⊎ ((bs : Bytes) × (o ≡ some bs))
some_or_none none = inl refl
some_or_none (some bs) = inr (bs, refl)

-- Nothing else that happens to a packet touches its bounds.
pub cleanup-IsBounded : (p : Packet) (perf : PerfStats) → IsBounded p → IsBounded (cleanup p perf).0
unfolding cleanup
cleanup-IsBounded p perf g = elim (some_or_none p.payload) [
  | inl gone ↦ rw gone (record { within = g.within; narrow = g.narrow; inside = omega arith })
  | inr (bs, here) ↦ rw here (record { within = g.within; narrow = g.narrow; inside = omega arith })
]

pub mark_ref-IsBounded : (p : Packet) → IsBounded p → Gives IsBounded (mark_ref p)
unfolding mark_ref
mark_ref-IsBounded p g = elim (Bool-cases (leb p.ref_count 2)) [
  | inl few ↦ rw few (record { within = g.within; narrow = g.narrow; inside = g.inside })
  | inr many ↦ rw many tt
]

pub unmark_ref-IsBounded :
    (p : Packet) (perf : PerfStats) → IsBounded p → Gives (λ r. IsBounded r.0) (unmark_ref p perf)
unfolding unmark_ref
unmark_ref-IsBounded p perf g = elim (Bool-cases (p.ref_count == 0)) [
  | inl none_left ↦ rw none_left tt
  | inr some_left ↦ rw some_left (elim (Bool-cases (p.ref_count == 1)) [
    | inl last ↦ rw last (
        cleanup-IsBounded (record p { ref_count = 0 }) perf
          (record { within = g.within; narrow = g.narrow; inside = g.inside }))
    | inr more ↦ rw more (record { within = g.within; narrow = g.narrow; inside = g.inside })
  ])
]
