-- ===== src/Packet.antt =====
-- mysql_packet.h and mysql_packet.cc: the packet, its counters and its methods, but for the replay
-- file. `none` is a fault: a read outside the bytes that a buffer holds, a copy past the end of a
-- buffer, or a failed assertion. A `u_int` wraps at 2^32.
pub mod Append
pub mod Bounds
pub mod Captured
pub mod Counters
use mysqlpcap.Base.{
  ℕ, ◌+◌, ◌-◌, ◌*◌, ◌%◌, ◌^◌, Bool, true, false, not, ◌&&◌, Option, none, some, [], ◌∷◌, ◌++◌,
  Bytes, length, take, drop, get_elem?, ltb, leb, ◌==◌, if◌then◌else◌,
}
use mysqlpcap.Base.Int.{ℤ, pos, sub_ℕ}
use mysqlpcap.Base.Maybe.{◌>>=◌}

-- `struct timeval`, of times since the epoch
pub record Timeval : Type 0 where
  pub tv_sec : ℕ
  pub tv_usec : ℕ

-- The address of a packet; 0 is the null pointer.
abbrev pub Ptr : Type 0
Ptr = ℕ

abbrev pub null : Ptr
null = 0

-- `data` is `none` for the null pointer. Otherwise it is a buffer of `len` bytes, of which the
-- list holds those that were written. `exec_time` is in microseconds.
pub record Packet : Type 0 where
  pub ref_count : ℕ
  pub exec_time : ℤ
  pub is_in : Bool
  pub ts : Timeval
  pub payload : Option Bytes
  pub len : ℕ
  pub cur_len : ℕ
  pub next : Ptr
  pub prev : Ptr

-- `Perf_stats`: counters of 64 bits
pub record PerfStats : Type 0 where
  pub pkt_mem_in_use : ℕ
  pub pkt_alloced : ℕ
  pub pkt_freed : ℕ

-- The constructor `Mysql_packet(ts, len, in)` with `init`.
unfoldable pub make : Timeval → (len : ℕ) → (is_in : Bool) → PerfStats → Packet × PerfStats
make ts len is_in perf = (
  record {
    ref_count = 0;
    exec_time = pos 0;
    is_in = is_in;
    ts = ts;
    payload = some [];
    len = len;
    cur_len = 0;
    next = null;
    prev = null;
  },
  record perf {
    pkt_mem_in_use = (perf.pkt_mem_in_use + len) % 2 ^ 64;
    pkt_alloced = (perf.pkt_alloced + 1) % 2 ^ 64;
  },
)

-- The default constructor: no buffer. The fields that it leaves unset are 0 here.
abbrev pub empty : Packet
empty = record {
  ref_count = 0;
  exec_time = pos 0;
  is_in = false;
  ts = record { tv_sec = 0; tv_usec = 0 };
  payload = none;
  len = 0;
  cur_len = 0;
  next = null;
  prev = null;
}

unfoldable pub cleanup : Packet → PerfStats → Packet × PerfStats
cleanup p perf = elim p.payload [
  | none ↦ (p, perf)
  | some _ ↦ (
    record p { payload = none },
    record perf {
      pkt_mem_in_use = (perf.pkt_mem_in_use + 2 ^ 64 - p.len) % 2 ^ 64;
      pkt_freed = (perf.pkt_freed + 1) % 2 ^ 64;
    },
  )
]

unfoldable pub mark_ref : Packet → Option Packet
mark_ref p = if leb p.ref_count 2 then some (record p { ref_count = p.ref_count + 1 }) else none

-- The flag says that the last reference is gone.
unfoldable pub unmark_ref : Packet → PerfStats → Option (Packet × PerfStats × Bool)
unfolding cleanup
unmark_ref p perf =
    if p.ref_count == 0
    then none
    else if p.ref_count == 1
    then some (let (q, perf') = cleanup (record p { ref_count = 0 }) perf in (q, perf', true))
    else some (record p { ref_count = p.ref_count - 1 }, perf, false)

-- `memcpy(data + off, src, n)` into a buffer of `size` bytes.
unfoldable pub memcpy : Option Bytes → (size off : ℕ) → (src : Bytes) → Option (Option Bytes)
memcpy none size off src = none
memcpy (some bs) size off src =
    if leb (off + length src) size
    then some (some (take off bs ++ src ++ drop (off + length src) bs))
    else none

-- The number of bytes that `append` copies.
unfoldable pub append_len : Packet → (try_append_len : ℕ) → ℕ
append_len p n =
    if ltb p.len ((p.cur_len + n) % 2 ^ 32) then (p.len + 2 ^ 32 - p.cur_len) % 2 ^ 32 else n

-- The packet and what is left of `*try_append_len`. The source holds `*try_append_len` bytes.
unfoldable pub append : Packet → (append_data : Bytes) → Option (Packet × ℕ)
unfolding append_len memcpy
append p src =
    let n = append_len p (length src) in
    if n == 0 then some (p, length src) else do
      payload ← memcpy p.payload p.len p.cur_len (take n src)
      some (record p { payload = payload; cur_len = p.cur_len + n }, length src - n)

abbrev pub is_complete : Packet → Bool
is_complete p = p.len == p.cur_len

-- `data[i]`
unfoldable pub byte : Packet → ℕ → Option ℕ
byte p i = elim p.payload [ none ↦ none | some bs ↦ get_elem? bs i ]

unfoldable pub is_query : Packet → Option Bool
unfolding byte
is_query p = do b ← byte p 0; some (b == 0x3 && p.is_in)

unfoldable pub is_eof : Packet → Option Bool
unfolding byte
is_eof p = do b ← byte p 0; some (b == 0xfe && not p.is_in)

-- In microseconds: the program has the same value in seconds, as a double.
unfoldable pub ts_diff : Packet → (other : Packet) → ℤ
ts_diff p other =
    sub_ℕ (other.ts.tv_sec * 1000000 + other.ts.tv_usec) (p.ts.tv_sec * 1000000 + p.ts.tv_usec)

-- `Mysql_query_packet::query` with `query_len`: the bytes behind the command byte.
unfoldable pub query : Packet → Bytes
query p = elim p.payload [ none ↦ [] | some bs ↦ drop 1 (take p.len bs) ]
