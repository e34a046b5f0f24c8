-- ===== src/Replay.antt =====
-- The records of a replay file: `Mysql_packet::replay_write` and `replay_read` of mysql_packet.cc.
pub mod Record
pub mod RoundTrip
use mysqlpcap.Base.{
  ℕ, zero, suc, ◌+◌, ◌%◌, ◌^◌, Bool, true, false, not, Option, none, some, List, [], ◌∷◌, ◌++◌,
  Bytes, length, take, drop, ◌==◌, if◌then◌else◌,
}
use mysqlpcap.Files.{Files}
use mysqlpcap.Packet.{Packet, PerfStats, Timeval}
use mysqlpcap.Wire.{at, int4store, int8store, uint4korr, uint8korr}

-- `PACKET_HEADER_SIZE`
abbrev pub packet_header_size : ℕ
packet_header_size = 8 + 1 + 16 + 4

-- The buffer that `replay_write` fills.
unfoldable pub header : (key : ℕ) → Packet → Bytes
header key p =
    int8store key
    ++ ((if p.is_in then 1 else 0) ∷ [])
    ++ int8store p.ts.tv_sec
    ++ int8store p.ts.tv_usec
    ++ int4store p.len

-- The first `len` bytes at `data`
unfoldable pub contents : Packet → Bytes
contents p = elim p.payload [ none ↦ [] | some bs ↦ take p.len bs ]

-- `r != n` for a result of `read` or `write`
unfoldable pub is_short : Option ℕ → ℕ → Bool
is_short none n = true
is_short (some m) n = not (m == n)

-- What `replay_read` makes of the bytes of the header: the key and the packet so far.
unfoldable pub parse_header : Packet → Bytes → ℕ × Packet
parse_header p buf = (
  uint8korr buf,
  record p {
    is_in = not (at buf 8 == 0);
    ts = record { tv_sec = uint8korr (drop 9 buf); tv_usec = uint8korr (drop 17 buf) };
    len = uint4korr (drop 25 buf);
  },
)

abbrev pub allocate : PerfStats → ℕ → PerfStats
allocate perf len = record perf {
  pkt_mem_in_use = (perf.pkt_mem_in_use + len) % 2 ^ 64;
  pkt_alloced = (perf.pkt_alloced + 1) % 2 ^ 64;
}

-- What a read of `n` bytes gave, unless it is short.
unfoldable pub whole : Option Bytes → ℕ → Option Bytes
whole none n = none
whole (some bs) n = if length bs == n then some bs else none

module _ (os : Files) where
  open os use {File, write, read}

  -- The flag is the result: true on an error.
  unfoldable pub replay_write : File → (key : ℕ) → Packet → File × Bool
  replay_write f key p =
      let (f', n) = write f (header key p) in
      if is_short n packet_header_size
      then (f', true)
      else if p.len == 0
      then (f', false)
      else (let (f'', m) = write f' (contents p) in (f'', is_short m p.len))

  -- The bytes of a read of `n`, unless there are fewer.
  unfoldable pub read_exactly : File → ℕ → File × Option Bytes
  read_exactly f n = let (f', got) = read f n in (f', whole got n)

  -- What `replay_read` does with the bytes of the body, when it has the buffer.
  unfoldable pub read_body :
      File → (key : ℕ) → Packet → PerfStats → Option Bytes → File × Packet × PerfStats × Option ℕ
  read_body f key q perf none = (f, record q { payload = none; len = 0 }, allocate perf q.len, none)
  read_body f key q perf (some bs) =
      (f, record q { payload = some bs }, allocate perf q.len, some key)

  -- What it does with the bytes of the header.
  unfoldable pub read_rest :
      File → Packet → PerfStats → Option Bytes → File × Packet × PerfStats × Option ℕ
  unfolding read_body
  read_rest f p perf none = (f, record p { payload = none; len = 0 }, perf, none)
  read_rest f p perf (some buf) =
      let (key, q) = parse_header p buf in
      if q.len == 0
      then (f, q, perf, some key)
      else (let (f', body) = read_exactly f q.len in read_body f' key q perf body)

  -- The result is the key, or `none` on an error. The packet is left without a buffer then.
  unfoldable pub replay_read : File → Packet → PerfStats → File × Packet × PerfStats × Option ℕ
  unfolding read_rest
  replay_read f p perf =
      let (f', got) = read_exactly f packet_header_size in read_rest f' p perf got
