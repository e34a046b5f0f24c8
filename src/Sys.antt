-- ===== src/Sys.antt =====
-- The state of `Mysql_stream_manager`, with the packets of all its streams, and the settings and
-- libraries that it works with. Packets live on a heap, since streams and the list of slow queries
-- share them.
pub mod Sound
pub mod Frame
pub mod Captured
use mysqlpcap.Base.{
  ℕ, ◌+◌, ◌*◌, ◌%◌, ◌^◌, Bool, false, Option, none, some, List, [], ◌∷◌, Bytes, ◌==◌, if◌then◌else◌,
}
use mysqlpcap.Base.Run.{ok, fault, M, ◌>>=◌}
use mysqlpcap.Files.{Files}
use mysqlpcap.Fragments.{IpStream}
use mysqlpcap.Packet.{Packet, PerfStats, Ptr, null, Timeval, unmark_ref, mark_ref}
use mysqlpcap.Pattern.{Pcre, QueryPattern}
use mysqlpcap.Stats.{QueryStats}
use mysqlpcap.Tables.{TableStats}

-- What the program is given: the options of `param_info` that the manager reads, the calls of the
-- system and of PCRE2, and the tables that `yyparse_string` reports for a query, with their types.
pub record Env : Type 1 where
  pub os : Files
  pub pcre : Pcre
  pub patterns : List (QueryPattern pcre)
  pub n_slow_queries : ℕ
  pub do_run : Bool
  pub mysql_ip : ℕ
  pub mysql_port : ℕ
  pub ethernet_header_size : ℕ
  pub parse_tables : Bytes → List (Bytes × Bytes)

-- `Mysql_stream`. Addresses and ports are as they stand in the packets, in network order. `th` says
-- that a replay thread runs.
pub record Stream : Type 0 where
  pub src_ip : ℕ
  pub src_port : ℕ
  pub dst_ip : ℕ
  pub dst_port : ℕ
  pub first : Ptr
  pub last : Ptr
  pub last_query : Ptr
  pub pkt_hdr : Bytes
  pub cur_pkt_hdr_len : ℕ
  pub th : Bool
  pub reached_eof : Bool
  pub last_tcp_seq : ℕ
  pub last_tcp_seq_inited : Bool

-- The constructor `Mysql_stream`. The bytes of `pkt_hdr` that it leaves unset are 0 here.
abbrev pub new_stream : (src_ip src_port dst_ip dst_port : ℕ) → Stream
new_stream si sp di dp = record {
  src_ip = si;
  src_port = sp;
  dst_ip = di;
  dst_port = dp;
  first = null;
  last = null;
  last_query = null;
  pkt_hdr = 0 ∷ 0 ∷ 0 ∷ 0 ∷ [];
  cur_pkt_hdr_len = 0;
  th = false;
  reached_eof = false;
  last_tcp_seq = 0;
  last_tcp_seq_inited = false;
}

abbrev pub Heap : Type 0
Heap = Ptr → Option Packet

unfoldable pub write : Heap → Ptr → Option Packet → Heap
write h p c a = if a == p then c else h a

-- `Mysql_stream_manager`. `fresh` is the address that the next `new` returns. `replay_fd` is `none`
-- for -1, and `table_stats` for a null `table_stats_fp`.
pub record Sys (env : Env) : Type 0 where
  pub heap : Heap
  pub fresh : Ptr
  pub perf : PerfStats
  pub lookup : List (ℕ × Stream)
  pub slow_queries : List Ptr
  pub q_stats : QueryStats
  pub table_stats : Option TableStats
  pub first_packet_ts : Option Timeval
  pub replay_fd : Option env.os.File
  pub in_replay_write : Bool
  pub ip_stream : IpStream

module _ {env : Env} where
  unfoldable pub get : M (Sys env) (Sys env)
  get s = ok s s

  unfoldable pub put : Sys env → M (Sys env) (Unit {0})
  put t s = ok tt t

  -- `*p`, and an assignment to it
  unfoldable pub load : Ptr → M (Sys env) Packet
  load p s = if p == null then fault else elim (s.heap p) [ none ↦ fault | some q ↦ ok q s ]

  unfoldable pub store : Ptr → Packet → M (Sys env) (Unit {0})
  store p q s = ok tt (record s { heap = write s.heap p (some q) })

  unfoldable pub set_next : Ptr → Ptr → M (Sys env) (Unit {0})
  unfolding load store
  set_next p next = do q ← load p; store p (record q { next = next })

  unfoldable pub set_prev : Ptr → Ptr → M (Sys env) (Unit {0})
  unfolding load store
  set_prev p prev = do q ← load p; store p (record q { prev = prev })

  -- A value that is not there is a fault.
  unfoldable pub require : {A : Type 0} → Option A → M (Sys env) A
  require none s = fault
  require (some a) s = ok a s

  -- `new`: the packet at an unused address
  unfoldable pub allocate : Packet → PerfStats → M (Sys env) Ptr
  allocate q perf s =
      ok s.fresh
        (record s { heap = write s.heap s.fresh (some q); fresh = s.fresh + 1; perf = perf })

  -- `p->mark_ref()`
  unfoldable pub mark : Ptr → M (Sys env) (Unit {0})
  unfolding load store require
  mark p = do q ← load p; q' ← require (mark_ref q); store p q'

  -- `if (p->unmark_ref()) delete p`
  unfoldable pub release : Ptr → M (Sys env) (Unit {0})
  unfolding load require
  release p = do
    q ← load p
    s ← get
    (q', perf, gone) ← require (unmark_ref q s.perf)
    put (record s { heap = write s.heap p (if gone then none else some q'); perf = perf })

-- `Mysql_stream_manager::get_key`, in 64 bits
unfoldable pub get_key : (ip port : ℕ) → ℕ
get_key ip port = (ip * 2 ^ 32 % 2 ^ 64 + port) % 2 ^ 64
