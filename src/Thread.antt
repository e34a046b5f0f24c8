-- ===== src/Thread.antt =====
-- The replay thread of a stream: `run_replay` of mysql_stream.cc with `db_connect`, `db_close` and
-- `db_query`, and the schedule of mysql_stream_manager.cc. The thread is a state machine: a phase
-- names the place in the code up to which it has come, and a step leads from one place where it
-- takes a lock or may wait to the next, so that the reader of the capture can act between steps.
pub mod Rules
pub mod Query
pub mod Steps
pub mod Connects
pub mod Sends
pub mod Rounds
pub mod Finishes
pub mod Races
pub mod Dangles
pub mod Overflow
use mysqlpcap.Base.{
  ℕ, zero, suc, ◌+◌, ◌-◌, ◌*◌, ◌/◌, ◌%◌, ◌^◌, Bool, true, false, not, ◌&&◌, Option, none, some,
  List, [], ◌∷◌, ◌++◌, Bytes, length, take, drop, ltb, leb, ◌==◌, if◌then◌else◌,
}
use mysqlpcap.Base.Int.{pos}
use mysqlpcap.Base.Run.{Run, ok, throws, fault, out_of_fuel, M, pure, assert, ◌>>=◌, ◌>>◌}
use mysqlpcap.Manager.{get_packet_ellapsed_us}
use mysqlpcap.Packet.{Packet, Ptr, null, is_query}
use mysqlpcap.Pattern.{key, get_query_key}
use mysqlpcap.Stats.{record_query}
use mysqlpcap.Stream.{consider_unlink_pkt}
use mysqlpcap.Stream.Complete.{c_string}
use mysqlpcap.Sys
use mysqlpcap.Sys.{Env, Stream, Sys}

-- The options of the MySQL client that `setup_for_ssl` sets.
pub data MysqlOption : Type 0 where
  ssl_ca : MysqlOption
  ssl_cert : MysqlOption
  ssl_key : MysqlOption

-- The options of the replay. `replay_speed` is a quotient.
pub record ReplayOptions : Type 0 where
  pub replay_host : Option Bytes
  pub replay_user : Option Bytes
  pub replay_pw : Option Bytes
  pub replay_db : Option Bytes
  pub replay_port : ℕ
  pub replay_ssl_ca : Option Bytes
  pub replay_ssl_cert : Option Bytes
  pub replay_ssl_key : Option Bytes
  pub speed_num : ℕ
  pub speed_den : ℕ
  pub ignore_dup_key_errors : Bool
  pub assert_on_query_error : Bool

-- The MySQL client library and the clock, in microseconds: a parameter. A flag is true where the
-- call failed. `is_dup_entry` says whether `mysql_errno` is ER_DUP_ENTRY, and `fetch_rows` stands for
-- the calls of `mysql_fetch_row` up to the one that gives no row.
pub record Client : Type 1 where
  pub World : Type 0
  pub Con : Type 0
  pub Res : Type 0
  pub now : World → World × ℕ
  pub sleep_for : ℕ → World → World
  pub mysql_init : World → World × Option Con
  pub mysql_options : Con → MysqlOption → Bytes → World → World × Bool
  pub mysql_real_connect : Con → ReplayOptions → World → World × Bool
  pub mysql_close : Con → World → World
  pub mysql_real_query : Con → Bytes → World → World × Bool
  pub is_dup_entry : Con → World → Bool
  pub mysql_use_result : Con → World → World × Option Res
  pub fetch_rows : Res → World → World
  pub mysql_free_result : Res → World → World

-- What a replay works with.
pub record Setup : Type 1 where
  pub env : Env
  pub client : Client
  pub options : ReplayOptions

-- The stream of the thread, with its connection, and what it shares with the reader.
pub record Player (setup : Setup) : Type 0 where
  pub sys : Sys setup.env
  pub stream : Stream
  pub con : Option setup.client.Con
  pub world : setup.client.World
  pub replay_start_ts : ℕ

-- How far the thread has come: at the head of its loop; in `db_query` with the packets of a query
-- of `q_len` bytes up to `cur`; behind `db_query`; in the loop that waits; on the way to the next
-- packet, with no lock; or at the end.
pub data Phase : Type 0 where
  at : (p : Ptr) → Phase
  gathers : (query_pkt cur_pkt : Ptr) (q_len start : ℕ) → Phase
  passed : (p : Ptr) → Phase
  waits : (p : Ptr) → Phase
  leaves : (tmp p : Ptr) → Phase
  finished : Phase

abbrev pub packet_overflow_len : ℕ
packet_overflow_len = 0xffffff

-- `q_len` bytes from `query()`, of those that were received
unfoldable pub read_text : Packet → (q_len : ℕ) → Option Bytes
read_text q n = elim q.payload [
  | none ↦ none
  | some bs ↦ if leb (1 + n) (length bs) then some (take n (drop 1 bs)) else none
]

-- `query_len`
unfoldable pub query_len : Packet → ℕ
query_len q = (q.len + 2 ^ 32 - 1) % 2 ^ 32

-- A copy to the end of what stands in a buffer of `size` bytes.
unfoldable pub copy_to : (size : ℕ) → (buffer bytes : Bytes) → Option Bytes
copy_to size buffer bs = if leb (length buffer + length bs) size then some (buffer ++ bs) else none

-- `data` of a packet of which all is received
unfoldable pub whole_data : Packet → Option Bytes
whole_data q = elim q.payload [
  | none ↦ none
  | some bs ↦ if length bs == q.len then some bs else none
]

module _ {setup : Setup} where
  open setup use {env, client, options}

  unfoldable pub get : M (Player setup) (Player setup)
  get pl = ok pl pl

  unfoldable pub put : Player setup → M (Player setup) (Unit {0})
  put pl' pl = ok tt pl'

  -- A call of the client library, or of the clock.
  unfoldable pub call : {A : Type 0} → (client.World → client.World × A) → M (Player setup) A
  call f pl = let (w, a) = f pl.world in ok a (record pl { world = w })

  unfoldable pub act : (client.World → client.World) → M (Player setup) (Unit {0})
  act f pl = ok tt (record pl { world = f pl.world })

  -- A step on the shared state.
  abbrev pub with_sys : {A : Type 0} → Player setup → Run (Sys env) A → Run (Player setup) A
  with_sys pl (ok a sys) = ok a (record pl { sys = sys })
  with_sys pl throws = throws
  with_sys pl fault = fault
  with_sys pl out_of_fuel = out_of_fuel

  unfoldable pub shared : {A : Type 0} → M (Sys env) A → M (Player setup) A
  shared m pl = with_sys pl (m pl.sys)

  unfoldable pub load : Ptr → M (Player setup) Packet
  unfolding shared Sys.load
  load p = shared (Sys.load p)

  unfoldable pub require : {A : Type 0} → Option A → M (Player setup) A
  require none pl = fault
  require (some a) pl = ok a pl
