-- ===== src/Program.antt =====
-- mysqlpcap.cc: the command line, and what `main` does with the file that it names. The C library,
-- libpcap and the files are parameters; what the program prints is left out.
pub mod Args
pub mod Usage
pub mod Loop
pub mod Main
use mysqlpcap.Base.{ℕ, Bool, false, Option, none, Bytes, List, []}
use mysqlpcap.Files.{Files}
use mysqlpcap.Manager.Capture.{Frame}
use mysqlpcap.Pattern.{Pcre, QueryPattern}
use mysqlpcap.Thread.{ReplayOptions}

-- The end of a part of the program: a value, `exit` with a code, an abort by an exception that is
-- not caught, a failed assertion or a bad access, or a loop that runs out of fuel.
pub data Result (A : Type 0) : Type 0 where
  done : A → Result A
  exits : ℕ → Result A
  aborts : Result A
  no_fuel : Result A

infixl 5 ◌>>=◌
abbrev pub ◌>>=◌ : {A B : Type 0} → Result A → (A → Result B) → Result B
done a >>= k = k a
exits n >>= k = exits n
aborts >>= k = aborts
no_fuel >>= k = no_fuel

-- The value, if there is one, has the property.
abbrev pub Yields : {A : Type 0} → (A → Type 0) → Result A → Type 0
Yields P (done a) = P a
Yields P _ = Unit

pub Yields-bind :
    {A B : Type 0} (P : A → Type 0) (Q : B → Type 0) (r : Result A) (k : A → Result B)
    → Yields P r
    → ((a : A) → P a → Yields Q (k a))
    → Yields Q (r >>= k)
Yields-bind P Q (done a) k h next = next a h
Yields-bind P Q (exits n) k h next = tt
Yields-bind P Q aborts k h next = tt
Yields-bind P Q no_fuel k h next = tt

-- `die`
abbrev pub die : {A : Type 0} → Result A
die = exits 1

-- What the program is given by the machine. `inet_aton` is `none` for the result 0, `atof` a
-- quotient, and `pcap_open_offline` the frames of the file, with whether a descriptor can be had.
pub record Machine : Type 1 where
  pub os : Files
  pub pcre : Pcre
  pub atoi : Bytes → ℕ
  pub atof : Bytes → ℕ × ℕ
  pub inet_aton : Bytes → Option ℕ
  pub parse_tables : Bytes → List (Bytes × Bytes)
  pub stat : Bytes → Option ℕ
  pub open_read : Bytes → Option os.File
  pub open_write : Bytes → Option os.File
  pub can_create : Bytes → Bool
  pub pcap_open_offline : Bytes → Option (List Frame × Bool)

-- `param_info` and the global variables.
pub record Options (pcre : Pcre) : Type 0 where
  pub fname : Option Bytes
  pub mysql_ip : ℕ
  pub mysql_port : ℕ
  pub ethernet_header_size : ℕ
  pub n_slow_queries : ℕ
  pub verbose : Bool
  pub do_explain : Bool
  pub do_analyze : Bool
  pub do_run : Bool
  pub report_progress : Bool
  pub query_patterns : List (QueryPattern pcre)
  pub record_for_replay_file : Option Bytes
  pub csv_file : Option Bytes
  pub table_stats_file : Option Bytes
  pub replay : ReplayOptions

-- What they hold before the command line is read; `mysql_ip` is 127.0.0.1 as it stands in memory.
abbrev pub defaults : (pcre : Pcre) → Options pcre
defaults pcre = record {
  fname = none;
  mysql_ip = 0x0100007f;
  mysql_port = 3306;
  ethernet_header_size = 0;
  n_slow_queries = 0;
  verbose = false;
  do_explain = false;
  do_analyze = false;
  do_run = false;
  report_progress = false;
  query_patterns = [];
  record_for_replay_file = none;
  csv_file = none;
  table_stats_file = none;
  replay = record {
    replay_host = none;
    replay_user = none;
    replay_pw = none;
    replay_db = none;
    replay_port = 3306;
    replay_ssl_ca = none;
    replay_ssl_cert = none;
    replay_ssl_key = none;
    speed_num = 1;
    speed_den = 1;
    ignore_dup_key_errors = false;
    assert_on_query_error = false;
  };
}
