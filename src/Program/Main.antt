-- ===== src/Program/Main.antt =====
-- `process_pcap_file`, `process_replay_file`, `process_file` and `main`. Where no header size is
-- given, the code finds it in front of the first frame, before which the manager has read no packet;
-- here it is found before the manager is made, after the output files are opened.
pub mod Sound
pub mod Magic
use mysqlpcap.Base.{
  ℕ, Bool, true, false, not, Option, none, some, List, [], ◌∷◌, Bytes, ◌==◌, if◌then◌else◌,
}
use mysqlpcap.Base.Run.{Run, ok, throws, fault, out_of_fuel, M}
use mysqlpcap.Detect.{detect_eth_header_size}
use mysqlpcap.Fragments
use mysqlpcap.Manager.Capture.{Frame}
use mysqlpcap.Manager.ReplayFile
use mysqlpcap.Manager.ReplayFile.{magic, init_replay_file}
use mysqlpcap.Manager.Shutdown.{finish_replay, cleanup}
use mysqlpcap.Program.{Result, done, exits, aborts, no_fuel, ◌>>=◌, die, Machine, Options}
use mysqlpcap.Program.Args.{parse_args}
use mysqlpcap.Program.Loop.{capture_loop, finish}
use mysqlpcap.Replay.{whole}
use mysqlpcap.Stats.{no_queries, same_key}
use mysqlpcap.Sys.{Env, Sys}

-- A run of which the exceptions are caught, to `die`, and one of which they are not.
abbrev pub caught : {S A : Type 0} → Run S A → Result S
caught (ok a s) = done s
caught throws = die
caught fault = aborts
caught out_of_fuel = no_fuel

abbrev pub uncaught : {S A : Type 0} → Run S A → Result S
uncaught (ok a s) = done s
uncaught throws = aborts
uncaught fault = aborts
uncaught out_of_fuel = no_fuel

-- What `init_replay_file` has returned.
abbrev pub recording : {S : Type 0} → Run S Bool → Result S
recording (ok true s) = die
recording (ok false s) = done s
recording throws = aborts
recording fault = aborts
recording out_of_fuel = no_fuel

unfoldable pub start_record :
    {env : Env} → (Bytes → Option env.os.File) → Option Bytes → Sys env → Result (Sys env)
unfolding init_replay_file
start_record create none sys = done sys
start_record create (some name) sys = recording (init_replay_file (create name) sys)

-- What the first bytes of a file are compared with, if four could be read.
unfoldable pub has_magic : Option Bytes → Result Bool
unfolding same_key
has_magic none = die
has_magic (some bs) = done (same_key bs magic)

module _ (machine : Machine) where
  open machine use {
    os, pcre, parse_tables, stat, open_read, open_write, can_create, pcap_open_offline,
  }

  -- What a manager is told of the options.
  abbrev pub settings : Options pcre → (ethernet_header_size : ℕ) → Env
  settings o n = record {
    os = os;
    pcre = pcre;
    patterns = o.query_patterns;
    n_slow_queries = o.n_slow_queries;
    do_run = o.do_run;
    mysql_ip = o.mysql_ip;
    mysql_port = o.mysql_port;
    ethernet_header_size = n;
    parse_tables = parse_tables;
  }

  -- The constructor of the manager, once `init` has opened the output files.
  abbrev pub new_manager : (o : Options pcre) (n : ℕ) → Sys (settings o n)
  new_manager o n = record {
    heap = λ p. none;
    fresh = 1;
    perf = record { pkt_mem_in_use = 0; pkt_alloced = 0; pkt_freed = 0 };
    lookup = [];
    slow_queries = [];
    q_stats = no_queries;
    table_stats = elim o.table_stats_file [ none ↦ none | some name ↦ some [] ];
    first_packet_ts = none;
    replay_fd = none;
    in_replay_write = false;
    ip_stream = Fragments.empty;
  }

  -- `init`: the exceptions are not caught.
  unfoldable pub open_output : Option Bytes → Result (Unit {0})
  open_output none = done tt
  open_output (some name) = if can_create name then done tt else aborts

  unfoldable pub init : Options pcre → Result (Unit {0})
  unfolding open_output
  init o = open_output o.csv_file >>= λ _. open_output o.table_stats_file

  -- The manager over the frames of a capture, up to the end of `process_pcap_file`.
  unfoldable pub process_frames :
      (o : Options pcre) (n : ℕ) → List Frame → Result (Sys (settings o n))
  unfolding start_record capture_loop finish
  process_frames o n frames =
      start_record open_write o.record_for_replay_file (new_manager o n)
      >>= (λ sys. caught (capture_loop frames sys))
      >>= (λ sys. uncaught (finish o.do_run sys))

  -- The size of the link header, by the options or by the first frame.
  unfoldable pub detected : Option ℕ → Result ℕ
  detected none = aborts
  detected (some n) = if n == 0 then die else done n

  unfoldable pub header_size : (given : ℕ) → List Frame → Result ℕ
  unfolding detected detect_eth_header_size
  header_size given [] = done given
  header_size given (f ∷ frames) =
      if given == 0 then detected (detect_eth_header_size f.caplen f.bytes) else done given

  unfoldable pub process_pcap_file : Options pcre → (fname : Bytes) → Result (Unit {0})
  unfolding init header_size process_frames cleanup
  process_pcap_file o name = elim (pcap_open_offline name) [
    | none ↦ die
    | some (frames, selectable) ↦
        if not selectable
        then die
        else init o >>= λ _. header_size o.ethernet_header_size frames >>= λ n.
            process_frames o n frames >>= λ sys. uncaught (cleanup sys) >>= λ _. done tt
  ]

  unfoldable pub process_replay_file :
      Options pcre → (fname : Bytes) → (fuel : ℕ) → Result (Unit {0})
  unfolding init finish_replay cleanup ReplayFile.process_replay_file
  process_replay_file o name fuel =
      init o
      >>= (λ _. uncaught (
          ReplayFile.process_replay_file fuel (open_read name)
            (new_manager o o.ethernet_header_size)))
      >>= (λ sys. if o.do_run then uncaught (finish_replay sys) else done sys)
      >>= (λ sys. uncaught (cleanup sys))
      >>= λ _. done tt

  -- Whether the file begins with the magic number of a replay file.
  unfoldable pub is_replay : Option os.File → Result Bool
  unfolding whole has_magic
  is_replay none = die
  is_replay (some fd) = has_magic (whole (os.read fd 4).1 4)

  unfoldable pub process_file : Options pcre → (fname : Bytes) → (fuel : ℕ) → Result (Unit {0})
  unfolding is_replay process_replay_file process_pcap_file
  process_file o name fuel = is_replay (open_read name) >>= λ replay.
      if replay then process_replay_file o name fuel else process_pcap_file o name

  -- `init_file_size`, of which the exception is caught. The size is for the progress report.
  unfoldable pub init_file_size : (fname : Bytes) → Result ℕ
  init_file_size name = elim (stat name) [ none ↦ die | some size ↦ done size ]

  -- What `main` does with the options.
  unfoldable pub run_with : (fuel : ℕ) → Options pcre → Option Bytes → Result (Unit {0})
  unfolding init_file_size process_file
  run_with fuel o none = die
  run_with fuel o (some name) =
      init_file_size name >>= λ _. process_file o name fuel >>= λ _. exits 0

  unfoldable pub main : (fuel : ℕ) → List (ℕ × Bytes) → Result (Unit {0})
  unfolding parse_args run_with
  main fuel results = parse_args machine results >>= λ o. run_with fuel o o.fname
