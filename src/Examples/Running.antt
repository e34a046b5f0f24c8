-- ===== src/Examples/Running.antt =====
-- A manager that has just been made, a frame for it, and segments of a stream.
use mysqlpcap.Base.{
  ℕ, ◌≡◌, refl, Bool, true, false, Option, none, some, inl, List, Bytes, [], ◌∷◌, ◌++◌, arith,
  length,
}
use mysqlpcap.Base.Run.{Run, ok, and_then, Ensures}
use mysqlpcap.Files.{memory}
use mysqlpcap.Fragments
use mysqlpcap.Manager.Capture.{Frame, Segment, client_key, process_pkt}
use mysqlpcap.Manager.{find_stream}
use mysqlpcap.Packet
use mysqlpcap.Packet.{Timeval, PerfStats, make, mark_ref}
use mysqlpcap.Pattern.{Pcre, matched}
use mysqlpcap.Stats.{no_queries}
use mysqlpcap.Stream.Append.{append}
use mysqlpcap.Stream.Append.Frames.{frames}
use mysqlpcap.Stream.Append.Sent.{created_of, AreRead, append-frames}
use mysqlpcap.Stream.Append.Segments.{Ends}
use mysqlpcap.Stream.Append.Split.{append-append}
use mysqlpcap.Stream.Append.Flag.{stream_of}
use mysqlpcap.Sys.{Env, Stream, Sys, new_stream, get, write}
use mysqlpcap.Sys.Sound.{IsSound}
use mysqlpcap.Wire.{uint3korr}

-- A library that matches nothing.
abbrev pub silent : Pcre
silent = record {
  Code = Unit;
  compile = λ search. some tt;
  substitute = λ c s r n. (matched 0, s, length s);
}

abbrev pub settings : Env
settings = record {
  os = memory;
  pcre = silent;
  patterns = [];
  n_slow_queries = 1;
  do_run = false;
  mysql_ip = 0x0200a8c0;
  mysql_port = 3306;
  ethernet_header_size = 0;
  parse_tables = λ query. [];
}

abbrev pub start : Sys settings
start = record {
  heap = λ p. none;
  fresh = 1;
  perf = record { pkt_mem_in_use = 0; pkt_alloced = 0; pkt_freed = 0 };
  lookup = [];
  slow_queries = [];
  q_stats = no_queries;
  table_stats = none;
  first_packet_ts = none;
  replay_fd = none;
  in_replay_write = false;
  ip_stream = Fragments.empty;
}

abbrev start-IsSound : IsSound settings start
start-IsSound = record { bounded = λ p. tt; ready = tt }

abbrev pub moment : Timeval
moment = record { tv_sec = 1700000000; tv_usec = 5 }

-- The query `select` in a packet from 192.168.0.1, port 4660, to 192.168.0.2, port 3306.
abbrev pub query_bytes : Bytes
query_bytes = 7 ∷ 0 ∷ 0 ∷ 0 ∷ 3 ∷ b's' ∷ b'e' ∷ b'l' ∷ b'e' ∷ b'c' ∷ b't' ∷ []

abbrev pub query_frame : Frame
query_frame = record {
  ts = moment;
  caplen = 51;
  bytes =
      0x45 ∷ 0 ∷ 0 ∷ 51 ∷ 0 ∷ 0 ∷ 0 ∷ 0 ∷ 64 ∷ 6 ∷ 0 ∷ 0 ∷ 192 ∷ 168 ∷ 0 ∷ 1 ∷ 192 ∷ 168 ∷ 0 ∷ 2
      ∷ 0x12 ∷ 0x34 ∷ 0x0c ∷ 0xea ∷ 0 ∷ 0 ∷ 0 ∷ 9 ∷ 0 ∷ 0 ∷ 0 ∷ 0 ∷ 0x50 ∷ 0x18 ∷ 0 ∷ 0 ∷ 0 ∷ 0 ∷ 0
      ∷ 0 ∷ query_bytes;
}

-- Whether a run returned true, with that many streams in the map.
abbrev returned : Run (Sys settings) Bool → Option (Bool × ℕ)
returned (ok b t) = some (b, length t.lookup)
returned _ = none

-- What the frame says.
abbrev query_segment : Segment
query_segment = record {
  ip_src = 0x0100a8c0;
  ip_dst = 0x0200a8c0;
  ip_id = 0;
  th_sport = 0x3412;
  th_dport = 0xea0c;
  th_seq = 0x09000000;
  th_flags = 0x18;
  contents = query_bytes;
  has_more_fragments = false;
}

-- The packet in it.
abbrev select : List (ℕ × Bytes)
select = (0, 3 ∷ b's' ∷ b'e' ∷ b'l' ∷ b'e' ∷ b'c' ∷ b't' ∷ []) ∷ []

process_query_frame : returned (process_pkt query_frame start) ≡ some (true, 1)
unfolding process_pkt mysqlpcap.Manager.Capture.has_bit mysqlpcap.Sys.get mysqlpcap.Sys.put
    mysqlpcap.Sys.load mysqlpcap.Sys.store mysqlpcap.Sys.require mysqlpcap.Sys.write
    mysqlpcap.Sys.allocate mysqlpcap.Sys.mark mysqlpcap.Sys.get_key Fragments.has_fragments
    Fragments.find mysqlpcap.Manager.Capture.ntohs mysqlpcap.Manager.Capture.client_key
    mysqlpcap.Manager.put_stream mysqlpcap.Manager.find_stream mysqlpcap.Stream.register_tcp_seq
    mysqlpcap.Manager.Text.could_be_query mysqlpcap.Manager.Text.scan_nocase
    mysqlpcap.Manager.Text.starts_nocase mysqlpcap.Manager.Text.lower mysqlpcap.Stream.Append.append
    mysqlpcap.Stream.take_header mysqlpcap.Stream.create_new_packet mysqlpcap.Wire.uint3korr
    mysqlpcap.Packet.make mysqlpcap.Packet.mark_ref mysqlpcap.Packet.append
    mysqlpcap.Packet.is_query mysqlpcap.Stream.Complete.handle_packet_complete
    mysqlpcap.Stream.register_replay_packet
process_query_frame = refl

abbrev client : Stream
client = new_stream 0x0100a8c0 0x3412 0x0200a8c0 0xea0c

-- A query of three bytes and a packet of one byte.
abbrev two : List (ℕ × Bytes)
two = (0, 3 ∷ b's' ∷ b'q' ∷ []) ∷ (0, 1 ∷ []) ∷ []

append-frames_example :
    (s' : Stream) × (t' : Sys settings) × (append client moment (frames two) true start
      ≡ ok (s', created_of two false) t')
    × AreRead client s' start t' two
append-frames_example =
    append-frames moment client two start (omega arith)
      ((omega arith, omega arith), ((omega arith, omega arith), tt))
      (record {
        no_header = refl;
        size = refl;
        not_recording = refl;
        allocated = omega arith;
        between = inl (refl, refl);
      })

-- The query in two segments, of which the first ends inside the packet.
abbrev first_half : Bytes
first_half = 7 ∷ 0 ∷ 0 ∷ 0 ∷ 3 ∷ 115 ∷ []

abbrev second_half : Bytes
second_half = 101 ∷ 108 ∷ 101 ∷ 99 ∷ 116 ∷ []

first_half-Ends : Ensures Ends (append client moment first_half true start)
unfolding append get write mark_ref make Packet.append uint3korr
first_half-Ends = (refl, omega arith)

append-append_example :
    stream_of (append client moment (first_half ++ second_half) true start)
    ≡ and_then
        (append client moment first_half true start)
        (λ r t. stream_of (append r.0 moment second_half true t))
append-append_example =
    append-append moment true client first_half second_half start (omega arith)
      (record { short = omega arith; size = refl }) start-IsSound (λ p. tt) first_half-Ends
