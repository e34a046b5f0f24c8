-- ===== src/Examples/ReplayFiles.antt =====
-- A record of a replay file, in a file held in memory, and a packet that is filled.
use mysqlpcap.Base.{◌≡◌, refl, none, some, [], ◌∷◌, ◌++◌, take, arith, true, false}
use mysqlpcap.Files.{memory, IsRegular}
use mysqlpcap.Packet
use mysqlpcap.Packet.{Packet, PerfStats, Timeval, make, cleanup, mark_ref, unmark_ref}
use mysqlpcap.Packet.Append.{fill, append-fill}
use mysqlpcap.Replay.{replay_read, replay_write, contents}
use mysqlpcap.Replay.Record.{IsRecord, encode}
use mysqlpcap.Replay.RoundTrip.{read_into, replay_read-replay_write, replay_read_truncated}

abbrev pub memory-IsRegular : IsRegular memory
memory-IsRegular = record {
  written = λ f. f.0;
  remaining = λ f. f.1;
  write_all = λ f bs. refl;
  write_behind = λ f bs. refl;
  read_next = λ f n. refl;
  read_past = λ f n. refl;
}

abbrev pub no_perf : PerfStats
no_perf = record { pkt_mem_in_use = 0; pkt_alloced = 0; pkt_freed = 0 }

abbrev pub time : Timeval
time = record { tv_sec = 1700000000; tv_usec = 250000 }

-- A packet of three bytes, with two of them, and with all.
abbrev pub part : Packet
part = record (make time 3 true no_perf).0 { payload = some (3 ∷ 115 ∷ []); cur_len = 2 }

abbrev pub full : Packet
full = record part { payload = some (3 ∷ 115 ∷ 101 ∷ []); cur_len = 3; ref_count = 1 }

append-fill_example : Packet.append part (101 ∷ 7 ∷ []) ≡ some (fill part (3 ∷ 115 ∷ 101 ∷ []), 1)
unfolding make
append-fill_example =
    append-fill (101 ∷ 7 ∷ [])
      (record { payload_is = refl; cur_len_is = refl; within = omega arith }) (omega arith)
      (omega arith)

pub full-IsRecord : IsRecord 77 full
unfolding contents make
full-IsRecord = record {
  key_fits = omega arith;
  sec_fits = omega arith;
  usec_fits = omega arith;
  len_fits = omega arith;
  full = refl;
}

-- The file in which `full` has been written, read again with one byte behind the record.
abbrev reopened : memory.File
reopened = ([], (replay_write memory ([], []) 77 full).0.0 ++ 9 ∷ [])

replay_read-replay_write_example :
    ((replay_write memory ([], []) 77 full).1 ≡ false)
    × ((replay_read memory reopened Packet.empty no_perf).3 ≡ some 77)
    × ((replay_read memory reopened Packet.empty no_perf).1 ≡ read_into Packet.empty full)
    × ((replay_read memory reopened Packet.empty no_perf).0.1 ≡ 9 ∷ [])
replay_read-replay_write_example =
    replay_read-replay_write memory memory-IsRegular ([], []) reopened 77 full Packet.empty no_perf
      (9 ∷ []) full-IsRecord refl refl

-- A file that was cut inside the record.
abbrev truncated : memory.File
truncated = ([], take 30 (encode 77 full))

replay_read_truncated_example :
    ((replay_read memory truncated Packet.empty no_perf).3 ≡ none)
    × ((replay_read memory truncated Packet.empty no_perf).1.payload ≡ none)
    × ((replay_read memory truncated Packet.empty no_perf).1.len ≡ 0)
unfolding mysqlpcap.Replay.header contents make mysqlpcap.Wire.int8store
replay_read_truncated_example =
    replay_read_truncated memory memory-IsRegular truncated 77 full Packet.empty no_perf 30
      full-IsRecord (omega arith) refl
