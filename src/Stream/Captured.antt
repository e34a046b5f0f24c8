-- ===== src/Stream/Captured.antt =====
-- What is done to a stream keeps every packet one of a capture.
use mysqlpcap.Base.{[], refl, Bytes, arith, ℕ, zero, suc, Bool, none, some}
use mysqlpcap.Base.Int.{ℤ}
use mysqlpcap.Base.Run.{throws}
use mysqlpcap.Packet.{Timeval, PerfStats, make, Packet, Ptr, query}
use mysqlpcap.Pattern.{Applied, key, unmatched, get_query_key}
use mysqlpcap.Stats.{record_query}
use mysqlpcap.Stream.{
  create_new_packet, starting_packet, write_record, bypass_prev, bypass_next, unlink_pkt,
  consider_unlink_pkt, link_last, register_replay_packet,
}
use mysqlpcap.Stream.Complete.{
  c_string, keep_slow, record_stats, register_query, drop_answer, finish_query,
  handle_packet_complete,
}
use mysqlpcap.Sys.{Env, Stream, Sys, put}
use mysqlpcap.Packet.Captured.{IsCaptured}
use mysqlpcap.Sys.Captured.{
  AreCaptured, captured, mark-captured, release-captured, set_next-captured, set_prev-captured,
}
use mysqlpcap.Sys.Frame.{Frame, get-Frame, put-Frame, throws-Frame, out_of_fuel-Frame}
use mysqlpcap.Wire.{uint3korr}
use mysqlpcap.Tables.{handle_tables}

linked :
    {q : Packet} {next prev : Ptr}
    → IsCaptured q
    → IsCaptured (record q { next = next; prev = prev })
linked g = record {
  within = g.within;
  narrow = g.narrow;
  bytes = g.bytes;
  payload_is = g.payload_is;
  cur_len_is = g.cur_len_is;
}

timed : {q : Packet} {t : ℤ} → IsCaptured q → IsCaptured (record q { exec_time = t })
timed g = record {
  within = g.within;
  narrow = g.narrow;
  bytes = g.bytes;
  payload_is = g.payload_is;
  cur_len_is = g.cur_len_is;
}

make-captured :
    (ts : Timeval) (hdr : Bytes) (is_in : Bool) (perf : PerfStats)
    → IsCaptured (make ts (uint3korr hdr) is_in perf).0
unfolding make uint3korr
make-captured ts hdr is_in perf = record {
  bytes = [];
  payload_is = refl;
  cur_len_is = refl;
  within = omega arith;
  narrow = omega arith;
}

module _ {env : Env} where
  bypass_prev-captured : (p : Ptr) → Frame (AreCaptured {env = env}) (bypass_prev p)
  unfolding bypass_prev
  bypass_prev-captured p = search (captured, set_next-captured) depth 30

  bypass_next-captured : (p : Ptr) → Frame (AreCaptured {env = env}) (bypass_next p)
  unfolding bypass_next
  bypass_next-captured p = search (captured, set_prev-captured) depth 30

  unlink_pkt-captured : (s : Stream) (p : Ptr) → Frame (AreCaptured {env = env}) (unlink_pkt s p)
  unfolding unlink_pkt
  unlink_pkt-captured s p =
      search (captured, linked, bypass_prev-captured, bypass_next-captured, release-captured) depth
        30

  consider_unlink_pkt-captured :
      (s : Stream) (p : Ptr) (in_replay : Bool)
      → Frame (AreCaptured {env = env}) (consider_unlink_pkt s p in_replay)
  unfolding consider_unlink_pkt
  consider_unlink_pkt-captured s p in_replay = search (captured, unlink_pkt-captured) depth 30

  link_last-captured : (s : Stream) (p : Ptr) → Frame (AreCaptured {env = env}) (link_last s p)
  unfolding link_last
  link_last-captured s p = search (captured, set_next-captured, set_prev-captured) depth 30

  -- The replay file is not written.
  write_record-captured : (k : ℕ) (q : Packet) → Frame (AreCaptured {env = env}) (write_record k q)
  unfolding write_record
  write_record-captured k q = search (captured) depth 30

  register_replay_packet-captured :
      (s : Stream) (p : Ptr) → Frame (AreCaptured {env = env}) (register_replay_packet s p)
  unfolding register_replay_packet
  register_replay_packet-captured s p = search (captured, write_record-captured) depth 30

  keep_slow-captured : (s : Stream) (p : Ptr) → Frame (AreCaptured {env = env}) (keep_slow s p)
  unfolding keep_slow
  keep_slow-captured s p = search (captured, consider_unlink_pkt-captured) depth 30

  record_stats-captured : (q : Packet) → Frame (AreCaptured {env = env}) (record_stats q)
  unfolding record_stats
  record_stats-captured q =
      get-Frame (λ sys h. go sys h (get_query_key env.pcre env.patterns (query q) 1023))
    where
      go :
          (sys : Sys env)
          → AreCaptured sys
          → (a : Applied)
          → Frame (AreCaptured {env = env}) (elim a [
            | key k ↦ put (record sys {
              q_stats = record_query sys.q_stats (c_string k) q.exec_time;
              table_stats = elim sys.table_stats [
                | none ↦ none
                | some tables ↦ some (handle_tables tables (env.parse_tables (query q)) q.exec_time)
              ];
            })
            | _ ↦ λ _. throws
          ])
      go sys h (key k) = put-Frame _ h
      go sys h unmatched = throws-Frame
      go sys h Applied.throws = throws-Frame

  register_query-captured :
      (s : Stream) (p : Ptr) → Frame (AreCaptured {env = env}) (register_query s p)
  unfolding register_query
  register_query-captured s p =
      search (captured, mark-captured, keep_slow-captured, record_stats-captured) depth 30

  drop_answer-captured :
      (fuel : ℕ) (s : Stream) (p : Ptr) → Frame (AreCaptured {env = env}) (drop_answer fuel s p)
  unfolding drop_answer
  drop_answer-captured zero s p = out_of_fuel-Frame
  drop_answer-captured (suc fuel) s p =
      search
        (
          captured,
          register_replay_packet-captured,
          unlink_pkt-captured,
          consider_unlink_pkt-captured,
          drop_answer-captured fuel,
        )
        depth 30

  finish_query-captured :
      (s : Stream) (l : Packet) → Frame (AreCaptured {env = env}) (finish_query s l)
  unfolding finish_query
  finish_query-captured s l =
      search
        (
          captured, timed, register_replay_packet-captured, register_query-captured,
          consider_unlink_pkt-captured, drop_answer-captured,
        )
        depth 30

  pub handle_packet_complete-captured :
      (s : Stream) → Frame (AreCaptured {env = env}) (handle_packet_complete s)
  unfolding handle_packet_complete
  handle_packet_complete-captured s =
      search (captured, register_replay_packet-captured, finish_query-captured, unlink_pkt-captured)
        depth 30

  pub starting_packet-captured : (s : Stream) → Frame (AreCaptured {env = env}) (starting_packet s)
  unfolding starting_packet
  starting_packet-captured s = search (captured) depth 30

  pub create_new_packet-captured :
      (s : Stream) (ts : Timeval) (bs : Bytes) (is_in : Bool)
      → Frame (AreCaptured {env = env}) (create_new_packet s ts bs is_in)
  unfolding create_new_packet
  create_new_packet-captured s ts bs is_in =
      search (captured, make-captured, mark-captured, link_last-captured) depth 30
