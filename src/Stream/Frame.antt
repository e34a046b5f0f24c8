-- ===== src/Stream/Frame.antt =====
-- What is done to a stream leaves the replay file alone, while no replay file is written.
use mysqlpcap.Base.{ℕ, zero, suc, Bool, Option, none, some}
use mysqlpcap.Base.Run.{throws}
use mysqlpcap.Packet.{Packet, Ptr, query}
use mysqlpcap.Pattern.{Applied, key, unmatched, get_query_key}
use mysqlpcap.Stats.{record_query}
use mysqlpcap.Stream.{
  bypass_prev, bypass_next, unlink_pkt, consider_unlink_pkt, link_last, register_replay_packet,
  cleanup_loop, cleanup,
}
use mysqlpcap.Stream.Append.{append_packet}
use mysqlpcap.Stream.Complete.{
  c_string, keep_slow, record_stats, register_query, drop_answer, finish_query,
  handle_packet_complete,
}
use mysqlpcap.Sys.{Env, Stream, Sys, put}
use mysqlpcap.Sys.Frame.{
  At, Frame, frame, get-Frame, put-Frame, throws-Frame, out_of_fuel-Frame, set_next-Frame,
  set_prev-Frame, mark-Frame, release-Frame, pure-Frame,
}
use mysqlpcap.Tables.{handle_tables}

module _ {env : Env} {fd : Option env.os.File} where
  bypass_prev-Frame : (p : Ptr) → Frame (At {env = env} fd) (bypass_prev p)
  unfolding bypass_prev
  bypass_prev-Frame p = search (frame, set_next-Frame) depth 30

  bypass_next-Frame : (p : Ptr) → Frame (At {env = env} fd) (bypass_next p)
  unfolding bypass_next
  bypass_next-Frame p = search (frame, set_prev-Frame) depth 30

  unlink_pkt-Frame : (s : Stream) (p : Ptr) → Frame (At {env = env} fd) (unlink_pkt s p)
  unfolding unlink_pkt
  unlink_pkt-Frame s p =
      search (frame, bypass_prev-Frame, bypass_next-Frame, release-Frame) depth 30

  consider_unlink_pkt-Frame :
      (s : Stream) (p : Ptr) (in_replay : Bool)
      → Frame (At {env = env} fd) (consider_unlink_pkt s p in_replay)
  unfolding consider_unlink_pkt
  consider_unlink_pkt-Frame s p in_replay = search (frame, unlink_pkt-Frame) depth 30

  link_last-Frame : (s : Stream) (p : Ptr) → Frame (At {env = env} fd) (link_last s p)
  unfolding link_last
  link_last-Frame s p = search (frame, set_next-Frame, set_prev-Frame) depth 30

  -- The replay file is not written.
  register_replay_packet-Frame :
      (s : Stream) (p : Ptr) → Frame (At {env = env} fd) (register_replay_packet s p)
  unfolding register_replay_packet
  register_replay_packet-Frame s p = get-Frame (λ sys h. rw h.1 (pure-Frame tt))

  keep_slow-Frame : (s : Stream) (p : Ptr) → Frame (At {env = env} fd) (keep_slow s p)
  unfolding keep_slow
  keep_slow-Frame s p = search (frame, consider_unlink_pkt-Frame) depth 30

  record_stats-Frame : (q : Packet) → Frame (At {env = env} fd) (record_stats q)
  unfolding record_stats
  record_stats-Frame q =
      get-Frame (λ sys h. go sys h (get_query_key env.pcre env.patterns (query q) 1023))
    where
      go :
          (sys : Sys env)
          → At fd sys
          → (a : Applied)
          → Frame (At {env = env} fd) (elim a [
            | key k ↦ put (record sys {
              q_stats = record_query sys.q_stats (c_string k) q.exec_time;
              table_stats = elim sys.table_stats [
                | none ↦ none
                | some tables ↦ some (handle_tables tables (env.parse_tables (query q)) q.exec_time)
              ];
            })
            | _ ↦ λ _. throws
          ])
      go sys h (key k) = put-Frame _ h
      go sys h unmatched = throws-Frame
      go sys h Applied.throws = throws-Frame

  register_query-Frame : (s : Stream) (p : Ptr) → Frame (At {env = env} fd) (register_query s p)
  unfolding register_query
  register_query-Frame s p =
      search (frame, mark-Frame, keep_slow-Frame, record_stats-Frame) depth 30

  drop_answer-Frame :
      (fuel : ℕ) (s : Stream) (p : Ptr) → Frame (At {env = env} fd) (drop_answer fuel s p)
  unfolding drop_answer
  drop_answer-Frame zero s p = out_of_fuel-Frame
  drop_answer-Frame (suc fuel) s p =
      search
        (
          frame,
          register_replay_packet-Frame,
          unlink_pkt-Frame,
          consider_unlink_pkt-Frame,
          drop_answer-Frame fuel,
        )
        depth 30

  finish_query-Frame : (s : Stream) (l : Packet) → Frame (At {env = env} fd) (finish_query s l)
  unfolding finish_query
  finish_query-Frame s l =
      search
        (
          frame, register_replay_packet-Frame, register_query-Frame, consider_unlink_pkt-Frame,
          drop_answer-Frame,
        )
        depth 30

  handle_packet_complete-Frame : (s : Stream) → Frame (At {env = env} fd) (handle_packet_complete s)
  unfolding handle_packet_complete
  handle_packet_complete-Frame s =
      search (frame, register_replay_packet-Frame, finish_query-Frame, unlink_pkt-Frame) depth 30

  pub append_packet-Frame : (s : Stream) (p : Ptr) → Frame (At {env = env} fd) (append_packet s p)
  unfolding append_packet
  append_packet-Frame s p =
      search (frame, mark-Frame, link_last-Frame, handle_packet_complete-Frame) depth 30

  cleanup_loop-Frame :
      (fuel : ℕ) (s : Stream) (p : Ptr) → Frame (At {env = env} fd) (cleanup_loop fuel s p)
  unfolding cleanup_loop
  cleanup_loop-Frame zero s p = out_of_fuel-Frame
  cleanup_loop-Frame (suc fuel) s p =
      search (frame, unlink_pkt-Frame, cleanup_loop-Frame fuel) depth 30

  pub cleanup-Frame : (s : Stream) → Frame (At {env = env} fd) (cleanup s)
  unfolding cleanup
  cleanup-Frame s = search (frame, cleanup_loop-Frame) depth 30
