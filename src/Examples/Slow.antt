-- ===== src/Examples/Slow.antt =====
-- Three queries that take 5, 7 and 9 microseconds, of which the slowest two are kept.
use mathlib.Core.List.{Perm}
use mathlib.Core.List.Perm
use mysqlpcap.Base.{◌+◌, ◌*◌, false, ◌≡◌, ◌⊎◌, refl, inr, some, none, List, [], ◌∷◌, ◌++◌, arith}
use mysqlpcap.Base.Int.{ℤ, pos}
use mysqlpcap.Base.Run.{ok}
use mysqlpcap.Examples.Replaying.{ask}
use mysqlpcap.Examples.Running.{settings, start}
use mysqlpcap.Packet.{Ptr}
use mysqlpcap.Stream.{consider_unlink_pkt}
use mysqlpcap.Stream.Complete.{time_at, keep_slow}
use mysqlpcap.Stream.Complete.Order.{Timed, Slowest}
use mysqlpcap.Stream.Complete.Slowest.{keep_slow-Slowest}
use mysqlpcap.Sys.{Env, Stream, Sys, new_stream}

abbrev two_slow : Env
two_slow = record settings { n_slow_queries = 2 }

abbrev took : Ptr → ℤ
took p = pos (2 * p + 3)

abbrev registered : Sys two_slow
registered = record {
  heap = λ p. some (record ask { exec_time = took p });
  fresh = 4;
  perf = start.perf;
  lookup = [];
  slow_queries = 2 ∷ 1 ∷ [];
  q_stats = start.q_stats;
  table_stats = none;
  first_packet_ts = none;
  replay_fd = none;
  in_replay_write = false;
  ip_stream = start.ip_stream;
}

abbrev stream : Stream
stream = new_stream 0x0a000001 0x1234 0x0a000002 0xea0c

kept : Slowest took 2 (2 ∷ 1 ∷ []) (2 ∷ 1 ∷ [])
kept = record {
  left_out = [];
  same = Perm.rfl;
  sorted = ((omega arith, tt), (tt, tt));
  no_slower = tt;
  fits = omega arith;
  full = inr refl;
}

keep_slow-Slowest_example :
    (ks : List Ptr) × Slowest took 2 (3 ∷ 2 ∷ 1 ∷ []) ks
    × Timed took registered.heap ks
    × ((keep_slow stream 3 registered ≡ ok stream (record registered { slow_queries = ks }))
        ⊎ ((e : Ptr) × (keep_slow stream 3 registered
              ≡ consider_unlink_pkt stream e false (record registered { slow_queries = ks }))
            × Perm (ks ++ e ∷ []) (3 ∷ registered.slow_queries)))
unfolding time_at
keep_slow-Slowest_example =
    keep_slow-Slowest took registered stream 3 (record ask { exec_time = took 3 }) (2 ∷ 1 ∷ [])
      (omega arith) refl refl (refl, (refl, tt)) kept
