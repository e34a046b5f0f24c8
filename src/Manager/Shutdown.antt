-- ===== src/Manager/Shutdown.antt =====
-- The end of a manager: `finish_replay`, `print_query_stats` without what it prints, and `cleanup`.
-- The files of the CSV output and of the table statistics, and the connection for EXPLAIN, which
-- `cleanup` closes too, are not part of the state.
pub mod Freed
use mysqlpcap.Base.{ℕ, Bool, true, false, Option, none, some, List, [], ◌∷◌, Bytes, map}
use mysqlpcap.Base.Run.{Run, ok, M, pure, ◌>>=◌, ◌>>◌}
use mysqlpcap.Packet
use mysqlpcap.Packet.{Packet, Ptr, unmark_ref}
use mysqlpcap.Stats.{QueryStats, PatternStats}
use mysqlpcap.Stats
use mysqlpcap.Stream
use mysqlpcap.Stream.{end_replay}
use mysqlpcap.Sys.{Env, Stream, Sys, get, put, load, require, write}

-- `Query_stats::finalize`
unfoldable pub finalize_all : QueryStats → QueryStats
unfolding Stats.finalize
finalize_all q = record q { lookup = map (λ (k, s). (k, Stats.finalize s)) q.lookup }

module _ {env : Env} where
  -- `finish_replay`, but for what the threads do until they are joined
  unfoldable pub finish_replay : M (Sys env) (Unit {0})
  unfolding get put end_replay
  finish_replay = do
    sys ← get
    put (record sys { lookup = map (λ (k, s). (k, end_replay s)) sys.lookup })

  -- `print_query_stats`
  unfoldable pub print_query_stats : M (Sys env) (Unit {0})
  unfolding get put finalize_all
  print_query_stats = do sys ← get; put (record sys { q_stats = finalize_all sys.q_stats })

  -- `delete p`, with the destructor
  unfoldable pub delete_packet : Ptr → M (Sys env) (Unit {0})
  unfolding get put load write
  delete_packet p = do
    q ← load p
    sys ← get
    let (q', perf) = Packet.cleanup q sys.perf
    put (record sys { heap = write sys.heap p none; perf = perf })

  -- `pkt->unmark_ref()`, of which the result is not looked at
  unfoldable pub drop_ref : Ptr → M (Sys env) (Unit {0})
  unfolding get put load require write
  drop_ref p = do
    q ← load p
    sys ← get
    (q', perf, gone) ← require (unmark_ref q sys.perf)
    put (record sys { heap = write sys.heap p (some q'); perf = perf })

  -- The loop of `cleanup` over the slow queries.
  unfoldable pub free_slow : List Ptr → M (Sys env) (Unit {0})
  unfolding drop_ref delete_packet
  free_slow [] = pure tt
  free_slow (p ∷ ps) = do drop_ref p; delete_packet p; free_slow ps

  -- The loop over the streams.
  unfoldable pub free_streams : List (ℕ × Stream) → M (Sys env) (Unit {0})
  unfolding Stream.cleanup
  free_streams [] = pure tt
  free_streams ((k, s) ∷ m) = do Stream.cleanup s; free_streams m

  -- `Mysql_stream_manager::cleanup`
  unfoldable pub cleanup : M (Sys env) (Unit {0})
  unfolding get put free_slow free_streams
  cleanup = do
    sys ← get
    free_slow sys.slow_queries
    sys' ← get
    put (record sys' { slow_queries = [] })
    free_streams sys'.lookup
    sys'' ← get
    put (record sys'' { lookup = []; replay_fd = none })
