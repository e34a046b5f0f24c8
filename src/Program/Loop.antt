-- ===== src/Program/Loop.antt =====
-- What `process_pcap_file` of mysqlpcap.cc does with its manager. `pd` is never set there.
use mysqlpcap.Base.{Bool, true, false, List, [], ◌∷◌}
use mysqlpcap.Base.Run.{M, pure, ◌>>◌}
use mysqlpcap.Manager.Capture.{Frame, process_pkt}
use mysqlpcap.Manager.Shutdown.{finish_replay, print_query_stats}
use mysqlpcap.Sys.{Env, Sys}

module _ {env : Env} where
  -- The loop over the frames.
  unfoldable pub capture_loop : List Frame → M (Sys env) (Unit {0})
  unfolding process_pkt
  capture_loop [] = pure tt
  capture_loop (f ∷ frames) = do process_pkt f; capture_loop frames

  -- What follows it.
  unfoldable pub finish : (do_run : Bool) → M (Sys env) (Unit {0})
  unfolding finish_replay print_query_stats
  finish true = do finish_replay; print_query_stats
  finish false = print_query_stats
