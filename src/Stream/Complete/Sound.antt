-- ===== src/Stream/Complete/Sound.antt =====
-- What happens to a packet that is complete keeps the invariant.
use mysqlpcap.Base.{ℕ, zero, suc, ◌+◌, false, not, ◌&&◌, none, some, length, ltb, ◌==◌}
use mysqlpcap.Base.Run.{throws}
use mysqlpcap.Packet.{Packet, Ptr, null, is_query, is_eof, ts_diff, query}
use mysqlpcap.Pattern.{Applied, key, unmatched, get_query_key}
use mysqlpcap.Stats.{record_query}
use mysqlpcap.Stream.Complete.{
  insert_slow, split_last, c_string, keep_slow, record_stats, register_query, drop_answer,
  finish_query, handle_packet_complete,
}
use mysqlpcap.Stream.Sound.{
  unlink_pkt-Keeps, consider_unlink_pkt-Keeps, register_replay_packet-Keeps,
}
use mysqlpcap.Sys.{Env, Stream, Sys, put}
use mysqlpcap.Sys.Sound.{
  IsReady, IsSound, Keeps, Any, any, throws-Keeps, out_of_fuel-Keeps, bind-Keeps, branch-Keeps,
  pure-Keeps, require-Keeps, get-Keeps, put-Keeps, assert-Keeps, load-Keeps, store-Keeps,
  mark-Keeps,
}
use mysqlpcap.Tables.{handle_tables}

module _ {env : Env} where
  keep_slow-Keeps : (s : Stream) (p : Ptr) → IsReady s → Keeps {env = env} IsReady (keep_slow s p)
  unfolding keep_slow
  keep_slow-Keeps s p r = bind-Keeps (load-Keeps p) (λ q g. bind-Keeps get-Keeps (λ sys sound.
      bind-Keeps (require-Keeps Any (insert_slow sys.heap q.exec_time p sys.slow_queries) (any _))
        (λ slow _.
          branch-Keeps (not (ltb env.n_slow_queries (length slow)))
            (λ e.
              bind-Keeps
                (put-Keeps (record sys { slow_queries = slow })
                  (record { bounded = sound.bounded; ready = sound.ready }))
                (λ _ _. pure-Keeps IsReady s r))
            (λ e. bind-Keeps (require-Keeps Any (split_last slow) (any _)) (λ x _.
              bind-Keeps
                (put-Keeps (record sys { slow_queries = x.0 })
                  (record { bounded = sound.bounded; ready = sound.ready }))
                (λ _ _. consider_unlink_pkt-Keeps s x.1 false r))))))

  record_stats-Keeps : (q : Packet) → Keeps {env = env} Any (record_stats q)
  unfolding record_stats
  record_stats-Keeps q =
      bind-Keeps get-Keeps
        (λ sys sound. go sys sound (get_query_key env.pcre env.patterns (query q) 1023))
    where
      go :
          (sys : Sys env)
          → IsSound env sys
          → (a : Applied)
          → Keeps {env = env} Any (elim a [
            | key k ↦ put (record sys {
              q_stats = record_query sys.q_stats (c_string k) q.exec_time;
              table_stats = elim sys.table_stats [
                | none ↦ none
                | some tables ↦ some (handle_tables tables (env.parse_tables (query q)) q.exec_time)
              ];
            })
            | _ ↦ λ _. throws
          ])
      go sys sound (key k) = put-Keeps _ (record { bounded = sound.bounded; ready = sound.ready })
      go sys sound unmatched = throws-Keeps
      go sys sound Applied.throws = throws-Keeps

  register_query-Keeps :
      (s : Stream) (p : Ptr) → IsReady s → Keeps {env = env} IsReady (register_query s p)
  unfolding register_query
  register_query-Keeps s p r = bind-Keeps (mark-Keeps p) (λ _ _.
      bind-Keeps (keep_slow-Keeps s p r) (λ s' r'.
        branch-Keeps env.do_run (λ e. pure-Keeps IsReady s' r')
          (λ e.
            bind-Keeps (load-Keeps p)
              (λ q g. bind-Keeps (record_stats-Keeps q) (λ _ _. pure-Keeps IsReady s' r')))))

  drop_answer-Keeps :
      (fuel : ℕ) (s : Stream) (p : Ptr)
      → IsReady s
      → Keeps {env = env} IsReady (drop_answer fuel s p)
  unfolding drop_answer
  drop_answer-Keeps zero s p r = out_of_fuel-Keeps
  drop_answer-Keeps (suc fuel) s p r =
      branch-Keeps (p == null) (λ e. pure-Keeps IsReady s r)
        (λ e. bind-Keeps (load-Keeps p) (λ q g.
          bind-Keeps
            (branch-Keeps q.is_in (λ _. register_replay_packet-Keeps s p)
              (λ _. pure-Keeps Any tt tt))
            (λ _ _. bind-Keeps (load-Keeps p) (λ q' g'.
              bind-Keeps
                (branch-Keeps (not (p == s.last)) (λ _. unlink_pkt-Keeps s p r)
                  (λ _. consider_unlink_pkt-Keeps s p false r))
                (λ s' r'. drop_answer-Keeps fuel s' q'.next r')))))

  finish_query-Keeps :
      (s : Stream) (l : Packet) → IsReady s → Keeps {env = env} IsReady (finish_query s l)
  unfolding finish_query
  finish_query-Keeps s l r = bind-Keeps (assert-Keeps (l.next == null)) (λ _ _.
      bind-Keeps (load-Keeps s.last_query) (λ lq g.
        bind-Keeps (assert-Keeps (not (lq.next == null))) (λ _ _.
          bind-Keeps (register_replay_packet-Keeps s s.last) (λ _ _.
            bind-Keeps (load-Keeps s.last_query) (λ lq' g'.
              bind-Keeps
                (store-Keeps s.last_query (record lq' { exec_time = ts_diff lq' l })
                  (record { within = g'.within; narrow = g'.narrow; inside = g'.inside }))
                (λ _ _. bind-Keeps (register_query-Keeps s s.last_query r) (λ s' r'.
                  bind-Keeps (consider_unlink_pkt-Keeps s' s.last_query false r') (λ s'' r''.
                    bind-Keeps get-Keeps (λ sys sound.
                      bind-Keeps (drop_answer-Keeps (sys.fresh + 1) s'' lq'.next r'') (λ done ready.
                        pure-Keeps IsReady (record done { last_query = null })
                          (record { short = ready.short; size = ready.size })))))))))))

  pub handle_packet_complete-Keeps :
      (s : Stream) → IsReady s → Keeps {env = env} IsReady (handle_packet_complete s)
  unfolding handle_packet_complete
  handle_packet_complete-Keeps s r = bind-Keeps (load-Keeps s.last) (λ l g.
      bind-Keeps (require-Keeps Any (is_query l) (any _)) (λ is_q _.
        branch-Keeps is_q
          (λ e. bind-Keeps (register_replay_packet-Keeps s s.last) (λ _ _.
            pure-Keeps IsReady (record s { last_query = s.last })
              (record { short = r.short; size = r.size })))
          (λ e. bind-Keeps (require-Keeps Any (is_eof l) (any _)) (λ ends _.
            branch-Keeps (not (s.last_query == null) && ends) (λ f. finish_query-Keeps s l r)
              (λ f.
                branch-Keeps (not l.is_in && not ends) (λ f'. unlink_pkt-Keeps s s.last r)
                  (λ f'. pure-Keeps IsReady s r))))))
