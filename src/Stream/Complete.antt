-- ===== src/Stream/Complete.antt =====
-- What happens to a packet that is complete: `Mysql_stream_manager::register_query` and
-- `Mysql_stream::handle_packet_complete`. A loop over the list of packets has as much fuel as
-- packets were ever made, and one round more.
pub mod Sound
pub mod Order
pub mod Slowest
use mysqlpcap.Base.{
  ℕ, zero, suc, ◌+◌, false, not, ◌&&◌, Option, none, some, List, [], ◌∷◌, Bytes, length, ltb, ◌==◌,
  if◌then◌else◌,
}
use mysqlpcap.Base.Int.{ℤ, ltb_ℤ}
use mysqlpcap.Base.Run.{throws, out_of_fuel, M, pure, assert, ◌>>=◌, ◌>>◌}
use mysqlpcap.Packet.{Packet, Ptr, null, is_query, is_eof, ts_diff, query}
use mysqlpcap.Pattern.{key, get_query_key}
use mysqlpcap.Stats.{record_query}
use mysqlpcap.Sys.{Env, Stream, Sys, Heap, get, put, load, store, require, mark}
use mysqlpcap.Stream.{unlink_pkt, consider_unlink_pkt, register_replay_packet}
use mysqlpcap.Tables.{handle_tables}

-- `exec_time` of the packet at an address, for the order of the slow queries
unfoldable pub time_at : Heap → Ptr → Option ℤ
time_at h p = elim (h p) [ none ↦ none | some q ↦ some q.exec_time ]

-- `slow_queries.insert`: in front of the first query that took less time
unfoldable pub insert_slow : Heap → (exec_time : ℤ) → Ptr → List Ptr → Option (List Ptr)
unfolding time_at
insert_slow h t p [] = some (p ∷ [])
insert_slow h t p (x ∷ xs) =
    let later = insert_slow h t p xs in
    elim (time_at h x) [
      | none ↦ none
      | some u ↦
          if ltb_ℤ u t
          then some (p ∷ x ∷ xs)
          else elim later [ none ↦ none | some ys ↦ some (x ∷ ys) ]
    ]

-- `--slow_queries.end()` and `erase`: the last of a list that is not empty
unfoldable pub split_last : List Ptr → Option (List Ptr × Ptr)
split_last [] = none
split_last (x ∷ xs) = elim (split_last xs) [ none ↦ some ([], x) | some (ys, y) ↦ some (x ∷ ys, y) ]

-- A key as the C string that `record_query` is given
unfoldable pub c_string : Bytes → Bytes
c_string [] = []
c_string (c ∷ cs) = if c == 0 then [] else c ∷ c_string cs

module _ {env : Env} where
  -- The list of slow queries, with the query put in, and without its last if it is too long.
  unfoldable pub keep_slow : Stream → Ptr → M (Sys env) Stream
  unfolding load require insert_slow split_last
  keep_slow s p = do
    q ← load p
    sys ← get
    slow ← require (insert_slow sys.heap q.exec_time p sys.slow_queries)
    if not (ltb env.n_slow_queries (length slow))
        then (do put (record sys { slow_queries = slow }); pure s)
        else do
          (kept, evicted) ← require (split_last slow)
          put (record sys { slow_queries = kept })
          consider_unlink_pkt s evicted false

  -- The statistics of a captured query.
  unfoldable pub record_stats : Packet → M (Sys env) (Unit {0})
  unfolding c_string
  record_stats q = do
    sys ← get
    let t = q.exec_time
    elim (get_query_key env.pcre env.patterns (query q) 1023) [
      | key k ↦ put (record sys {
        q_stats = record_query sys.q_stats (c_string k) t;
        table_stats = elim sys.table_stats [
          | none ↦ none
          | some tables ↦ some (handle_tables tables (env.parse_tables (query q)) t)
        ];
      })
      | _ ↦ λ _. throws
    ]

  -- `register_query`
  unfoldable pub register_query : Stream → Ptr → M (Sys env) Stream
  unfolding mark keep_slow load record_stats
  register_query s p = do
    mark p
    s' ← keep_slow s p
    if env.do_run then pure s' else (do q ← load p; record_stats q; pure s')

  -- The loop of `handle_packet_complete` over the packets behind the query.
  unfoldable pub drop_answer : ℕ → Stream → Ptr → M (Sys env) Stream
  unfolding load register_replay_packet unlink_pkt consider_unlink_pkt
  drop_answer zero s p = λ _. out_of_fuel
  drop_answer (suc fuel) s p = if p == null then pure s else do
    q ← load p
    if q.is_in then register_replay_packet s p else pure tt
    q' ← load p
    s' ← if not (p == s.last) then unlink_pkt s p else consider_unlink_pkt s p false
    drop_answer fuel s' q'.next

  -- `handle_packet_complete`, when the last packet ends the answer to `last_query`
  unfoldable pub finish_query : Stream → Packet → M (Sys env) Stream
  unfolding load register_replay_packet store register_query consider_unlink_pkt drop_answer
  finish_query s l = do
    assert (l.next == null)
    lq ← load s.last_query
    assert (not (lq.next == null))
    register_replay_packet s s.last
    lq' ← load s.last_query
    store s.last_query (record lq' { exec_time = ts_diff lq' l })
    s' ← register_query s s.last_query
    s'' ← consider_unlink_pkt s' s.last_query false
    sys ← get
    done ← drop_answer (sys.fresh + 1) s'' lq'.next
    pure (record done { last_query = null })

  -- `handle_packet_complete`
  unfoldable pub handle_packet_complete : Stream → M (Sys env) Stream
  unfolding load require register_replay_packet finish_query unlink_pkt
  handle_packet_complete s = do
    l ← load s.last
    is_q ← require (is_query l)
    if is_q
        then (do register_replay_packet s s.last; pure (record s { last_query = s.last }))
        else do
          ends ← require (is_eof l)
          if not (s.last_query == null) && ends
              then finish_query s l
              else if not l.is_in && not ends
              then unlink_pkt s s.last
              else pure s
