-- ===== src/Stream.antt =====
-- `Mysql_stream` of mysql_stream.h and mysql_stream.cc: its list of packets, the header of the
-- packet that comes next, sequence numbers and keys.
pub mod Complete
pub mod Links
pub mod Append
pub mod Seq
pub mod Sound
pub mod Frame
pub mod Captured
use mysqlpcap.Base.{
  ℕ, zero, suc, ◌+◌, ◌-◌, ◌%◌, ◌^◌, Bool, true, false, not, ◌||◌, ◌&&◌, Option, none, some, List,
  [], ◌∷◌, ◌++◌, Bytes, length, take, drop, min, ltb, leb, ◌==◌, if◌then◌else◌,
}
use mysqlpcap.Base.Run.{Run, ok, fault, throws, M, pure, assert, ◌>>=◌, ◌>>◌}
use mysqlpcap.Packet.{Packet, PerfStats, Ptr, null, Timeval, make, empty, is_complete}
use mysqlpcap.Replay.{replay_write}
use mysqlpcap.Sys.{
  Env, Stream, Sys, get, put, load, store, set_next, set_prev, require, allocate, mark, release,
  get_key,
}
use mysqlpcap.Wire.{uint3korr}

-- `register_tcp_seq`, with `seq - last_tcp_seq` in 32 bits
unfoldable pub register_tcp_seq : Stream → (seq : ℕ) → Stream × Bool
register_tcp_seq s seq =
    if not s.last_tcp_seq_inited || ltb 0 ((seq + 2 ^ 32 - s.last_tcp_seq) % 2 ^ 32)
    then (record s { last_tcp_seq_inited = true; last_tcp_seq = seq }, true)
    else (s, false)

-- `Mysql_stream::get_key`
unfoldable pub packet_key : Stream → Packet → ℕ
packet_key s pkt = if pkt.is_in then get_key s.dst_ip s.dst_port else get_key s.src_ip s.src_port

-- `start_replay` and `end_replay`, but for what the thread does
unfoldable pub start_replay : Stream → Stream
start_replay s = record s { th = true }

unfoldable pub end_replay : Stream → Stream
end_replay s = if s.th then record s { th = false; reached_eof = true } else s

-- The header bytes that `create_new_packet` takes from the segment.
unfoldable pub header_bytes : Stream → (len : ℕ) → ℕ
header_bytes s len = if leb (4 - s.cur_pkt_hdr_len) len then 4 - s.cur_pkt_hdr_len else len

-- `memcpy(pkt_hdr, *data, hdr_bytes)` and the count
unfoldable pub take_header : Stream → Bytes → Stream
unfolding header_bytes
take_header s bs =
    let n = header_bytes s (length bs) in
    record s { pkt_hdr = take n bs ++ drop n s.pkt_hdr; cur_pkt_hdr_len = s.cur_pkt_hdr_len + n }

module _ {env : Env} where
  -- `!last || last->is_complete()`, of `starting_packet` and `append`
  unfoldable pub starting_packet : Stream → M (Sys env) Bool
  unfolding load
  starting_packet s =
      if s.last == null then pure true else (do q ← load s.last; pure (is_complete q))

  -- `p->prev->next = p->next` and `p->next->prev = p->prev`, where these are not null
  unfoldable pub bypass_prev : Ptr → M (Sys env) (Unit {0})
  unfolding load set_next
  bypass_prev p = do q ← load p; if q.prev == null then pure tt else set_next q.prev q.next

  unfoldable pub bypass_next : Ptr → M (Sys env) (Unit {0})
  unfolding load set_prev
  bypass_next p = do q ← load p; if q.next == null then pure tt else set_prev q.next q.prev

  -- `unlink_pkt`
  unfoldable pub unlink_pkt : Stream → Ptr → M (Sys env) Stream
  unfolding load store bypass_prev bypass_next release
  unlink_pkt s p = do
    bypass_prev p
    bypass_next p
    q ← load p
    let s' = record s {
      first = if p == s.first then q.next else s.first;
      last = if p == s.last then q.prev else s.last;
    }
    store p (record q { next = null; prev = null })
    release p
    pure s'

  -- `consider_unlink_pkt`
  unfoldable pub consider_unlink_pkt : Stream → Ptr → (in_replay : Bool) → M (Sys env) Stream
  unfolding load unlink_pkt
  consider_unlink_pkt s p in_replay =
      if not env.do_run
      then unlink_pkt s p
      else if in_replay
      then (do q ← load p; if q.ref_count == 1 then unlink_pkt s p else pure s)
      else pure s

  -- The end of `create_new_packet` and `append_packet`: the packet becomes the last of the list.
  unfoldable pub link_last : Stream → Ptr → M (Sys env) Stream
  unfolding set_next set_prev
  link_last s p = if s.first == null then pure (record s { first = p; last = p }) else do
    assert (not (s.last == null))
    set_next s.last p
    set_prev p s.last
    pure (record s { last = p })

  -- `create_new_packet`: the stream, the bytes left, and whether the header is still not complete
  unfoldable pub create_new_packet :
      Stream → Timeval → Bytes → (is_in : Bool) → M (Sys env) (Stream × Bytes × Bool)
  unfolding header_bytes take_header allocate mark link_last
  create_new_packet s ts bs is_in =
      let rest = drop (header_bytes s (length bs)) bs in
      let s' = take_header s bs in
      if ltb s'.cur_pkt_hdr_len 4 then pure (s', rest, true) else do
        sys ← get
        let (q, perf) = make ts (uint3korr s'.pkt_hdr) is_in sys.perf
        p ← allocate q perf
        mark p
        s'' ← link_last (record s' { cur_pkt_hdr_len = 0 }) p
        pure (s'', rest, false)

  -- `replay_write` to the replay file; an error is thrown.
  unfoldable pub write_record : (key : ℕ) → Packet → M (Sys env) (Unit {0})
  write_record key q = do
    s ← get
    fd ← require s.replay_fd
    let (fd', failed) = replay_write env.os fd key q
    if failed then (λ _. throws) else put (record s { replay_fd = some fd' })

  -- `register_replay_packet`
  unfoldable pub register_replay_packet : Stream → Ptr → M (Sys env) (Unit {0})
  unfolding load write_record packet_key
  register_replay_packet s p = do
    sys ← get
    if not sys.in_replay_write then pure tt else (do q ← load p; write_record (packet_key s q) q)

  -- `register_stream_end`
  unfoldable pub register_stream_end : Stream → Timeval → M (Sys env) (Unit {0})
  unfolding write_record packet_key
  register_stream_end s ts = do
    sys ← get
    let q = record empty { ts = ts; is_in = true }
    elim sys.replay_fd [ none ↦ pure tt | some _ ↦ write_record (packet_key s q) q ]

-- The loop of `Mysql_stream::cleanup`: every packet is unlinked.
unfoldable pub cleanup_loop : {env : Env} → ℕ → Stream → Ptr → M (Sys env) Stream
unfolding load unlink_pkt
cleanup_loop zero s p = λ _. Run.out_of_fuel
cleanup_loop (suc fuel) s p =
    if p == null then pure s else do q ← load p; s' ← unlink_pkt s p; cleanup_loop fuel s' q.next

-- `Mysql_stream::cleanup`, in a list with fewer packets than were ever made
unfoldable pub cleanup : {env : Env} → Stream → M (Sys env) Stream
unfolding cleanup_loop
cleanup s = do sys ← get; cleanup_loop sys.fresh s s.first
