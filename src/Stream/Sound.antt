-- ===== src/Stream/Sound.antt =====
-- Every step on the list of packets of a stream keeps the invariant.
use mysqlpcap.Base.{
  ℕ, zero, suc, ◌<◌, ◌≡◌, Bool, true, false, not, some, Bytes, arith, length, take, drop, ltb, ◌==◌,
  if◌then◌else◌, length-append, length-take, length-drop,
}
use mysqlpcap.Packet.{Packet, PerfStats, Ptr, null, Timeval, make, is_complete}
use mysqlpcap.Packet.Bounds.{IsBounded}
use mysqlpcap.Replay.{replay_write}
use mysqlpcap.Sys.{Env, Stream}
use mysqlpcap.Sys.Sound.{
  IsReady, Keeps, Any, any, throws-Keeps, option-Keeps, bind-Keeps, branch-Keeps, pure-Keeps,
  require-Keeps, get-Keeps, put-Keeps, assert-Keeps, load-Keeps, store-Keeps, set_next-Keeps,
  set_prev-Keeps, allocate-Keeps, mark-Keeps, release-Keeps,
}
use mysqlpcap.Stream.{
  header_bytes, take_header, starting_packet, bypass_prev, bypass_next, unlink_pkt,
  consider_unlink_pkt, link_last, create_new_packet, write_record, register_replay_packet,
  register_stream_end, cleanup_loop, cleanup, packet_key,
}
use mysqlpcap.Wire.{uint3korr}

-- The lists of a stream do not matter for its header.
pub relink :
    {s : Stream} (first last : Ptr) → IsReady s → IsReady (record s { first = first; last = last })
relink first last r = record { short = r.short; size = r.size }

take_header-size : (s : Stream) (bs : Bytes) → IsReady s → length (take_header s bs).pkt_hdr ≡ 4
unfolding take_header header_bytes
take_header-size s bs r = ground (
  arith,
  r.size,
  r.short,
  length-append (take (header_bytes s (length bs)) bs)
      (drop (header_bytes s (length bs)) s.pkt_hdr),
  length-take (header_bytes s (length bs)) bs,
  length-drop (header_bytes s (length bs)) s.pkt_hdr,
)

header_bytes-positive : (s : Stream) (n : ℕ) → IsReady s → 0 < n → 0 < header_bytes s n
unfolding header_bytes
header_bytes-positive s n r h = ground (arith, r.short)

-- A packet that is made of a header.
pub make-IsBounded :
    (ts : Timeval) (hdr : Bytes) (is_in : Bool) (perf : PerfStats)
    → IsBounded (make ts (uint3korr hdr) is_in perf).0
unfolding make uint3korr
make-IsBounded ts hdr is_in perf = record {
  within = omega arith;
  narrow = omega arith;
  inside = omega arith;
}

module _ {env : Env} where
  pub starting_packet-Keeps : (s : Stream) → Keeps {env = env} Any (starting_packet s)
  unfolding starting_packet
  starting_packet-Keeps s =
      branch-Keeps (s.last == null) (λ e. pure-Keeps Any true tt)
        (λ e. bind-Keeps (load-Keeps s.last) (λ q g. pure-Keeps Any (is_complete q) tt))

  bypass_prev-Keeps : (p : Ptr) → Keeps {env = env} Any (bypass_prev p)
  unfolding bypass_prev
  bypass_prev-Keeps p = bind-Keeps (load-Keeps p) (λ q g.
      branch-Keeps (q.prev == null) (λ e. pure-Keeps Any tt tt) (λ e. set_next-Keeps q.prev q.next))

  bypass_next-Keeps : (p : Ptr) → Keeps {env = env} Any (bypass_next p)
  unfolding bypass_next
  bypass_next-Keeps p = bind-Keeps (load-Keeps p) (λ q g.
      branch-Keeps (q.next == null) (λ e. pure-Keeps Any tt tt) (λ e. set_prev-Keeps q.next q.prev))

  pub unlink_pkt-Keeps :
      (s : Stream) (p : Ptr) → IsReady s → Keeps {env = env} IsReady (unlink_pkt s p)
  unfolding unlink_pkt
  unlink_pkt-Keeps s p r = bind-Keeps (bypass_prev-Keeps p) (λ _ _.
      bind-Keeps (bypass_next-Keeps p) (λ _ _. bind-Keeps (load-Keeps p) (λ q g.
        bind-Keeps
          (store-Keeps p (record q { next = null; prev = null })
            (record { within = g.within; narrow = g.narrow; inside = g.inside }))
          (λ _ _. bind-Keeps (release-Keeps p) (λ _ _.
            pure-Keeps IsReady
              (record s {
                first = if p == s.first then q.next else s.first;
                last = if p == s.last then q.prev else s.last;
              })
              (relink _ _ r))))))

  pub consider_unlink_pkt-Keeps :
      (s : Stream) (p : Ptr) (in_replay : Bool)
      → IsReady s
      → Keeps {env = env} IsReady (consider_unlink_pkt s p in_replay)
  unfolding consider_unlink_pkt
  consider_unlink_pkt-Keeps s p in_replay r =
      branch-Keeps (not env.do_run) (λ e. unlink_pkt-Keeps s p r)
        (λ e.
          branch-Keeps in_replay
            (λ e'. bind-Keeps (load-Keeps p) (λ q g.
              branch-Keeps (q.ref_count == 1) (λ f. unlink_pkt-Keeps s p r)
                (λ f. pure-Keeps IsReady s r)))
            (λ e'. pure-Keeps IsReady s r))

  pub link_last-Keeps :
      (s : Stream) (p : Ptr) → IsReady s → Keeps {env = env} IsReady (link_last s p)
  unfolding link_last
  link_last-Keeps s p r =
      branch-Keeps (s.first == null) (λ e. pure-Keeps IsReady _ (relink p p r))
        (λ e. bind-Keeps (assert-Keeps (not (s.last == null))) (λ _ _.
          bind-Keeps (set_next-Keeps s.last p) (λ _ _.
            bind-Keeps (set_prev-Keeps p s.last)
              (λ _ _. pure-Keeps IsReady (record s { last = p }) (relink s.first p r)))))

  -- The result of `create_new_packet` for a segment that is not empty: fewer bytes are left.
  pub create_new_packet-Keeps :
      (s : Stream) (ts : Timeval) (bs : Bytes) (is_in : Bool)
      → IsReady s
      → 0 < length bs
      → Keeps {env = env}
          (λ r. IsReady r.0 × (length r.1 < length bs))
          (create_new_packet s ts bs is_in)
  unfolding create_new_packet
  create_new_packet-Keeps s ts bs is_in r h =
      branch-Keeps (ltb (take_header s bs).cur_pkt_hdr_len 4)
        (λ e.
          pure-Keeps (λ x. IsReady x.0 × (length x.1 < length bs)) _
            (record { short = ground arith; size = take_header-size s bs r }, shorter))
        (λ e. bind-Keeps get-Keeps (λ sys sound.
          bind-Keeps
            (allocate-Keeps (made sys.perf).0 (made sys.perf).1
              (make-IsBounded ts (take_header s bs).pkt_hdr is_in sys.perf))
            (λ p _. bind-Keeps (mark-Keeps p) (λ _ _.
              bind-Keeps
                (link_last-Keeps (record (take_header s bs) { cur_pkt_hdr_len = 0 }) p
                  (record { short = omega arith; size = take_header-size s bs r }))
                (λ s' r'.
                  pure-Keeps (λ x. IsReady x.0 × (length x.1 < length bs))
                    (s', drop (header_bytes s (length bs)) bs, false) (r', shorter))))))
    where
      made : PerfStats → Packet × PerfStats
      made perf = make ts (uint3korr (take_header s bs).pkt_hdr) is_in perf

      shorter : length (drop (header_bytes s (length bs)) bs) < length bs
      shorter = omega (
        arith,
        length-drop (header_bytes s (length bs)) bs,
        header_bytes-positive s (length bs) r h,
      )

  write_record-Keeps : (key : ℕ) (q : Packet) → Keeps {env = env} Any (write_record key q)
  unfolding write_record
  write_record-Keeps key q = bind-Keeps get-Keeps (λ s sound.
      bind-Keeps (require-Keeps Any s.replay_fd (any s.replay_fd)) (λ fd _.
        branch-Keeps (replay_write env.os fd key q).1 (λ e. throws-Keeps)
          (λ e.
            put-Keeps (record s { replay_fd = some (replay_write env.os fd key q).0 })
              (record { bounded = sound.bounded; ready = sound.ready }))))

  pub register_replay_packet-Keeps :
      (s : Stream) (p : Ptr) → Keeps {env = env} Any (register_replay_packet s p)
  unfolding register_replay_packet
  register_replay_packet-Keeps s p = bind-Keeps get-Keeps (λ sys sound.
      branch-Keeps (not sys.in_replay_write) (λ e. pure-Keeps Any tt tt)
        (λ e. bind-Keeps (load-Keeps p) (λ q g. write_record-Keeps (packet_key s q) q)))

  pub register_stream_end-Keeps :
      (s : Stream) (ts : Timeval) → Keeps {env = env} Any (register_stream_end s ts)
  unfolding register_stream_end
  register_stream_end-Keeps s ts = bind-Keeps get-Keeps (λ sys sound.
      option-Keeps Any sys.replay_fd (any _) (pure-Keeps Any tt tt) (λ _ _. write_record-Keeps _ _))

  cleanup_loop-Keeps :
      (fuel : ℕ) (s : Stream) (p : Ptr)
      → IsReady s
      → Keeps {env = env} IsReady (cleanup_loop fuel s p)
  unfolding cleanup_loop
  cleanup_loop-Keeps zero s p r = record { from = λ sys sound. tt }
  cleanup_loop-Keeps (suc fuel) s p r =
      branch-Keeps (p == null) (λ e. pure-Keeps IsReady s r)
        (λ e. bind-Keeps (load-Keeps p) (λ q g.
          bind-Keeps (unlink_pkt-Keeps s p r) (λ s' r'. cleanup_loop-Keeps fuel s' q.next r')))

  pub cleanup-Keeps : (s : Stream) → IsReady s → Keeps {env = env} IsReady (cleanup s)
  unfolding cleanup
  cleanup-Keeps s r = bind-Keeps get-Keeps (λ sys sound. cleanup_loop-Keeps sys.fresh s s.first r)
