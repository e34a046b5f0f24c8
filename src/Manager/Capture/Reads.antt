-- ===== src/Manager/Capture/Reads.antt =====
-- Reading a packet of a capture keeps the invariant.
use mysqlpcap.Base.{
  ℕ, ◌+◌, ◌-◌, ◌*◌, ◌/◌, ◌%◌, ◌^◌, Bool, true, false, not, Bytes, length, take, drop, get_elem?,
  ltb, ◌==◌, inl, inr,
}
use mysqlpcap.Fragments
use mysqlpcap.Fragments.{has_fragments, get_first_fragment, remaining_fragments}
use mysqlpcap.Manager.Capture.{
  sizeof_tcp, Frame, has_bit, u8, u16, u32, enqueue_fragment, read_tcp, first_of_fragments,
  own_data, read_segment,
}
use mysqlpcap.Sys.{Env}
use mysqlpcap.Sys.Sound.{
  Keeps, Any, any, bind-Keeps, branch-Keeps, pure-Keeps, require-Keeps, get-Keeps, put-Keeps,
  assert-Keeps,
}

module _ {env : Env} where
  u8-Keeps : (bs : Bytes) (i : ℕ) → Keeps {env = env} Any (u8 bs i)
  unfolding u8
  u8-Keeps bs i = require-Keeps Any (get_elem? bs i) (any _)

  u16-Keeps : (bs : Bytes) (i : ℕ) → Keeps {env = env} Any (u16 bs i)
  unfolding u16
  u16-Keeps bs i =
      bind-Keeps (u8-Keeps bs i)
        (λ a _. bind-Keeps (u8-Keeps bs (i + 1)) (λ b _. pure-Keeps Any (a + b * 256) tt))

  u32-Keeps : (bs : Bytes) (i : ℕ) → Keeps {env = env} Any (u32 bs i)
  unfolding u32
  u32-Keeps bs i =
      bind-Keeps (u16-Keeps bs i)
        (λ a _. bind-Keeps (u16-Keeps bs (i + 2)) (λ b _. pure-Keeps Any (a + b * 2 ^ 16) tt))

  enqueue_fragment-Keeps :
      (id off : ℕ) (bs : Bytes) → Keeps {env = env} Any (enqueue_fragment id off bs)
  unfolding enqueue_fragment
  enqueue_fragment-Keeps id off bs = bind-Keeps get-Keeps (λ sys sound.
      bind-Keeps (require-Keeps Any (Fragments.enqueue sys.ip_stream id off bs) (any _)) (λ ips _.
        put-Keeps (record sys { ip_stream = ips })
          (record { bounded = sound.bounded; ready = sound.ready })))

  read_tcp-Keeps :
      (packet tcp contents : Bytes) (more : Bool)
      → Keeps {env = env} Any (read_tcp packet tcp contents more)
  unfolding read_tcp
  read_tcp-Keeps packet tcp contents more = bind-Keeps (u32-Keeps packet _) (λ src _.
      bind-Keeps (u32-Keeps packet _) (λ dst _. bind-Keeps (u16-Keeps packet _) (λ id _.
        bind-Keeps (u16-Keeps tcp 0) (λ sport _. bind-Keeps (u16-Keeps tcp 2) (λ dport _.
          bind-Keeps (u32-Keeps tcp 4) (λ seq _. bind-Keeps (u8-Keeps tcp 13) (λ flags _.
            pure-Keeps Any
              (record {
                ip_src = src;
                ip_dst = dst;
                ip_id = id;
                th_sport = sport;
                th_dport = dport;
                th_seq = seq;
                th_flags = flags;
                contents = contents;
                has_more_fragments = more;
              })
              tt)))))))

  first_of_fragments-Keeps :
      (packet : Bytes) (id : ℕ) → Keeps {env = env} Any (first_of_fragments packet id)
  unfolding first_of_fragments
  first_of_fragments-Keeps packet id = bind-Keeps get-Keeps (λ sys _.
      bind-Keeps (require-Keeps Any (get_first_fragment sys.ip_stream id) (any _)) (λ frag _.
        bind-Keeps (require-Keeps Any frag (any _)) (λ tcp _.
          bind-Keeps (assert-Keeps (not (ltb (length tcp) sizeof_tcp))) (λ _ _.
            bind-Keeps (u8-Keeps tcp 12) (λ off _.
              branch-Keeps (ltb (length tcp) (off / 16 * 4)) (λ _. pure-Keeps Any (inl false) tt)
                (λ _.
                  bind-Keeps (read_tcp-Keeps packet tcp (drop (off / 16 * 4) tcp) true)
                    (λ seg _. pure-Keeps Any (inr seg) tt)))))))

  own_data-Keeps : (f : Frame) → Keeps {env = env} Any (own_data f)
  unfolding own_data
  own_data-Keeps f = bind-Keeps (u8-Keeps f.bytes env.ethernet_header_size) (λ vhl _.
      bind-Keeps (u8-Keeps (drop (env.ethernet_header_size + vhl % 16 * 4) f.bytes) 12) (λ off _.
        branch-Keeps (ltb f.caplen (env.ethernet_header_size + vhl % 16 * 4 + off / 16 * 4))
          (λ _. pure-Keeps Any (inl false) tt)
          (λ _.
            bind-Keeps
              (read_tcp-Keeps f.bytes (drop (env.ethernet_header_size + vhl % 16 * 4) f.bytes)
                (take (f.caplen - (env.ethernet_header_size + vhl % 16 * 4 + off / 16 * 4))
                  (drop (env.ethernet_header_size + vhl % 16 * 4 + off / 16 * 4) f.bytes))
                false)
              (λ seg _. pure-Keeps Any (inr seg) tt))))

  pub read_segment-Keeps : (f : Frame) → Keeps {env = env} Any (read_segment f)
  unfolding read_segment
  read_segment-Keeps f =
      branch-Keeps _ (λ _. pure-Keeps Any (inl false) tt)
        (λ _. bind-Keeps (u8-Keeps f.bytes (env.ethernet_header_size + 9)) (λ ip_p _.
          branch-Keeps (not (ip_p == 6)) (λ _. pure-Keeps Any (inl false) tt)
            (λ _. bind-Keeps (u16-Keeps f.bytes (env.ethernet_header_size + 6)) (λ ip_off _.
              bind-Keeps (u16-Keeps f.bytes (env.ethernet_header_size + 4)) (λ ip_id _.
                branch-Keeps (has_bit ip_off 13)
                  (λ _. bind-Keeps (u8-Keeps f.bytes env.ethernet_header_size) (λ vhl _.
                    branch-Keeps (ltb f.caplen (env.ethernet_header_size + vhl % 16 * 4))
                      (λ _. pure-Keeps Any (inl false) tt)
                      (λ _.
                        bind-Keeps
                          (enqueue_fragment-Keeps ip_id ip_off (
                            take ((f.caplen - (env.ethernet_header_size + vhl % 16 * 4)) % 2 ^ 16)
                              (drop (env.ethernet_header_size + vhl % 16 * 4) f.bytes)))
                          (λ _ _. pure-Keeps Any (inl true) tt))))
                  (λ _. bind-Keeps get-Keeps (λ sys _.
                    branch-Keeps (has_fragments sys.ip_stream ip_id)
                      (λ _. first_of_fragments-Keeps f.bytes ip_id) (λ _. own_data-Keeps f))))))))
