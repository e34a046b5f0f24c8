-- ===== src/Manager/Capture/Sound.antt =====
-- `process_pkt` keeps the invariant, whatever the packet is.
use mysqlpcap.Base.{
  ℕ, ◌+◌, ◌-◌, ◌%◌, ◌^◌, Bool, true, false, not, ◌&&◌, ◌||◌, none, some, List, [], ◌∷◌, Bytes,
  length, ltb, ◌==◌, if◌then◌else◌, ◌⊎◌, inl, inr, Bool-cases,
}
use mysqlpcap.Base.Run.{pure, ◌>>=◌, ◌>>◌, Ensures}
use mysqlpcap.Fragments.{remaining_fragments}
use mysqlpcap.Manager.{find_stream, save}
use mysqlpcap.Manager.Capture.Reads.{read_segment-Keeps}
use mysqlpcap.Manager.Capture.{
  Segment, Frame, ntohs, has_bit, is_inbound, client_key, append_fragments, feed_stream, end_stream,
  handle_segment, process_pkt,
}
use mysqlpcap.Manager.Sound.{
  find_stream-IsReady, new_stream-IsReady, start-IsReady, end-IsReady, save-Keeps, forget-Keeps,
}
use mysqlpcap.Manager.Text.{could_be_query}
use mysqlpcap.Packet.{Timeval}
use mysqlpcap.Stream.{register_tcp_seq, end_replay, starting_packet}
use mysqlpcap.Stream.Append.{append}
use mysqlpcap.Stream.Append.Sound.{append-Keeps}
use mysqlpcap.Stream.Sound.{starting_packet-Keeps, register_stream_end-Keeps, cleanup-Keeps}
use mysqlpcap.Sys.{Env, Stream, Sys, get, require}
use mysqlpcap.Sys.Sound.{
  IsReady, IsSound, Keeps, Any, any, bind-Keeps, branch-Keeps, pure-Keeps, require-Keeps,
  option-Keeps, get-Keeps, put-Keeps, sound_only,
}

register_tcp_seq-IsReady : (s : Stream) (seq : ℕ) → IsReady s → IsReady (register_tcp_seq s seq).0
unfolding register_tcp_seq
register_tcp_seq-IsReady s seq r =
    elim (Bool-cases
      (not s.last_tcp_seq_inited || ltb 0 ((seq + 2 ^ 32 - s.last_tcp_seq) % 2 ^ 32))) [
        | inl passes ↦ rw passes (record { short = r.short; size = r.size })
        | inr stays ↦ rw stays (record { short = r.short; size = r.size })
      ]

module _ {env : Env} where
  append_fragments-Keeps :
      (s : Stream) (ts : Timeval) (is_in : Bool) (ws : List Bytes)
      → IsReady s
      → Keeps {env = env} IsReady (append_fragments s ts is_in ws)
  unfolding append_fragments
  append_fragments-Keeps s ts is_in [] r = pure-Keeps IsReady s r
  append_fragments-Keeps s ts is_in (w ∷ ws) r =
      bind-Keeps (append-Keeps s ts w is_in r) (λ x h. append_fragments-Keeps x.0 ts is_in ws h)

  end_stream-Keeps :
      (key : ℕ) (f : Frame) (s : Stream) → IsReady s → Keeps {env = env} Any (end_stream key f s)
  unfolding end_stream
  end_stream-Keeps key f s r = bind-Keeps (register_stream_end-Keeps s f.ts) (λ _ _.
      bind-Keeps (forget-Keeps key) (λ _ _.
        bind-Keeps
          (cleanup-Keeps (if env.do_run then end_replay s else s) (end-IsReady env.do_run s r))
          (λ _ _. pure-Keeps Any true tt)))

  feed_stream-Keeps :
      (key : ℕ) (f : Frame) (g : Segment) (s : Stream)
      → IsReady s
      → Keeps {env = env} Any (feed_stream key f g s)
  unfolding feed_stream
  feed_stream-Keeps key f g s r =
      branch-Keeps (length g.contents == 0) (λ _. pure-Keeps Any true tt)
        (λ _. bind-Keeps get-Keeps (λ sys sound.
          bind-Keeps
            (put-Keeps
              (record sys {
                first_packet_ts = elim sys.first_packet_ts [ none ↦ some f.ts | some t ↦ some t ];
              })
              (record { bounded = sound.bounded; ready = sound.ready }))
            (λ _ _.
              go (register_tcp_seq s g.th_seq).0 (register_tcp_seq s g.th_seq).1
                (register_tcp_seq-IsReady s g.th_seq r))))
    where
      go :
          (s₁ : Stream) (passes : Bool)
          → IsReady s₁
          → Keeps {env = env} Any (do
            save key s₁
            if not passes then pure false else do
              starting ← starting_packet s₁
              if is_inbound env g && (starting && not (could_be_query g.contents))
                  then pure false
                  else do
                    (s₂, _) ← append s₁ f.ts g.contents (is_inbound env g)
                    sys' ← get
                    s₃ ←
                        if g.has_more_fragments
                        then (do
                          ws ← require (remaining_fragments sys'.ip_stream g.ip_id)
                          append_fragments s₂ f.ts (is_inbound env g) ws)
                        else pure s₂
                    save key s₃
                    pure true)
      go s₁ passes r₁ = bind-Keeps (save-Keeps key s₁ r₁) (λ _ _.
          branch-Keeps (not passes) (λ _. pure-Keeps Any false tt)
            (λ _. bind-Keeps (starting_packet-Keeps s₁) (λ starting _.
              branch-Keeps _ (λ _. pure-Keeps Any false tt)
                (λ _. bind-Keeps (append-Keeps s₁ f.ts g.contents (is_inbound env g) r₁) (λ x h.
                  bind-Keeps get-Keeps (λ sys' _.
                    bind-Keeps
                      (branch-Keeps g.has_more_fragments
                        (λ _.
                          bind-Keeps
                            (require-Keeps Any (remaining_fragments sys'.ip_stream g.ip_id) (any _))
                            (λ ws _. append_fragments-Keeps x.0 f.ts (is_inbound env g) ws h))
                        (λ _. pure-Keeps IsReady x.0 h))
                      (λ s₃ r₃.
                        bind-Keeps (save-Keeps key s₃ r₃) (λ _ _. pure-Keeps Any true tt))))))))

  handle_segment-Keeps : (f : Frame) (g : Segment) → Keeps {env = env} Any (handle_segment f g)
  unfolding handle_segment
  handle_segment-Keeps f g = bind-Keeps get-Keeps (λ sys sound.
      option-Keeps IsReady (find_stream (client_key env g) sys.lookup)
        (find_stream-IsReady _ sys.lookup sound.ready)
        (branch-Keeps _ (λ _. pure-Keeps Any false tt)
          (λ _.
            bind-Keeps
              (save-Keeps (client_key env g) _ (
                start-IsReady env.do_run _
                  (new_stream-IsReady g.ip_src g.th_sport g.ip_dst g.th_dport)))
              (λ _ _. feed_stream-Keeps (client_key env g) f g _ (
                start-IsReady env.do_run _
                  (new_stream-IsReady g.ip_src g.th_sport g.ip_dst g.th_dport)))))
        (λ s r.
          branch-Keeps (has_bit g.th_flags 2 || has_bit g.th_flags 0)
            (λ _. end_stream-Keeps (client_key env g) f s r)
            (λ _. feed_stream-Keeps (client_key env g) f g s r)))

  pub process_pkt-Keeps : (f : Frame) → Keeps {env = env} Any (process_pkt f)
  unfolding process_pkt
  process_pkt-Keeps f = bind-Keeps (read_segment-Keeps f) (λ r _. go r)
    where
      go :
          (r : Bool ⊎ Segment)
          → Keeps {env = env} Any (elim r [
            | inl done ↦ pure done
            | inr g ↦
                if not (ntohs g.th_sport == env.mysql_port)
                  && not (ntohs g.th_dport == env.mysql_port)
                then pure false
                else handle_segment f g
          ])
      go (inl done) = pure-Keeps Any done tt
      go (inr g) = branch-Keeps _ (λ _. pure-Keeps Any false tt) (λ _. handle_segment-Keeps f g)

  -- If in the manager's state no packet on the heap has received more bytes than its length, of 32 bits,
  -- nor holds more than that in its buffer, and every stream of the map has less than four bytes of a
  -- header in its buffer of four, then the same holds in any state in which `process_pkt` returns, whatever the packet is.
  process_pkt-IsSound :
      (f : Frame) (sys : Sys env)
      → IsSound env sys
      → Ensures (λ _ t. IsSound env t) (process_pkt f sys)
  process_pkt-IsSound f sys sound =
      sound_only Any (process_pkt f sys) ((process_pkt-Keeps f).from sys sound)
