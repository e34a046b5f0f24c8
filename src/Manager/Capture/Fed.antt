-- ===== src/Manager/Capture/Fed.antt =====
-- A segment of a client with whole packets, and the stream that it goes to.
use mysqlpcap.Base.{
  ℕ, ◌+◌, ◌-◌, ◌%◌, ◌^◌, ◌<◌, ◌≡◌, ◌≢◌, ◌∙◌, ap, refl, ◌⊎◌, inl, inr, Bool, true, false, Option,
  none, some, List, Bytes, arith, length, ltb, ◌==◌, if◌then◌else◌, Bool-cases,
}
use mysqlpcap.Base.Run.{Run, ok}
use mysqlpcap.Manager.{find_stream, put_stream, save}
use mysqlpcap.Manager.Capture.{Segment, Frame, ntohs, has_bit, is_inbound, client_key, feed_stream}
use mysqlpcap.Manager.Text.{could_be_query}
use mysqlpcap.Packet.{null, is_complete}
use mysqlpcap.Stream.{register_tcp_seq, start_replay}
use mysqlpcap.Stream.Append.{append, append_loop}
use mysqlpcap.Stream.Append.Frames.{frames, IsIdle, IsBetween, positive}
use mysqlpcap.Stream.Append.Segments.Part.{load_there}
use mysqlpcap.Stream.Append.Sent.{AreBodies, AreRead, created_of, append-frames}
use mysqlpcap.Sys.{Env, Stream, Sys, new_stream, get, put}

-- The first segment of a stream, or not the number of the one before.
abbrev pub IsNew : Stream → (seq : ℕ) → Type 0
IsNew s seq =
    (s.last_tcp_seq_inited ≡ false)
    ⊎ ((s.last_tcp_seq < 2 ^ 32) × (seq < 2 ^ 32) × (seq ≢ s.last_tcp_seq))

-- The stream behind `register_tcp_seq`.
abbrev numbered : Stream → (seq : ℕ) → Stream
numbered s seq = record s { last_tcp_seq_inited = true; last_tcp_seq = seq }

register_tcp_seq-IsNew :
    (s : Stream) (seq : ℕ) → IsNew s seq → register_tcp_seq s seq ≡ (numbered s seq, true)
unfolding register_tcp_seq
register_tcp_seq-IsNew s seq (inl e) = rw e refl
register_tcp_seq-IsNew s seq (inr (h, l, ne)) =
    let later : ltb 0 ((seq + 2 ^ 32 - s.last_tcp_seq) % 2 ^ 32) ≡ true = ground arith in
    elim (Bool-cases s.last_tcp_seq_inited) [
      | inl first ↦ rw (first, later) refl
      | inr again ↦ rw again refl
    ]

-- A segment of a client that is not in fragments and does not end its stream.
pub record IsSent (env : Env) (g : Segment) (fs : List (ℕ × Bytes)) : Type 0 where
  pub contents_are : g.contents ≡ frames fs
  pub is_some : 0 < length (frames fs)
  pub few : length (frames fs) < 2 ^ 31
  pub bodies : AreBodies fs
  pub whole : g.has_more_fragments ≡ false
  pub to_port : ntohs g.th_dport ≡ env.mysql_port
  pub to_host : g.ip_dst ≡ env.mysql_ip
  pub no_reset : has_bit g.th_flags 2 ≡ false
  pub no_end : has_bit g.th_flags 0 ≡ false
  pub has_word : could_be_query (frames fs) ≡ true

-- The stream of the map, or a new one.
abbrev pub chosen : (env : Env) → Segment → Option Stream → Stream
chosen env g none =
    let s = new_stream g.ip_src g.th_sport g.ip_dst g.th_dport in
    if env.do_run then start_replay s else s
chosen env g (some s) = s

abbrev pub stream_for : {env : Env} → Segment → Sys env → Stream
stream_for {env} g t = chosen env g (find_stream (client_key env g) t.lookup)

module _ {env : Env} (f : Frame) (g : Segment) (fs : List (ℕ × Bytes)) where
  pub is_inbound-IsSent : IsSent env g fs → is_inbound env g ≡ true
  unfolding is_inbound
  is_inbound-IsSent sent = ground (arith, sent.to_port, sent.to_host)

  not_empty : IsSent env g fs → (length g.contents == 0) ≡ false
  not_empty sent = rw sent.contents_are (ground (arith, sent.is_some))

  query_word : IsSent env g fs → could_be_query g.contents ≡ true
  query_word sent = rw sent.contents_are sent.has_word

  -- The stream and the state behind the segment: the packets are read and the map has the stream.
  abbrev pub IsTaken : Stream → Sys env → Run (Sys env) Bool → Type 0
  IsTaken s t r =
      (s' : Stream) × (t' : Sys env) × (r
        ≡ ok true (record t' { lookup = put_stream (client_key env g) s' t'.lookup }))
      × AreRead s s' t t' fs

  -- The state when the segment reaches `append`.
  abbrev at_append : Stream → Sys env → Sys env
  at_append s t = record t {
    first_packet_ts = elim t.first_packet_ts [ none ↦ some f.ts | some t ↦ some t ];
    lookup = put_stream (client_key env g) (numbered s g.th_seq) t.lookup;
  }

  feed_stream-append :
      (s : Stream) (t : Sys env) (s' : Stream) (c : Bool) (t' : Sys env)
      → IsSent env g fs
      → IsNew s g.th_seq
      → IsBetween (numbered s g.th_seq) (at_append s t)
      → append_loop
          (length g.contents)
          (numbered s g.th_seq)
          f.ts
          true
          false
          g.contents
          (at_append s t)
        ≡ ok (s', c) t'
      → feed_stream (client_key env g) f g s t
        ≡ ok true (record t' { lookup = put_stream (client_key env g) s' t'.lookup })
  unfolding feed_stream get put save
  feed_stream-append s t s' c t' sent new (inl (first, last)) e =
      let nothing : (s.last == null) ≡ true = ground arith in
      rw
        (
          not_empty sent,
          register_tcp_seq-IsNew s g.th_seq new,
          is_inbound-IsSent sent,
          nothing,
          query_word sent,
          e,
          sent.whole,
        )
        refl
  feed_stream-append s t s' c t' sent new (inr (first, pos, low, (q, there, complete))) e =
      let is_whole : is_complete q ≡ true = ground arith in
      rw
        (
          not_empty sent,
          register_tcp_seq-IsNew s g.th_seq new,
          is_inbound-IsSent sent,
          positive s.last pos,
          load_there s.last q (at_append s t) (positive s.last pos) there,
          is_whole,
          query_word sent,
          e,
          sent.whole,
        )
        refl

  pub feed_stream-IsTaken :
      (s : Stream) (t : Sys env)
      → IsSent env g fs
      → IsNew s g.th_seq
      → IsIdle s t
      → IsTaken s t (feed_stream (client_key env g) f g s t)
  unfolding append
  feed_stream-IsTaken s t sent new idle =
      let (s', t', e, read) =
        append-frames f.ts (numbered s g.th_seq) fs (at_append s t) sent.few sent.bodies (record {
          no_header = idle.no_header;
          size = idle.size;
          not_recording = idle.not_recording;
          allocated = idle.allocated;
          between = idle.between;
        }) in
      (
        s',
        t',
        feed_stream-append s t s' (created_of fs false) t' sent new idle.between (
            ap
              (λ bs.
                append_loop (length bs) (numbered s g.th_seq) f.ts true false bs (at_append s t))
              sent.contents_are
            ∙ e),
        record {
          idle = read.idle;
          query_is = read.query_is;
          fresh_is = read.fresh_is;
          held = read.held;
          others = read.others;
        },
      )
