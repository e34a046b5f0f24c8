-- ===== src/Stream/Append/Frames/Read.antt =====
-- A round of the loop of `append` that reads one packet.
use mysqlpcap.Base.{
  ℕ, suc, ◌+◌, ◌-◌, ◌^◌, ◌<◌, ◌≡◌, ◌∙◌, sym, ap, refl, inl, inr, Bool, true, false, some, [], ◌∷◌,
  ◌++◌, Bytes, arith, length, take, drop-all, drop,
}
use mysqlpcap.Base.Run.{ok, pure, and_then}
use mysqlpcap.Packet.{Ptr, Timeval, is_complete}
use mysqlpcap.Packet.Append.{fill}
use mysqlpcap.Stream.Append.Fuel.{turn, behind_header}
use mysqlpcap.Stream.{create_new_packet, header_bytes, take_header, starting_packet}
use mysqlpcap.Stream.Append.{feed_last, append_loop}
use mysqlpcap.Stream.Append.Opening.{header_bytes_whole, open_packet, create_new_packet_whole}
use mysqlpcap.Stream.Append.Parts.{write-there}
use mysqlpcap.Stream.Append.Segments.Part.{load_there}
use mysqlpcap.Sys.{Env, Stream, Sys, write}
use mysqlpcap.Wire.{uint3korr}
use mysqlpcap.Stream.Append.Frames.{
  frame, contents_of, Holds, IsBetween, IsIdle, apart, positive, query_of, Holds-other,
}
use mysqlpcap.Stream.Append.Frames.Linked.{IsLinked, open_packet-IsLinked}
use mysqlpcap.Stream.Append.Frames.Fed.{feed_body}

header_is :
    (s : Stream) (seq : ℕ) (body rest : Bytes)
    → s.cur_pkt_hdr_len ≡ 0
    → length s.pkt_hdr ≡ 4
    → (take_header s (frame seq body ++ rest)).pkt_hdr ≡ take 4 (frame seq body)
unfolding take_header
header_is s seq body rest e size =
    (λ i. take (four i) (frame seq body ++ rest) ++ drop (four i) s.pkt_hdr)
    ∙ ap (λ x. take 4 (frame seq body) ++ x) (drop-all 4 s.pkt_hdr (omega arith))
  where
    four : header_bytes s (length (frame seq body ++ rest)) ≡ 4
    four = header_bytes_whole s (length (frame seq body ++ rest)) (omega arith) ∙ omega arith

header_length :
    (seq : ℕ) (body : Bytes)
    → length body < 2 ^ 24
    → uint3korr (take 4 (frame seq body)) ≡ length body
unfolding uint3korr
header_length seq body h = omega arith

module _ {env : Env} where
  pub starting_packet_between :
      (s : Stream) (t : Sys env) → IsBetween s t → starting_packet s t ≡ ok true t
  unfolding starting_packet
  starting_packet_between s t (inl (e, e')) = rw e' refl
  starting_packet_between s t (inr (e, pos, low, (q, there, complete))) =
      let whole : is_complete q ≡ true = ground arith in
      rw (positive s.last pos, load_there s.last q t (positive s.last pos) there, whole) refl

  -- What a round leaves that has read one packet.
  pub record IsRead (s s' : Stream) (t t' : Sys env) (body : Bytes) : Type 0 where
    pub idle : IsIdle s' t'
    pub query_is : s'.last_query ≡ query_of t.fresh body s.last_query
    pub fresh_is : t'.fresh ≡ t.fresh + 1
    pub received : Holds t.fresh body t'
    pub others : (a : Ptr) (x : Bytes) → a < t.fresh → Holds a x t → Holds a x t'

  pub append_loop-frame :
      (n : ℕ) (s : Stream) (ts : Timeval) (c : Bool) (seq b : ℕ) (bs rest : Bytes) (t : Sys env)
      → IsIdle s t
      → length (b ∷ bs) < 2 ^ 24
      → length (b ∷ bs) + length rest < 2 ^ 31
      → (s' : Stream) × (t' : Sys env) × (append_loop
            (suc n)
            s
            ts
            true
            c
            (frame seq (b ∷ bs) ++ rest)
            t
          ≡ append_loop n s' ts true true rest t')
        × IsRead s s' t t' (b ∷ bs)
  unfolding append_loop take_header
  append_loop-frame n s ts c seq b bs rest t idle narrow few = (
    read,
    after,
    ap (λ r. and_then r (λ st. turn n s ts true c xs st)) (starting_packet_between s t idle.between)
        ∙ ap (λ r. and_then r (λ x. behind_header n ts true x.0 x.1 x.2)) created
        ∙ ap (λ r. and_then r (λ x. append_loop n x.0 ts true true x.1)) fed,
    record {
      idle = record {
        no_header = linked.no_header;
        size = ap length (linked.same_header ∙ header_is s seq body rest idle.no_header idle.size);
        not_recording = quiet;
        allocated = omega (arith, linked.fresh_is);
        between = inr (
          linked.first_is,
          omega (arith, linked.last_is, idle.allocated),
          omega (arith, linked.last_is, linked.fresh_is),
          (
            fill linked.packet body,
            write-there t₁.heap s₁.last (some (fill linked.packet body)),
            ap (λ x. x.1) empty,
          ),
        );
      };
      query_is = λ i. query_of (linked.last_is i) body (linked.same_query i);
      fresh_is = linked.fresh_is;
      received = (
        fill linked.packet body,
        ap after.heap (sym linked.last_is)
            ∙ write-there t₁.heap s₁.last (some (fill linked.packet body)),
        λ i. (some body, (ap (λ x. x.1) empty) i, length body, (ap (λ x. x.3) empty) i),
      );
      others = λ a x low h.
          Holds-other a s₁.last x (some (fill linked.packet body)) t₁
            (apart a s₁.last (omega (arith, linked.last_is, low))) (linked.others a x low h);
    },
  )
    where
      body : Bytes
      body = b ∷ bs

      xs : Bytes
      xs = frame seq body ++ rest

      opened :
          (s' : Stream) × (t' : Sys env) × (open_packet (take_header s xs) ts true t ≡ ok s' t')
          × IsLinked (take_header s xs) s' t t' (uint3korr (take_header s xs).pkt_hdr)
      opened = open_packet-IsLinked (take_header s xs) ts t idle.allocated idle.between

      s₁ : Stream
      s₁ = opened.0

      t₁ : Sys env
      t₁ = opened.1

      linked : IsLinked (take_header s xs) s₁ t t₁ (uint3korr (take_header s xs).pkt_hdr)
      linked = opened.3

      empty : contents_of linked.packet ≡ (some [], length body, 0, true)
      empty =
          linked.empty
          ∙ ap (λ k. (some [], k, 0, true))
              (ap uint3korr (header_is s seq body rest idle.no_header idle.size)
                ∙ header_length seq body narrow)

      quiet : t₁.in_replay_write ≡ false
      quiet = linked.same_recording ∙ idle.not_recording

      read : Stream
      read = record s₁ { last_query = query_of s₁.last body s₁.last_query }

      after : Sys env
      after = record t₁ { heap = write t₁.heap s₁.last (some (fill linked.packet body)) }

      created : create_new_packet s ts xs true t ≡ ok (s₁, body ++ rest, false) t₁
      created =
          create_new_packet_whole s ts xs true t (omega (arith, idle.no_header))
            (omega (arith, idle.no_header))
          ∙ ap (λ r. and_then r (λ s'. pure (s', drop (4 - s.cur_pkt_hdr_len) xs, false))) opened.2
          ∙ ap (λ k. ok (s₁, drop (4 - k) xs, false) t₁) idle.no_header

      fed : feed_last s₁ (body ++ rest) t₁ ≡ ok (read, rest) after
      fed =
          feed_body s₁ linked.packet b bs rest t₁
            (positive s₁.last (omega (arith, linked.last_is, idle.allocated)))
            (ap t₁.heap linked.last_is ∙ linked.there) empty quiet narrow few
