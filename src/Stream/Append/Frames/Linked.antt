-- ===== src/Stream/Append/Frames/Linked.antt =====
-- A packet that is made of a header and linked behind the last.
use mysqlpcap.Base.{
  ℕ, ◌+◌, ◌<◌, ◌≡◌, ◌∙◌, refl, inl, inr, true, false, some, [], Bytes, arith, ◌==◌,
}
use mysqlpcap.Base.Run.{ok}
use mysqlpcap.Packet.{Packet, PerfStats, Ptr, null, Timeval, make, mark_ref}
use mysqlpcap.Stream.{link_last}
use mysqlpcap.Stream.Append.Opening.{open_packet}
use mysqlpcap.Stream.Append.Parts.{write-there}
use mysqlpcap.Stream.Append.Segments.Part.{load_there}
use mysqlpcap.Sys.{Env, Stream, Sys, write, get, store, set_next, set_prev, require, allocate, mark}
use mysqlpcap.Wire.{uint3korr}
use mysqlpcap.Stream.Append.Frames.{
  contents_of, Holds, IsBetween, write-other, apart, positive, Holds-write, Holds-other,
}

module _ {env : Env} where
  -- What is known of a packet that has just been linked.
  pub record IsLinked (s s' : Stream) (t t' : Sys env) (n : ℕ) : Type 0 where
    pub packet : Packet
    pub there : t'.heap t.fresh ≡ some packet
    pub empty : contents_of packet ≡ (some [], n, 0, true)
    pub last_is : s'.last ≡ t.fresh
    pub first_is : (s'.first == null) ≡ false
    pub no_header : s'.cur_pkt_hdr_len ≡ 0
    pub same_header : s'.pkt_hdr ≡ s.pkt_hdr
    pub same_query : s'.last_query ≡ s.last_query
    pub fresh_is : t'.fresh ≡ t.fresh + 1
    pub same_recording : t'.in_replay_write ≡ t.in_replay_write
    pub others : (a : Ptr) (body : Bytes) → a < t.fresh → Holds a body t → Holds a body t'

  link_last_first :
      (s : Stream) (p : Ptr) (t : Sys env)
      → s.first ≡ null
      → link_last s p t ≡ ok (record s { first = p; last = p }) t
  unfolding link_last
  link_last_first s p t e = rw e refl

  link_last_behind :
      (s : Stream) (p : Ptr) (l q : Packet) (t : Sys env)
      → (s.first == null) ≡ false
      → (s.last == null) ≡ false
      → (p == null) ≡ false
      → (p == s.last) ≡ false
      → t.heap s.last ≡ some l
      → t.heap p ≡ some q
      → link_last s p t
        ≡ ok
            (record s { last = p })
            (record t {
              heap =
                  write
                    (write t.heap s.last (some (record l { next = p })))
                    p
                    (some (record q { prev = s.last }));
            })
  unfolding link_last set_next set_prev store
  link_last_behind s p l q t first last not_null other at_last at_p =
      rw
        (
          first,
          last,
          load_there s.last l t last at_last,
          load_there p q (record t { heap = write t.heap s.last (some (record l { next = p })) })
              not_null (write-other t.heap s.last p (some (record l { next = p })) other ∙ at_p),
        )
        refl

  pub open_packet-IsLinked :
      (s : Stream) (ts : Timeval) (t : Sys env)
      → 0 < t.fresh
      → IsBetween s t
      → (s' : Stream) × (t' : Sys env) × (open_packet s ts true t ≡ ok s' t')
        × IsLinked s s' t t' (uint3korr s.pkt_hdr)
  unfolding get allocate make mark require store mark_ref
  open_packet-IsLinked s ts t pos = go
    where
      p : Ptr
      p = t.fresh

      idle : Stream
      idle = record s { cur_pkt_hdr_len = 0 }

      pair : Packet × PerfStats
      pair = make ts (uint3korr s.pkt_hdr) true t.perf

      made : Sys env
      made = record t { heap = write t.heap p (some pair.0); fresh = p + 1; perf = pair.1 }

      marked : Packet
      marked = record (pair.0) { ref_count = 1 }

      t₁ : Sys env
      t₁ = record made { heap = write made.heap p (some marked) }

      there : t₁.heap p ≡ some marked
      there = write-there made.heap p (some marked)

      begun : open_packet s ts true t ≡ link_last idle p t₁
      begun =
          rw (load_there p (pair.0) made (positive p pos) (write-there t.heap p (some pair.0))) refl

      kept : (a : Ptr) (body : Bytes) → a < p → Holds a body t → Holds a body t₁
      kept a body low h =
          Holds-other a p body (some marked) made (apart a p low)
            (Holds-other a p body (some pair.0) t (apart a p low) h)

      go :
          IsBetween s t
          → (s' : Stream) × (t' : Sys env) × (open_packet s ts true t ≡ ok s' t')
            × IsLinked s s' t t' (uint3korr s.pkt_hdr)
      go (inl (first, last)) = (
        record idle { first = p; last = p },
        t₁,
        begun ∙ link_last_first idle p t₁ first,
        record {
          packet = marked;
          there = there;
          empty = refl;
          last_is = refl;
          first_is = positive p pos;
          no_header = refl;
          same_header = refl;
          same_query = refl;
          fresh_is = refl;
          same_recording = refl;
          others = kept;
        },
      )
      go (inr (first, has_last, low, (l, at_last, complete))) =
          let last_there : t₁.heap s.last ≡ some l =
            write-other made.heap p s.last (some marked) (apart s.last p low)
            ∙ write-other t.heap p s.last (some pair.0) (apart s.last p low)
            ∙ at_last in
          let other : (p == s.last) ≡ false = ground arith in
          let behind = write t₁.heap s.last (some (record l { next = p })) in
          (
            record idle { last = p },
            record t₁ { heap = write behind p (some (record marked { prev = s.last })) },
            begun
                ∙ link_last_behind idle p l marked t₁ first (positive s.last has_last)
                    (positive p pos) other last_there there,
            record {
              packet = record marked { prev = s.last };
              there = write-there behind p (some (record marked { prev = s.last }));
              empty = refl;
              last_is = refl;
              first_is = first;
              no_header = refl;
              same_header = refl;
              same_query = refl;
              fresh_is = refl;
              same_recording = refl;
              others = λ a body below h.
                  Holds-other a p body (some (record marked { prev = s.last }))
                    (record t₁ { heap = behind }) (apart a p below)
                    (Holds-write a s.last body l (record l { next = p }) t₁ last_there refl
                      (kept a body below h));
            },
          )
