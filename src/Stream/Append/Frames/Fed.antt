-- ===== src/Stream/Append/Frames/Fed.antt =====
-- A packet that has just been linked takes its body.
use mysqlpcap.Base.{
  ℕ, ◌+◌, ◌-◌, ◌^◌, ◌<◌, ◌≡◌, ◌∙◌, ap, refl, inl, inr, true, false, some, [], ◌∷◌, ◌++◌, Bytes,
  arith, length, length-append, take, take-append, drop, drop-append, ◌==◌, Bool-cases,
}
use mysqlpcap.Base.Run.{ok}
use mysqlpcap.Packet
use mysqlpcap.Packet.{
  Packet, PerfStats, Ptr, null, Timeval, make, mark_ref, is_complete, is_query, is_eof, byte,
}
use mysqlpcap.Packet.Append.{fill}
use mysqlpcap.Packet.Captured.{append-filled}
use mysqlpcap.Stream.{register_replay_packet}
use mysqlpcap.Stream.Append.{feed_last}
use mysqlpcap.Stream.Append.Parts.{write-there}
use mysqlpcap.Stream.Append.Segments.Part.{load_there}
use mysqlpcap.Stream.Complete.{handle_packet_complete}
use mysqlpcap.Sys.{Env, Stream, Sys, write, get, store, require, mark}
use mysqlpcap.Stream.Append.Frames.{contents_of, sent, query_of}

module _ {env : Env} where
  handle_sent :
      (s : Stream) (q : Packet) (b : ℕ) (bs : Bytes) (t : Sys env)
      → (s.last == null) ≡ false
      → t.heap s.last ≡ some q
      → contents_of q ≡ sent (b ∷ bs)
      → t.in_replay_write ≡ false
      → handle_packet_complete s t
        ≡ ok (record s { last_query = query_of s.last (b ∷ bs) s.last_query }) t
  unfolding handle_packet_complete register_replay_packet get require is_query is_eof byte
  handle_sent s q b bs t not_null there e quiet =
      let seen = load_there s.last q t not_null there in
      elim (Bool-cases (b == 3)) [
        | inl query ↦ rw (seen, payload_is, inbound, query, quiet) refl
        | inr other ↦ elim (Bool-cases (b == 0xfe)) [
          | inl mark ↦ elim (Bool-cases (s.last_query == null)) [
            | inl none_yet ↦ rw (seen, payload_is, inbound, other, mark, none_yet) refl
            | inr pending ↦ rw (seen, payload_is, inbound, other, mark, pending) refl
          ]
          | inr plain ↦ elim (Bool-cases (s.last_query == null)) [
            | inl none_yet ↦ rw (seen, payload_is, inbound, other, plain, none_yet) refl
            | inr pending ↦ rw (seen, payload_is, inbound, other, plain, pending) refl
          ]
        ]
      ]
    where
      payload_is : q.payload ≡ some (b ∷ bs)
      payload_is = ap (λ x. x.0) e

      inbound : q.is_in ≡ true
      inbound = ap (λ x. x.3) e

  -- A packet that has just been linked takes its body, and no more.
  pub feed_body :
      (s : Stream) (q : Packet) (b : ℕ) (bs rest : Bytes) (t : Sys env)
      → (s.last == null) ≡ false
      → t.heap s.last ≡ some q
      → contents_of q ≡ (some [], length (b ∷ bs), 0, true)
      → t.in_replay_write ≡ false
      → length (b ∷ bs) < 2 ^ 24
      → length (b ∷ bs) + length rest < 2 ^ 31
      → feed_last s ((b ∷ bs) ++ rest) t
        ≡ ok
            (record s { last_query = query_of s.last (b ∷ bs) s.last_query }, rest)
            (record t { heap = write t.heap s.last (some (fill q (b ∷ bs))) })
  unfolding feed_last require store
  feed_body s q b bs rest t not_null there e quiet narrow few =
      rw
        (
          load_there s.last q t not_null there,
          taken,
          complete,
          handle_sent s (fill q (b ∷ bs)) b bs filled not_null
              (write-there t.heap s.last (some (fill q (b ∷ bs)))) full quiet,
        )
        (λ i. ok (record s { last_query = query_of s.last (b ∷ bs) s.last_query }, left i) filled)
    where
      body : Bytes
      body = b ∷ bs

      len_is : q.len ≡ length body
      len_is = ap (λ x. x.1) e

      cur_len_is : q.cur_len ≡ 0
      cur_len_is = ap (λ x. x.2) e

      filled : Sys env
      filled = record t { heap = write t.heap s.last (some (fill q body)) }

      full : contents_of (fill q body) ≡ sent body
      full = λ i. (some body, len_is i, length body, (ap (λ x. x.3) e) i)

      complete : (q.len == length body) ≡ true
      complete = ground (arith, len_is)

      room : q.len - q.cur_len ≡ length body
      room = omega (arith, len_is, cur_len_is)

      taken :
          Packet.append q (body ++ rest) ≡ some (fill q body, length (body ++ rest) - length body)
      taken =
          append-filled (body ++ rest)
            (record {
              payload_is = ap (λ x. x.0) e;
              cur_len_is = cur_len_is;
              within = omega (arith, cur_len_is);
            })
            (omega (arith, len_is)) (omega (arith, length-append body rest))
          ∙ λ i. some (
            fill q (
                (ap (λ n. take n (body ++ rest)) room ∙ take-append (length body) body rest refl)
                  i),
            length (body ++ rest) - room i,
          )

      left :
          drop (length (body ++ rest) - (length (body ++ rest) - length body)) (body ++ rest) ≡ rest
      left =
          ap (λ n. drop n (body ++ rest)) {y = length body} (omega (arith, length-append body rest))
          ∙ drop-append (length body) body rest refl
