-- ===== src/Stream/Append/Segments/Part.antt =====
-- Data that do not fill a packet, and the rest of a segment behind them.
use mysqlpcap.Base.{
  ℕ, suc, ◌+◌, ◌-◌, ◌^◌, ◌≤◌, ◌<◌, ◌≡◌, ◌∙◌, sym, ap, refl, Bool, false, some, [], ◌∷◌, ◌++◌, Bytes,
  arith, length, take, drop, ◌==◌, length-append, length-drop, length-take, drop-append_ge,
  drop-all,
}
use mysqlpcap.Base.Run.{ok, fault, pure, and_then, and_then-cong, and_then_assoc}
use mysqlpcap.Packet
use mysqlpcap.Packet.{Packet, Ptr, null, Timeval, is_complete}
use mysqlpcap.Packet.Append.{IsFilled, fill}
use mysqlpcap.Packet.Captured.{
  IsCaptured, captured-IsFilled, filled-IsCaptured, append-filled, fill-IsFilled, append_part,
}
use mysqlpcap.Stream.{starting_packet}
use mysqlpcap.Stream.Append.{feed_last, append_loop}
use mysqlpcap.Stream.Append.Fuel.{append_loop-enough}
use mysqlpcap.Stream.Append.Parts.{
  IsCapture, settle, Settled, settle-Settled, feed-settle, settle_part, settle_twice, write-there,
}
use mysqlpcap.Stream.Append.Sound.{feed}
use mysqlpcap.Sys.{Env, Stream, Sys, write, load}
use mysqlpcap.Sys.Sound.{IsReady}

module _ {env : Env} where
  starting_packet_part :
      (s : Stream) (q : Packet) (t : Sys env)
      → (s.last == null) ≡ false
      → t.heap s.last ≡ some q
      → q.cur_len < q.len
      → starting_packet s t ≡ ok false t
  unfolding starting_packet load
  starting_packet_part s q t n e h =
      let more : is_complete q ≡ false = ground arith in rw (n, n, e, more) refl

  pub load_there :
      (p : Ptr) (q : Packet) (t : Sys env)
      → (p == null) ≡ false
      → t.heap p ≡ some q
      → load p t ≡ ok q t
  unfolding load
  load_there p q t n e = rw (n, e) refl

  pub starting_packet_fault :
      (s : Stream) (t : Sys env)
      → (s.last == null) ≡ false
      → load s.last t ≡ fault
      → starting_packet s t ≡ fault
  unfolding starting_packet
  starting_packet_fault s t n e = rw (n, e) refl

  module _ (ts : Timeval) (is_in : Bool) where
    pub resume :
        (m : ℕ) (s : Stream) (c : Bool) (y : ℕ) (ys : Bytes) (q : Packet) (t : Sys env)
        → (s.last == null) ≡ false
        → t.heap s.last ≡ some q
        → q.cur_len < q.len
        → append_loop (suc m) s ts is_in c (y ∷ ys) t
          ≡ and_then (feed s (y ∷ ys) q t) (λ x. append_loop m x.0 ts is_in c x.1)
    unfolding append_loop feed_last
    resume m s c y ys q t n e h =
        rw (starting_packet_part s q t n e h, load_there s.last q t n e) refl

    -- What does not fill the packet, and then the rest.
    pub feed_part :
        (n k m : ℕ) (s : Stream) (c : Bool) (zs : Bytes) (y : ℕ) (ys : Bytes) (q : Packet)
        (t : Sys env)
        → IsReady s
        → IsCaptured q
        → IsCapture t
        → (s.last == null) ≡ false
        → length zs + length (y ∷ ys) < 2 ^ 31
        → length zs < q.len - q.cur_len
        → length zs + length (y ∷ ys) - (q.len - q.cur_len) ≤ k
        → length (y ∷ ys) ≤ suc m
        → and_then (feed s (zs ++ y ∷ ys) q t) (λ x. append_loop k x.0 ts is_in c x.1)
          ≡ and_then
              (and_then (feed s zs q t) (λ x. append_loop n x.0 ts is_in c x.1))
              (λ x. append_loop (suc m) x.0 ts is_in x.1 (y ∷ ys))
    unfolding append_loop
    feed_part n k m s c zs y ys q t r g h not_null few room enough enough' =
        ap (λ run. and_then run (λ x. append_loop k x.0 ts is_in c x.1))
          (feed-settle s (zs ++ y ∷ ys) left q full rest t (parts.1 ∙ whole) all)
        ∙ and_then_assoc (settle s full t) _ _
        ∙ and_then-cong Settled (settle s full t) _ _ (settle-Settled s full t r full-IsCaptured h)
            (λ s' t' d.
              append_loop-enough k m s' ts is_in c left t' (omega (arith, left_length))
                (omega (arith, left_length)) d.0.0 d.0.1)
        ∙ sym second
      where
        filled : IsFilled q g.bytes
        filled = captured-IsFilled g

        parts :
            (Packet.append q zs ≡ some (fill q (g.bytes ++ zs), 0))
            × (Packet.append q (zs ++ y ∷ ys) ≡ Packet.append (fill q (g.bytes ++ zs)) (y ∷ ys))
        parts = append_part zs (y ∷ ys) filled g.narrow few room

        part : Packet
        part = fill q (g.bytes ++ zs)

        part_cur_len : part.cur_len ≡ q.cur_len + length zs
        part_cur_len = omega (arith, g.cur_len_is, length-append g.bytes zs)

        part-IsFilled : IsFilled part (g.bytes ++ zs)
        part-IsFilled = fill-IsFilled q (g.bytes ++ zs) (omega (arith, part_cur_len))

        text : Bytes
        text = (g.bytes ++ zs) ++ take (q.len - part.cur_len) (y ∷ ys)

        full : Packet
        full = fill part text

        full-IsCaptured : IsCaptured full
        full-IsCaptured =
            filled-IsCaptured
              (fill-IsFilled part text (
                omega (
                  arith,
                  part_cur_len,
                  length-append (g.bytes ++ zs) (take (q.len - part.cur_len) (y ∷ ys)),
                  length-take (q.len - part.cur_len) (y ∷ ys),
                )))
              g.narrow

        rest : ℕ
        rest = length (y ∷ ys) - (q.len - part.cur_len)

        left : Bytes
        left = drop (length (y ∷ ys) - rest) (y ∷ ys)

        left_length : length left ≡ length zs + length (y ∷ ys) - (q.len - q.cur_len)
        left_length = omega (arith, part_cur_len, length-drop (length (y ∷ ys) - rest) (y ∷ ys))

        whole : Packet.append part (y ∷ ys) ≡ some (full, rest)
        whole = append-filled (y ∷ ys) part-IsFilled g.narrow (omega arith)

        all : drop (length (zs ++ y ∷ ys) - rest) (zs ++ y ∷ ys) ≡ left
        all =
            drop-append_ge (length (zs ++ y ∷ ys) - rest) zs (y ∷ ys)
              (omega (arith, part_cur_len, length-append zs (y ∷ ys)))
            ∙ ap (λ i. drop i (y ∷ ys)) (omega (arith, part_cur_len, length-append zs (y ∷ ys)))

        stored : Sys env
        stored = record t { heap = write t.heap s.last (some part) }

        second :
            and_then
              (and_then (feed s zs q t) (λ x. append_loop n x.0 ts is_in c x.1))
              (λ x. append_loop (suc m) x.0 ts is_in x.1 (y ∷ ys))
            ≡ and_then (settle s full t) (λ s'. append_loop m s' ts is_in c left)
        second =
            ap
              (λ run.
                and_then (and_then run (λ x. append_loop n x.0 ts is_in c x.1))
                  (λ x. append_loop (suc m) x.0 ts is_in x.1 (y ∷ ys)))
              (feed-settle s zs [] q part 0 t parts.0 (drop-all (length zs - 0) zs (omega arith))
                ∙ ap (λ run. and_then run (λ s'. pure (s', [])))
                    (settle_part s part t (omega (arith, part_cur_len))))
            ∙ resume m s c y ys part stored not_null (write-there t.heap s.last (some part))
                (omega (arith, part_cur_len))
            ∙ ap (λ run. and_then run (λ x. append_loop m x.0 ts is_in c x.1))
                (feed-settle s (y ∷ ys) left part full rest stored whole refl
                  ∙ ap (λ run. and_then run (λ s'. pure (s', left))) (settle_twice s part full t))
            ∙ and_then_assoc (settle s full t) _ _
