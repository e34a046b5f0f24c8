-- ===== src/Stream/Append/Split.antt =====
-- How the data of a stream are cut into segments does not matter to `append`.
use mysqlpcap.Base.{
  ℕ, zero, suc, ◌+◌, ◌-◌, ◌^◌, ◌≤◌, ◌<◌, ◌≡◌, ◌∙◌, sym, ap, refl, Bool, true, false, [], ◌∷◌, ◌++◌,
  append-nil, Bytes, arith, length, drop, length-append, length-drop, inl, inr,
}
use native.Mathlib.Decide.{dec_le}
use mysqlpcap.Base.Run.{
  and_then, Ensures, Ensures-both, and_then-cong, and_then_assoc, and_then-split,
}
use mysqlpcap.Packet.{Timeval}
use mysqlpcap.Packet.Captured.{captured-IsBounded}
use mysqlpcap.Stream.{starting_packet, take_header}
use mysqlpcap.Stream.Append.{feed_last, append_loop, append}
use mysqlpcap.Stream.Append.Fuel.{
  IsIncomplete, append_loop-enough, behind_header, turn, starting_packet-IsIncomplete,
}
use mysqlpcap.Stream.Append.Opening.{
  IsOpened, open_packet, open_packet-Settled, create_new_packet_whole, create_new_packet-append,
  create_new_packet_cut, take_header-positive,
}
use mysqlpcap.Stream.Append.Parts.{IsCapture, Settled, load_cases}
use mysqlpcap.Stream.Append.Segments.{Ends, Splits, feed_split}
use mysqlpcap.Stream.Append.Sound.{feed, feed-Keeps}
use mysqlpcap.Stream.Captured.{starting_packet-captured}
use mysqlpcap.Sys.{Env, Stream, Sys}
use mysqlpcap.Sys.Captured.{AreCaptured}
use mysqlpcap.Sys.Sound.{IsReady, IsSound}
use mysqlpcap.Stream.Append.Flag.{stream_of, append_loop_flag}
use mysqlpcap.Stream.Append.Segments.Part.{resume, starting_packet_fault}

-- Shorter segments are read alike.
abbrev Shorter : (env : Env) → Timeval → (is_in : Bool) → (n k m : ℕ) → Bytes → Type 0
Shorter env ts is_in n k m ys =
    (s' : Stream) (c : Bool) (left : Bytes) (t' : Sys env)
    → Settled s' t'
    → length left ≤ n
    → length left + length ys ≤ k
    → length left + length ys < 2 ^ 31
    → Splits ts is_in n k m s' c left ys t'

module _ {env : Env} (ts : Timeval) (is_in : Bool) where
  -- The segment is cut right behind a header.
  behind_empty :
      (k m : ℕ) (s : Stream) (y : ℕ) (ys : Bytes) (t : Sys env)
      → length (y ∷ ys) ≤ k
      → length (y ∷ ys) ≤ suc m
      → Settled s t
      → IsOpened s t
      → Ends (s, true) t
      → and_then (feed_last s (y ∷ ys) t) (λ x. append_loop k x.0 ts is_in true x.1)
        ≡ append_loop (suc m) s ts is_in true (y ∷ ys) t
  unfolding feed_last append_loop
  behind_empty k m s y ys t h h' d o ends = elim (load_cases s.last t) [
    | inl gone ↦ rw (gone, starting_packet_fault s t o.0 gone) refl
    | inr (q, e, here, not_null) ↦ rw e (
        let room : q.cur_len < q.len = omega (arith, rw here at o.1, rw here at (ends.1)) in
        and_then-cong _ (feed s (y ∷ ys) q t) _ _
          ((feed-Keeps s (y ∷ ys) q d.0.0 (captured-IsBounded (rw here at (d.1 s.last)))).from t
            d.0.1)
          (λ x t' f.
            append_loop-enough k m x.0 ts is_in true x.1 t' (omega (arith, f.0.1))
              (omega (arith, f.0.2 room (omega arith))) f.0.0 f.1)
        ∙ sym (resume ts is_in m s true y ys q t not_null here room))
  ]

  -- Behind a header that is complete.
  behind_split :
      (n k m : ℕ) (s : Stream) (rest : Bytes) (y : ℕ) (ys : Bytes) (t : Sys env)
      → length rest ≤ n
      → length rest + length (y ∷ ys) ≤ k
      → length (y ∷ ys) ≤ suc m
      → length rest + length (y ∷ ys) < 2 ^ 31
      → Shorter env ts is_in n k (suc m) (y ∷ ys)
      → Settled s t
      → IsOpened s t
      → Ensures Ends (behind_header n ts is_in s rest false t)
      → behind_header k ts is_in s (rest ++ y ∷ ys) false t
        ≡ and_then
            (behind_header n ts is_in s rest false t)
            (λ x. append_loop (suc m) x.0 ts is_in x.1 (y ∷ ys))
  behind_split n k m s [] y ys t l l' enough few ih d o ends =
      behind_empty k m s y ys t (omega arith) enough d o ends
  behind_split n k m s (z ∷ zs) y ys t l l' enough few ih d o ends =
      feed_split ts is_in n k m s true (z ∷ zs) y ys t d.0.0 (d.0.1, d.1) few enough
        (λ q e. (omega arith, omega arith))
        (λ s' left t' d' shorter h h'. ih s' true left t' d' h h' (omega (arith, shorter, few)))
        ends

  -- A round that starts a packet.
  create_split :
      (n k m : ℕ) (s : Stream) (c : Bool) (x : ℕ) (xs : Bytes) (y : ℕ) (ys : Bytes) (t : Sys env)
      → length xs ≤ n
      → length xs + length (y ∷ ys) ≤ k
      → length (y ∷ ys) ≤ suc m
      → length (x ∷ xs) + length (y ∷ ys) < 2 ^ 31
      → Shorter env ts is_in n k (suc m) (y ∷ ys)
      → IsReady s
      → IsCapture t
      → Ensures Ends (turn n s ts is_in c (x ∷ xs) true t)
      → turn k s ts is_in c (x ∷ xs ++ y ∷ ys) true t
        ≡ and_then
            (turn n s ts is_in c (x ∷ xs) true t)
            (λ r. append_loop (suc m) r.0 ts is_in r.1 (y ∷ ys))
  create_split n k m s c x xs y ys t l l' enough few ih r h ends =
      elim (dec_le (4 - s.cur_pkt_hdr_len) (length (x ∷ xs))) [
        | yes whole ↦
            ap (λ run. and_then run (λ r. behind_header k ts is_in r.0 r.1 r.2))
              (create_new_packet-append s ts (x ∷ xs) (y ∷ ys) is_in t r.short whole)
            ∙ and_then_assoc (open_packet (take_header s (x ∷ xs)) ts is_in t) _ _
            ∙ and_then-split (λ s' t'. Settled s' t' × IsOpened s' t') Ends
                (open_packet (take_header s (x ∷ xs)) ts is_in t) _ _ _
                (open_packet-Settled s ts (x ∷ xs) is_in t r h whole) (rw (first whole) at ends)
                (λ s' t' d.
                  behind_split n k m s' (rest s) y ys t' (omega (arith, rest_length s, r.short))
                    (omega (arith, rest_length s, r.short)) enough
                    (omega (arith, rest_length s, r.short)) ih d.0 d.1)
            ∙ ap (λ run. and_then run (λ r. append_loop (suc m) r.0 ts is_in r.1 (y ∷ ys)))
                (sym (first whole))
        | no cut ↦
            let kept = create_new_packet_cut s ts (x ∷ xs) is_in t (omega arith) in
            absurd (
              omega
                (arith, take_header-positive s (x ∷ xs) r.short (omega arith), (rw kept at ends).0))
      ]
    where
      rest : Stream → Bytes
      rest s = drop (4 - s.cur_pkt_hdr_len) (x ∷ xs)

      rest_length : (s : Stream) → length (rest s) ≡ suc (length xs) - (4 - s.cur_pkt_hdr_len)
      rest_length s = length-drop (4 - s.cur_pkt_hdr_len) (x ∷ xs)

      first :
          4 - s.cur_pkt_hdr_len ≤ length (x ∷ xs)
          → turn n s ts is_in c (x ∷ xs) true t
            ≡ and_then
                (open_packet (take_header s (x ∷ xs)) ts is_in t)
                (λ s'. behind_header n ts is_in s' (rest s) false)
      first whole =
          ap (λ run. and_then run (λ r. behind_header n ts is_in r.0 r.1 r.2))
            (create_new_packet_whole s ts (x ∷ xs) is_in t r.short whole)
          ∙ and_then_assoc (open_packet (take_header s (x ∷ xs)) ts is_in t) _ _

  -- A round, from the rounds for shorter segments.
  round_split :
      (n k m : ℕ) (s : Stream) (c : Bool) (x : ℕ) (xs : Bytes) (y : ℕ) (ys : Bytes) (t : Sys env)
      → length xs ≤ n
      → length xs + length (y ∷ ys) ≤ k
      → length (y ∷ ys) ≤ suc m
      → length (x ∷ xs) + length (y ∷ ys) < 2 ^ 31
      → Shorter env ts is_in n k (suc m) (y ∷ ys)
      → Settled s t
      → Splits ts is_in (suc n) (suc k) (suc m) s c (x ∷ xs) (y ∷ ys) t
  unfolding append_loop
  round_split n k m s c x xs y ys t l l' enough few ih d ends =
      and_then-split
        (λ starting t'.
          ((starting ≡ false → IsIncomplete (t'.heap s.last)) × IsSound env t') × AreCaptured t')
        Ends (starting_packet s t) _ _ _
        (Ensures-both _ _ (starting_packet s t) (starting_packet-IsIncomplete s t d.0.1)
          ((starting_packet-captured s).from t d.1))
        ends go
    where
      go :
          (starting : Bool) (t' : Sys env)
          → ((starting ≡ false → IsIncomplete (t'.heap s.last)) × IsSound env t') × AreCaptured t'
          → Ensures Ends (turn n s ts is_in c (x ∷ xs) starting t')
          → turn k s ts is_in c (x ∷ xs ++ y ∷ ys) starting t'
            ≡ and_then
                (turn n s ts is_in c (x ∷ xs) starting t')
                (λ r. append_loop (suc m) r.0 ts is_in r.1 (y ∷ ys))
      go true t' p e = create_split n k m s c x xs y ys t' l l' enough few ih d.0.0 (p.0.1, p.1) e
      go false t' p e =
          feed_split ts is_in n k m s c (x ∷ xs) y ys t' d.0.0 (p.0.1, p.1) few enough
            (λ q here.
              let room = rw here at (p.0.0 refl) in (omega (arith, room), omega (arith, room)))
            (λ s' left t'' d' shorter h h'. ih s' c left t'' d' h h' (omega (arith, shorter, few)))
            e

  append_loop-append :
      (n k m : ℕ) (s : Stream) (c : Bool) (xs : Bytes) (y : ℕ) (ys : Bytes) (t : Sys env)
      → length xs ≤ n
      → length xs + length (y ∷ ys) ≤ k
      → length (y ∷ ys) ≤ suc m
      → length xs + length (y ∷ ys) < 2 ^ 31
      → Settled s t
      → Splits ts is_in n k (suc m) s c xs (y ∷ ys) t
  unfolding append_loop
  append_loop-append n k m s c [] y ys t l l' enough few d ends =
      append_loop-enough k (suc m) s ts is_in c (y ∷ ys) t (omega arith) enough d.0.0 d.0.1
  append_loop-append zero k m s c (x ∷ xs) y ys t l l' enough few d ends = absurd (omega arith)
  append_loop-append (suc n) zero m s c (x ∷ xs) y ys t l l' enough few d ends =
      absurd (omega arith)
  append_loop-append (suc n) (suc k) m s c (x ∷ xs) y ys t l l' enough few d ends =
      round_split n k m s c x xs y ys t (omega arith) (omega arith) enough few
        (λ s' c' left t' d' h h' few'.
          append_loop-append n k m s' c' left y ys t' h h' enough few' d')
        d ends

  -- For segments of less than 2^31 bytes, if each packet on the heap is shorter than 2^24 bytes and
  -- holds in its buffer what it has received, not more than its length, and this stream and those of the
  -- map have less than four bytes of a header in their buffers of four: when `append` of the first part of
  -- a segment, where it returns, keeps no part of a header, and the last packet, if there is one, is not empty,
  -- then `append` of the whole segment leads to the stream and the state, or the failure, that `append` of
  -- the two parts one after the other leads to.
  pub append-append :
      (s : Stream) (xs ys : Bytes) (t : Sys env)
      → length xs + length ys < 2 ^ 31
      → IsReady s
      → IsSound env t
      → AreCaptured t
      → Ensures Ends (append s ts xs is_in t)
      → stream_of (append s ts (xs ++ ys) is_in t)
        ≡ and_then (append s ts xs is_in t) (λ r t'. stream_of (append r.0 ts ys is_in t'))
  unfolding append append_loop
  append-append s xs [] t few r sound captured ends = rw (append-nil xs)
  append-append s xs (y ∷ ys) t few r sound captured ends =
      ap stream_of (
        append_loop-append (length xs) (length (xs ++ y ∷ ys)) (length ys) s false xs y ys t
          (omega arith) (omega (arith, length-append xs (y ∷ ys))) (omega arith) few
          ((r, sound), captured) ends)
      ∙ and_then_assoc (append_loop (length xs) s ts is_in false xs t) _ _
      ∙ ap (and_then (append_loop (length xs) s ts is_in false xs t))
          (λ i r t'. append_loop_flag ts is_in (length (y ∷ ys)) r.0 r.1 false (y ∷ ys) t' i)
