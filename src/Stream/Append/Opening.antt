-- ===== src/Stream/Append/Opening.antt =====
-- The packet that `create_new_packet` makes when the header is complete.
pub mod Unfilled
use mysqlpcap.Base.{
  ℕ, ◌+◌, ◌-◌, ◌≤◌, ◌<◌, ◌≡◌, ◌∙◌, sym, ap, refl, Bool, true, false, not, Option, none, some, ◌++◌,
  Bytes, arith, length, take, drop, take-append_le, drop-append_le, length-append, ltb, leb, ◌==◌,
  ==_iff, Bool-cases, inl, inr,
}
use mysqlpcap.Base.Maybe.{Gives}
use mysqlpcap.Base.Run.{
  Run, ok, throws, fault, out_of_fuel, M, pure, assert, ◌>>=◌, ◌>>◌, and_then, Ensures,
  Ensures-both, Ensures-map, Ensures-under, Ensures-and_then, and_then_assoc,
}
use mysqlpcap.Packet.{Packet, PerfStats, Ptr, null, Timeval, make, mark_ref}
use mysqlpcap.Stream.{header_bytes, take_header, link_last, create_new_packet}
use mysqlpcap.Stream.Append.Parts.{IsCapture, Settled, load_cases, write-there}
use mysqlpcap.Sys.{
  Env, Stream, Sys, write, get, load, store, set_next, set_prev, require, allocate, mark,
}
use mysqlpcap.Sys.Frame.{Frame, bind-Frame, branch-Frame, pure-Frame, assert-Frame}
use mysqlpcap.Stream.Captured.{create_new_packet-captured}
use mysqlpcap.Stream.Sound.{create_new_packet-Keeps}
use mysqlpcap.Sys.Captured.{AreCaptured}
use mysqlpcap.Sys.Sound.{IsReady, IsSound}
use mysqlpcap.Wire.{uint3korr}
use mysqlpcap.Stream.Append.Opening.Unfilled.{
  IsUnfilled, mark-IsUnfilled, link_last-IsUnfilled, link_last-last, mark-not_null,
}

pub header_bytes_whole :
    (s : Stream) (n : ℕ) → 4 - s.cur_pkt_hdr_len ≤ n → header_bytes s n ≡ 4 - s.cur_pkt_hdr_len
unfolding header_bytes
header_bytes_whole s n h = ground arith

cut_header :
    (s : Stream) (xs : Bytes)
    → length xs < 4 - s.cur_pkt_hdr_len
    → ltb (s.cur_pkt_hdr_len + header_bytes s (length xs)) 4 ≡ true
unfolding header_bytes
cut_header s xs h = ground arith

pub take_header-positive :
    (s : Stream) (xs : Bytes)
    → s.cur_pkt_hdr_len < 4
    → 0 < length xs
    → 0 < (take_header s xs).cur_pkt_hdr_len
unfolding take_header header_bytes
take_header-positive s xs short h = ground arith

take_header-append :
    (s : Stream) (xs ys : Bytes)
    → 4 - s.cur_pkt_hdr_len ≤ length xs
    → take_header s (xs ++ ys) ≡ take_header s xs
unfolding take_header
take_header-append s xs ys h = λ i. record s {
  pkt_hdr = front i ++ drop (same i) s.pkt_hdr;
  cur_pkt_hdr_len = s.cur_pkt_hdr_len + same i;
}
  where
    same : header_bytes s (length (xs ++ ys)) ≡ header_bytes s (length xs)
    same =
        header_bytes_whole s (length (xs ++ ys)) (omega (arith, length-append xs ys))
        ∙ sym (header_bytes_whole s (length xs) h)

    front :
        take (header_bytes s (length (xs ++ ys))) (xs ++ ys) ≡ take (header_bytes s (length xs)) xs
    front =
        ap (λ n. take n (xs ++ ys)) same
        ∙ take-append_le (header_bytes s (length xs)) xs ys
            (omega (arith, header_bytes_whole s (length xs) h, h))

module _ {env : Env} where
  -- What `create_new_packet` does behind the header.
  abbrev pub open_packet : Stream → Timeval → (is_in : Bool) → M (Sys env) Stream
  open_packet s ts is_in = do
    sys ← get
    let (q, perf) = make ts (uint3korr s.pkt_hdr) is_in sys.perf
    p ← allocate q perf
    mark p
    link_last (record s { cur_pkt_hdr_len = 0 }) p

  pub create_new_packet_whole :
      (s : Stream) (ts : Timeval) (xs : Bytes) (is_in : Bool) (t : Sys env)
      → s.cur_pkt_hdr_len < 4
      → 4 - s.cur_pkt_hdr_len ≤ length xs
      → create_new_packet s ts xs is_in t
        ≡ and_then
            (open_packet (take_header s xs) ts is_in t)
            (λ s'. pure (s', drop (4 - s.cur_pkt_hdr_len) xs, false))
  unfolding create_new_packet take_header get allocate
  create_new_packet_whole s ts xs is_in t short h =
      base
      ∙ ap
          (λ n.
            and_then (open_packet (take_header s xs) ts is_in t)
              (λ s'. pure (s', drop n xs, false)))
          (header_bytes_whole s (length xs) h)
    where
      pair : Packet × PerfStats
      pair = make ts (uint3korr (take_header s xs).pkt_hdr) is_in t.perf

      made : Sys env
      made = record t {
        heap = write t.heap t.fresh (some pair.0);
        fresh = t.fresh + 1;
        perf = pair.1;
      }

      all : ltb (s.cur_pkt_hdr_len + header_bytes s (length xs)) 4 ≡ false
      all = ground (arith, header_bytes_whole s (length xs) h)

      base :
          create_new_packet s ts xs is_in t
          ≡ and_then
              (open_packet (take_header s xs) ts is_in t)
              (λ s'. pure (s', drop (header_bytes s (length xs)) xs, false))
      base = rw all (sym (and_then_assoc (mark t.fresh made) _ _))

  -- The header's bytes that are not there yet stand at the front of the segment.
  pub create_new_packet-append :
      (s : Stream) (ts : Timeval) (xs ys : Bytes) (is_in : Bool) (t : Sys env)
      → s.cur_pkt_hdr_len < 4
      → 4 - s.cur_pkt_hdr_len ≤ length xs
      → create_new_packet s ts (xs ++ ys) is_in t
        ≡ and_then
            (open_packet (take_header s xs) ts is_in t)
            (λ s'. pure (s', drop (4 - s.cur_pkt_hdr_len) xs ++ ys, false))
  create_new_packet-append s ts xs ys is_in t short h =
      create_new_packet_whole s ts (xs ++ ys) is_in t short (omega (arith, length-append xs ys))
      ∙ λ i.
          and_then (open_packet (take_header-append s xs ys h i) ts is_in t)
            (λ s'. pure (s', drop-append_le (4 - s.cur_pkt_hdr_len) xs ys h i, false))

  -- The last packet is there, and has received nothing.
  abbrev pub IsOpened : Stream → Sys env → Type 0
  IsOpened s t = ((s.last == null) ≡ false) × IsUnfilled s.last t

  pub open_packet-IsOpened :
      (s : Stream) (ts : Timeval) (is_in : Bool) (t : Sys env)
      → Ensures IsOpened (open_packet s ts is_in t)
  unfolding get allocate make
  open_packet-IsOpened s ts is_in t =
      Ensures-and_then (λ _ t'. ((t.fresh == null) ≡ false) × IsUnfilled t.fresh t') IsOpened
        (mark t.fresh made) (λ _. link_last (record s { cur_pkt_hdr_len = 0 }) t.fresh)
        (Ensures-both _ _ (mark t.fresh made) (mark-not_null t.fresh made) (
          (mark-IsUnfilled t.fresh t.fresh).from made
            (rw (write-there t.heap t.fresh (some pair.0)) refl)))
        (λ _ t' h.
          Ensures-map (λ s' t'' d. rw d.0 (h.0, d.1))
            (link_last (record s { cur_pkt_hdr_len = 0 }) t.fresh t')
            (Ensures-both _ _ (link_last (record s { cur_pkt_hdr_len = 0 }) t.fresh t')
              (link_last-last t.fresh (record s { cur_pkt_hdr_len = 0 }) t')
              ((link_last-IsUnfilled t.fresh (record s { cur_pkt_hdr_len = 0 })).from t' h.1)))
    where
      pair : Packet × PerfStats
      pair = make ts (uint3korr s.pkt_hdr) is_in t.perf

      made : Sys env
      made = record t {
        heap = write t.heap t.fresh (some pair.0);
        fresh = t.fresh + 1;
        perf = pair.1;
      }

  -- A header that is cut is kept, and nothing else happens.
  pub create_new_packet_cut :
      (s : Stream) (ts : Timeval) (xs : Bytes) (is_in : Bool) (t : Sys env)
      → length xs < 4 - s.cur_pkt_hdr_len
      → create_new_packet s ts xs is_in t
        ≡ ok (take_header s xs, drop (header_bytes s (length xs)) xs, true) t
  unfolding create_new_packet take_header
  create_new_packet_cut s ts xs is_in t h = rw (cut_header s xs h) refl

  -- The state in which the packet is open.
  pub open_packet-Settled :
      (s : Stream) (ts : Timeval) (xs : Bytes) (is_in : Bool) (t : Sys env)
      → IsReady s
      → IsCapture t
      → 4 - s.cur_pkt_hdr_len ≤ length xs
      → Ensures
          (λ s' t'. Settled s' t' × IsOpened s' t')
          (open_packet (take_header s xs) ts is_in t)
  open_packet-Settled s ts xs is_in t r h enough =
      Ensures-both Settled IsOpened (open_packet (take_header s xs) ts is_in t)
        (Ensures-both (λ s' t'. IsReady s' × IsSound env t') (λ _ t'. AreCaptured t')
          (open_packet (take_header s xs) ts is_in t)
          (Ensures-map (λ s' t' d. (d.0.0, d.1)) (open_packet (take_header s xs) ts is_in t)
            (Ensures-under _ _ (open_packet (take_header s xs) ts is_in t) (
              rw whole at
                ((create_new_packet-Keeps s ts xs is_in r (omega (arith, r.short))).from t h.0))))
          (Ensures-under _ _ (open_packet (take_header s xs) ts is_in t)
            (rw whole at ((create_new_packet-captured s ts xs is_in).from t h.1))))
        (open_packet-IsOpened (take_header s xs) ts is_in t)
    where
      whole :
          create_new_packet s ts xs is_in t
          ≡ and_then
              (open_packet (take_header s xs) ts is_in t)
              (λ s'. pure (s', drop (4 - s.cur_pkt_hdr_len) xs, false))
      whole = create_new_packet_whole s ts xs is_in t r.short enough
