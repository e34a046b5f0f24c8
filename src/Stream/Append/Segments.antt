-- ===== src/Stream/Append/Segments.antt =====
-- A segment that comes in two.
pub mod Part
use mysqlpcap.Base.{
  ℕ, suc, ◌+◌, ◌-◌, ◌^◌, ◌≤◌, ◌<◌, ◌≡◌, ◌∙◌, sym, ap, refl, Bool, false, some, [], ◌∷◌, ◌++◌, Bytes,
  arith, length, take, drop, ◌==◌, length-append, length-drop, length-take, drop-append_le,
  drop-append_ge, drop-all, inl, inr,
}
use native.Mathlib.Decide.{dec_le}
use mysqlpcap.Base.Maybe.{Gives}
use mysqlpcap.Base.Run.{
  ok, fault, pure, and_then, Ensures, and_then-cong, and_then_assoc, and_then-split,
}
use mysqlpcap.Packet
use mysqlpcap.Packet.{Packet, Ptr, null, Timeval, is_complete}
use mysqlpcap.Packet.Append.{IsFilled, fill}
use mysqlpcap.Packet.Captured.{
  IsCaptured, captured-IsFilled, filled-IsCaptured, append-filled, fill-IsFilled, append_part,
  append_whole,
}
use mysqlpcap.Stream.{starting_packet}
use mysqlpcap.Stream.Append.{feed_last, append_loop}
use mysqlpcap.Stream.Append.Fuel.{append_loop-enough}
use mysqlpcap.Stream.Append.Parts.{
  IsCapture, load_cases, settle, Settled, settle-Settled, feed-settle, settle_part, settle_twice,
  write-there,
}
use mysqlpcap.Stream.Append.Sound.{feed}
use mysqlpcap.Sys.{Env, Stream, Sys, write, load}
use mysqlpcap.Sys.Sound.{IsReady}
use mysqlpcap.Stream.Append.Segments.Part.{feed_part}

module _ {env : Env} where
  -- No header is cut, and the last packet is not empty.
  abbrev pub Ends : Stream × Bool → Sys env → Type 0
  Ends x t = (x.0.cur_pkt_hdr_len ≡ 0) × Gives (λ q. 0 < q.len) (t.heap x.0.last)

  module _ (ts : Timeval) (is_in : Bool) where
    -- That a segment that comes in two is read as if it came at once.
    abbrev pub Splits : (n k m : ℕ) → Stream → (created : Bool) → (xs ys : Bytes) → Sys env → Type 0
    Splits n k m s c xs ys t =
        Ensures Ends (append_loop n s ts is_in c xs t)
        → append_loop k s ts is_in c (xs ++ ys) t
          ≡ and_then (append_loop n s ts is_in c xs t) (λ x. append_loop m x.0 ts is_in x.1 ys)

    -- What fills the packet, with the rest in two.
    feed_whole :
        (n k m : ℕ) (s : Stream) (c : Bool) (zs ys : Bytes) (q : Packet) (t : Sys env)
        → IsReady s
        → IsCaptured q
        → IsCapture t
        → length zs + length ys < 2 ^ 31
        → q.len - q.cur_len ≤ length zs
        → ((s' : Stream) (t' : Sys env)
            → Settled s' t'
            → Splits n k m s' c (drop (q.len - q.cur_len) zs) ys t')
        → Ensures Ends (and_then (feed s zs q t) (λ x. append_loop n x.0 ts is_in c x.1))
        → and_then (feed s (zs ++ ys) q t) (λ x. append_loop k x.0 ts is_in c x.1)
          ≡ and_then
              (and_then (feed s zs q t) (λ x. append_loop n x.0 ts is_in c x.1))
              (λ x. append_loop m x.0 ts is_in x.1 ys)
    feed_whole n k m s c zs ys q t r g h few enough ih ends =
        ap (λ run. and_then run (λ x. append_loop k x.0 ts is_in c x.1))
          (feed-settle s (zs ++ ys) (left ++ ys) q full (length zs + length ys - room) t
            (append_whole zs ys (captured-IsFilled g) g.narrow few enough) all)
        ∙ and_then_assoc (settle s full t) _ _
        ∙ and_then-split Settled Ends (settle s full t) _ _ _
            (settle-Settled s full t r full-IsCaptured h) (rw first at ends) ih
        ∙ ap (λ run. and_then run (λ x. append_loop m x.0 ts is_in x.1 ys)) (sym first)
      where
        room : ℕ
        room = q.len - q.cur_len

        left : Bytes
        left = drop room zs

        text : Bytes
        text = g.bytes ++ take room zs

        full : Packet
        full = fill q text

        full-IsCaptured : IsCaptured full
        full-IsCaptured =
            filled-IsCaptured
              (fill-IsFilled q text (
                omega (
                  arith,
                  g.cur_len_is,
                  g.within,
                  length-append g.bytes (take room zs),
                  length-take room zs,
                )))
              g.narrow

        all : drop (length (zs ++ ys) - (length zs + length ys - room)) (zs ++ ys) ≡ left ++ ys
        all =
            ap (λ i. drop i (zs ++ ys)) (omega (arith, length-append zs ys))
            ∙ drop-append_le room zs ys enough

        first :
            and_then (feed s zs q t) (λ x. append_loop n x.0 ts is_in c x.1)
            ≡ and_then (settle s full t) (λ s'. append_loop n s' ts is_in c left)
        first =
            ap (λ run. and_then run (λ x. append_loop n x.0 ts is_in c x.1))
              (feed-settle s zs left q full (length zs - room) t
                (append-filled zs (captured-IsFilled g) g.narrow (omega arith))
                (ap (λ i. drop i zs) (omega arith)))
            ∙ and_then_assoc (settle s full t) _ _

    pub feed_split :
        (n k m : ℕ) (s : Stream) (c : Bool) (zs : Bytes) (y : ℕ) (ys : Bytes) (t : Sys env)
        → IsReady s
        → IsCapture t
        → length zs + length (y ∷ ys) < 2 ^ 31
        → length (y ∷ ys) ≤ suc m
        → ((q : Packet)
            → t.heap s.last ≡ some q
            → (length zs - (q.len - q.cur_len) ≤ n)
              × (length zs + length (y ∷ ys) - (q.len - q.cur_len) ≤ k))
        → ((s' : Stream) (left : Bytes) (t' : Sys env)
            → Settled s' t'
            → length left ≤ length zs
            → length left ≤ n
            → length left + length (y ∷ ys) ≤ k
            → Splits n k (suc m) s' c left (y ∷ ys) t')
        → Ensures Ends (and_then (feed_last s zs t) (λ x. append_loop n x.0 ts is_in c x.1))
        → and_then (feed_last s (zs ++ y ∷ ys) t) (λ x. append_loop k x.0 ts is_in c x.1)
          ≡ and_then
              (and_then (feed_last s zs t) (λ x. append_loop n x.0 ts is_in c x.1))
              (λ x. append_loop (suc m) x.0 ts is_in x.1 (y ∷ ys))
    unfolding feed_last
    feed_split n k m s c zs y ys t r h few enough small ih ends = elim (load_cases s.last t) [
      | inl gone ↦ rw gone refl
      | inr (q, e, here, not_null) ↦
          let g : IsCaptured q = rw here at (h.1 s.last) in
          rw e (elim (dec_le (q.len - q.cur_len) (length zs)) [
            | yes full ↦
                feed_whole n k (suc m) s c zs (y ∷ ys) q t r g h few full
                  (λ s' t' d.
                    ih s' (drop (q.len - q.cur_len) zs) t' d
                      (omega (arith, length-drop (q.len - q.cur_len) zs))
                      (omega (arith, length-drop (q.len - q.cur_len) zs, (small q here).0))
                      (omega (arith, length-drop (q.len - q.cur_len) zs, (small q here).1)))
                  (rw e at ends)
            | no part ↦
                feed_part ts is_in n k m s c zs y ys q t r g h not_null few (omega arith)
                  (small q here).1 enough
          ])
    ]
