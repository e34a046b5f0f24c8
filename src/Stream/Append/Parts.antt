-- ===== src/Stream/Append/Parts.antt =====
-- Data of a packet that come to `feed_last` at once, and in two parts.
use mysqlpcap.Base.{
  ℕ, ◌-◌, ◌<◌, ◌≡◌, refl, ◌⊎◌, inl, inr, false, Option, none, some, Bytes, arith, length, drop,
  ◌==◌, if◌then◌else◌, Bool-cases,
}
use mysqlpcap.Base.Run.{ok, fault, M, pure, ◌>>◌, and_then, Ensures, Ensures-both}
use mysqlpcap.Packet
use mysqlpcap.Packet.{Packet, Ptr, null, Timeval, is_complete}
use mysqlpcap.Packet.Captured.{IsCaptured, captured-IsBounded}
use mysqlpcap.Stream.Append.Sound.{feed}
use mysqlpcap.Stream.Captured.{handle_packet_complete-captured}
use mysqlpcap.Stream.Complete.{handle_packet_complete}
use mysqlpcap.Stream.Complete.Sound.{handle_packet_complete-Keeps}
use mysqlpcap.Sys.{Env, Stream, Sys, Heap, write, load, store, require}
use mysqlpcap.Sys.Captured.{AreCaptured, store-captured}
use mysqlpcap.Sys.Frame.{Frame, bind-Frame, branch-Frame, pure-Frame}
use mysqlpcap.Sys.Sound.{IsReady, IsSound, Keeps, bind-Keeps, branch-Keeps, pure-Keeps, store-Keeps}

write-write : (h : Heap) (p : Ptr) (c d : Option Packet) → write (write h p c) p d ≡ write h p d
unfolding write
write-write h p c d = λ i a. same a i
  where
    same : (a : Ptr) → write (write h p c) p d a ≡ write h p d a
    same a = elim (Bool-cases (a == p)) [ inl e ↦ rw e | inr e ↦ rw e ]

pub write-there : (h : Heap) (p : Ptr) (c : Option Packet) → write h p c p ≡ c
unfolding write
write-there h p c = ground arith

module _ {env : Env} where
  -- A sound state of a capture.
  abbrev pub IsCapture : Sys env → Type 0
  IsCapture t = IsSound env t × AreCaptured t

  pub load_cases :
      (p : Ptr) (t : Sys env)
      → (load p t ≡ fault)
        ⊎ ((q : Packet) × (load p t ≡ ok q t) × (t.heap p ≡ some q) × ((p == null) ≡ false))
  unfolding load
  load_cases p t = elim (Bool-cases (p == null)) [
    | inl is_null ↦ inl (rw is_null refl)
    | inr not_null ↦ go not_null (t.heap p) refl
  ]
    where
      go :
          (p == null) ≡ false
          → (c : Option Packet) → t.heap p ≡ c
          → (load p t ≡ fault)
            ⊎ ((q : Packet) × (load p t ≡ ok q t) × (t.heap p ≡ some q) × ((p == null) ≡ false))
      go n none e = inl (rw (n, e) refl)
      go n (some q) e = inr (q, rw (n, e) refl, e, n)

  -- What `feed_last` does with the packet that was filled.
  abbrev pub settle : Stream → Packet → M (Sys env) Stream
  settle s q = do store s.last q; if is_complete q then handle_packet_complete s else pure s

  abbrev pub Settled : Stream → Sys env → Type 0
  Settled s t = (IsReady s × IsSound env t) × AreCaptured t

  pub settle-Settled :
      (s : Stream) (q : Packet) (t : Sys env)
      → IsReady s
      → IsCaptured q
      → IsCapture t
      → Ensures Settled (settle s q t)
  settle-Settled s q t r g h = Ensures-both _ _ (settle s q t) (kept.from t h.0) (framed.from t h.1)
    where
      kept : Keeps {env = env} IsReady (settle s q)
      kept = bind-Keeps (store-Keeps s.last q (captured-IsBounded g)) (λ _ _.
          branch-Keeps (is_complete q) (λ e. handle_packet_complete-Keeps s r)
            (λ e. pure-Keeps IsReady s r))

      framed : Frame (AreCaptured {env = env}) (settle s q)
      framed =
          bind-Frame (store-captured s.last q g)
            (λ _. branch-Frame (is_complete q) (handle_packet_complete-captured s) (pure-Frame s))

  pub feed-settle :
      (s : Stream) (bs left : Bytes) (q q' : Packet) (n : ℕ) (t : Sys env)
      → Packet.append q bs ≡ some (q', n)
      → drop (length bs - n) bs ≡ left
      → feed s bs q t ≡ and_then (settle s q' t) (λ s'. pure (s', left))
  unfolding require store
  feed-settle s bs left q q' n t e f = rw (e, f) refl

  -- Where more is still to come to the packet.
  pub settle_part :
      (s : Stream) (q : Packet) (t : Sys env)
      → q.cur_len < q.len
      → settle s q t ≡ ok s (record t { heap = write t.heap s.last (some q) })
  unfolding store
  settle_part s q t h = let more : is_complete q ≡ false = ground arith in rw more refl

  pub settle_twice :
      (s : Stream) (q q' : Packet) (t : Sys env)
      → settle s q' (record t { heap = write t.heap s.last (some q) }) ≡ settle s q' t
  unfolding store
  settle_twice s q q' t = rw (write-write t.heap s.last (some q) (some q')) refl
