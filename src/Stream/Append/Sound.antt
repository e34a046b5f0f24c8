-- ===== src/Stream/Append/Sound.antt =====
-- `append` keeps the invariant, and its loop ends by itself.
use mysqlpcap.Base.{
  ℕ, zero, suc, ◌-◌, ◌≤◌, ◌<◌, Bool, true, false, [], ◌∷◌, Bytes, arith, length, drop,
  if◌then◌else◌, length-drop,
}
use mysqlpcap.Base.Run.{M, pure, ◌>>=◌, ◌>>◌}
use mysqlpcap.Packet
use mysqlpcap.Packet.{Packet, Ptr, null, Timeval, is_complete}
use mysqlpcap.Packet.Bounds.{IsBounded, IsAppended, append-IsAppended}
use mysqlpcap.Stream.Append.{feed_last, append_loop, append, append_packet}
use mysqlpcap.Stream.Complete.{handle_packet_complete}
use mysqlpcap.Stream.Complete.Sound.{handle_packet_complete-Keeps}
use mysqlpcap.Stream.Sound.{starting_packet-Keeps, create_new_packet-Keeps, link_last-Keeps}
use mysqlpcap.Sys.{Env, Stream, Sys, store, require}
use mysqlpcap.Sys.Sound.{
  IsReady, Keeps, out_of_fuel-Keeps, weaken-Keeps, bind-Keeps, branch-Keeps, pure-Keeps,
  require-Keeps, load-Keeps, store-Keeps, mark-Keeps,
}

-- What `feed_last` leaves of the data when the last packet is `q`.
abbrev pub IsFed : Packet → ℕ → Stream × Bytes → Type 0
IsFed q n (s, left) = IsReady s × (length left ≤ n) × (q.cur_len < q.len → 0 < n → length left < n)

abbrev pub HasReady : Stream × Bool → Type 0
HasReady x = IsReady x.0

module _ {env : Env} where
  -- The part of `feed_last` behind the load.
  abbrev pub feed : Stream → Bytes → Packet → M (Sys env) (Stream × Bytes)
  feed s bs q = do
    (q', left) ← require (Packet.append q bs)
    store s.last q'
    s' ← if is_complete q' then handle_packet_complete s else pure s
    pure (s', drop (length bs - left) bs)

  pub feed-Keeps :
      (s : Stream) (bs : Bytes) (q : Packet)
      → IsReady s
      → IsBounded q
      → Keeps (IsFed q (length bs)) (feed s bs q)
  feed-Keeps s bs q r g =
      bind-Keeps
        (require-Keeps (IsAppended q (length bs)) (Packet.append q bs) (append-IsAppended q bs g))
        (λ x h. bind-Keeps (store-Keeps s.last x.0 h.0) (λ _ _.
          bind-Keeps
            (branch-Keeps (is_complete x.0) (λ e. handle_packet_complete-Keeps s r)
              (λ e. pure-Keeps IsReady s r))
            (λ s' r'.
              pure-Keeps (IsFed q (length bs)) (s', drop (length bs - x.1) bs)
                (
                  r',
                  omega (arith, length-drop (length bs - x.1) bs, h.1),
                  λ a b. omega (arith, length-drop (length bs - x.1) bs, h.2 a b),
                ))))

  pub feed_last-Keeps :
      (s : Stream) (bs : Bytes)
      → IsReady s
      → Keeps {env = env} (λ x. IsReady x.0 × (length x.1 ≤ length bs)) (feed_last s bs)
  unfolding feed_last
  feed_last-Keeps s bs r =
      bind-Keeps (load-Keeps s.last)
        (λ q g. weaken-Keeps (λ x h. (h.0, h.1)) (feed-Keeps s bs q r g))

  append_loop-Keeps :
      (fuel : ℕ) (s : Stream) (ts : Timeval) (is_in created : Bool) (bs : Bytes)
      → IsReady s
      → Keeps {env = env} HasReady (append_loop fuel s ts is_in created bs)
  unfolding append_loop
  append_loop-Keeps fuel s ts is_in created [] r = pure-Keeps HasReady (s, created) r
  append_loop-Keeps zero s ts is_in created (b ∷ bs) r = out_of_fuel-Keeps
  append_loop-Keeps (suc fuel) s ts is_in created (b ∷ bs) r =
      bind-Keeps (starting_packet-Keeps s) (λ starting _.
        branch-Keeps starting
          (λ e. bind-Keeps (create_new_packet-Keeps s ts (b ∷ bs) is_in r (omega arith)) (λ x h.
            branch-Keeps x.2 (λ f. pure-Keeps HasReady (x.0, false) h.0)
              (λ f.
                behind x.0 x.1 h.0
                  (λ s' left r'. append_loop-Keeps fuel s' ts is_in true left r'))))
          (λ e.
            bind-Keeps (feed_last-Keeps s (b ∷ bs) r)
              (λ x h. append_loop-Keeps fuel x.0 ts is_in created x.1 h.0)))
    where
      behind :
          (s' : Stream) (rest : Bytes)
          → IsReady s'
          → ((s'' : Stream) (left : Bytes)
              → IsReady s''
              → Keeps {env = env} HasReady (append_loop fuel s'' ts is_in true left))
          → Keeps {env = env} HasReady (elim rest [
            | [] ↦ pure (s', true)
            | c ∷ cs ↦ do
              (s'', left) ← feed_last s' (c ∷ cs)
              append_loop fuel s'' ts is_in true left
          ])
      behind s' [] r' next = pure-Keeps HasReady (s', true) r'
      behind s' (c ∷ cs) r' next =
          bind-Keeps (feed_last-Keeps s' (c ∷ cs) r') (λ x h. next x.0 x.1 h.0)

  pub append-Keeps :
      (s : Stream) (ts : Timeval) (bs : Bytes) (is_in : Bool)
      → IsReady s
      → Keeps {env = env} HasReady (append s ts bs is_in)
  unfolding append
  append-Keeps s ts bs is_in r = append_loop-Keeps (length bs) s ts is_in false bs r

  pub append_packet-Keeps :
      (s : Stream) (p : Ptr) → IsReady s → Keeps {env = env} IsReady (append_packet s p)
  unfolding append_packet
  append_packet-Keeps s p r =
      bind-Keeps (mark-Keeps p)
        (λ _ _. bind-Keeps (link_last-Keeps s p r) (λ s' r'. handle_packet_complete-Keeps s' r'))
