-- ===== src/Stream/Append/Fuel.antt =====
-- The loop of `append` ends by itself: a round takes a byte at least.
use mysqlpcap.Base.{
  ℕ, zero, suc, ◌≤◌, ◌<◌, ◌≡◌, refl, Bool, true, false, Option, none, some, [], ◌∷◌, Bytes, arith,
  length, ◌==◌, if◌then◌else◌, Bool-cases, inl, inr,
}
use mysqlpcap.Base.Maybe.{Gives}
use mysqlpcap.Base.Run.{
  ok, fault, M, pure, ◌>>=◌, and_then, Ensures, Ensures-and_then, and_then-cong,
}
use mysqlpcap.Packet.{Packet, Ptr, null, Timeval, is_complete}
use mysqlpcap.Packet.Bounds.{IsBounded}
use mysqlpcap.Stream.{starting_packet, create_new_packet}
use mysqlpcap.Stream.Append.{feed_last, append_loop, append}
use mysqlpcap.Stream.Append.Sound.{feed, feed-Keeps, feed_last-Keeps}
use mysqlpcap.Stream.Sound.{create_new_packet-Keeps}
use mysqlpcap.Sys.{Env, Stream, Sys, load}
use mysqlpcap.Sys.Sound.{IsReady, IsSound, weaken-Keeps}

-- The packet at `p`, if there is one, is not complete.
abbrev pub IsIncomplete : Option Packet → Type 0
IsIncomplete = Gives (λ q. q.cur_len < q.len)

module _ {env : Env} where
  -- A smaller rest, for a stream and a state that are fit for the next round.
  abbrev pub IsShorter : ℕ → Stream × Bytes → Sys env → Type 0
  IsShorter n x t = (IsReady x.0 × (length x.1 < n)) × IsSound env t

  load-IsIncomplete :
      (p : Ptr) (t : Sys env)
      → IsSound env t
      → IsIncomplete (t.heap p)
      → Ensures (λ q t'. (IsBounded q × (q.cur_len < q.len)) × IsSound env t') (load p t)
  unfolding load
  load-IsIncomplete p t sound h = elim (Bool-cases (p == null)) [
    | inl is_null ↦ rw is_null tt
    | inr not_null ↦ rw not_null (go (t.heap p) (sound.bounded p) h)
  ]
    where
      go :
          (c : Option Packet)
          → Gives IsBounded c
          → IsIncomplete c
          → Ensures
              (λ q t'. (IsBounded q × (q.cur_len < q.len)) × IsSound env t')
              (elim c [ none ↦ fault | some q ↦ ok q t ])
      go none g h = tt
      go (some q) g h = ((g, h), sound)

  pub starting_packet-IsIncomplete :
      (s : Stream) (t : Sys env)
      → IsSound env t
      → Ensures
          (λ starting t'. (starting ≡ false → IsIncomplete (t'.heap s.last)) × IsSound env t')
          (starting_packet s t)
  unfolding starting_packet load
  starting_packet-IsIncomplete s t sound = elim (Bool-cases (s.last == null)) [
    | inl is_null ↦ rw is_null (λ e. cc, sound)
    | inr not_null ↦ rw (not_null, not_null) (go (t.heap s.last) refl)
  ]
    where
      g : (q : Packet) → t.heap s.last ≡ some q → IsBounded q
      g q e = rw e at (sound.bounded s.last)

      go :
          (c : Option Packet)
          → t.heap s.last ≡ c
          → Ensures
              (λ starting t'. (starting ≡ false → IsIncomplete (t'.heap s.last)) × IsSound env t')
              (and_then (elim c [ none ↦ fault | some q ↦ ok q t ]) (λ q. pure (is_complete q)))
      go none e = tt
      go (some q) e = (λ f. rw e (ground (arith, f, (g q e).within)), sound)

  feed_last-IsShorter :
      (s : Stream) (bs : Bytes) (t : Sys env)
      → IsReady s
      → 0 < length bs
      → IsSound env t
      → IsIncomplete (t.heap s.last)
      → Ensures (IsShorter (length bs)) (feed_last s bs t)
  unfolding feed_last
  feed_last-IsShorter s bs t r h sound inc =
      Ensures-and_then _ (IsShorter (length bs)) (load s.last t) (feed s bs)
        (load-IsIncomplete s.last t sound inc)
        (λ q t' x.
          (weaken-Keeps (λ y f. (f.0, f.2 x.0.1 h)) (feed-Keeps s bs q r x.0.0)).from t' x.1)

  -- What the loop does behind a header, and in a round that starts a packet or does not.
  abbrev pub behind_header :
      ℕ → Timeval → Bool → Stream → Bytes → Bool → M (Sys env) (Stream × Bool)
  behind_header fuel ts is_in s rest short = if short then pure (s, false) else elim rest [
    | [] ↦ pure (s, true)
    | c ∷ cs ↦ do (s', left) ← feed_last s (c ∷ cs); append_loop fuel s' ts is_in true left
  ]

  abbrev pub turn :
      ℕ → Stream → Timeval → (is_in created : Bool) → Bytes → Bool → M (Sys env) (Stream × Bool)
  turn fuel s ts is_in created bs starting =
      if starting
      then (do
        (s', rest, short) ← create_new_packet s ts bs is_in
        behind_header fuel ts is_in s' rest short)
      else (do (s', left) ← feed_last s bs; append_loop fuel s' ts is_in created left)

  -- Two fuels that serve for all shorter rests serve for the segment.
  round :
      (n m : ℕ) (s : Stream) (ts : Timeval) (is_in created : Bool) (b : ℕ) (bs : Bytes)
      (sys : Sys env)
      → ((s' : Stream) (c : Bool) (left : Bytes) (t : Sys env)
          → IsShorter (length (b ∷ bs)) (s', left) t
          → append_loop n s' ts is_in c left t ≡ append_loop m s' ts is_in c left t)
      → IsReady s
      → IsSound env sys
      → append_loop (suc n) s ts is_in created (b ∷ bs) sys
        ≡ append_loop (suc m) s ts is_in created (b ∷ bs) sys
  unfolding append_loop
  round n m s ts is_in created b bs sys ih r sound =
      and_then-cong _ (starting_packet s sys) _ _ (starting_packet-IsIncomplete s sys sound)
        (λ starting t h. go starting t h.0 h.1)
    where
      created_new :
          (s' : Stream) (short : Bool) (rest : Bytes) (t : Sys env)
          → IsReady s'
          → length rest < length (b ∷ bs)
          → IsSound env t
          → behind_header n ts is_in s' rest short t ≡ behind_header m ts is_in s' rest short t
      created_new s' true rest t r' l sound' = refl
      created_new s' false [] t r' l sound' = refl
      created_new s' false (c ∷ cs) t r' l sound' =
          and_then-cong _ (feed_last s' (c ∷ cs) t) _ _
            ((feed_last-Keeps s' (c ∷ cs) r').from t sound')
            (λ x t' h. ih x.0 true x.1 t' ((h.0.0, omega (arith, h.0.1)), h.1))

      go :
          (starting : Bool) (t : Sys env)
          → (starting ≡ false → IsIncomplete (t.heap s.last))
          → IsSound env t
          → turn n s ts is_in created (b ∷ bs) starting t
            ≡ turn m s ts is_in created (b ∷ bs) starting t
      go true t inc sound' =
          and_then-cong _ (create_new_packet s ts (b ∷ bs) is_in t) _ _
            ((create_new_packet-Keeps s ts (b ∷ bs) is_in r (omega arith)).from t sound')
            (λ x t' h. created_new x.0 x.2 x.1 t' h.0.0 h.0.1 h.1)
      go false t inc sound' =
          and_then-cong _ (feed_last s (b ∷ bs) t) _ _
            (feed_last-IsShorter s (b ∷ bs) t r (omega arith) sound' (inc refl))
            (λ x t' h. ih x.0 created x.1 t' h)

  pub append_loop-enough :
      (n m : ℕ) (s : Stream) (ts : Timeval) (is_in created : Bool) (bs : Bytes) (sys : Sys env)
      → length bs ≤ n
      → length bs ≤ m
      → IsReady s
      → IsSound env sys
      → append_loop n s ts is_in created bs sys ≡ append_loop m s ts is_in created bs sys
  unfolding append_loop
  append_loop-enough n m s ts is_in created [] sys h k r sound = refl
  append_loop-enough zero m s ts is_in created (b ∷ bs) sys h k r sound = absurd (omega arith)
  append_loop-enough (suc n) zero s ts is_in created (b ∷ bs) sys h k r sound = absurd (omega arith)
  append_loop-enough (suc n) (suc m) s ts is_in created (b ∷ bs) sys h k r sound =
      round n m s ts is_in created b bs sys
        (λ s' c left t x.
          append_loop-enough n m s' ts is_in c left t (omega (arith, x.0.1)) (omega (arith, x.0.1))
            x.0.0 x.1)
        r sound

  -- If no packet on the heap has received more bytes than its length, of 32 bits, nor holds more than
  -- that in its buffer, and this stream and those of the map have less than four bytes of a header in
  -- their buffers of four, then the loop of `append` gives with any fuel from the length of the segment
  -- on what `append` gives: it is never cut short.
  append-enough :
      (fuel : ℕ) (s : Stream) (ts : Timeval) (bs : Bytes) (is_in : Bool) (sys : Sys env)
      → length bs ≤ fuel
      → IsReady s
      → IsSound env sys
      → append_loop fuel s ts is_in false bs sys ≡ append s ts bs is_in sys
  unfolding append
  append-enough fuel s ts bs is_in sys h r sound =
      append_loop-enough fuel (length bs) s ts is_in false bs sys h (omega arith) r sound
