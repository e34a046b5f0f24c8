-- ===== src/Stream/Append/Flag.antt =====
-- The flag that `append` returns does not matter for the stream.
use mysqlpcap.Base.{ℕ, zero, suc, ◌≡◌, ◌∙◌, sym, ap, refl, Bool, true, false, [], ◌∷◌, Bytes}
use mysqlpcap.Base.Run.{Run, pure, and_then, and_then_assoc}
use mysqlpcap.Packet.{Timeval}
use mysqlpcap.Stream.{starting_packet}
use mysqlpcap.Stream.Append.{feed_last, append_loop}
use mysqlpcap.Stream.Append.Fuel.{turn}
use mysqlpcap.Sys.{Env, Stream, Sys}

-- The stream, without the flag that `append` returns.
abbrev pub stream_of : {env : Env} → Run (Sys env) (Stream × Bool) → Run (Sys env) Stream
stream_of run = and_then run (λ r. pure r.0)

module _ {env : Env} (ts : Timeval) (is_in : Bool) where
  -- The flag that a round is given does not matter for the stream.
  flag_behind :
      (n : ℕ) (s : Stream) (c c' : Bool) (bs : Bytes) (t : Sys env)
      → ((s' : Stream) (left : Bytes) (t' : Sys env)
          → stream_of (append_loop n s' ts is_in c left t')
            ≡ stream_of (append_loop n s' ts is_in c' left t'))
      → stream_of (turn n s ts is_in c bs false t) ≡ stream_of (turn n s ts is_in c' bs false t)
  flag_behind n s c c' bs t ih =
      and_then_assoc (feed_last s bs t) _ _
      ∙ ap (and_then (feed_last s bs t)) (λ i x t'. ih x.0 x.1 t' i)
      ∙ sym (and_then_assoc (feed_last s bs t) _ _)

  flag_turn :
      (n : ℕ) (s : Stream) (c c' : Bool) (bs : Bytes)
      → ((s' : Stream) (left : Bytes) (t' : Sys env)
          → stream_of (append_loop n s' ts is_in c left t')
            ≡ stream_of (append_loop n s' ts is_in c' left t'))
      → (starting : Bool) (t : Sys env)
      → stream_of (turn n s ts is_in c bs starting t)
        ≡ stream_of (turn n s ts is_in c' bs starting t)
  flag_turn n s c c' bs ih true t = refl
  flag_turn n s c c' bs ih false t = flag_behind n s c c' bs t ih

  pub append_loop_flag :
      (n : ℕ) (s : Stream) (c c' : Bool) (bs : Bytes) (t : Sys env)
      → stream_of (append_loop n s ts is_in c bs t) ≡ stream_of (append_loop n s ts is_in c' bs t)
  unfolding append_loop
  append_loop_flag n s c c' [] t = refl
  append_loop_flag zero s c c' (b ∷ bs) t = refl
  append_loop_flag (suc n) s c c' (b ∷ bs) t =
      and_then_assoc (starting_packet s t) _ _
      ∙ ap (and_then (starting_packet s t)) (λ i starting t'.
        flag_turn n s c c' (b ∷ bs) (λ s' left t''. append_loop_flag n s' c c' left t'') starting t'
          i)
      ∙ sym (and_then_assoc (starting_packet s t) _ _)
