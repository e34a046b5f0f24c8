-- ===== src/Stream/Append.antt =====
-- `Mysql_stream::append` and `append_packet`.
pub mod Fuel
pub mod Flag
pub mod Frames
pub mod Header
pub mod Parts
pub mod Sent
pub mod Opening
pub mod Segments
pub mod Split
pub mod Sound
use mysqlpcap.Base.{
  ℕ, zero, suc, ◌+◌, ◌-◌, Bool, true, false, not, Option, none, some, List, [], ◌∷◌, Bytes, length,
  drop, ◌==◌, if◌then◌else◌,
}
use mysqlpcap.Base.Run.{Run, fault, out_of_fuel, M, pure, ◌>>=◌, ◌>>◌}
use mysqlpcap.Packet
use mysqlpcap.Packet.{Packet, Ptr, null, Timeval, is_complete}
use mysqlpcap.Sys.{Env, Stream, Sys, load, store, require, mark}
use mysqlpcap.Stream.{starting_packet, create_new_packet, link_last}
use mysqlpcap.Stream.Complete.{handle_packet_complete}

module _ {env : Env} where
  -- The end of a round of the loop: bytes go to the last packet, which may be complete then. The
  -- rest of the segment is what it did not take.
  unfoldable pub feed_last : Stream → Bytes → M (Sys env) (Stream × Bytes)
  unfolding load store require
  feed_last s bs = do
    q ← load s.last
    (q', left) ← require (Packet.append q bs)
    store s.last q'
    s' ← if is_complete q' then handle_packet_complete s else pure s
    pure (s', drop (length bs - left) bs)

  -- The loop of `append`, with the flag `created_new_packet`.
  unfoldable pub append_loop :
      ℕ → Stream → Timeval → (is_in created : Bool) → Bytes → M (Sys env) (Stream × Bool)
  unfolding starting_packet create_new_packet feed_last
  append_loop fuel s ts is_in created [] = pure (s, created)
  append_loop zero s ts is_in created (b ∷ bs) = λ _. out_of_fuel
  append_loop (suc fuel) s ts is_in created (b ∷ bs) = do
    starting ← starting_packet s
    if starting
        then (do
          (s', rest, short) ← create_new_packet s ts (b ∷ bs) is_in
          if short then pure (s', false) else elim rest [
            | [] ↦ pure (s', true)
            | c ∷ cs ↦ do
              (s'', left) ← feed_last s' (c ∷ cs)
              append_loop fuel s'' ts is_in true left
          ])
        else (do (s', left) ← feed_last s (b ∷ bs); append_loop fuel s' ts is_in created left)

  -- `append`: a round takes a byte at least.
  unfoldable pub append : Stream → Timeval → Bytes → (is_in : Bool) → M (Sys env) (Stream × Bool)
  unfolding append_loop
  append s ts bs is_in = append_loop (length bs) s ts is_in false bs

  -- `append_packet`
  unfoldable pub append_packet : Stream → Ptr → M (Sys env) Stream
  unfolding mark link_last handle_packet_complete
  append_packet s p = do mark p; s' ← link_last s p; handle_packet_complete s'
