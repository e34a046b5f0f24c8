-- ===== src/Manager.antt =====
-- `Mysql_stream_manager` of mysql_stream_manager.h and .cc: the packets of a capture and of a replay
-- file, and the schedule. The host is little-endian, so that a field of a header that the code does
-- not pass through `ntohs` is its bytes with the least first.
pub mod Text
pub mod Sound
pub mod Capture
pub mod ReplayFile
pub mod Shutdown
pub mod Explain
use mysqlpcap.Base.{
  ℕ, zero, suc, ◌+◌, ◌-◌, ◌*◌, ◌/◌, ◌%◌, ◌^◌, Bool, true, false, not, ◌&&◌, ◌||◌, Option, none,
  some, List, [], ◌∷◌, ◌++◌, Bytes, length, take, drop, get_elem?, ltb, leb, ◌==◌, if◌then◌else◌,
}
use mysqlpcap.Base.Run.{Run, fault, throws, out_of_fuel, M, pure, assert, ◌>>=◌, ◌>>◌}
use mysqlpcap.Packet.{Packet, Ptr, Timeval}
use mysqlpcap.Sys.{Env, Stream, Sys, get, put}

-- `std::map<u_longlong, Mysql_stream*>`
unfoldable pub find_stream : ℕ → List (ℕ × Stream) → Option Stream
find_stream k [] = none
find_stream k ((j, s) ∷ m) = if j == k then some s else find_stream k m

unfoldable pub put_stream : ℕ → Stream → List (ℕ × Stream) → List (ℕ × Stream)
put_stream k s [] = (k, s) ∷ []
put_stream k s ((j, old) ∷ m) = if j == k then (k, s) ∷ m else (j, old) ∷ put_stream k s m

unfoldable pub erase_stream : ℕ → List (ℕ × Stream) → List (ℕ × Stream)
erase_stream k [] = []
erase_stream k ((j, s) ∷ m) = if j == k then m else (j, s) ∷ erase_stream k m

module _ {env : Env} where
  -- What a method has done to `*s` stands in the map too.
  unfoldable pub save : ℕ → Stream → M (Sys env) (Unit {0})
  unfolding put_stream
  save k s = do sys ← get; put (record sys { lookup = put_stream k s sys.lookup })

  unfoldable pub forget : ℕ → M (Sys env) (Unit {0})
  unfolding erase_stream
  forget k = do sys ← get; put (record sys { lookup = erase_stream k sys.lookup })

  -- `get_packet_ellapsed_us`, of which the result is a number of 64 bits
  unfoldable pub get_packet_ellapsed_us : Sys env → Packet → ℕ
  get_packet_ellapsed_us sys p = elim sys.first_packet_ts [
    | none ↦ 0
    | some t ↦
        (p.ts.tv_sec * 1000000 + p.ts.tv_usec + 2 ^ 64 - (t.tv_sec * 1000000 + t.tv_usec) % 2 ^ 64)
        % 2 ^ 64
  ]
