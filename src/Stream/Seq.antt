-- ===== src/Stream/Seq.antt =====
-- Which segments `register_tcp_seq` lets pass, and which keys the packets of a stream have.
use mysqlpcap.Base.{ℕ, ◌^◌, ◌<◌, ◌≡◌, ◌≢◌, ◌↔◌, true, false, arith}
use mysqlpcap.Sys.{Stream, get_key}
use mysqlpcap.Stream.{register_tcp_seq}

-- For 32-bit numbers, a segment is turned away exactly when its number is that of the last segment
-- let through, and then the stream is unchanged; otherwise its number becomes the last.
register_tcp_seq-ne :
    (s : Stream) (seq : ℕ)
    → seq < 2 ^ 32
    → s.last_tcp_seq < 2 ^ 32
    → (((register_tcp_seq s seq).1 ≡ false)
        ↔ ((s.last_tcp_seq_inited ≡ true) × (seq ≡ s.last_tcp_seq)))
      × ((register_tcp_seq s seq).1 ≡ false → (register_tcp_seq s seq).0 ≡ s)
      × ((register_tcp_seq s seq).1 ≡ true
          → (register_tcp_seq s seq).0
            ≡ record s { last_tcp_seq_inited = true; last_tcp_seq = seq })
unfolding register_tcp_seq
register_tcp_seq-ne s seq h k =
    ((λ e. ground arith, λ e. ground arith), λ e. ground arith, λ e. ground arith)

-- For 32-bit numbers, a segment that was let through is let through again once another number has come between, in
-- whatever order the two numbers stand.
register_tcp_seq_again :
    (s : Stream) (a b : ℕ)
    → s.last_tcp_seq < 2 ^ 32
    → a < 2 ^ 32
    → b < 2 ^ 32
    → a ≢ b
    → (register_tcp_seq (register_tcp_seq (register_tcp_seq s a).0 b).0 a).1 ≡ true
unfolding register_tcp_seq
register_tcp_seq_again s a b l h k ne = ground arith

-- The key of an address and a port holds both: two keys are the same for the same pair only.
get_key_injective :
    (ip port ip' port' : ℕ)
    → ip < 2 ^ 32
    → port < 2 ^ 32
    → ip' < 2 ^ 32
    → port' < 2 ^ 32
    → get_key ip port ≡ get_key ip' port'
    → (ip ≡ ip') × (port ≡ port')
unfolding get_key
get_key_injective ip port ip' port' a b c d e = (omega arith, omega arith)
