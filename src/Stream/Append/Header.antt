-- ===== src/Stream/Append/Header.antt =====
-- The header of a packet that arrives whole, and one that arrives in two segments.
use mysqlpcap.Base.{
  take-all, take-append, drop-all, length-append, append-nil, ◌∙◌, ℕ, ◌+◌, ◌≤◌, ◌<◌, ◌≡◌, refl,
  ◌++◌, Bytes, arith, length, drop,
}
use mysqlpcap.Sys.{Stream}
use mysqlpcap.Stream.{header_bytes, take_header}

-- How many bytes a header takes, when `n` have been taken before.
header_bytes-sub :
    (s : Stream) (len n k : ℕ)
    → s.cur_pkt_hdr_len ≡ n
    → n + k ≡ 4
    → k ≤ len
    → header_bytes s len ≡ k
unfolding header_bytes
header_bytes-sub s len n k e f h = ground arith

header_bytes-all :
    (s : Stream) (len n : ℕ) → s.cur_pkt_hdr_len ≡ n → len + n < 4 → header_bytes s len ≡ len
unfolding header_bytes
header_bytes-all s len n e h = ground arith

-- A segment that ends inside the header.
take_header_part :
    (s : Stream) (bs : Bytes)
    → s.cur_pkt_hdr_len ≡ 0
    → length bs < 4
    → ((take_header s bs).pkt_hdr ≡ bs ++ drop (length bs) s.pkt_hdr)
      × ((take_header s bs).cur_pkt_hdr_len ≡ length bs)
unfolding take_header
take_header_part s bs e h =
    rw (header_bytes-all s (length bs) 0 e (omega arith), take-all (length bs) bs (omega arith))
      (refl, omega arith)

-- The segment that completes it.
take_header_rest :
    (s : Stream) (bs rest : Bytes)
    → s.cur_pkt_hdr_len + length bs ≡ 4
    → (take_header s (bs ++ rest)).pkt_hdr ≡ bs ++ drop (length bs) s.pkt_hdr
unfolding take_header
take_header_rest s bs rest e = rw (
  header_bytes-sub s (length (bs ++ rest)) s.cur_pkt_hdr_len (length bs) refl e
      (omega (arith, length-append bs rest)),
  take-append (length bs) bs rest refl,
)

-- When a header is taken from one segment, the four bytes of `pkt_hdr` are those of the header.
take_header_whole :
    (s : Stream) (header rest : Bytes)
    → length s.pkt_hdr ≡ 4
    → s.cur_pkt_hdr_len ≡ 0
    → length header ≡ 4
    → (take_header s (header ++ rest)).pkt_hdr ≡ header
take_header_whole s header rest size new e =
    take_header_rest s header rest (omega arith)
    ∙ rw (drop-all (length header) s.pkt_hdr (omega arith), append-nil)

-- When a header arrives in two segments, split anywhere inside it, the bytes of the second stand
-- in front in `pkt_hdr`, over those of the first: at its end are whatever bytes of the first, and
-- then of the header before, the second does not cover.
pub take_header_split :
    (s : Stream) (a b rest : Bytes)
    → s.cur_pkt_hdr_len ≡ 0
    → 0 < length a
    → 0 < length b
    → length a + length b ≡ 4
    → (take_header (take_header s a) (b ++ rest)).pkt_hdr
      ≡ b ++ drop (length b) (a ++ drop (length a) s.pkt_hdr)
take_header_split s a b rest new x y e =
    let (first, count) = take_header_part s a new (omega arith) in
    take_header_rest (take_header s a) b rest (omega arith) ∙ rw first
