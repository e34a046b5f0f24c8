-- ===== src/Examples/Streams.antt =====
-- A stream: the header of a packet in one segment and in two.
use mysqlpcap.Base.{◌≡◌, refl, [], ◌∷◌, ◌++◌, arith}
use mysqlpcap.Stream.{take_header}
use mysqlpcap.Stream.Append.Header.{take_header_split}
use mysqlpcap.Sys.{Stream, new_stream}

abbrev stream : Stream
stream = new_stream 0x0a000001 0x1234 0x0a000002 0xea0c

-- The header of a packet of 5 bytes, with its first byte in a segment of its own.
take_header_split_example :
    (take_header (take_header stream (5 ∷ [])) ((0 ∷ 0 ∷ 1 ∷ []) ++ 3 ∷ [])).pkt_hdr
    ≡ 0 ∷ 0 ∷ 1 ∷ 0 ∷ []
take_header_split_example =
    take_header_split stream (5 ∷ []) (0 ∷ 0 ∷ 1 ∷ []) (3 ∷ []) refl (omega arith) (omega arith)
      refl
