-- ===== src/Detect.antt =====
-- pcap_detect.cc: `is_valid_ip_header` and `detect_eth_header_size`. A packet is the buffer that
-- libpcap hands over; a read outside it is `none`. `ntohs` of a field is its big-endian value.
pub mod Sound
use mysqlpcap.Base.{
  ℕ, zero, suc, ◌+◌, ◌-◌, ◌*◌, ◌/◌, ◌%◌, Bool, true, false, not, Option, none, some, Bytes,
  get_elem?, ltb, ◌==◌, if◌then◌else◌,
}
use mysqlpcap.Base.Maybe.{◌>>=◌}

abbrev pub min_ip_header_len : ℕ
min_ip_header_len = 20

abbrev pub min_eth_size : ℕ
min_eth_size = 14

abbrev pub max_eth_size : ℕ
max_eth_size = 22

-- the checks on the total length, once the first byte has passed
unfoldable pub is_valid_length : Bytes → (eth_header_size packet_caplen ip_ihl : ℕ) → Option Bool
is_valid_length packet eth caplen ip_ihl = do
  let ip_header_len = ip_ihl * 4
  high ← get_elem? packet (eth + 2)
  low ← get_elem? packet (eth + 3)
  let ip_total_length = high * 256 + low
  if ltb ip_total_length ip_header_len
      then some false
      else if ltb (caplen - eth) ip_total_length
      then some false
      else some true

unfoldable pub is_valid_ip_header : Bytes → (eth_header_size packet_caplen : ℕ) → Option Bool
unfolding is_valid_length
is_valid_ip_header packet eth caplen =
    if ltb caplen (eth + min_ip_header_len) then some false else do
      ver_ihl ← get_elem? packet eth
      if not (ver_ihl / 16 % 16 == 4)
          then some false
          else if ltb (ver_ihl % 16) 5
          then some false
          else is_valid_length packet eth caplen (ver_ihl % 16)

-- The loop over the header sizes, with the rounds that are left.
unfoldable pub detect_loop : ℕ → Bytes → (packet_caplen current_eth_size : ℕ) → Option ℕ
detect_loop zero packet caplen current = some 0
detect_loop (suc rounds) packet caplen current =
    let rest = detect_loop rounds packet caplen (current + 1) in
    do valid ← is_valid_ip_header packet current caplen; if valid then some current else rest

unfoldable pub detect_eth_header_size : (packet_caplen : ℕ) → Bytes → Option ℕ
unfolding detect_loop is_valid_ip_header
detect_eth_header_size caplen packet =
    detect_loop (max_eth_size + 1 - min_eth_size) packet caplen min_eth_size
