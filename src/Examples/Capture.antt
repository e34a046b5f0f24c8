-- ===== src/Examples/Capture.antt =====
-- Packets and fragments of a capture: a frame with an IPv4 header, and fragments in two orders.
use mysqlpcap.Base.{codes, ◌≡◌, refl, ◌⊎◌, ◌↔◌, true, ℕ, ◌≤◌, ◌<◌, some, Bytes, [], ◌∷◌, arith}
use mysqlpcap.Detect.{detect_eth_header_size, min_eth_size, max_eth_size}
use mysqlpcap.Detect.Sound.{IsIpHeaderAt, detect_eth_header_size-first}
use mysqlpcap.Fragments
use mysqlpcap.Fragments.{IpStream, get_first_fragment, remaining_fragments, find}
use mysqlpcap.Fragments.InOrder.{enqueue_all, enqueue_all_in_order}
use mysqlpcap.Fragments.Stale.{order, enqueue_misorders}
use mysqlpcap.Manager.Text.{strncasestr, Occurs, strncasestr-Occurs}

-- An Ethernet header of 14 bytes, and an IPv4 header of 20 with that total length.
abbrev frame : Bytes
frame =
    1 ∷ 2 ∷ 3 ∷ 4 ∷ 5 ∷ 6 ∷ 0xaa ∷ 0xbb ∷ 0xcc ∷ 0xdd ∷ 0xee ∷ 0xff ∷ 8 ∷ 0 ∷ 0x45 ∷ 0 ∷ 0 ∷ 20 ∷ 0
    ∷ 0 ∷ 0 ∷ 0 ∷ 0x40 ∷ 6 ∷ 0 ∷ 0 ∷ 1 ∷ 1 ∷ 1 ∷ 1 ∷ 2 ∷ 2 ∷ 2 ∷ 2 ∷ []

detect_frame : detect_eth_header_size 34 frame ≡ some 14
unfolding detect_eth_header_size
detect_frame = refl

detect_eth_header_size-first_example :
    ((n : ℕ) × (detect_eth_header_size 34 frame ≡ some n)
      × (min_eth_size ≤ n)
      × (n ≤ max_eth_size)
      × IsIpHeaderAt frame n 34
      × ((m : ℕ) → min_eth_size ≤ m → m < n → ¬ IsIpHeaderAt frame m 34))
    ⊎ ((detect_eth_header_size 34 frame ≡ some 0)
        × ((m : ℕ) → min_eth_size ≤ m → m ≤ max_eth_size → ¬ IsIpHeaderAt frame m 34))
detect_eth_header_size-first_example = detect_eth_header_size-first frame 34 (omega arith)

abbrev no_fragments : IpStream
no_fragments = Fragments.empty

enqueue_all_in_order_example :
    (t : IpStream) × (enqueue_all no_fragments 9 ((0, 1 ∷ []) ∷ (185, 2 ∷ []) ∷ (370, 3 ∷ []) ∷ [])
      ≡ some t)
    × (get_first_fragment t 9 ≡ some (some (1 ∷ [])))
    × (remaining_fragments t 9 ≡ some ((2 ∷ []) ∷ (3 ∷ []) ∷ []))
unfolding find
enqueue_all_in_order_example =
    enqueue_all_in_order no_fragments 9 0 (1 ∷ []) ((185, 2 ∷ []) ∷ (370, 3 ∷ []) ∷ [])
      (omega arith) refl (omega arith, (omega arith, tt))

enqueue_misorders_example :
    order 9 0 555 185 370 (1 ∷ []) (4 ∷ []) (2 ∷ []) (3 ∷ [])
    ≡ some (some (1 ∷ []), (3 ∷ []) ∷ (2 ∷ []) ∷ (4 ∷ []) ∷ [])
enqueue_misorders_example =
    enqueue_misorders 9 0 555 185 370 (1 ∷ []) (4 ∷ []) (2 ∷ []) (3 ∷ []) (omega arith)
      (omega arith) (omega arith)

strncasestr-Occurs_example :
    (strncasestr (codes "SELECT 1") (b's' ∷ codes "elect") ≡ true)
    ↔ Occurs (b's' ∷ codes "elect") (codes "SELECT 1")
strncasestr-Occurs_example =
    strncasestr-Occurs (codes "SELECT 1") b's' (codes "elect") (omega arith)
