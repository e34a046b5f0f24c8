-- ===== src/Detect/Sound.antt =====
-- What `detect_eth_header_size` promises, against a description of an IPv4 header.
use mysqlpcap.Base.{
  ℕ, zero, suc, ◌+◌, ◌*◌, ◌/◌, ◌%◌, ◌≤◌, ◌<◌, ◌≡◌, refl, ◌⊎◌, inl, inr, true, false, some, Bytes,
  [], ◌∷◌, get_elem?, get_or, length, arith, Bool-cases, ltb, ltb→lt,
}
use native.Mathlib.Decide.{dec_lt}
use mathlib.Core.Path.{subst}
use mysqlpcap.Detect.{
  is_valid_length, is_valid_ip_header, detect_loop, detect_eth_header_size, min_eth_size,
  max_eth_size,
}

-- An IPv4 header stands at offset `off` of a packet with `caplen` captured bytes: it fits, its
-- version is 4, it has at least five words, and its total length holds the header and was captured.
pub record IsIpHeaderAt (packet : Bytes) (off caplen : ℕ) : Type 0 where
  pub fits : off + 20 ≤ caplen
  pub version : get_or packet off 0 / 16 % 16 ≡ 4
  pub words : 5 ≤ get_or packet off 0 % 16
  pub holds_header :
      get_or packet off 0 % 16 * 4 ≤ get_or packet (off + 2) 0 * 256 + get_or packet (off + 3) 0
  pub captured : off + (get_or packet (off + 2) 0 * 256 + get_or packet (off + 3) 0) ≤ caplen

get_elem?-get_or : (xs : Bytes) (i : ℕ) → i < length xs → get_elem? xs i ≡ some (get_or xs i 0)
get_elem?-get_or [] i h = absurd (omega arith)
get_elem?-get_or (x ∷ xs) zero h = refl
get_elem?-get_or (x ∷ xs) (suc i) h = get_elem?-get_or xs i (omega arith)

-- A range without its first offset.
skip :
    {packet : Bytes} {caplen current : ℕ}
    → ¬ IsIpHeaderAt packet current caplen
    → (m : ℕ) → current ≤ m
    → (current + 1 ≤ m → ¬ IsIpHeaderAt packet m caplen)
    → ¬ IsIpHeaderAt packet m caplen
skip {packet} {caplen} {current} no_header m at_least later h = elim (dec_lt current m) [
  | yes above ↦ later (omega arith) h
  | no same ↦ no_header (subst (λ k. IsIpHeaderAt packet k caplen) (omega arith) h)
]

module _ (packet : Bytes) (caplen : ℕ) (room : caplen ≤ length packet) where
  -- The check stays inside the captured bytes, and decides the description.
  valid-IsIpHeaderAt :
      (off : ℕ)
      → ((is_valid_ip_header packet off caplen ≡ some true) × IsIpHeaderAt packet off caplen)
        ⊎ ((is_valid_ip_header packet off caplen ≡ some false) × ¬ IsIpHeaderAt packet off caplen)
  unfolding is_valid_ip_header is_valid_length
  valid-IsIpHeaderAt off = elim (Bool-cases (ltb caplen (off + 20))) [
    | inl short ↦ inr (rw short, λ h. omega (arith, ltb→lt _ _ short, h.fits))
    | inr long ↦
        rw
          (
            long,
            get_elem?-get_or packet off (ground arith),
            get_elem?-get_or packet (off + 2) (ground arith),
            get_elem?-get_or packet (off + 3) (ground arith),
          )
          (ground arith)
  ]

  -- The loop returns the first offset, of those it tries, where a header stands, or 0.
  detect_loop-first :
      (rounds current : ℕ)
      → 0 < current
      → ((n : ℕ) × (detect_loop rounds packet caplen current ≡ some n)
          × (current ≤ n)
          × (n < current + rounds)
          × IsIpHeaderAt packet n caplen
          × ((m : ℕ) → current ≤ m → m < n → ¬ IsIpHeaderAt packet m caplen))
        ⊎ ((detect_loop rounds packet caplen current ≡ some 0)
            × ((m : ℕ) → current ≤ m → m < current + rounds → ¬ IsIpHeaderAt packet m caplen))
  unfolding detect_loop
  detect_loop-first zero current pos = inr (refl, λ m lo hi. absurd (omega arith))
  detect_loop-first (suc rounds) current pos = elim (valid-IsIpHeaderAt current) [
    | inl (valid, h) ↦
        inl (current, rw valid, omega arith, omega arith, h, λ m lo hi. absurd (omega arith))
    | inr (invalid, no_header) ↦ elim (detect_loop-first rounds (current + 1) (omega arith)) [
      | inl (n, found, lo, hi, h, first) ↦ inl (
        n,
        rw invalid found,
        omega arith,
        omega arith,
        h,
        λ m at_least below. skip no_header m at_least (λ above. first m above below),
      )
      | inr (nothing, all) ↦ inr (
        rw invalid nothing,
        λ m at_least below. skip no_header m at_least (λ above. all m above (omega arith)),
      )
    ]
  ]

  -- If the buffer holds the captured bytes, `detect_eth_header_size` reads nothing outside it. It
  -- returns the first offset from 14 to 22 at which an IPv4 header stands, or 0 if there is none.
  pub detect_eth_header_size-first :
      ((n : ℕ) × (detect_eth_header_size caplen packet ≡ some n)
        × (min_eth_size ≤ n)
        × (n ≤ max_eth_size)
        × IsIpHeaderAt packet n caplen
        × ((m : ℕ) → min_eth_size ≤ m → m < n → ¬ IsIpHeaderAt packet m caplen))
      ⊎ ((detect_eth_header_size caplen packet ≡ some 0)
          × ((m : ℕ) → min_eth_size ≤ m → m ≤ max_eth_size → ¬ IsIpHeaderAt packet m caplen))
  unfolding detect_eth_header_size
  detect_eth_header_size-first = elim (detect_loop-first 9 14 (omega arith)) [
    | inl (n, found, lo, hi, h, first) ↦ inl (n, found, lo, omega arith, h, first)
    | inr (nothing, all) ↦ inr (nothing, λ m lo hi. all m lo (omega arith))
  ]
