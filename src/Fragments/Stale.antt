-- ===== src/Fragments/Stale.antt =====
-- A fragment that arrives between two others leaves the `prev` pointer of its successor as it was.
use mysqlpcap.Base.{
  ℕ, ◌≡◌, ◌<◌, true, false, Option, some, List, [], ◌∷◌, Bytes, arith, ltb, ==_refl,
}
use mysqlpcap.Base.Maybe.{◌>>=◌}
use mysqlpcap.Fragments.{empty, enqueue, get_first_fragment, remaining_fragments}

-- The data of the fragments of a packet, in the order in which they are handed on, when four
-- fragments were enqueued.
abbrev pub order : (id a b c d : ℕ) → (wa wb wc wd : Bytes) → Option (Option Bytes × List Bytes)
order id a b c d wa wb wc wd = do
  s ← enqueue empty id a wa
  s ← enqueue s id b wb
  s ← enqueue s id c wc
  s ← enqueue s id d wd
  head ← get_first_fragment s id
  rest ← remaining_fragments s id
  some (head, rest)

-- Where four fragments of one packet with offsets a < c < d < b arrive in the order a, b, c, d, the
-- third and the fourth are handed on in the wrong order: a, d, c, b.
pub enqueue_misorders :
    (id a b c d : ℕ) (wa wb wc wd : Bytes)
    → a < c
    → c < d
    → d < b
    → order id a b c d wa wb wc wd ≡ some (some wa, wd ∷ wc ∷ wb ∷ [])
unfolding enqueue get_first_fragment remaining_fragments
enqueue_misorders id a b c d wa wb wc wd h k l =
    let first : ltb a b ≡ true = ground arith in
    let second : ltb b c ≡ false = ground arith in
    let third : ltb a c ≡ true = ground arith in
    let fourth : ltb b d ≡ false = ground arith in
    let fifth : ltb a d ≡ true = ground arith in ground (arith, ==_refl id)
