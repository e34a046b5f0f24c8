-- ===== src/Fragments.antt =====
-- ip_stream.h and ip_stream.cc: the fragments of IP packets, kept by identification in linked lists
-- on a heap. `none` is a failed assertion, a dangling pointer or fuel that ran out. The copies that
-- `IP_fragment` makes are values, and a `std::map` is the list of its entries.
pub mod InOrder
pub mod Stale
use mysqlpcap.Base.{
  ℕ, zero, suc, ◌+◌, Bool, true, false, Option, none, some, List, [], ◌∷◌, Bytes, length, ltb, ◌==◌,
  if◌then◌else◌,
}
use mysqlpcap.Base.Maybe.{◌>>=◌}

abbrev pub Ptr : Type 0
Ptr = ℕ

abbrev pub null : Ptr
null = 0

-- `IP_fragment`; its length is that of its data.
pub record Fragment : Type 0 where
  pub contents : Bytes
  pub offset : ℕ
  pub next : Ptr
  pub prev : Ptr

-- `IP_fragment_list`
pub record FragmentList : Type 0 where
  pub first : Ptr
  pub last : Ptr

abbrev pub Heap : Type 0
Heap = Ptr → Option Fragment

-- `fresh` is the address that the next `new` returns.
pub record IpStream : Type 0 where
  pub heap : Heap
  pub fresh : Ptr
  pub packet_map : List (ℕ × FragmentList)

abbrev pub empty : IpStream
empty = record { heap = λ p. none; fresh = 1; packet_map = [] }

unfoldable pub write : Heap → Ptr → Option Fragment → Heap
write h p f a = if a == p then f else h a

unfoldable pub find : ℕ → List (ℕ × FragmentList) → Option FragmentList
find id [] = none
find id ((j, fl) ∷ m) = if j == id then some fl else find id m

-- The list of an identification that is there is given anew in its place.
unfoldable pub put : ℕ → FragmentList → List (ℕ × FragmentList) → List (ℕ × FragmentList)
put id fl [] = (id, fl) ∷ []
put id fl ((j, old) ∷ m) = if j == id then (id, fl) ∷ m else (j, old) ∷ put id fl m

unfoldable pub erase : ℕ → List (ℕ × FragmentList) → List (ℕ × FragmentList)
erase id [] = []
erase id ((j, fl) ∷ m) = if j == id then m else (j, fl) ∷ erase id m

-- The loop of `enqueue` from `cur_f` towards the front: the fragment behind which the new one
-- belongs, or null.
unfoldable pub find_before : ℕ → Heap → (cur_f : Ptr) → (ip_off : ℕ) → Option Ptr
find_before zero h cur off = none
find_before (suc fuel) h cur off = if cur == null then some null else do
  f ← h cur
  let rest = find_before fuel h f.prev off
  if ltb f.offset off then some cur else rest

-- A copy of `data` at a new address
abbrev pub fragment : Bytes → ℕ → Ptr → Ptr → Fragment
fragment bs off next prev = record { contents = bs; offset = off; next = next; prev = prev }

-- What `enqueue` does when the loop has ended at `cur_f`, with the new fragment at `new_f`.
unfoldable pub link :
    Heap → FragmentList → (new_f cur_f : Ptr) → Bytes → ℕ → Option (Heap × FragmentList)
unfolding write
link h fl new_f cur_f bs off =
    if cur_f == null
    then (do
      head ← h fl.first
      some (
        write (write h new_f (some (fragment bs off fl.first null))) fl.first
            (some (record head { prev = new_f })),
        record fl { first = new_f },
      ))
    else (do
      f ← h cur_f
      some (
        write (write h new_f (some (fragment bs off f.next cur_f))) cur_f
            (some (record f { next = new_f })),
        if fl.last == cur_f then record fl { last = new_f } else fl,
      ))

-- `enqueue`, with the list that the identification has, if any. The loop takes one round for each
-- fragment at most, and `fresh` is larger.
unfoldable pub enqueue_in :
    IpStream → (ip_id ip_off : ℕ) → Bytes → Option FragmentList → Option IpStream
unfolding put find_before link
enqueue_in s id off bs none = some (record {
  heap = write s.heap s.fresh (some (fragment bs off null null));
  fresh = s.fresh + 1;
  packet_map = put id (record { first = s.fresh; last = s.fresh }) s.packet_map;
})
enqueue_in s id off bs (some fl) = do
  cur_f ← find_before s.fresh s.heap fl.last off
  (h, fl') ← link s.heap fl s.fresh cur_f bs off
  some (record { heap = h; fresh = s.fresh + 1; packet_map = put id fl' s.packet_map })

-- `IP_stream::enqueue`
unfoldable pub enqueue : IpStream → (ip_id ip_off : ℕ) → Bytes → Option IpStream
unfolding find enqueue_in
enqueue s id off bs = enqueue_in s id off bs (find id s.packet_map)

-- `IP_stream::has_fragments`
unfoldable pub has_fragments : IpStream → (ip_id : ℕ) → Bool
unfolding find
has_fragments s id = elim (find id s.packet_map) [ none ↦ false | some _ ↦ true ]

-- `IP_stream::get_first_fragment`: the inner option is its result.
unfoldable pub get_first_fragment : IpStream → (ip_id : ℕ) → Option (Option Bytes)
unfolding find
get_first_fragment s id = elim (find id s.packet_map) [
  | none ↦ some none
  | some fl ↦
      if fl.first == null then some none else (do f ← s.heap fl.first; some (some f.contents))
]

-- The data of the fragments from `frag` on, in the order of `next`.
unfoldable pub collect : ℕ → Heap → (frag : Ptr) → Option (List Bytes)
collect zero h p = none
collect (suc fuel) h p =
    if p == null
    then some []
    else do f ← h p; rest ← collect fuel h f.next; some (f.contents ∷ rest)

-- The data that `IP_stream::append_remaining_packets` hands to `Mysql_stream::append`: those behind
-- the first fragment.
unfoldable pub remaining_fragments : IpStream → (ip_id : ℕ) → Option (List Bytes)
unfolding find collect
remaining_fragments s id = do
  fl ← find id s.packet_map
  if fl.first == null then none else do f ← s.heap fl.first; collect s.fresh s.heap f.next

-- `clear_fragment_list_low`: every fragment of the list is deleted.
unfoldable pub clear_low : ℕ → Heap → (frag : Ptr) → Option Heap
unfolding write
clear_low zero h p = none
clear_low (suc fuel) h p =
    if p == null then some h else do f ← h p; clear_low fuel (write h p none) f.next

-- `IP_stream::clear_fragment_list`
unfoldable pub clear_fragment_list : IpStream → (ip_id : ℕ) → Option IpStream
unfolding find erase clear_low
clear_fragment_list s id = elim (find id s.packet_map) [
  | none ↦ some s
  | some fl ↦ do
    h ← clear_low s.fresh s.heap fl.first
    some (record s { heap = h; packet_map = erase id s.packet_map })
]
