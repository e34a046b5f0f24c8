-- ===== src/Fragments/InOrder.antt =====
-- Fragments that arrive in the order of their offsets are kept in that order.
use mysqlpcap.Base.{
  ℕ, zero, suc, ◌+◌, ◌<◌, ◌≡◌, ◌≢◌, refl, ◌∙◌, true, false, Option, none, some, List, [], ◌∷◌, ◌++◌,
  append_assoc, Bytes, All, arith, length, length-append, ltb, ◌==◌, if◌then◌else◌, ==_refl,
}
use mysqlpcap.Base.Maybe.{◌>>=◌}
use mysqlpcap.Fragments.{
  Ptr, null, Fragment, FragmentList, fragment, Heap, IpStream, write, find, put, find_before, link,
  enqueue_in, enqueue, get_first_fragment, remaining_fragments, collect,
}

-- From `p` the `next` pointers lead through the fragments at `ps`, with the data `ws`, to `stop`.
data Seg (h : Heap) (stop : Ptr) : Ptr → List Ptr → List Bytes → Type 0 where
  nil : Seg h stop stop [] []
  cons :
      {p : Ptr} {f : Fragment} {ps : List Ptr} {ws : List Bytes}
      → h p ≡ some f
      → p ≢ null
      → Seg h stop f.next ps ws
      → Seg h stop p (p ∷ ps) (f.contents ∷ ws)

abbrev Avoids : Ptr → List Ptr → Type 0
Avoids q = All (λ p. p ≢ q)

write_ne : (h : Heap) (q a : Ptr) (f : Option Fragment) → a ≢ q → write h q f a ≡ h a
unfolding write
write_ne h q a f ne = ground arith

write_eq : (h : Heap) (q : Ptr) (f : Option Fragment) → write h q f q ≡ f
unfolding write
write_eq h q f = ground arith

frame :
    {h : Heap} {stop p : Ptr} {ps : List Ptr} {ws : List Bytes} (q : Ptr) (f : Option Fragment)
    → Seg h stop p ps ws
    → Avoids q ps
    → Seg (write h q f) stop p ps ws
frame q f nil a = nil
frame q f (cons {p} e ne s) a = cons (write_ne _ q p f a.0 ∙ e) ne (frame q f s a.1)

snoc :
    {h : Heap} {last p : Ptr} {f : Fragment} {ps : List Ptr} {ws : List Bytes}
    → Seg h last p ps ws
    → h last ≡ some f
    → last ≢ null
    → Seg h f.next p (ps ++ last ∷ []) (ws ++ f.contents ∷ [])
snoc nil e ne = cons e ne nil
snoc (cons e' ne' s) e ne = cons e' ne' (snoc s e ne)

collect-Seg :
    {h : Heap} {p : Ptr} {ps : List Ptr} {ws : List Bytes} (fuel : ℕ)
    → Seg h null p ps ws
    → length ps < fuel
    → collect fuel h p ≡ some ws
unfolding collect
collect-Seg zero s l = absurd (omega arith)
collect-Seg (suc fuel) nil l = refl
collect-Seg (suc fuel) (cons {p} {ws} e ne s) l =
    let not_null : (p == null) ≡ false = ground (arith, ne) in
    rw (not_null, e) (rw (collect-Seg fuel s (omega arith)))

-- The list of an identification holds the data `ws` and then, at its end, `w` with offset `o`.
record Holds (s : IpStream) (id : ℕ) (ws : List Bytes) (w : Bytes) (o : ℕ) : Type 0 where
  fl : FragmentList
  ps : List Ptr
  tail_prev : Ptr
  found : find id s.packet_map ≡ some fl
  front : Seg s.heap fl.last fl.first ps ws
  tail_is : s.heap fl.last ≡ some (fragment w o null tail_prev)
  tail_ne : fl.last ≢ null
  older : All (λ p. (p < s.fresh) × (p ≢ fl.last)) ps
  tail_older : fl.last < s.fresh
  size : length ps + 1 < s.fresh

find-put :
    (id : ℕ) (fl : FragmentList) (m : List (ℕ × FragmentList)) → find id (put id fl m) ≡ some fl
unfolding find put
find-put id fl [] = ground arith
find-put id fl ((j, old) ∷ m) = ground (arith, find-put id fl m)

Avoids-last :
    (n last : Ptr) (ps : List Ptr)
    → All (λ p. (p < n) × (p ≢ last)) ps
    → Avoids n ps × Avoids last ps
Avoids-last n last [] a = (tt, tt)
Avoids-last n last (p ∷ ps) a =
    let (x, y) = Avoids-last n last ps a.1 in ((omega (arith, a.0.0), x), (a.0.1, y))

older-append :
    (n last : Ptr) (ps : List Ptr)
    → All (λ p. (p < n) × (p ≢ last)) ps
    → last < n
    → All (λ p. (p < n + 1) × (p ≢ n)) (ps ++ last ∷ [])
older-append n last [] a l = ((omega arith, omega arith), tt)
older-append n last (p ∷ ps) a l =
    ((omega (arith, a.0.0), omega (arith, a.0.0)), older-append n last ps a.1 l)

-- The first fragment of a packet.
enqueue_first :
    (s : IpStream) (id o : ℕ) (w : Bytes)
    → 0 < s.fresh
    → find id s.packet_map ≡ none
    → (t : IpStream) × (enqueue s id o w ≡ some t) × Holds t id [] w o
unfolding enqueue write
enqueue_first s id o w pos new = (
  record {
    heap = write s.heap s.fresh (some (fragment w o null null));
    fresh = s.fresh + 1;
    packet_map = put id (record { first = s.fresh; last = s.fresh }) s.packet_map;
  },
  rw new,
  record {
    fl = record { first = s.fresh; last = s.fresh };
    ps = [];
    tail_prev = null;
    found = find-put id _ s.packet_map;
    front = nil;
    tail_is = ground arith;
    tail_ne = omega arith;
    older = tt;
    tail_older = omega arith;
    size = omega arith;
  },
)

find_before_last :
    (h : Heap) (fuel last off : ℕ) (f : Fragment)
    → 0 < fuel
    → last ≢ null
    → h last ≡ some f
    → f.offset < off
    → find_before fuel h last off ≡ some last
unfolding find_before
find_before_last h zero last off f pos ne e lt = absurd (omega arith)
find_before_last h (suc fuel) last off f pos ne e lt =
    let not_null : (last == null) ≡ false = ground (arith, ne) in
    let before : ltb f.offset off ≡ true = ground arith in rw (not_null, e) (rw before)

link_last :
    (h : Heap) (fl : FragmentList) (new : Ptr) (w : Bytes) (off : ℕ) (f : Fragment)
    → fl.last ≢ null
    → h fl.last ≡ some f
    → link h fl new fl.last w off
      ≡ some (
        write
            (write h new (some (fragment w off f.next fl.last)))
            fl.last
            (some (record f { next = new })),
        record fl { last = new },
      )
unfolding link
link_last h fl new w off f ne e =
    let not_null : (fl.last == null) ≡ false = ground (arith, ne) in
    rw (not_null, e) (rw (==_refl fl.last))

-- A fragment behind all others.
enqueue_next :
    {s : IpStream} {ws : List Bytes} {w : Bytes} {o : ℕ} (id o' : ℕ) (w' : Bytes)
    → Holds s id ws w o
    → o < o'
    → (t : IpStream) × (enqueue s id o' w' ≡ some t) × Holds t id (ws ++ w ∷ []) w' o'
unfolding enqueue
enqueue_next {s} {ws} {w} {o} id o' w' h lt =
    let (avoid_new, avoid_last) = Avoids-last s.fresh h.fl.last h.ps h.older in
    let moved = frame h.fl.last _ (frame s.fresh _ h.front avoid_new) avoid_last in
    (
      record {
        heap = linked;
        fresh = s.fresh + 1;
        packet_map = put id (record h.fl { last = s.fresh }) s.packet_map;
      },
      rw (h.found, enqueue_in)
          (rw
            (find_before_last s.heap s.fresh h.fl.last o' _ (omega (arith, h.tail_older)) h.tail_ne
              h.tail_is lt)
            (rw (link_last s.heap h.fl s.fresh w' o' _ h.tail_ne h.tail_is))),
      record {
        fl = record h.fl { last = s.fresh };
        ps = h.ps ++ h.fl.last ∷ [];
        tail_prev = h.fl.last;
        found = find-put id _ s.packet_map;
        front = snoc moved (write_eq before h.fl.last _) h.tail_ne;
        tail_is =
            write_ne before h.fl.last s.fresh _ (omega (arith, h.tail_older))
            ∙ write_eq s.heap s.fresh _;
        tail_ne = omega (arith, h.tail_older);
        older = older-append s.fresh h.fl.last h.ps h.older h.tail_older;
        tail_older = omega arith;
        size = omega (arith, h.size, length-append h.ps (h.fl.last ∷ []));
      },
    )
  where
    before : Heap
    before = write s.heap s.fresh (some (fragment w' o' null h.fl.last))

    linked : Heap
    linked = write before h.fl.last (some (fragment w o s.fresh h.tail_prev))

unfoldable pub enqueue_all : IpStream → ℕ → List (ℕ × Bytes) → Option IpStream
enqueue_all s id [] = some s
enqueue_all s id ((o, w) ∷ fs) = do t ← enqueue s id o w; enqueue_all t id fs

abbrev pub IsAscending : ℕ → List (ℕ × Bytes) → Type 0
IsAscending o [] = Unit
IsAscending o ((o', w) ∷ fs) = (o < o') × IsAscending o' fs

abbrev pub payloads : List (ℕ × Bytes) → List Bytes
payloads [] = []
payloads ((o, w) ∷ fs) = w ∷ payloads fs

-- The whole list, with its last fragment.
enqueue_all-Holds :
    (fs : List (ℕ × Bytes)) (s : IpStream) (id o : ℕ) (ws : List Bytes) (w : Bytes)
    → Holds s id ws w o
    → IsAscending o fs
    → (t : IpStream) × (u : List Bytes) × (v : Bytes) × (o' : ℕ) × (enqueue_all s id fs ≡ some t)
      × Holds t id u v o'
      × (u ++ v ∷ [] ≡ ws ++ w ∷ payloads fs)
unfolding enqueue_all
enqueue_all-Holds [] s id o ws w h a = (s, ws, w, o, refl, h, refl)
enqueue_all-Holds ((o', w') ∷ fs) s id o ws w h a =
    let (t, e, h') = enqueue_next id o' w' h a.0 in
    let (r, u, v, o'', e', h'', same) = enqueue_all-Holds fs t id o' (ws ++ w ∷ []) w' h' a.1 in
    (r, u, v, o'', rw e e', h'', same ∙ append_assoc ws (w ∷ []) (w' ∷ payloads fs))

-- What is handed on of a list: the first fragment and those behind it.
handed_on :
    {s : IpStream} {ws : List Bytes} {w first : Bytes} {o : ℕ} {rest : List Bytes} (id : ℕ)
    → Holds s id ws w o
    → ws ++ w ∷ [] ≡ first ∷ rest
    → (get_first_fragment s id ≡ some (some first)) × (remaining_fragments s id ≡ some rest)
unfolding get_first_fragment remaining_fragments
handed_on {s} {first} {rest} id h e =
    rw (h.found, get_first_fragment)
      (go (omega (arith, h.size, length-append h.ps (h.fl.last ∷ [])))
        (rw e at (snoc h.front h.tail_is h.tail_ne)))
  where
    go :
        {ps : List Ptr} {p : Ptr}
        → length ps < suc s.fresh
        → Seg s.heap null p ps (first ∷ rest)
        → ((if p == null then some none else (do f ← s.heap p; some (some f.contents)))
            ≡ some (some first))
          × ((if p == null then none else (do f ← s.heap p; collect s.fresh s.heap f.next))
              ≡ some rest)
    go {p} l (cons e ne seg) =
        let not_null : (p == null) ≡ false = ground (arith, ne) in
        rw (not_null, e) (refl, collect-Seg s.fresh seg (omega arith))

-- When the fragments of a packet are new to the stream and arrive with ascending offsets, `enqueue`
-- faults on none of them, `get_first_fragment` gives the first, and the others are handed on in
-- their order.
pub enqueue_all_in_order :
    (s : IpStream) (id o : ℕ) (w : Bytes) (fs : List (ℕ × Bytes))
    → 0 < s.fresh
    → find id s.packet_map ≡ none
    → IsAscending o fs
    → (t : IpStream) × (enqueue_all s id ((o, w) ∷ fs) ≡ some t)
      × (get_first_fragment t id ≡ some (some w))
      × (remaining_fragments t id ≡ some (payloads fs))
unfolding enqueue_all
enqueue_all_in_order s id o w fs pos new a =
    let (t, e, h) = enqueue_first s id o w pos new in
    let (r, u, v, o', e', h', same) = enqueue_all-Holds fs t id o [] w h a in
    let (first, rest) = handed_on id h' same in (r, rw e e', first, rest)
