-- ===== src/Stream/Links.antt =====
-- The list of packets of a stream, as doubly linked cells of the heap.
pub mod Access
pub mod Unlink
pub mod Link
use mysqlpcap.Base.{
  ℕ, ◌≡◌, ◌≢◌, refl, sym, ap, ◌∙◌, Bool, true, false, Option, none, some, List, [], ◌∷◌, ◌++◌, All,
  arith, ◌==◌, if◌then◌else◌, Bool-cases, inl, inr, ◌⊎◌,
}
use mysqlpcap.Packet.{Packet, Ptr, null, byte, is_query, is_eof}
use mysqlpcap.Sys.{Heap, Stream, write}

-- Packets with their addresses, in the order of the list. Their own links say nothing.
abbrev pub Cells : Type 0
Cells = List (Ptr × Packet)

-- The first address, or the one behind; the last address, or the one in front.
abbrev pub front : Cells → (behind : Ptr) → Ptr
front [] z = z
front ((x, q) ∷ cs) z = x

abbrev pub back : (before : Ptr) → Cells → Ptr
back b [] = b
back b ((x, q) ∷ cs) = back x cs

abbrev pub between : (prev next : Ptr) → Packet → Packet
between b n q = record q { next = n; prev = b }

-- The cells stand on the heap, linked one to the next, from `before` to `behind`.
abbrev pub Chain : Heap → (before : Ptr) → Cells → (behind : Ptr) → Type 0
Chain h b [] z = Unit
Chain h b ((x, q) ∷ cs) z = (x ≢ null) × (h x ≡ some (between b (front cs z) q)) × Chain h x cs z

abbrev pub Avoids : Ptr → Cells → Type 0
Avoids p = All (λ c. c.0 ≢ p)

abbrev pub IsDistinct : Cells → Type 0
IsDistinct [] = Unit
IsDistinct (c ∷ cs) = Avoids c.0 cs × IsDistinct cs

-- Nothing but the cells has changed.
abbrev pub SameBut : Cells → Heap → Heap → Type 0
SameBut cs h h' = (a : Ptr) → Avoids a cs → h' a ≡ h a

pub write_ne : (h : Heap) (p a : Ptr) (c : Option Packet) → a ≢ p → write h p c a ≡ h a
unfolding write
write_ne h p a c ne = ground arith

pub write_eq : (h : Heap) (p : Ptr) (c : Option Packet) → write h p c p ≡ c
unfolding write
write_eq h p c = ground arith

pub null_test : (p : Ptr) → p ≢ null → (p == null) ≡ false
null_test p ne = ground arith

pub front-append : (us vs : Cells) (z : Ptr) → front (us ++ vs) z ≡ front us (front vs z)
front-append [] vs z = refl
front-append (u ∷ us) vs z = refl

pub back-append : (b : Ptr) (us vs : Cells) → back b (us ++ vs) ≡ back (back b us) vs
back-append b [] vs = refl
back-append b (u ∷ us) vs = back-append u.0 us vs

pub Avoids-append : (p : Ptr) (us vs : Cells) → Avoids p us → Avoids p vs → Avoids p (us ++ vs)
Avoids-append p [] vs h k = k
Avoids-append p (u ∷ us) vs h k = (h.0, Avoids-append p us vs h.1 k)

pub Avoids-split : (p : Ptr) (us vs : Cells) → Avoids p (us ++ vs) → Avoids p us × Avoids p vs
Avoids-split p [] vs h = (tt, h)
Avoids-split p (u ∷ us) vs h = let (l, r) = Avoids-split p us vs h.1 in ((h.0, l), r)

-- Each of the second cells avoids the first.
abbrev pub IsApart : (us vs : Cells) → Type 0
IsApart us vs = All (λ v. Avoids v.0 us) vs

pub IsApart-cons :
    (u : Ptr × Packet) (us vs : Cells) → Avoids u.0 vs → IsApart us vs → IsApart (u ∷ us) vs
IsApart-cons u us [] h k = tt
IsApart-cons u us (v ∷ vs) h k = ((λ e. h.0 (sym e), k.0), IsApart-cons u us vs h.1 k.1)

pub IsApart-sym : (us vs : Cells) → IsApart us vs → IsApart vs us
IsApart-sym us [] h = apart us
  where
    apart : (us : Cells) → IsApart [] us
    apart [] = tt
    apart (u ∷ us) = (tt, apart us)
IsApart-sym us (v ∷ vs) h = IsApart-cons v vs us h.0 (IsApart-sym us vs h.1)

pub IsDistinct-split :
    (us vs : Cells) → IsDistinct (us ++ vs) → IsDistinct us × IsDistinct vs × IsApart us vs
IsDistinct-split [] vs d = (tt, d, IsApart-sym vs [] tt)
IsDistinct-split (u ∷ us) vs d =
    let (l, r, k) = IsDistinct-split us vs d.1 in
    let (ul, ur) = Avoids-split u.0 us vs d.0 in ((ul, l), r, IsApart-cons u us vs ur k)

pub IsDistinct-append :
    (us vs : Cells) → IsDistinct us → IsDistinct vs → IsApart us vs → IsDistinct (us ++ vs)
IsDistinct-append [] vs l r k = r
IsDistinct-append (u ∷ us) vs l r k =
    (Avoids-append u.0 us vs l.0 (avoids vs k), IsDistinct-append us vs l.1 r (tail vs k))
  where
    avoids : (ws : Cells) → IsApart (u ∷ us) ws → Avoids u.0 ws
    avoids [] k = tt
    avoids (w ∷ ws) k = (λ e. k.0.0 (sym e), avoids ws k.1)

    tail : (ws : Cells) → IsApart (u ∷ us) ws → IsApart us ws
    tail [] k = tt
    tail (w ∷ ws) k = (k.0.1, tail ws k.1)

pub Avoids-back : (a x : Ptr) (cs : Cells) → x ≢ a → Avoids a cs → a ≢ back x cs
Avoids-back a x [] ne h e = ne (sym e)
Avoids-back a x ((y, q) ∷ cs) ne h e = Avoids-back a y cs h.0 h.1 e

-- Two chains that meet.
pub Chain-append :
    (h : Heap) (b : Ptr) (us vs : Cells) (z : Ptr)
    → Chain h b us (front vs z)
    → Chain h (back b us) vs z
    → Chain h b (us ++ vs) z
Chain-append h b [] vs z l r = r
Chain-append h b ((x, q) ∷ us) vs z (ne, here, l) r =
    (ne, rw (front-append us vs z) here, Chain-append h x us vs z l r)

pub Chain-split :
    (h : Heap) (b : Ptr) (us vs : Cells) (z : Ptr)
    → Chain h b (us ++ vs) z
    → Chain h b us (front vs z) × Chain h (back b us) vs z
Chain-split h b [] vs z l = (tt, l)
Chain-split h b ((x, q) ∷ us) vs z (ne, here, l) =
    let (front', end) = Chain-split h x us vs z l in
    ((ne, here ∙ ap (λ n. some (between b n q)) (front-append us vs z), front'), end)

-- Changes elsewhere.
pub Chain-SameBut :
    (us : Cells) (h h' : Heap) (b : Ptr) (vs : Cells) (z : Ptr)
    → SameBut us h h'
    → IsApart us vs
    → Chain h b vs z
    → Chain h' b vs z
Chain-SameBut us h h' b [] z same apart l = tt
Chain-SameBut us h h' b ((x, q) ∷ vs) z same apart (ne, here, l) =
    (ne, same x apart.0 ∙ here, Chain-SameBut us h h' x vs z same apart.1 l)

pub Chain-write :
    (h : Heap) (b : Ptr) (cs : Cells) (z a : Ptr) (c : Option Packet)
    → Avoids a cs
    → Chain h b cs z
    → Chain (write h a c) b cs z
Chain-write h b [] z a c avoid l = tt
Chain-write h b ((x, q) ∷ cs) z a c avoid (ne, here, l) =
    (ne, write_ne h a x c avoid.0 ∙ here, Chain-write h x cs z a c avoid.1 l)

-- The last cell is on the heap, and can be given another cell behind it.
pub Chain-back :
    (h : Heap) (b x : Ptr) (q : Packet) (cs : Cells) (z : Ptr)
    → IsDistinct ((x, q) ∷ cs)
    → Chain h b ((x, q) ∷ cs) z
    → (r : Packet) × (back x cs ≢ null)
      × (h (back x cs) ≡ some r)
      × ((n : Ptr) → Chain (write h (back x cs) (some (record r { next = n }))) b ((x, q) ∷ cs) n)
Chain-back h b x q [] z d (ne, here, l) =
    (between b z q, ne, here, λ n. (ne, write_eq h x (some (between b n q)), tt))
Chain-back h b x q ((y, p) ∷ cs) z d (ne, here, l) =
    let (r, ne', there, linked) = Chain-back h x y p cs z d.1 l in
    (
      r,
      ne',
      there,
      λ n. (
        ne,
        write_ne h (back y cs) x (some (record r { next = n })) (Avoids-back x y cs d.0.0 d.0.1)
            ∙ here,
        linked n,
      ),
    )

-- The packets of the stream are the cells.
pub record IsList (h : Heap) (s : Stream) (cs : Cells) : Type 0 where
  pub first_is : s.first ≡ front cs null
  pub last_is : s.last ≡ back null cs
  pub linked : Chain h null cs null
  pub distinct : IsDistinct cs

-- The links do not tell what the packet says.
pub is_query-between : (b n : Ptr) (q : Packet) → is_query (between b n q) ≡ is_query q
unfolding is_query byte
is_query-between b n q = refl

pub is_eof-between : (b n : Ptr) (q : Packet) → is_eof (between b n q) ≡ is_eof q
unfolding is_eof byte
is_eof-between b n q = refl
