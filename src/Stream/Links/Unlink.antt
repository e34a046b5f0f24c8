-- ===== src/Stream/Links/Unlink.antt =====
-- `unlink_pkt` takes a packet out of the list.
use mysqlpcap.Base.{
  ◌≡◌, ◌≢◌, ◌-◌, ◌≤◌, refl, sym, ap, ◌∙◌, Option, none, some, [], ◌∷◌, ◌++◌, arith, ◌==◌,
  if◌then◌else◌, Bool-cases, inl, inr,
}
use mysqlpcap.Base.Run.{ok}
use mysqlpcap.Packet.{Packet, PerfStats, Ptr, null, unmark_ref}
use mysqlpcap.Stream.{bypass_prev, bypass_next, unlink_pkt}
use mysqlpcap.Stream.Links.{
  Cells, front, back, between, Chain, Avoids, Avoids-back, Avoids-append, Avoids-split, IsDistinct,
  IsApart-sym, SameBut, IsList, write_ne, write_eq, null_test, back-append, Chain-append,
  Chain-split, Chain-write, Chain-SameBut, Chain-back, IsDistinct-split, IsDistinct-append,
}
use mysqlpcap.Sys.{Env, Heap, Stream, Sys, get, put, write, store, require, release}
use mysqlpcap.Stream.Links.Access.{load-eq, set_next-eq, set_prev-eq}

module _ {env : Env} where
  -- The cells in front of the packet now lead to the one behind it.
  bypass_prev-Chain :
      (p : Ptr) (q : Packet) (us : Cells) (n : Ptr) (sys : Sys env)
      → p ≢ null
      → sys.heap p ≡ some (between (back null us) n q)
      → IsDistinct us
      → Chain sys.heap null us p
      → (h : Heap) × (bypass_prev p sys ≡ ok tt (record sys { heap = h }))
        × Chain h null us n
        × SameBut us sys.heap h
  unfolding bypass_prev
  bypass_prev-Chain p q [] n sys ne here d l =
      (sys.heap, rw (load-eq p (between null n q) sys ne here) refl, tt, λ a h. refl)
  bypass_prev-Chain p q ((x, u) ∷ us) n sys ne here d l =
      let (r, ne', there, linked) = Chain-back sys.heap null x u us p d l in
      (
        write sys.heap (back x us) (some (record r { next = n })),
        rw (load-eq p (between (back x us) n q) sys ne here)
            (rw (null_test (back x us) ne', set_next-eq (back x us) n r sys ne' there) refl),
        linked n,
        λ a h.
            write_ne sys.heap (back x us) a (some (record r { next = n }))
              (Avoids-back a x us h.0 h.1),
      )

  -- The cells behind the packet are led back to the one in front of it.
  bypass_next-Chain :
      (p : Ptr) (q : Packet) (vs : Cells) (b : Ptr) (sys : Sys env)
      → p ≢ null
      → sys.heap p ≡ some (between b (front vs null) q)
      → IsDistinct vs
      → Chain sys.heap p vs null
      → (h : Heap) × (bypass_next p sys ≡ ok tt (record sys { heap = h }))
        × Chain h b vs null
        × SameBut vs sys.heap h
  unfolding bypass_next
  bypass_next-Chain p q [] b sys ne here d l =
      (sys.heap, rw (load-eq p (between b null q) sys ne here) refl, tt, λ a h. refl)
  bypass_next-Chain p q ((x, u) ∷ vs) b sys ne here d (ne', there, l) =
      let c = some (between b (front vs null) u) in
      (
        write sys.heap x c,
        rw (load-eq p (between b x q) sys ne here) (
            rw (null_test x ne', set_prev-eq x b (between p (front vs null) u) sys ne' there) refl),
        (ne', write_eq sys.heap x c, Chain-write sys.heap x vs null x c d.0 l),
        λ a h. write_ne sys.heap x a c (λ e. h.0 (sym e)),
      )

-- What `first` and `last` become.
first_lem :
    (p : Ptr) (q : Packet) (us vs : Cells)
    → Avoids p us
    → (if p == front (us ++ (p, q) ∷ vs) null
        then front vs null
        else front (us ++ (p, q) ∷ vs) null)
      ≡ front (us ++ vs) null
first_lem p q [] vs h = ground arith
first_lem p q ((x, u) ∷ us) vs h = ground (arith, h.0)

last_lem :
    (p : Ptr) (q : Packet) (b : Ptr) (vs : Cells)
    → Avoids p vs
    → (if p == back p vs then b else back p vs) ≡ back b vs
last_lem p q b [] h = ground arith
last_lem p q b ((x, u) ∷ vs) h = go (Avoids-back p x vs h.0 h.1)
  where
    go : p ≢ back x vs → (if p == back x vs then b else back x vs) ≡ back x vs
    go ne = ground arith

first_is :
    {h : Heap} (s : Stream) (p : Ptr) (q : Packet) (us vs : Cells)
    → IsList h s (us ++ (p, q) ∷ vs)
    → Avoids p us
    → (if p == s.first then front vs null else s.first) ≡ front (us ++ vs) null
first_is s p q us vs list h = rw list.first_is (first_lem p q us vs h)

last_is :
    {h : Heap} (s : Stream) (p : Ptr) (q : Packet) (us vs : Cells)
    → IsList h s (us ++ (p, q) ∷ vs)
    → Avoids p vs
    → (if p == s.last then back null us else s.last) ≡ back null (us ++ vs)
last_is s p q us vs list h =
    rw (list.last_is, back-append null us ((p, q) ∷ vs), back-append null us vs)
      (last_lem p q (back null us) vs h)

record_cong :
    (s : Stream) {f f' l l' : Ptr}
    → f ≡ f'
    → l ≡ l'
    → (record s { first = f; last = l }) ≡ record s { first = f'; last = l' }
record_cong s e e' = rw (e, e') refl

-- What is left of a packet that has lost a reference, without its links.
abbrev pub released : Packet → Option Packet
released q =
    if q.ref_count == 1
    then none
    else some (record q { ref_count = q.ref_count - 1; next = null; prev = null })

module _ {env : Env} where
  release-eq :
      (p : Ptr) (q : Packet) (sys : Sys env)
      → p ≢ null
      → sys.heap p ≡ some (between null null q)
      → 1 ≤ q.ref_count
      → (perf : PerfStats) × (release p sys
          ≡ ok tt (record sys { heap = write sys.heap p (released q); perf = perf }))
  unfolding release unmark_ref get put require
  release-eq p q sys ne here pos =
      rw (load-eq p (between null null q) sys ne here) (elim (Bool-cases (q.ref_count == 0)) [
        | inl zero' ↦ absurd (ground arith)
        | inr more ↦ rw more (elim (Bool-cases (q.ref_count == 1)) [
          | inl one ↦ rw one (_, refl)
          | inr two ↦ rw two (sys.perf, refl)
        ])
      ])

  -- The cells around the packet are linked to each other.
  bypass-Chain :
      (p : Ptr) (q : Packet) (us vs : Cells) (sys : Sys env)
      → IsDistinct (us ++ (p, q) ∷ vs)
      → Chain sys.heap null (us ++ (p, q) ∷ vs) null
      → (h' : Heap) × (h : Heap) × (bypass_prev p sys ≡ ok tt (record sys { heap = h' }))
        × (bypass_next p (record sys { heap = h' }) ≡ ok tt (record sys { heap = h }))
        × (p ≢ null)
        × (h p ≡ some (between (back null us) (front vs null) q))
        × Chain h null (us ++ vs) null
        × SameBut (us ++ vs) sys.heap h
  bypass-Chain p q us vs sys d l =
      let (l₁, (ne, here, l₂)) = Chain-split sys.heap null us ((p, q) ∷ vs) null l in
      let (d₁, (avoid₂, d₂), (avoid₁, apart)) = IsDistinct-split us ((p, q) ∷ vs) d in
      let (h', run', k₁, same₁) = bypass_prev-Chain p q us (front vs null) sys ne here d₁ l₁ in
      let here' = same₁ p avoid₁ ∙ here in
      let (h, run, k₂, same₂) =
        bypass_next-Chain p q vs (back null us) (record sys { heap = h' }) ne here' d₂
          (Chain-SameBut us sys.heap h' p vs null same₁ apart l₂) in
      (
        h',
        h,
        run',
        run,
        ne,
        same₂ p avoid₂ ∙ here',
        Chain-append h null us vs null
            (Chain-SameBut vs h' h null us (front vs null) same₂ (IsApart-sym us vs apart) k₁) k₂,
        λ a avoid. let (a₁, a₂) = Avoids-split a us vs avoid in same₂ a a₂ ∙ same₁ a a₁,
      )

  -- Where the packets of a stream are a list, and `p` is one of them with a reference at least,
  -- `unlink_pkt` returns: the packets of the stream are then the others in their order, `first` and
  -- `last` are set to match, and the other fields of the stream are kept; `p` has one reference less
  -- and null links, or is freed if that was its last; on the heap nothing but these packets has
  -- changed.
  pub unlink_pkt-IsList :
      (s : Stream) (p : Ptr) (q : Packet) (us vs : Cells) (sys : Sys env)
      → IsList sys.heap s (us ++ (p, q) ∷ vs)
      → 1 ≤ q.ref_count
      → (s' : Stream) × (sys' : Sys env) × (unlink_pkt s p sys ≡ ok s' sys')
        × (s' ≡ record s { first = front (us ++ vs) null; last = back null (us ++ vs) })
        × IsList sys'.heap s' (us ++ vs)
        × (sys'.heap p ≡ released q)
        × SameBut (us ++ (p, q) ∷ vs) sys.heap sys'.heap
  unfolding unlink_pkt store
  unlink_pkt-IsList s p q us vs sys list pos =
      let (h', h, run', run, ne, here, l, same) =
        bypass-Chain p q us vs sys list.distinct list.linked in
      let (d₁, (avoid₂, d₂), (avoid₁, apart)) = IsDistinct-split us ((p, q) ∷ vs) list.distinct in
      let h₂ = write h p (some (between null null q)) in
      let (perf, gone) =
        release-eq p q (record sys { heap = h₂ }) ne (write_eq h p (some (between null null q)))
          pos in
      let s' = record s { first = front (us ++ vs) null; last = back null (us ++ vs) } in
      let h₃ = write h₂ p (released q) in
      let sys' = record sys { heap = h₃; perf = perf } in
      let avoid = Avoids-append p us vs avoid₁ avoid₂ in
      (
        s',
        sys',
        rw
            (
              run',
              run,
              load-eq p (between (back null us) (front vs null) q) (record sys { heap = h }) ne
                  here,
              gone,
            )
            (ap (λ t. ok t sys')
              (record_cong s (first_is s p q us vs list avoid₁) (last_is s p q us vs list avoid₂))),
        refl,
        record {
          first_is = refl;
          last_is = refl;
          linked =
              Chain-write h₂ null (us ++ vs) null p (released q) avoid
                (Chain-write h null (us ++ vs) null p (some (between null null q)) avoid l);
          distinct = IsDistinct-append us vs d₁ d₂ apart;
        },
        write_eq h₂ p (released q),
        λ a other.
            let (a₁, a₂) = Avoids-split a us ((p, q) ∷ vs) other in
            let ne' : a ≢ p = λ e. a₂.0 (sym e) in
            write_ne h₂ p a (released q) ne'
            ∙ (write_ne h p a (some (between null null q)) ne'
                ∙ same a (Avoids-append a us vs a₁ a₂.1)),
      )
