-- ===== src/Stream/Links/Link.antt =====
-- The end of `create_new_packet` and `append_packet` puts a packet behind the list.
use mysqlpcap.Base.{◌≡◌, ◌≢◌, refl, sym, ◌∙◌, some, [], ◌∷◌, ◌++◌}
use mysqlpcap.Base.Run.{ok}
use mysqlpcap.Packet.{Packet, Ptr, null}
use mysqlpcap.Stream.{link_last}
use mysqlpcap.Stream.Links.{
  Cells, front, back, between, Avoids, Avoids-back, Avoids-split, IsApart, SameBut, IsList,
  write_ne, write_eq, null_test, back-append, Chain-append, Chain-write, Chain-back,
  IsDistinct-append,
}
use mysqlpcap.Stream.Links.Access.{set_next-eq, set_prev-eq}
use mysqlpcap.Sys.{Env, Heap, Stream, Sys, write}

IsApart-one : (p : Ptr) (q : Packet) (cs : Cells) → Avoids p cs → IsApart cs ((p, q) ∷ [])
IsApart-one p q cs h = (h, tt)

module _ {env : Env} where
  -- Where the packets of a stream are a list, and `p` is a packet beside them with null links,
  -- `link_last` returns: the packets of the stream are then that list with `p` behind it, `first` and
  -- `last` are set to match, the other fields of the stream are kept, and on the heap nothing but
  -- these packets has changed.
  pub link_last-IsList :
      (s : Stream) (p : Ptr) (q : Packet) (cs : Cells) (sys : Sys env)
      → IsList sys.heap s cs
      → p ≢ null
      → Avoids p cs
      → sys.heap p ≡ some (between null null q)
      → (s' : Stream) × (h : Heap) × (link_last s p sys ≡ ok s' (record sys { heap = h }))
        × (s' ≡ record s { first = front (cs ++ (p, q) ∷ []) null; last = p })
        × IsList h s' (cs ++ (p, q) ∷ [])
        × SameBut (cs ++ (p, q) ∷ []) sys.heap h
  unfolding link_last
  link_last-IsList s p q [] sys list ne avoid here = (
    record s { first = p; last = p },
    sys.heap,
    rw list.first_is refl,
    refl,
    record { first_is = refl; last_is = refl; linked = (ne, here, tt); distinct = (tt, tt) },
    λ a h. refl,
  )
  link_last-IsList s p q ((x, u) ∷ cs) sys list ne avoid here =
      let (r, ne', there, linked) =
        Chain-back sys.heap null x u cs null list.distinct list.linked in
      let b = back x cs in
      let h₁ = write sys.heap b (some (record r { next = p })) in
      let other : p ≢ b = Avoids-back p x cs avoid.0 avoid.1 in
      let here' = write_ne sys.heap b p (some (record r { next = p })) other ∙ here in
      let h₂ = write h₁ p (some (between b null q)) in
      (
        record s { first = x; last = p },
        h₂,
        rw
            (
              list.first_is,
              list.last_is,
              null_test x list.linked.0,
              null_test b ne',
              set_next-eq b p r sys ne' there,
              set_prev-eq p b (between null null q) (record sys { heap = h₁ }) ne here',
            )
            refl,
        refl,
        record {
          first_is = refl;
          last_is = sym (back-append null ((x, u) ∷ cs) ((p, q) ∷ []));
          linked =
              Chain-append h₂ null ((x, u) ∷ cs) ((p, q) ∷ []) null
                (Chain-write h₁ null ((x, u) ∷ cs) p p (some (between b null q)) avoid (linked p))
                (ne, write_eq h₁ p (some (between b null q)), tt);
          distinct =
              IsDistinct-append ((x, u) ∷ cs) ((p, q) ∷ []) list.distinct (tt, tt)
                (IsApart-one p q ((x, u) ∷ cs) avoid);
        },
        λ a h.
            let (a₁, a₂) = Avoids-split a ((x, u) ∷ cs) ((p, q) ∷ []) h in
            let ne₂ : a ≢ p = λ e. a₂.0 (sym e) in
            write_ne h₁ p a (some (between b null q)) ne₂
            ∙ write_ne sys.heap b a (some (record r { next = p })) (Avoids-back a x cs a₁.0 a₁.1),
      )
