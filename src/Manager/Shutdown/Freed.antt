-- ===== src/Manager/Shutdown/Freed.antt =====
-- What the end of a stream and of the manager frees.
use mysqlpcap.Base.{
  ℕ, zero, suc, ◌<◌, ◌≤◌, ◌≡◌, ◌≢◌, ◌∙◌, ap, refl, none, some, List, [], ◌∷◌, All, length, arith,
  Bool-cases, inl, inr, ◌==◌,
}
use mysqlpcap.Base.Run.{ok, fault, Returns, Returns-map}
use mysqlpcap.Manager.Shutdown
use mysqlpcap.Manager.Shutdown.{drop_ref, delete_packet, free_slow, free_streams}
use mysqlpcap.Packet.{Packet, PerfStats, unmark_ref, Ptr, null}
use mysqlpcap.Stream
use mysqlpcap.Stream.{unlink_pkt, cleanup_loop}
use mysqlpcap.Stream.Links.{Cells, IsList, SameBut, write_eq, null_test, front, between}
use mysqlpcap.Stream.Links.Access.{load-eq, load-gone}
use mysqlpcap.Stream.Links.Unlink.{released, unlink_pkt-IsList}
use mysqlpcap.Sys.{Env, Heap, Stream, Sys, get, put, require, write}

-- Each packet has lost a reference, and is freed if it was the last.
abbrev pub AreReleased : Heap → Cells → Type 0
AreReleased h = All (λ c. h c.0 ≡ released c.1)

module _ {env : Env} where
  cleanup_loop-frees :
      (cs : Cells) (fuel : ℕ) (s : Stream) (p : Ptr) (sys : Sys env)
      → IsList sys.heap s cs
      → p ≡ front cs null
      → All (λ c. 1 ≤ c.1.ref_count) cs
      → length cs < fuel
      → Returns
          (λ s' sys'.
            (s'.first ≡ null)
            × (s'.last ≡ null)
            × AreReleased sys'.heap cs
            × SameBut cs sys.heap sys'.heap)
          (cleanup_loop fuel s p sys)
  unfolding cleanup_loop
  cleanup_loop-frees cs zero s p sys list here used enough = absurd (omega arith)
  cleanup_loop-frees [] (suc fuel) s p sys list here used enough =
      rw here (list.first_is, list.last_is, tt, λ a h. refl)
  cleanup_loop-frees ((x, q) ∷ cs) (suc fuel) s p sys list here used enough =
      let (s', sys', done, _, list', gone, same) = unlink_pkt-IsList s x q [] cs sys list used.0 in
      let (ne, at, _) = list.linked in
      rw (here, null_test x ne, load-eq x (between null (front cs null) q) sys ne at, done)
        (Returns-map
          (λ s'' t.
            (s''.first ≡ null)
            × (s''.last ≡ null)
            × AreReleased t.heap cs
            × SameBut cs sys'.heap t.heap)
          _ (cleanup_loop fuel s' (front cs null) sys')
          (λ s'' t (f, l, r, frame).
            (f, l, (frame x list.distinct.0 ∙ gone, r), λ a avoid. frame a avoid.1 ∙ same a avoid))
          (cleanup_loop-frees cs fuel s' (front cs null) sys' list' refl used.1
            (omega (arith, enough))))

  -- Where the packets of a stream are a list, each with a reference at least, and more packets were
  -- ever made than the list has, `cleanup` of the stream returns: its list is empty, each packet has
  -- lost a reference and is freed if it was the last, and nothing else on the heap has changed.
  pub cleanup-frees :
      (s : Stream) (cs : Cells) (sys : Sys env)
      → IsList sys.heap s cs
      → All (λ c. 1 ≤ c.1.ref_count) cs
      → length cs < sys.fresh
      → Returns
          (λ s' sys'.
            (s'.first ≡ null)
            × (s'.last ≡ null)
            × AreReleased sys'.heap cs
            × SameBut cs sys.heap sys'.heap)
          (Stream.cleanup s sys)
  unfolding Stream.cleanup get
  cleanup-frees s cs sys list used enough =
      cleanup_loop-frees cs sys.fresh s s.first sys list list.first_is used enough

  cleanup_loop-gone :
      (fuel : ℕ) (s : Stream) (p : Ptr) (sys : Sys env)
      → 0 < fuel
      → p ≢ null
      → sys.heap p ≡ none
      → cleanup_loop fuel s p sys ≡ fault
  unfolding cleanup_loop
  cleanup_loop-gone zero s p sys h ne gone = absurd (omega arith)
  cleanup_loop-gone (suc fuel) s p sys h ne gone = rw (null_test p ne, load-gone p sys gone) refl

  drop_ref-eq :
      (p : Ptr) (q : Packet) (sys : Sys env)
      → p ≢ null
      → sys.heap p ≡ some q
      → 1 ≤ q.ref_count
      → (q' : Packet) × (perf : PerfStats) × (drop_ref p sys
          ≡ ok tt (record sys { heap = write sys.heap p (some q'); perf = perf }))
  unfolding drop_ref unmark_ref require get put
  drop_ref-eq p q sys ne here pos =
      rw (load-eq p q sys ne here) (elim (Bool-cases (q.ref_count == 0)) [
        | inl zero' ↦ absurd (ground arith)
        | inr more ↦ rw more (elim (Bool-cases (q.ref_count == 1)) [
          | inl one ↦ rw one (_, _, refl)
          | inr two ↦ rw two (_, sys.perf, refl)
        ])
      ])

  delete_packet-eq :
      (p : Ptr) (q : Packet) (sys : Sys env)
      → p ≢ null
      → sys.heap p ≡ some q
      → (perf : PerfStats) × (delete_packet p sys
          ≡ ok tt (record sys { heap = write sys.heap p none; perf = perf }))
  unfolding delete_packet get put
  delete_packet-eq p q sys ne here = rw (load-eq p q sys ne here) (_, refl)

  free_slow-one :
      (sys : Sys env) (p : Ptr) (q : Packet)
      → p ≢ null
      → sys.heap p ≡ some q
      → 1 ≤ q.ref_count
      → (h : Heap) × (perf : PerfStats) × (free_slow (p ∷ []) sys
          ≡ ok tt (record sys { heap = h; perf = perf }))
        × (h p ≡ none)
  unfolding free_slow
  free_slow-one sys p q ne here pos =
      let (q', perf, dropped) = drop_ref-eq p q sys ne here pos in
      let h = write sys.heap p (some q') in
      let (perf', deleted) =
        delete_packet-eq p q' (record sys { heap = h; perf = perf }) ne
          (write_eq sys.heap p (some q')) in
      (write h p none, perf', rw (dropped, deleted) refl, write_eq h p none)

  free_streams-gone :
      (lookup : List (ℕ × Stream)) (sys : Sys env) (k : ℕ) (s : Stream) (m : List (ℕ × Stream))
      → lookup ≡ (k, s) ∷ m
      → 0 < sys.fresh
      → s.first ≢ null
      → sys.heap s.first ≡ none
      → free_streams lookup sys ≡ fault
  unfolding free_streams Stream.cleanup get
  free_streams-gone lookup sys k s m e made ne gone =
      rw (e, cleanup_loop-gone sys.fresh s s.first sys made ne gone) refl

  -- Where one query is in the list of slow queries, and stands at the front of the list of the first
  -- stream of the map, on the heap and with a reference at least, as in a run with replay, `cleanup`
  -- of the manager faults: it frees the packet, and the stream then walks its list.
  pub cleanup-dangles :
      (sys : Sys env) (p : Ptr) (q : Packet) (k : ℕ) (s : Stream) (m : List (ℕ × Stream))
      → sys.slow_queries ≡ p ∷ []
      → sys.lookup ≡ (k, s) ∷ m
      → s.first ≡ p
      → p ≢ null
      → p < sys.fresh
      → sys.heap p ≡ some q
      → 1 ≤ q.ref_count
      → Shutdown.cleanup sys ≡ fault
  unfolding Shutdown.cleanup get put
  cleanup-dangles sys p q k s m slow streams first ne made here pos =
      let (h, perf, freed, gone) = free_slow-one sys p q ne here pos in
      let run = ap (λ l. free_slow l sys) slow ∙ freed in
      rw
        (
          run,
          free_streams-gone sys.lookup (record sys { heap = h; perf = perf; slow_queries = [] }) k s
              m streams (omega (arith, made)) (rw first ne) (rw first gone),
        )
        refl
