-- ===== src/Stream/Complete/Slowest.antt =====
-- The list of slow queries, `slow_queries` of mysql_stream_manager.cc, as `register_query` keeps it.
use mathlib.Core.List.{Perm}
use mysqlpcap.Base.{
  ◌≡◌, ◌≢◌, ◌⊎◌, inl, inr, ◌∙◌, ap, refl, false, some, List, [], ◌∷◌, ◌++◌, length, arith, ltb,
  Bool-cases,
}
use mysqlpcap.Base.Int.{ℤ}
use mysqlpcap.Base.Run.{ok}
use mysqlpcap.Packet.{Packet, Ptr, null}
use mysqlpcap.Stream.{consider_unlink_pkt}
use mysqlpcap.Stream.Complete.{time_at, insert_slow, keep_slow}
use mysqlpcap.Stream.Links.Access.{load-eq}
use mysqlpcap.Sys.{Env, Stream, Sys, get, put, require}
use mysqlpcap.Stream.Complete.Order.{
  Timed, Slowest, insert_slow-Timed, All-insert_by, insert_by-perm, front, back, split_last-front,
  front-append-back, All-front, room-Slowest, evict-Slowest, insert_by-cons,
}

module _ {env : Env} where
  -- Registering a query leaves the slowest of all that were registered so far: where the list holds
  -- the `n_slow_queries` slowest of `ps` in order, or all if there are not as many, it holds those
  -- of `ps` and the new query after `keep_slow`, which itself does not fail. If there are too many,
  -- one is left out of the list and taken out of the stream.
  pub keep_slow-Slowest :
      (time : Ptr → ℤ) (sys : Sys env) (s : Stream) (p : Ptr) (q : Packet) (ps : List Ptr)
      → p ≢ null
      → sys.heap p ≡ some q
      → q.exec_time ≡ time p
      → Timed time sys.heap sys.slow_queries
      → Slowest time env.n_slow_queries ps sys.slow_queries
      → (ks : List Ptr) × Slowest time env.n_slow_queries (p ∷ ps) ks
        × Timed time sys.heap ks
        × ((keep_slow s p sys ≡ ok s (record sys { slow_queries = ks }))
            ⊎ ((e : Ptr) × (keep_slow s p sys
                  ≡ consider_unlink_pkt s e false (record sys { slow_queries = ks }))
                × Perm (ks ++ e ∷ []) (p ∷ sys.slow_queries)))
  unfolding keep_slow get put require time_at
  keep_slow-Slowest time sys s p q ps ne here same timed slowest =
      let slow = sys.slow_queries in
      let (y, ys, e) = insert_by-cons time p slow in
      let ins =
        ap (λ t. insert_slow sys.heap t p slow) same
        ∙ (insert_slow-Timed time sys.heap p slow timed ∙ ap some e) in
      let at_heap = time_of p q here same in
      let both = rw e at (All-insert_by time _ p slow at_heap timed) in
      elim (Bool-cases (ltb env.n_slow_queries (length (y ∷ ys)))) [
        | inl many ↦ (
          front time y ys,
          evict-Slowest time p y ys slowest e (ground arith),
          All-front time _ y ys both,
          inr (
            back time y ys,
            rw (load-eq p q sys ne here, ins, many, split_last-front time y ys) refl,
            rw (front-append-back time y ys) (rw e at (insert_by-perm time p slow)),
          ),
        )
        | inr few ↦ (
          y ∷ ys,
          rw e at (room-Slowest time p slowest (rw e (ground arith))),
          both,
          inl (rw (load-eq p q sys ne here, ins, few) refl),
        )
      ]
    where
      time_of :
          (p : Ptr) (q : Packet)
          → sys.heap p ≡ some q
          → q.exec_time ≡ time p
          → time_at sys.heap p ≡ some (time p)
      time_of p q here same = rw (here, time_at) (ap some same)
