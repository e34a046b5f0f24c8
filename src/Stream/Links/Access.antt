-- ===== src/Stream/Links/Access.antt =====
-- Reads and writes of the packets on the heap.
use mysqlpcap.Base.{◌≡◌, ◌≢◌, refl, none, some, ◌==◌, Bool-cases, inl, inr}
use mysqlpcap.Base.Run.{ok, fault}
use mysqlpcap.Packet.{Packet, Ptr, null}
use mysqlpcap.Stream.Links.{null_test}
use mysqlpcap.Sys.{Env, Sys, write, load, store, set_next, set_prev}

module _ {env : Env} where
  pub load-eq :
      (p : Ptr) (q : Packet) (sys : Sys env)
      → p ≢ null
      → sys.heap p ≡ some q
      → load p sys ≡ ok q sys
  unfolding load
  load-eq p q sys ne here = rw (null_test p ne, here) refl

  pub load-gone : (p : Ptr) (sys : Sys env) → sys.heap p ≡ none → load p sys ≡ fault
  unfolding load
  load-gone p sys e = elim (Bool-cases (p == null)) [
    | inl nil ↦ rw nil refl
    | inr other ↦ rw (other, e) refl
  ]

  pub set_next-eq :
      (p n : Ptr) (q : Packet) (sys : Sys env)
      → p ≢ null
      → sys.heap p ≡ some q
      → set_next p n sys
        ≡ ok tt (record sys { heap = write sys.heap p (some (record q { next = n })) })
  unfolding set_next store
  set_next-eq p n q sys ne here = rw (load-eq p q sys ne here) refl

  pub set_prev-eq :
      (p n : Ptr) (q : Packet) (sys : Sys env)
      → p ≢ null
      → sys.heap p ≡ some q
      → set_prev p n sys
        ≡ ok tt (record sys { heap = write sys.heap p (some (record q { prev = n })) })
  unfolding set_prev store
  set_prev-eq p n q sys ne here = rw (load-eq p q sys ne here) refl
