-- ===== src/Sys/Captured.antt =====
-- Steps that keep every packet on the heap one of a capture.
use mysqlpcap.Base.{
  ◌≡◌, refl, inl, inr, Bool, true, false, Option, none, some, Bool-cases, ◌==◌, if◌then◌else◌, leb,
}
use mysqlpcap.Base.Maybe.{Gives}
use mysqlpcap.Base.Run.{ok, fault, M, and_then, Ensures, ◌>>=◌}
use mysqlpcap.Packet.{Packet, PerfStats, Ptr, null, mark_ref, unmark_ref}
use mysqlpcap.Packet.Captured.{IsCaptured}
use mysqlpcap.Sys.{
  Env, Sys, Heap, write, load, store, set_next, set_prev, require, allocate, mark, release,
}
use mysqlpcap.Sys.Frame.{
  Frame, bind-Frame, get-Frame, put-Frame, branch-Frame, pure-Frame, require-Frame, throws-Frame,
  assert-Frame,
}

abbrev pub AreCaptured : {env : Env} → Sys env → Type 0
AreCaptured sys = (p : Ptr) → Gives IsCaptured (sys.heap p)

write-captured :
    (h : Heap) (p : Ptr) (c : Option Packet)
    → ((a : Ptr) → Gives IsCaptured (h a))
    → Gives IsCaptured c
    → (a : Ptr) → Gives IsCaptured (write h p c a)
unfolding write
write-captured h p c b g a = elim (Bool-cases (a == p)) [
  | inl same ↦ rw same g
  | inr other ↦ rw other (b a)
]

marked : (q : Packet) → IsCaptured q → Gives IsCaptured (mark_ref q)
unfolding mark_ref
marked q g = elim (Bool-cases (leb q.ref_count 2)) [
  | inl few ↦ rw few (record {
    within = g.within;
    narrow = g.narrow;
    bytes = g.bytes;
    payload_is = g.payload_is;
    cur_len_is = g.cur_len_is;
  })
  | inr many ↦ rw many tt
]

released :
    (q : Packet) (perf : PerfStats)
    → IsCaptured q
    → Gives (λ r. r.2 ≡ false → IsCaptured r.0) (unmark_ref q perf)
unfolding unmark_ref
released q perf g = elim (Bool-cases (q.ref_count == 0)) [
  | inl none_left ↦ rw none_left tt
  | inr some_left ↦ rw some_left (elim (Bool-cases (q.ref_count == 1)) [
    | inl last ↦ rw last (λ e. absurd (cc))
    | inr more ↦ rw more (λ e. record {
      within = g.within;
      narrow = g.narrow;
      bytes = g.bytes;
      payload_is = g.payload_is;
      cur_len_is = g.cur_len_is;
    })
  ])
]

module _ {env : Env} where
  pub load-captured :
      {B : Type 0} {k : Packet → M (Sys env) B} (p : Ptr)
      → ((q : Packet) → IsCaptured q → Frame (AreCaptured {env = env}) (k q))
      → Frame AreCaptured (load p >>= k)
  unfolding load
  load-captured {k} p next = record {
    from = λ sys h. elim (Bool-cases (p == null)) [
      | inl is_null ↦ rw is_null tt
      | inr not_null ↦ rw not_null (loaded sys h (sys.heap p) (h p))
    ];
  }
    where
      loaded :
          (sys : Sys env)
          → AreCaptured sys
          → (c : Option Packet) → Gives IsCaptured c
          → Ensures
              (λ _ t. AreCaptured t)
              (and_then (elim c [ none ↦ fault | some q ↦ ok q sys ]) k)
      loaded sys h none g = tt
      loaded sys h (some q) g = (next q g).from sys h

  pub require-captured :
      {A B : Type 0} {k : A → M (Sys env) B} (P : A → Type 0) (o : Option A)
      → Gives P o
      → ((a : A) → P a → Frame (AreCaptured {env = env}) (k a))
      → Frame AreCaptured (require o >>= k)
  unfolding require
  require-captured P none g next = record { from = λ sys h. tt }
  require-captured P (some a) g next = record { from = λ sys h. (next a g).from sys h }

  pub store-captured :
      (p : Ptr) (q : Packet) → IsCaptured q → Frame (AreCaptured {env = env}) (store p q)
  unfolding store
  store-captured p q g = record { from = λ sys h. write-captured sys.heap p (some q) h g }

  pub allocate-captured :
      (q : Packet) (perf : PerfStats)
      → IsCaptured q
      → Frame (AreCaptured {env = env}) (allocate q perf)
  unfolding allocate
  allocate-captured q perf g = record {
    from = λ sys h. write-captured sys.heap sys.fresh (some q) h g;
  }

  pub set_next-captured : (p next : Ptr) → Frame (AreCaptured {env = env}) (set_next p next)
  unfolding set_next
  set_next-captured p next = load-captured p (λ q g.
      store-captured p (record q { next = next })
        (record {
          within = g.within;
          narrow = g.narrow;
          bytes = g.bytes;
          payload_is = g.payload_is;
          cur_len_is = g.cur_len_is;
        }))

  pub set_prev-captured : (p prev : Ptr) → Frame (AreCaptured {env = env}) (set_prev p prev)
  unfolding set_prev
  set_prev-captured p prev = load-captured p (λ q g.
      store-captured p (record q { prev = prev })
        (record {
          within = g.within;
          narrow = g.narrow;
          bytes = g.bytes;
          payload_is = g.payload_is;
          cur_len_is = g.cur_len_is;
        }))

  pub mark-captured : (p : Ptr) → Frame (AreCaptured {env = env}) (mark p)
  unfolding mark
  mark-captured p =
      load-captured p
        (λ q g. require-captured IsCaptured (mark_ref q) (marked q g) (store-captured p))

  pub release-captured : (p : Ptr) → Frame (AreCaptured {env = env}) (release p)
  unfolding release
  release-captured p = load-captured p (λ q g. get-Frame (λ s h.
      require-captured (λ r. r.2 ≡ false → IsCaptured r.0) (unmark_ref q s.perf)
        (released q s.perf g)
        (λ r f.
          put-Frame
            (record s { heap = write s.heap p (if r.2 then none else some r.0); perf = r.1 })
            (write-captured s.heap p (if r.2 then none else some r.0) h (gone r.2 r.0 f)))))
    where
      gone :
          (b : Bool) (q : Packet)
          → (b ≡ false → IsCaptured q)
          → Gives IsCaptured (if b then none else some q)
      gone true q g = tt
      gone false q g = g refl

  pub ruleset captured = (
    load-captured, bind-Frame, get-Frame, branch-Frame, pure-Frame, put-Frame, require-Frame,
    throws-Frame, assert-Frame, store-captured, allocate-captured,
  )
