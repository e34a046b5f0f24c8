-- ===== src/Sys/Frame.antt =====
-- Steps that keep an invariant of the state; and that those on the heap leave the replay file alone,
-- while no replay file is written.
use mysqlpcap.Base.{
  ◌≡◌, inl, inr, Bool, true, false, Option, none, some, Bool-cases, ◌==◌, if◌then◌else◌,
}
use mysqlpcap.Base.Run.{
  ok, throws, fault, out_of_fuel, M, pure, assert, Ensures, Ensures-and_then, ◌>>=◌,
}
use mysqlpcap.Packet.{Packet, PerfStats, Ptr, null}
use mysqlpcap.Sys.{
  Env, Sys, get, put, load, store, set_next, set_prev, require, allocate, mark, release,
}

module _ {env : Env} (I : Sys env → Type 0) where
  -- The invariant is kept, if the run returns.
  pub record Frame {A : Type 0} (m : M (Sys env) A) : Type 0 where
    pub from : (sys : Sys env) → I sys → Ensures (λ _ t. I t) (m sys)

module _ {env : Env} {I : Sys env → Type 0} where
  pub bind-Frame :
      {A B : Type 0} {m : M (Sys env) A} {k : A → M (Sys env) B}
      → Frame I m
      → ((a : A) → Frame I (k a))
      → Frame I (m >>= k)
  bind-Frame {m} {k} h next = record {
    from = λ sys p.
        Ensures-and_then (λ _ t. I t) (λ _ t. I t) (m sys) k (h.from sys p)
          (λ a t q. (next a).from t q);
  }

  pub get-Frame :
      {B : Type 0} {k : Sys env → M (Sys env) B}
      → ((sys : Sys env) → I sys → Frame I (k sys))
      → Frame I (get >>= k)
  unfolding get
  get-Frame next = record { from = λ sys p. (next sys p).from sys p }

  pub branch-Frame :
      {A : Type 0} {m n : M (Sys env) A} (b : Bool)
      → Frame I m
      → Frame I n
      → Frame I (if b then m else n)
  branch-Frame true h k = h
  branch-Frame false h k = k

  pub pure-Frame : {A : Type 0} (a : A) → Frame I (pure a)
  pure-Frame a = record { from = λ sys p. p }

  pub put-Frame : (t : Sys env) → I t → Frame I (put t)
  unfolding put
  put-Frame t p = record { from = λ sys _. p }

  pub require-Frame : {A : Type 0} (o : Option A) → Frame I (require o)
  unfolding require
  require-Frame none = record { from = λ sys p. tt }
  require-Frame (some a) = record { from = λ sys p. p }

  pub throws-Frame : {A : Type 0} → Frame I {A = A} (λ _. throws)
  throws-Frame = record { from = λ sys p. tt }

  pub out_of_fuel-Frame : {A : Type 0} → Frame I {A = A} (λ _. out_of_fuel)
  out_of_fuel-Frame = record { from = λ sys p. tt }

  pub assert-Frame : (b : Bool) → Frame I (assert b)
  assert-Frame true = record { from = λ sys p. p }
  assert-Frame false = record { from = λ sys p. tt }

  pub option-Frame :
      {A B : Type 0} {m : M (Sys env) A} {f : B → M (Sys env) A} (o : Option B)
      → Frame I m
      → ((b : B) → Frame I (f b))
      → Frame I (elim o [ none ↦ m | some b ↦ f b ])
  option-Frame none h k = h
  option-Frame (some b) h k = k b

module _ {env : Env} (fd : Option env.os.File) where
  -- The file is `fd`, and is not being written.
  abbrev pub At : Sys env → Type 0
  At sys = (sys.replay_fd ≡ fd) × (sys.in_replay_write ≡ false)

module _ {env : Env} {fd : Option env.os.File} where
  pub load-Frame : (p : Ptr) → Frame (At {env = env} fd) (load p)
  unfolding load
  load-Frame p = record {
    from = λ sys h. elim (Bool-cases (p == null)) [
      | inl is_null ↦ rw is_null tt
      | inr not_null ↦ rw not_null (loaded sys h (sys.heap p))
    ];
  }
    where
      loaded :
          (sys : Sys env)
          → At fd sys
          → (c : Option Packet)
          → Ensures (λ _ t. At fd t) (elim c [ none ↦ fault | some q ↦ ok q sys ])
      loaded sys h none = tt
      loaded sys h (some q) = h

  pub store-Frame : (p : Ptr) (q : Packet) → Frame (At {env = env} fd) (store p q)
  unfolding store
  store-Frame p q = record { from = λ sys h. h }

  pub allocate-Frame : (q : Packet) (perf : PerfStats) → Frame (At {env = env} fd) (allocate q perf)
  unfolding allocate
  allocate-Frame q perf = record { from = λ sys h. h }

  pub ruleset frame = (
    bind-Frame, get-Frame, branch-Frame, pure-Frame, put-Frame, require-Frame, throws-Frame,
    assert-Frame, load-Frame, store-Frame, allocate-Frame,
  )

  pub set_next-Frame : (p next : Ptr) → Frame (At {env = env} fd) (set_next p next)
  unfolding set_next
  set_next-Frame p next = search (frame)

  pub set_prev-Frame : (p prev : Ptr) → Frame (At {env = env} fd) (set_prev p prev)
  unfolding set_prev
  set_prev-Frame p prev = search (frame)

  pub mark-Frame : (p : Ptr) → Frame (At {env = env} fd) (mark p)
  unfolding mark
  mark-Frame p = search (frame)

  pub release-Frame : (p : Ptr) → Frame (At {env = env} fd) (release p)
  unfolding release
  release-Frame p = search (frame)
