-- ===== src/Sys/Sound.antt =====
-- The invariant of the manager's state, and that the steps on the heap keep it.
use mysqlpcap.Base.{
  ◌<◌, ◌≡◌, refl, inl, inr, Bool, true, false, Option, none, some, All, length, Bool-cases, ◌==◌,
  if◌then◌else◌,
}
use mysqlpcap.Base.Maybe.{Gives}
use mysqlpcap.Base.Run.{
  Run, ok, throws, fault, out_of_fuel, M, pure, assert, Ensures, Ensures-and_then, ◌>>=◌,
}
use mysqlpcap.Packet.{Packet, PerfStats, Ptr, null, mark_ref, unmark_ref}
use mysqlpcap.Packet.Bounds.{IsBounded, mark_ref-IsBounded, unmark_ref-IsBounded}
use mysqlpcap.Sys.{
  Env, Stream, Heap, write, Sys, get, put, load, store, set_next, set_prev, require, allocate, mark,
  release,
}

-- A stream whose header is not complete, in a buffer of four bytes.
pub record IsReady (s : Stream) : Type 0 where
  pub short : s.cur_pkt_hdr_len < 4
  pub size : length s.pkt_hdr ≡ 4

abbrev pub IsBoundedHeap : Heap → Type 0
IsBoundedHeap h = (p : Ptr) → Gives IsBounded (h p)

-- No packet holds more than its buffer, and every stream of the map is ready for its next header.
pub record IsSound (env : Env) (sys : Sys env) : Type 0 where
  pub bounded : IsBoundedHeap sys.heap
  pub ready : All (λ e. IsReady e.1) sys.lookup

-- The trivial property of a value.
abbrev pub Any : {A : Type 0} → A → Type 0
Any a = Unit

write-IsBoundedHeap :
    (h : Heap) (p : Ptr) (c : Option Packet)
    → IsBoundedHeap h
    → Gives IsBounded c
    → IsBoundedHeap (write h p c)
unfolding write
write-IsBoundedHeap h p c b g a = elim (Bool-cases (a == p)) [
  | inl same ↦ rw same g
  | inr other ↦ rw other (b a)
]

module _ {env : Env} {A : Type 0} where
  -- From a sound state a step leads to a sound state only, and to a value with the property.
  pub record Keeps (P : A → Type 0) (m : M (Sys env) A) : Type 0 where
    pub from : (sys : Sys env) → IsSound env sys → Ensures (λ a t. P a × IsSound env t) (m sys)

module _ {env : Env} where
  pub bind-Keeps :
      {A B : Type 0} {P : A → Type 0} {Q : B → Type 0} {m : M (Sys env) A} {k : A → M (Sys env) B}
      → Keeps P m
      → ((a : A) → P a → Keeps Q (k a))
      → Keeps Q (m >>= k)
  bind-Keeps {P} {Q} {m} {k} h next = record {
    from = λ sys sound.
        Ensures-and_then (λ a t. P a × IsSound env t) (λ b t. Q b × IsSound env t) (m sys) k
          (h.from sys sound) (λ a t p. (next a p.0).from t p.1);
  }

module _ {env : Env} {A : Type 0} where
  pub weaken-Keeps :
      {P Q : A → Type 0} {m : M (Sys env) A} → ((a : A) → P a → Q a) → Keeps P m → Keeps Q m
  weaken-Keeps {P} {Q} {m} f h = record { from = λ sys sound. go (m sys) (h.from sys sound) }
    where
      go :
          (r : Run (Sys env) A)
          → Ensures (λ a t. P a × IsSound env t) r
          → Ensures (λ a t. Q a × IsSound env t) r
      go (ok a t) (p, sound) = (f a p, sound)
      go throws p = tt
      go fault p = tt
      go out_of_fuel p = tt

  pub branch-Keeps :
      {P : A → Type 0} {m n : M (Sys env) A} (b : Bool)
      → (b ≡ true → Keeps P m)
      → (b ≡ false → Keeps P n)
      → Keeps P (if b then m else n)
  branch-Keeps true h k = h refl
  branch-Keeps false h k = k refl

  pub pure-Keeps : (P : A → Type 0) (a : A) → P a → Keeps {env = env} P (pure a)
  pure-Keeps P a p = record { from = λ sys sound. (p, sound) }

  pub require-Keeps : (P : A → Type 0) (o : Option A) → Gives P o → Keeps {env = env} P (require o)
  unfolding require
  require-Keeps P none p = record { from = λ sys sound. tt }
  require-Keeps P (some a) p = record { from = λ sys sound. (p, sound) }

pub any : {A : Type 0} (o : Option A) → Gives Any o
any none = tt
any (some a) = tt

module _ {env : Env} where
  pub throws-Keeps : {A : Type 0} {P : A → Type 0} → Keeps {env = env} P (λ _. throws)
  throws-Keeps = record { from = λ sys sound. tt }

  pub out_of_fuel-Keeps : {A : Type 0} {P : A → Type 0} → Keeps {env = env} P (λ _. out_of_fuel)
  out_of_fuel-Keeps = record { from = λ sys sound. tt }

  pub option-Keeps :
      {A B : Type 0} {P : A → Type 0} {m : M (Sys env) A} {f : B → M (Sys env) A} (R : B → Type 0)
      (o : Option B)
      → Gives R o
      → Keeps P m
      → ((b : B) → R b → Keeps P (f b))
      → Keeps P (elim o [ none ↦ m | some b ↦ f b ])
  option-Keeps R none g h k = h
  option-Keeps R (some b) g h k = k b g

  pub get-Keeps : Keeps {env = env} (IsSound env) get
  unfolding get
  get-Keeps = record { from = λ sys sound. (sound, sound) }

  pub put-Keeps : (t : Sys env) → IsSound env t → Keeps Any (put t)
  unfolding put
  put-Keeps t h = record { from = λ sys sound. (tt, h) }

  pub assert-Keeps : (b : Bool) → Keeps {env = env} Any (assert b)
  assert-Keeps true = record { from = λ sys sound. (tt, sound) }
  assert-Keeps false = record { from = λ sys sound. tt }

  pub load-Keeps : (p : Ptr) → Keeps {env = env} IsBounded (load p)
  unfolding load
  load-Keeps p = record {
    from = λ sys sound. elim (Bool-cases (p == null)) [
      | inl is_null ↦ rw is_null tt
      | inr not_null ↦ rw not_null (loaded sys sound (sys.heap p) (sound.bounded p))
    ];
  }
    where
      loaded :
          (sys : Sys env)
          → IsSound env sys
          → (c : Option Packet) → Gives IsBounded c
          → Ensures
              (λ a t. IsBounded a × IsSound env t)
              (elim c [ none ↦ fault | some q ↦ ok q sys ])
      loaded sys sound none g = tt
      loaded sys sound (some q) g = (g, sound)

  pub store-Keeps : (p : Ptr) (q : Packet) → IsBounded q → Keeps {env = env} Any (store p q)
  unfolding store
  store-Keeps p q g = record {
    from = λ sys sound. (
      tt,
      record {
        bounded = write-IsBoundedHeap sys.heap p (some q) sound.bounded g;
        ready = sound.ready;
      },
    );
  }

  -- A change of a packet that leaves its buffer and its lengths.
  pub set_next-Keeps : (p next : Ptr) → Keeps {env = env} Any (set_next p next)
  unfolding set_next
  set_next-Keeps p next = bind-Keeps (load-Keeps p) (λ q g.
      store-Keeps p (record q { next = next })
        (record { within = g.within; narrow = g.narrow; inside = g.inside }))

  pub set_prev-Keeps : (p prev : Ptr) → Keeps {env = env} Any (set_prev p prev)
  unfolding set_prev
  set_prev-Keeps p prev = bind-Keeps (load-Keeps p) (λ q g.
      store-Keeps p (record q { prev = prev })
        (record { within = g.within; narrow = g.narrow; inside = g.inside }))

  pub allocate-Keeps :
      (q : Packet) (perf : PerfStats) → IsBounded q → Keeps {env = env} Any (allocate q perf)
  unfolding allocate
  allocate-Keeps q perf g = record {
    from = λ sys sound. (
      tt,
      record {
        bounded = write-IsBoundedHeap sys.heap sys.fresh (some q) sound.bounded g;
        ready = sound.ready;
      },
    );
  }

  pub mark-Keeps : (p : Ptr) → Keeps {env = env} Any (mark p)
  unfolding mark
  mark-Keeps p = bind-Keeps (load-Keeps p) (λ q g.
      bind-Keeps (require-Keeps IsBounded (mark_ref q) (mark_ref-IsBounded q g))
        (λ q' g'. store-Keeps p q' g'))

  pub release-Keeps : (p : Ptr) → Keeps {env = env} Any (release p)
  unfolding release
  release-Keeps p = bind-Keeps (load-Keeps p) (λ q g. bind-Keeps get-Keeps (λ s sound.
      bind-Keeps
        (require-Keeps (λ r. IsBounded r.0) (unmark_ref q s.perf) (unmark_ref-IsBounded q s.perf g))
        (λ r g'.
          put-Keeps
            (record s { heap = write s.heap p (if r.2 then none else some r.0); perf = r.1 })
            (record {
              bounded =
                  write-IsBoundedHeap s.heap p (if r.2 then none else some r.0) sound.bounded
                    (gone r.2 r.0 g');
              ready = sound.ready;
            }))))
    where
      gone : (b : Bool) (q : Packet) → IsBounded q → Gives IsBounded (if b then none else some q)
      gone true q g = tt
      gone false q g = g

  -- Without the value.
  pub sound_only :
      {A : Type 0} (P : A → Type 0) (r : Run (Sys env) A)
      → Ensures (λ a t. P a × IsSound env t) r
      → Ensures (λ _ t. IsSound env t) r
  sound_only P (ok a t) h = h.1
  sound_only P throws h = tt
  sound_only P fault h = tt
  sound_only P out_of_fuel h = tt
