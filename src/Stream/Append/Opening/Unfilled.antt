-- ===== src/Stream/Append/Opening/Unfilled.antt =====
-- A packet that has received nothing yet, while it is marked and linked.
use mysqlpcap.Base.{
  ◌≡◌, ◌∙◌, ap, refl, false, not, Option, none, some, leb, ◌==◌, ==_iff, Bool-cases, inl, inr,
}
use mysqlpcap.Base.Maybe.{Gives}
use mysqlpcap.Base.Run.{
  Run, ok, throws, fault, out_of_fuel, assert, ◌>>=◌, and_then, Ensures, Ensures-and_then,
}
use mysqlpcap.Packet.{Packet, Ptr, null, mark_ref}
use mysqlpcap.Stream.{link_last}
use mysqlpcap.Stream.Append.Parts.{load_cases}
use mysqlpcap.Sys.{Env, Stream, Sys, write, load, store, set_next, set_prev, require, mark}
use mysqlpcap.Sys.Frame.{Frame, bind-Frame, branch-Frame, pure-Frame, assert-Frame}

-- The packet at `p`, if there is one, has received nothing.
abbrev pub IsUnfilled : {env : Env} → Ptr → Sys env → Type 0
IsUnfilled p t = Gives (λ q. q.cur_len ≡ 0) (t.heap p)

marked_same : (q : Packet) → Gives (λ q'. q'.cur_len ≡ q.cur_len) (mark_ref q)
unfolding mark_ref
marked_same q = elim (Bool-cases (leb q.ref_count 2)) [
  | inl few ↦ rw few refl
  | inr many ↦ rw many tt
]

abbrev Anything : {S A : Type 0} → A → S → Type 0
Anything a s = Unit

always : {S A : Type 0} {X : Type 0} → X → (r : Run S A) → Ensures (λ _ _. X) r
always x (ok a s) = x
always x throws = tt
always x fault = tt
always x out_of_fuel = tt

module _ {env : Env} where
  write-IsUnfilled :
      (p a : Ptr) (q q' : Packet) (t : Sys env)
      → t.heap a ≡ some q
      → q'.cur_len ≡ q.cur_len
      → IsUnfilled p t
      → IsUnfilled {env = env} p (record t { heap = write t.heap a (some q') })
  unfolding write
  write-IsUnfilled p a q q' t e same h = elim (Bool-cases (p == a)) [
    | inl here ↦
        let there : t.heap p ≡ some q = ap t.heap ((==_iff p a).0 here) ∙ e in
        rw here (same ∙ (rw there at h))
    | inr other ↦ rw other h
  ]

  -- A change of a packet that leaves what it has received.
  change-IsUnfilled :
      (p a : Ptr) (f : Packet → Option Packet)
      → ((q : Packet) → Gives (λ q'. q'.cur_len ≡ q.cur_len) (f q))
      → Frame (IsUnfilled {env = env} p) (load a >>= λ q. require (f q) >>= λ q'. store a q')
  unfolding require store
  change-IsUnfilled p a f same = record {
    from = λ t h. elim (load_cases a t) [
      | inl gone ↦ rw gone tt
      | inr (q, e, here, not_null) ↦ rw e (go t h q here (f q) (same q))
    ];
  }
    where
      go :
          (t : Sys env)
          → IsUnfilled p t
          → (q : Packet) → t.heap a ≡ some q
          → (o : Option Packet) → Gives (λ q'. q'.cur_len ≡ q.cur_len) o
          → Ensures
              (λ _ t'. IsUnfilled p t')
              (and_then (require {env = env} o t) (λ q'. store a q'))
      go t h q e none g = tt
      go t h q e (some q') g = write-IsUnfilled p a q q' t e g h

  pub mark-IsUnfilled : (p a : Ptr) → Frame (IsUnfilled {env = env} p) (mark a)
  unfolding mark
  mark-IsUnfilled p a = change-IsUnfilled p a mark_ref marked
    where
      marked : (q : Packet) → Gives (λ q'. q'.cur_len ≡ q.cur_len) (mark_ref q)
      marked q = marked_same q

  set_next-IsUnfilled : (p a next : Ptr) → Frame (IsUnfilled {env = env} p) (set_next a next)
  unfolding set_next require
  set_next-IsUnfilled p a next =
      change-IsUnfilled p a (λ q. some (record q { next = next })) (λ q. refl)

  set_prev-IsUnfilled : (p a prev : Ptr) → Frame (IsUnfilled {env = env} p) (set_prev a prev)
  unfolding set_prev require
  set_prev-IsUnfilled p a prev =
      change-IsUnfilled p a (λ q. some (record q { prev = prev })) (λ q. refl)

  pub link_last-IsUnfilled :
      (p : Ptr) (s : Stream) → Frame (IsUnfilled {env = env} p) (link_last s p)
  unfolding link_last
  link_last-IsUnfilled p s = branch-Frame (s.first == null) (pure-Frame _) (
      bind-Frame (assert-Frame (not (s.last == null))) (λ _.
        bind-Frame (set_next-IsUnfilled p s.last p)
          (λ _. bind-Frame (set_prev-IsUnfilled p p s.last) (λ _. pure-Frame _))))

  -- The packet becomes the last.
  pub link_last-last :
      (p : Ptr) (s : Stream) (t : Sys env) → Ensures (λ s' _. s'.last ≡ p) (link_last s p t)
  unfolding link_last
  link_last-last p s t = elim (Bool-cases (s.first == null)) [
    | inl empty ↦ rw empty refl
    | inr others ↦ rw others (
        Ensures-and_then Anything _ (assert (not (s.last == null)) t) _ (always tt _) (λ _ t₁ _.
          Ensures-and_then Anything _ (set_next s.last p t₁) _ (always tt _) (λ _ t₂ _.
            Ensures-and_then Anything _ (set_prev p s.last t₂) _ (always tt _) (λ _ t₃ _. refl))))
  ]

  -- A packet that can be marked is there.
  pub mark-not_null : (p : Ptr) (t : Sys env) → Ensures (λ _ _. (p == null) ≡ false) (mark p t)
  unfolding mark
  mark-not_null p t = elim (load_cases p t) [
    | inl gone ↦ rw gone tt
    | inr (q, e, here, not_null) ↦ always not_null (mark p t)
  ]
