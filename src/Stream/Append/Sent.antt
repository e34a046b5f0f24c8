-- ===== src/Stream/Append/Sent.antt =====
-- A sequence of packets that a client sends in one segment.
use mysqlpcap.Base.{
  ℕ, zero, suc, ◌+◌, ◌^◌, ◌≤◌, ◌<◌, ◌≡◌, ◌∙◌, refl, Bool, true, false, List, [], ◌∷◌, Bytes, All,
  arith, length, length-append,
}
use mysqlpcap.Base.Run.{ok}
use mysqlpcap.Packet.{Ptr, Timeval}
use mysqlpcap.Stream.Append.{append_loop, append}
use mysqlpcap.Stream.Append.Frames.{frames, Holds, IsIdle, query_of}
use mysqlpcap.Stream.Append.Frames.Read.{append_loop-frame}
use mysqlpcap.Sys.{Env, Stream, Sys}

-- Bodies that a header of three bytes can announce, and not empty.
abbrev pub AreBodies : List (ℕ × Bytes) → Type 0
AreBodies fs = All (λ f. (0 < length f.1) × (length f.1 < 2 ^ 24)) fs

-- The packets stand at `p` and behind it.
abbrev pub AreHeld : {env : Env} → Ptr → List (ℕ × Bytes) → Sys env → Type 0
AreHeld p [] t = Unit
AreHeld p ((seq, body) ∷ fs) t = Holds p body t × AreHeld (p + 1) fs t

-- The last of them that is a query, or the one from before.
abbrev pub queries_of : Ptr → List (ℕ × Bytes) → (last_query : Ptr) → Ptr
queries_of p [] old = old
queries_of p ((seq, body) ∷ fs) old = queries_of (p + 1) fs (query_of p body old)

-- Whether there is a packet.
abbrev pub created_of : List (ℕ × Bytes) → Bool → Bool
created_of [] created = created
created_of (f ∷ fs) created = true

-- What the segment leaves.
pub record AreRead {env : Env} (s s' : Stream) (t t' : Sys env) (fs : List (ℕ × Bytes))
    : Type 0 where
  pub idle : IsIdle s' t'
  pub query_is : s'.last_query ≡ queries_of t.fresh fs s.last_query
  pub fresh_is : t'.fresh ≡ t.fresh + length fs
  pub held : AreHeld t.fresh fs t'
  pub others : (a : Ptr) (x : Bytes) → a < t.fresh → Holds a x t → Holds a x t'

created_twice : (fs : List (ℕ × Bytes)) → created_of fs true ≡ true
created_twice [] = refl
created_twice (f ∷ fs) = refl

module _ {env : Env} (ts : Timeval) where
  append_loop-frames :
      (n : ℕ) (s : Stream) (c : Bool) (fs : List (ℕ × Bytes)) (t : Sys env)
      → length (frames fs) ≤ n
      → length (frames fs) < 2 ^ 31
      → AreBodies fs
      → IsIdle s t
      → (s' : Stream) × (t' : Sys env) × (append_loop n s ts true c (frames fs) t
          ≡ ok (s', created_of fs c) t')
        × AreRead s s' t t' fs
  unfolding append_loop
  append_loop-frames n s c [] t l few good idle = (
    s,
    t,
    refl,
    record {
      idle = idle;
      query_is = refl;
      fresh_is = omega arith;
      held = tt;
      others = λ a x low h. h;
    },
  )
  append_loop-frames n s c ((seq, []) ∷ fs) t l few (good, rest) idle =
      absurd (omega (arith, good.0))
  append_loop-frames zero s c ((seq, b ∷ bs) ∷ fs) t l few good idle = absurd (omega arith)
  append_loop-frames (suc n) s c ((seq, b ∷ bs) ∷ fs) t l few (good, rest) idle =
      let size = length-append bs (frames fs) in
      let (s₁, t₁, e, first) =
        append_loop-frame n s ts c seq b bs (frames fs) t idle good.1 (omega (arith, size)) in
      let (s₂, t₂, e', next) =
        append_loop-frames n s₁ true fs t₁ (omega (arith, size)) (omega (arith, size)) rest
          first.idle in
      (
        s₂,
        t₂,
        e ∙ e' ∙ λ i. ok (s₂, created_twice fs i) t₂,
        record {
          idle = next.idle;
          query_is = next.query_is ∙ λ i. queries_of (first.fresh_is i) fs (first.query_is i);
          fresh_is = omega (arith, next.fresh_is, first.fresh_is);
          held = (
            next.others t.fresh (b ∷ bs) (omega (arith, first.fresh_is)) first.received,
            rw first.fresh_is at next.held,
          );
          others = λ a x low h.
              next.others a x (omega (arith, low, first.fresh_is)) (first.others a x low h);
        },
      )

  -- For a stream that keeps no part of a header, of which the list is empty or ends with a complete
  -- packet on the heap, while no replay file is written: `append` of a segment of a client, of less than
  -- 2^31 bytes, that is made of whole packets with bodies of 1 to 2^24 - 1 bytes, returns; at the next unused
  -- addresses there are then, in their order, complete packets with exactly these bodies, as long as
  -- them; the last that begins with the byte 3 is the stream's query, or the one from before if there is
  -- none; the packets of clients that were complete before are as they were, and the stream is ready for the
  -- next segment.
  pub append-frames :
      (s : Stream) (fs : List (ℕ × Bytes)) (t : Sys env)
      → length (frames fs) < 2 ^ 31
      → AreBodies fs
      → IsIdle s t
      → (s' : Stream) × (t' : Sys env) × (append s ts (frames fs) true t
          ≡ ok (s', created_of fs false) t')
        × AreRead s s' t t' fs
  unfolding append
  append-frames s fs t few good idle =
      append_loop-frames (length (frames fs)) s false fs t (omega arith) few good idle
