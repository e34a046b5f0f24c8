-- ===== src/Stream/Append/Frames.antt =====
-- Whole packets of a client in one segment.
pub mod Linked
pub mod Fed
pub mod Read
use mysqlpcap.Base.{
  ℕ, suc, ◌+◌, ◌-◌, ◌/◌, ◌%◌, ◌^◌, ◌<◌, ◌≡◌, ◌∙◌, sym, ap, refl, ◌⊎◌, inl, inr, Bool, true, false,
  Option, some, List, [], ◌∷◌, ◌++◌, Bytes, arith, length, length-append, take, take-append,
  drop-all, drop, drop-append, ◌==◌, ==_iff, if◌then◌else◌, Bool-cases,
}
use mysqlpcap.Base.Run.{ok, pure, and_then}
use mysqlpcap.Packet
use mysqlpcap.Packet.{
  Packet, PerfStats, Ptr, null, Timeval, make, mark_ref, is_complete, is_query, is_eof, byte,
}
use mysqlpcap.Packet.Append.{fill}
use mysqlpcap.Packet.Captured.{append-filled}
use mysqlpcap.Stream.Append.Fuel.{turn, behind_header}
use mysqlpcap.Stream.{
  create_new_packet, header_bytes, take_header, link_last, starting_packet, register_replay_packet,
}
use mysqlpcap.Stream.Append.{feed_last, append_loop}
use mysqlpcap.Stream.Append.Opening.{header_bytes_whole, open_packet, create_new_packet_whole}
use mysqlpcap.Stream.Append.Parts.{write-there}
use mysqlpcap.Stream.Append.Segments.Part.{load_there}
use mysqlpcap.Stream.Complete.{handle_packet_complete}
use mysqlpcap.Sys.{
  Env, Stream, Sys, Heap, write, get, store, set_next, set_prev, require, allocate, mark,
}
use mysqlpcap.Wire.{uint3korr}

-- A packet as it is sent: three bytes for the length of its body, its number, and the body.
abbrev pub frame : (seq : ℕ) → (body : Bytes) → Bytes
frame seq body = length body % 256 ∷ length body / 256 % 256 ∷ length body / 65536 ∷ seq ∷ body

abbrev pub frames : List (ℕ × Bytes) → Bytes
frames [] = []
frames ((seq, body) ∷ fs) = frame seq body ++ frames fs

-- The buffer, the length, the bytes received and the direction of a packet.
abbrev pub contents_of : Packet → Option Bytes × ℕ × ℕ × Bool
contents_of q = (q.payload, q.len, q.cur_len, q.is_in)

-- A packet of a client that is complete, with this body.
abbrev pub sent : Bytes → Option Bytes × ℕ × ℕ × Bool
sent body = (some body, length body, length body, true)

-- The packet at `p` is one of a client, complete, with this body.
abbrev pub Holds : {env : Env} → Ptr → Bytes → Sys env → Type 0
Holds p body t = (q : Packet) × (t.heap p ≡ some q) × (contents_of q ≡ sent body)

-- The stream stands between two packets, of which the first is complete.
abbrev pub IsBetween : {env : Env} → Stream → Sys env → Type 0
IsBetween s t =
    ((s.first ≡ null) × (s.last ≡ null))
    ⊎ (((s.first == null) ≡ false)
        × (0 < s.last)
        × (s.last < t.fresh)
        × ((q : Packet) × (t.heap s.last ≡ some q) × (q.len ≡ q.cur_len)))

-- No part of a header is kept, and no replay file is written.
pub record IsIdle {env : Env} (s : Stream) (t : Sys env) : Type 0 where
  pub no_header : s.cur_pkt_hdr_len ≡ 0
  pub size : length s.pkt_hdr ≡ 4
  pub not_recording : t.in_replay_write ≡ false
  pub allocated : 0 < t.fresh
  pub between : IsBetween s t

pub write-other :
    (h : Heap) (p a : Ptr) (c : Option Packet) → (a == p) ≡ false → write h p c a ≡ h a
unfolding write
write-other h p a c e = rw e refl

pub apart : (a b : ℕ) → a < b → (a == b) ≡ false
apart a b h = ground arith

pub positive : (a : ℕ) → 0 < a → (a == null) ≡ false
positive a h = ground arith

-- The first byte of a body says whether it is a query.
abbrev pub query_of : Ptr → Bytes → (last_query : Ptr) → Ptr
query_of p [] old = old
query_of p (b ∷ bs) old = if b == 3 then p else old

some_same : {q r : Packet} → some q ≡ some r → q ≡ r
some_same e = cc e

module _ {env : Env} where
  pub Holds-write :
      (a x : Ptr) (body : Bytes) (q q' : Packet) (t : Sys env)
      → t.heap x ≡ some q
      → contents_of q' ≡ contents_of q
      → Holds a body t
      → Holds {env = env} a body (record t { heap = write t.heap x (some q') })
  unfolding write
  Holds-write a x body q q' t there same (r, here, e) = elim (Bool-cases (a == x)) [
    | inl hit ↦
        let two : some r ≡ some q = sym here ∙ ap t.heap ((==_iff a x).0 hit) ∙ there in
        (q', rw hit refl, same ∙ ap contents_of (sym (some_same two)) ∙ e)
    | inr miss ↦ (r, rw miss here, e)
  ]

  pub Holds-other :
      (a x : Ptr) (body : Bytes) (c : Option Packet) (t : Sys env)
      → (a == x) ≡ false
      → Holds a body t
      → Holds {env = env} a body (record t { heap = write t.heap x c })
  Holds-other a x body c t miss (r, here, e) = (r, write-other t.heap x a c miss ∙ here, e)
