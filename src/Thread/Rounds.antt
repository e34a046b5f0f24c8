-- ===== src/Thread/Rounds.antt =====
-- A packet that is all there, and the steps of the replay thread over it.
use mysqlpcap.Base.{
  ℕ, suc, ◌+◌, ◌-◌, ◌<◌, ◌≤◌, ◌%◌, ◌^◌, ◌≡◌, ◌≢◌, ◌∙◌, ap, refl, Bool, true, false, ◌&&◌, Option,
  none, some, List, [], ◌∷◌, ◌++◌, append_assoc, append-nil, Bytes, length, take, drop, get_elem?,
  ◌==◌, arith, leb, if◌then◌else◌,
}
use mysqlpcap.Base.Run.{Run, ok, pure, ◌>>=◌, ◌>>◌}
use mysqlpcap.Packet.{Packet, Ptr, null, is_query, query, byte}
use mysqlpcap.Stream.{unlink_pkt, consider_unlink_pkt}
use mysqlpcap.Stream.Links.{is_query-between, Cells, IsList, Chain-split, front, back, between}
use mysqlpcap.Stream.Links.Access.{load-eq}
use mysqlpcap.Stream.Links.Unlink.{unlink_pkt-IsList}
use mysqlpcap.Sys.{Env, Heap, Sys, Stream, load}
use mysqlpcap.Thread.{Setup, Player, at, gathers, passed, get, call, require, read_text, query_len}
use mysqlpcap.Thread.Rules.{
  Answers, Triple, Has, bind-Triple, weaken-Triple, assume-Triple, pure-Triple, call-Triple,
}
use mysqlpcap.Thread.Connects.{IsLinked, load-run, sleep_until-Triple}
use mysqlpcap.Thread.Sends.{db_query-Triple}
use mysqlpcap.Thread.Steps.{visit, gather, step, run_replay}
use mysqlpcap.Thread.Query.{sleep_until, get_scheduled_ts}

-- All of a packet that ends its query was received, and the list has a reference to it.
pub record IsWhole (q : Packet) : Type 0 where
  pub bytes : Bytes
  pub payload_is : q.payload ≡ some bytes
  pub all_there : length bytes ≡ q.len
  pub not_empty : 0 < q.len
  pub last_part : q.len < 0xffffff
  pub in_use : 1 ≤ q.ref_count

-- The query that a packet asks, if any, and the number of steps up to `passed`.
abbrev pub asked : Option Bool → Bytes → List Bytes
asked none text = []
asked (some false) text = []
asked (some true) text = text ∷ []

abbrev pub rounds : Option Bool → ℕ
rounds none = 1
rounds (some false) = 1
rounds (some true) = 2

-- The queries of a list of packets, and the steps of the thread from the first to the wait behind
-- the last.
unfoldable pub queries : Cells → List Bytes
queries [] = []
queries ((x, q) ∷ cs) = asked (is_query q) (query q) ++ queries cs

unfoldable pub steps : Cells → ℕ
steps [] = 0
steps ((x, q) ∷ cs) = rounds (is_query q) + suc (steps cs)

first_byte : (bs : Bytes) → 0 < length bs → (b : ℕ) × (get_elem? bs 0 ≡ some b)
first_byte [] h = absurd (omega arith)
first_byte (b ∷ bs) h = (b, refl)

pub is_query-IsWhole : (q : Packet) → IsWhole q → (b : Bool) × (is_query q ≡ some b)
unfolding is_query byte
is_query-IsWhole q w =
    let (b, e) = first_byte w.bytes (rw w.all_there w.not_empty) in
    (b == 0x3 && q.is_in, rw (w.payload_is, e) refl)

text_lem :
    (bs : Bytes)
    → 0 < length bs
    → length bs < 0xffffff
    → (if leb (1 + (length bs + 2 ^ 32 - 1) % 2 ^ 32) (length bs)
        then some (take ((length bs + 2 ^ 32 - 1) % 2 ^ 32) (drop 1 bs))
        else none)
      ≡ some (drop 1 (take (length bs) bs))
text_lem [] h l = absurd (omega arith)
text_lem (b ∷ bs) h l = rw (wrap (length bs) (omega arith), fits (length bs)) refl
  where
    wrap : (n : ℕ) → n < 0xffffff → (suc n + 2 ^ 32 - 1) % 2 ^ 32 ≡ n
    wrap n l = omega arith

    fits : (n : ℕ) → leb (1 + n) (suc n) ≡ true
    fits n = ground arith

pub read_text-IsWhole : (q : Packet) → IsWhole q → read_text q (query_len q) ≡ some (query q)
unfolding read_text query_len query
read_text-IsWhole q w =
    rw (w.payload_is, ← w.all_there)
      (text_lem w.bytes (rw w.all_there w.not_empty) (rw w.all_there w.last_part))

module _ {env : Env} where
  -- The run leaves a list that ends in the given cells, and the marks on the stream.
  abbrev pub Leaves : Stream → Cells → Run (Sys env) Stream → Type 0
  Leaves s vs r =
      (s' : Stream) × (sys' : Sys env) × (us' : Cells) × (r ≡ ok s' sys')
      × IsList sys'.heap s' (us' ++ vs)
      × (s'.reached_eof ≡ s.reached_eof)
      × (s'.th ≡ s.th)

  unlink_pkt-Leaves :
      (s : Stream) (p : Ptr) (q : Packet) (us vs : Cells) (sys : Sys env) (r : Run (Sys env) Stream)
      → IsList sys.heap s (us ++ (p, q) ∷ vs)
      → 1 ≤ q.ref_count
      → r ≡ unlink_pkt s p sys
      → Leaves s vs r
  unlink_pkt-Leaves s p q us vs sys r list pos e =
      let (s', sys', done, same, list', _, _) = unlink_pkt-IsList s p q us vs sys list pos in
      (
        s',
        sys',
        us,
        e ∙ done,
        list',
        ap (λ (s : Stream). s.reached_eof) same,
        ap (λ (s : Stream). s.th) same,
      )

  pub consider-Leaves :
      (s : Stream) (p : Ptr) (q : Packet) (us vs : Cells) (sys : Sys env)
      → IsList sys.heap s (us ++ (p, q) ∷ vs)
      → 1 ≤ q.ref_count
      → Leaves s vs (consider_unlink_pkt s p true sys)
  unfolding consider_unlink_pkt
  consider-Leaves s p q us vs sys list pos =
      let (_, (ne, here, _)) = Chain-split sys.heap null us ((p, q) ∷ vs) null list.linked in
      go env.do_run refl (q.ref_count == 1) refl
        (load-eq p (between (back null us) (front vs null) q) sys ne here)
    where
      go :
          (run : Bool)
          → env.do_run ≡ run
          → (last : Bool) → (q.ref_count == 1) ≡ last
          → load p sys ≡ ok (between (back null us) (front vs null) q) sys
          → Leaves s vs (consider_unlink_pkt s p true sys)
      go false e last f l = unlink_pkt-Leaves s p q us vs sys _ list pos (simp e refl)
      go true e true f l = unlink_pkt-Leaves s p q us vs sys _ list pos (simp (e, l, f) refl)
      go true e false f l = (
        s,
        sys,
        us ++ (p, q) ∷ [],
        simp (e, l, f) refl,
        rw (append_assoc us ((p, q) ∷ []) vs) list,
        refl,
        refl,
      )

read_text-between : (b n : Ptr) (q : Packet) (k : ℕ) → read_text (between b n q) k ≡ read_text q k
unfolding read_text
read_text-between b n q k = refl

query_len-between : (b n : Ptr) (q : Packet) → query_len (between b n q) ≡ query_len q
unfolding query_len
query_len-between b n q = refl

module _ {setup : Setup} (answers : Answers setup) {h : Heap} {s : Stream} {log : List Bytes}
    (c : Option setup.client.Con) (p : Ptr) (q : Packet) (b n : Ptr) (w : IsWhole q) (ne : p ≢ null)
    (here : h p ≡ some (between b n q)) where
  open setup use {client}

  schedules-Triple :
      (k : ℕ) (pl' : Player setup)
      → Triple
          (Has answers h s log c)
          (λ ph pl. ((start : ℕ) × (ph ≡ gathers p p k start)) × Has answers h s log c pl)
          (do
            start ← call client.now
            sleep_until (get_scheduled_ts pl' (between b n q))
            pure (gathers p p k start))
  schedules-Triple k pl' =
      bind-Triple (call-Triple answers client.now (λ _. Unit) (λ w. (answers.now_quiet w, tt)))
        (λ start.
          bind-Triple
            (weaken-Triple (λ pl p. p.1)
              (sleep_until-Triple answers (get_scheduled_ts pl' (between b n q))))
            (λ _. pure-Triple _ _ (gathers p p k start) (λ pl has. ((start, refl), has))))

  visit-Triple :
      is_query q ≡ some true
      → Triple
          (Has answers h s log c)
          (λ ph pl.
            ((start : ℕ) × (ph ≡ gathers p p (query_len q) start)) × Has answers h s log c pl)
          (visit p)
  unfolding visit require get
  visit-Triple e = record {
    from = λ pl has.
        rw
          (
            load-run p (between b n q) pl ne (rw has.heap_is here),
            is_query-between b n q,
            e,
            query_len-between b n q,
          )
          ((schedules-Triple (query_len q) pl).from pl has);
  }

  gather-Triple :
      (start : ℕ)
      → Triple
          (Has answers h s log c)
          (λ ph pl. (ph ≡ passed p) × IsLinked answers h s (log ++ query q ∷ []) pl)
          (gather p p (query_len q) start)
  unfolding gather
  gather-Triple start = record {
    from = λ pl has.
        rw (load-run p (between b n q) pl ne (rw has.heap_is here), short q.len w.last_part)
          ((bind-Triple
              (db_query-Triple answers c p (between b n q) (query_len q) (query q) ne here
                (read_text-between b n q (query_len q) ∙ read_text-IsWhole q w))
              (λ _. pure-Triple _ _ (passed p) (λ pl linked. (refl, linked)))).from
            pl has);
  }
    where
      short : (k : ℕ) → k < 0xffffff → (k == 0xffffff) ≡ false
      short k l = ground arith

  -- From the head of the loop to the place behind `db_query`.
  pub visited-Triple :
      (a : Bool)
      → is_query q ≡ some a
      → Triple
          (Has answers h s log c)
          (λ ph pl.
            (ph ≡ passed p)
            × ((c' : Option client.Con) × Has answers h s (log ++ asked (some a) (query q)) c' pl))
          (run_replay (rounds (some a)) (at p))
  unfolding run_replay step visit require
  visited-Triple false e = record {
    from = λ pl has.
        rw
          (
            load-run p (between b n q) pl ne (rw has.heap_is here),
            is_query-between b n q,
            e,
            append-nil log,
          )
          (refl, (c, has));
  }
  visited-Triple true e = bind-Triple (visit-Triple e) (λ ph. assume-Triple (λ (start, same).
      rw same (
        bind-Triple (gather-Triple start)
          (λ ph'. pure-Triple _ _ ph' (λ pl (e, (con, has)). (e, (some con, has)))))))
