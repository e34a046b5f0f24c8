-- ===== src/Thread/Finishes.antt =====
-- On a finished list of packets the replay thread sends every query, in order, and ends.
use mysqlpcap.Base.{
  ℕ, zero, suc, ◌+◌, ◌≤◌, ◌≡◌, ◌≢◌, ◌∙◌, ap, refl, Bool, true, false, none, some, List, [], ◌∷◌,
  ◌++◌, All, append_assoc, append-nil, Bytes, arith,
}
use mysqlpcap.Base.Run.{
  Run, ok, throws, fault, out_of_fuel, Returns, Returns-and_then, and_then, ◌>>=◌, ◌>>◌,
}
use mysqlpcap.Packet.{Packet, Ptr, null, is_query, query}
use mysqlpcap.Stream.{consider_unlink_pkt, end_replay}
use mysqlpcap.Stream.Links.{Cells, IsList, null_test, Chain-split, front, back, between}
use mysqlpcap.Sys.{Sys, Stream}
use mysqlpcap.Thread.{Setup, Player, Phase, at, passed, waits, finished, get, put, shared}
use mysqlpcap.Thread.Rules.{Answers, map-Triple, bind-Triple, pure-Triple}
use mysqlpcap.Thread.Connects.{load-run, db_close-Triple}
use mysqlpcap.Thread.Steps.{pass, wake, step, begin, run_replay, stop, unlink_passed}
use mysqlpcap.Thread.Rounds.{
  asked, rounds, is_query-IsWhole, consider-Leaves, visited-Triple, queries, steps, IsWhole,
}

module _ {setup : Setup} where
  run_replay-add :
      (a b : ℕ) (ph : Phase) (pl : Player setup)
      → run_replay (a + b) ph pl ≡ and_then (run_replay a ph pl) (run_replay b)
  unfolding run_replay
  run_replay-add zero b ph pl = ap (λ k. run_replay k ph pl) (omega arith)
  run_replay-add (suc a) b ph pl =
      ap (λ k. run_replay k ph pl) (more a b)
      ∙ go (λ ph' pl'. run_replay-add a b ph' pl') (step ph pl)
    where
      more : (a b : ℕ) → suc a + b ≡ suc (a + b)
      more a b = omega arith

      go :
          ((ph' : Phase) (pl' : Player setup)
            → run_replay (a + b) ph' pl' ≡ and_then (run_replay a ph' pl') (run_replay b))
          → (r : Run (Player setup) Phase)
          → and_then r (run_replay (a + b)) ≡ and_then (and_then r (run_replay a)) (run_replay b)
      go same (ok ph' pl') = same ph' pl'
      go same throws = refl
      go same fault = refl
      go same out_of_fuel = refl

  unlink_passed-eq :
      (p : Ptr) (pl : Player setup) (s' : Stream) (sys' : Sys setup.env)
      → consider_unlink_pkt pl.stream p true pl.sys ≡ ok s' sys'
      → unlink_passed p pl ≡ ok tt (record pl { sys = sys'; stream = s' })
  unfolding unlink_passed shared get put
  unlink_passed-eq p pl s' sys' e = rw e refl

pub begin-eq :
    {setup : Setup} (pl : Player setup) (p : Ptr)
    → pl.stream.first ≡ p
    → p ≢ null
    → begin pl ≡ ok (at p) pl
unfolding begin get
begin-eq pl p e ne = simp (e, null_test p ne) refl

pub stopped : (s : Stream) → s.th ≡ true → (end_replay s).reached_eof ≡ true
unfolding end_replay
stopped s e = simp e refl

module _ {setup : Setup} (answers : Answers setup) where
  -- The list ends in the given cells, the reader is not done, and the server was sent the log.
  record IsReplaying (pl : Player setup) (cs : Cells) (log : List Bytes) : Type 0 where
    pub passed_by : Cells
    pub list : IsList pl.sys.heap pl.stream (passed_by ++ cs)
    pub goes_on : pl.stream.reached_eof ≡ false
    pub has_thread : pl.stream.th ≡ true
    pub sent_is : answers.sent pl.world ≡ log

  passes :
      (pl : Player setup) (p : Ptr) (q : Packet) (x : Ptr) (r : Packet) (cs : Cells)
      (log : List Bytes)
      → IsReplaying pl ((p, q) ∷ (x, r) ∷ cs) log
      → 1 ≤ q.ref_count
      → Returns (λ ph pl'. (ph ≡ at x) × IsReplaying pl' ((x, r) ∷ cs) log) (pass p pl)
  unfolding pass
  passes pl p q x r cs log st pos =
      let us = st.passed_by in
      let (_, (ne, here, (nx, _, _))) =
        Chain-split pl.sys.heap null us ((p, q) ∷ (x, r) ∷ cs) null st.list.linked in
      let (s', sys', us', done, list', eof, th) =
        consider-Leaves pl.stream p q us ((x, r) ∷ cs) pl.sys st.list pos in
      rw
        (
          load-run p (between (back null us) x q) pl ne here,
          null_test x nx,
          unlink_passed-eq p pl s' sys' done,
        )
        (
          refl,
          record {
            passed_by = us';
            list = list';
            goes_on = eof ∙ st.goes_on;
            has_thread = th ∙ st.has_thread;
            sent_is = st.sent_is;
          },
        )

  rests :
      (pl : Player setup) (p : Ptr) (q : Packet) (log : List Bytes)
      → IsReplaying pl ((p, q) ∷ []) log
      → Returns (λ ph pl'. (ph ≡ waits p) × IsReplaying pl' ((p, q) ∷ []) log) (pass p pl)
  unfolding pass
  rests pl p q log st =
      let us = st.passed_by in
      let (_, (ne, here, _)) = Chain-split pl.sys.heap null us ((p, q) ∷ []) null st.list.linked in
      rw (load-run p (between (back null us) null q) pl ne here) (refl, st)

  visited :
      (pl : Player setup) (p : Ptr) (q : Packet) (cs : Cells) (log : List Bytes) (a : Bool)
      → IsReplaying pl ((p, q) ∷ cs) log
      → IsWhole q
      → is_query q ≡ some a
      → Returns
          (λ ph pl'.
            (ph ≡ passed p) × IsReplaying pl' ((p, q) ∷ cs) (log ++ asked (some a) (query q)))
          (run_replay (rounds (some a)) (at p) pl)
  visited pl p q cs log a st w e =
      let us = st.passed_by in
      let (_, (ne, here, _)) = Chain-split pl.sys.heap null us ((p, q) ∷ cs) null st.list.linked in
      (map-Triple
          (λ ph pl' (same, (c, has)). (
            same,
            record {
              passed_by = us;
              list = rw (has.heap_is, has.stream_is) st.list;
              goes_on = rw has.stream_is st.goes_on;
              has_thread = rw has.stream_is st.has_thread;
              sent_is = has.sent_is;
            },
          ))
          (visited-Triple answers pl.con p q (back null us) (front cs null) w ne here a e)).from
        pl (record { heap_is = refl; stream_is = refl; sent_is = st.sent_is; con_is = refl })

  -- The thread waits behind the last of the cells.
  abbrev IsWaiting : Ptr → List Bytes → Phase → Player setup → Type 0
  IsWaiting p log ph pl = (ph ≡ waits p) × ((r : Packet) × IsReplaying pl ((p, r) ∷ []) log)

  -- Up to the place behind the first packet, and on from there.
  continues :
      (pl : Player setup) (p : Ptr) (q : Packet) (cs : Cells) (log : List Bytes) (n : ℕ)
      (Q : Phase → Player setup → Type 0)
      → IsReplaying pl ((p, q) ∷ cs) log
      → IsWhole q
      → ((pl' : Player setup)
          → IsReplaying pl' ((p, q) ∷ cs) (log ++ asked (is_query q) (query q))
          → Returns Q (run_replay n (passed p) pl'))
      → Returns Q (run_replay (rounds (is_query q) + n) (at p) pl)
  continues pl p q cs log n Q st w next =
      let (a, e) = is_query-IsWhole q w in
      rw (run_replay-add (rounds (is_query q)) n (at p) pl) (
        Returns-and_then
          (λ ph pl'.
            (ph ≡ passed p) × IsReplaying pl' ((p, q) ∷ cs) (log ++ asked (is_query q) (query q)))
          Q _ (run_replay n) (rw e (visited pl p q cs log a st w e))
          (λ ph pl' (same, st'). rw same (next pl' st')))

  -- From the first of the cells the thread comes to the wait behind the last.
  replays :
      (cs : Cells) (pl : Player setup) (p : Ptr) (q : Packet) (log : List Bytes)
      → IsReplaying pl ((p, q) ∷ cs) log
      → IsWhole q
      → All (λ c. IsWhole c.1) cs
      → Returns
          (IsWaiting (back p cs) (log ++ queries ((p, q) ∷ cs)))
          (run_replay (steps ((p, q) ∷ cs)) (at p) pl)
  unfolding queries steps run_replay step
  replays [] pl p q log st w ws = continues pl p q [] log 1 _ st w (λ pl' st'.
      Returns-and_then
        (λ ph pl''.
          (ph ≡ waits p) × IsReplaying pl'' ((p, q) ∷ []) (log ++ asked (is_query q) (query q)))
        _ (pass p pl') (run_replay 0) (rests pl' p q (log ++ asked (is_query q) (query q)) st')
        (λ ph pl'' (same, st''). (same, (q, rw (append-nil (asked (is_query q) (query q))) st''))))
  replays ((x, r) ∷ cs) pl p q log st w ws =
      continues pl p q ((x, r) ∷ cs) log (suc (steps ((x, r) ∷ cs))) _ st w (λ pl' st'.
        Returns-and_then
          (λ ph pl''.
            (ph ≡ at x) × IsReplaying pl'' ((x, r) ∷ cs) (log ++ asked (is_query q) (query q)))
          _ (pass p pl') (run_replay (steps ((x, r) ∷ cs)))
          (passes pl' p q x r cs (log ++ asked (is_query q) (query q)) st' w.in_use)
          (λ ph pl'' (same, st'').
            rw (same, ← append_assoc log (asked (is_query q) (query q)) (queries ((x, r) ∷ cs)))
              (replays cs pl'' x r (log ++ asked (is_query q) (query q)) st'' ws.0 ws.1)))

  -- What the thread does once it is told that no packet follows.
  ends :
      (pl : Player setup) (p : Ptr) (r : Packet) (log : List Bytes)
      → IsReplaying pl ((p, r) ∷ []) log
      → Returns
          (λ ph pl'. (ph ≡ finished) × (answers.sent pl'.world ≡ log) × (pl'.con ≡ none))
          ((do stop; wake p) pl)
  unfolding stop wake get put
  ends pl p r log st =
      let (_, (ne, here, _)) =
        Chain-split pl.sys.heap null st.passed_by ((p, r) ∷ []) null st.list.linked in
      let pl' = record pl { stream = end_replay pl.stream } in
      rw
        (
          load-run p (between (back null st.passed_by) null r) pl' ne here,
          stopped pl.stream st.has_thread,
        )
        ((bind-Triple (db_close-Triple answers pl.con)
            (λ _. pure-Triple _ _ finished (λ pl has. (refl, has.sent_is, has.con_is)))).from
          pl' (record { heap_is = refl; stream_is = refl; sent_is = st.sent_is; con_is = refl }))

  -- Given a client that can connect, errors of queries that are not to stop the program, and
  -- patterns that do not make PCRE2 fail: where the packets of a stream are a list that is not empty,
  -- each with all its bytes, at least one and less than 0xffffff, and a reference, and the end is not
  -- reached yet, the thread comes in a number of steps that the list gives to the place where it can
  -- be told of the end; its next step is the last, the queries of the list have then been sent in
  -- their order, each once, and nothing else, and the connection is closed.
  pub run_replay-finishes :
      (pl : Player setup) (p : Ptr) (q : Packet) (cs : Cells)
      → IsList pl.sys.heap pl.stream ((p, q) ∷ cs)
      → All (λ c. IsWhole c.1) ((p, q) ∷ cs)
      → pl.stream.reached_eof ≡ false
      → pl.stream.th ≡ true
      → Returns
          (λ ph pl'.
            (ph ≡ finished)
            × (answers.sent pl'.world ≡ answers.sent pl.world ++ queries ((p, q) ∷ cs))
            × (pl'.con ≡ none))
          ((do ph ← begin; ph' ← run_replay (steps ((p, q) ∷ cs)) ph; stop; step ph') pl)
  unfolding step
  run_replay-finishes pl p q cs list ws on th =
      let log = answers.sent pl.world in
      rw (begin-eq pl p list.first_is list.linked.0) (
        Returns-and_then (IsWaiting (back p cs) (log ++ queries ((p, q) ∷ cs))) _
          (run_replay (steps ((p, q) ∷ cs)) (at p) pl) (λ ph'. do stop; step ph')
          (replays cs pl p q log
            (record { passed_by = []; list = list; goes_on = on; has_thread = th; sent_is = refl })
            ws.0 ws.1)
          (λ ph' pl' (same, (r, st)).
            rw same (ends pl' (back p cs) r (log ++ queries ((p, q) ∷ cs)) st)))
