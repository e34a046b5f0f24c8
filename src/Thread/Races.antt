-- ===== src/Thread/Races.antt =====
-- What the replay thread does when the reader is ahead of it, or behind.
use mysqlpcap.Base.{
  List, Bytes, ◌≢◌, ℕ, zero, suc, ◌≡◌, ◌∙◌, ap, refl, true, false, none, some, [], ◌∷◌, ◌++◌,
}
use mysqlpcap.Base.Run.{ok, M, pure, Returns, Returns-and_then, Returns-map, ◌>>=◌, ◌>>◌}
use mysqlpcap.Packet.{Packet, Ptr, null}
use mysqlpcap.Stream.{link_last, end_replay}
use mysqlpcap.Stream.Links.{Cells, IsList, null_test, Chain-split, back, between}
use mysqlpcap.Stream.Links.Link.{link_last-IsList}
use mysqlpcap.Sys.{Sys, Stream}
use mysqlpcap.Thread.{Setup, Player, Phase, waits, leaves, finished, get, put, shared}
use mysqlpcap.Thread.Rounds.{IsWhole, queries, steps}
use mysqlpcap.Thread.Finishes.{run_replay-finishes, stopped}
use mysqlpcap.Thread.Query.{db_close}
use mysqlpcap.Thread.Rules.{Answers, Has, bind-Triple, pure-Triple}
use mysqlpcap.Thread.Connects.{load-run, db_close-Triple}
use mysqlpcap.Thread.Steps.{wake, step, begin, run_replay, stop, reader}

module _ {setup : Setup} where
  run_replay-finished : (n : ℕ) (pl : Player setup) → run_replay n finished pl ≡ ok finished pl
  unfolding run_replay step
  run_replay-finished zero pl = refl
  run_replay-finished (suc n) pl = run_replay-finished n pl

  pub reader-eq :
      (f : Stream → M (Sys setup.env) Stream) (pl : Player setup) (s' : Stream)
      (sys' : Sys setup.env)
      → f pl.stream pl.sys ≡ ok s' sys'
      → reader f pl ≡ ok tt (record pl { sys = sys'; stream = s' })
  unfolding reader get put shared
  reader-eq f pl s' sys' e = rw e refl

module _ {setup : Setup} (answers : Answers setup) where
  -- The thread is at its end, with these queries sent.
  abbrev pub HasSent : List Bytes → Phase → Player setup → Type 0
  HasSent log ph pl = (ph ≡ finished) × (answers.sent pl.world ≡ log)

  closes :
      (pl : Player setup)
      → Returns
          (λ ph pl'.
            (ph ≡ finished) × Has answers pl.sys.heap pl.stream (answers.sent pl.world) none pl')
          ((do db_close; pure finished) pl)
  closes pl =
      (bind-Triple (db_close-Triple answers pl.con)
          (λ _. pure-Triple _ _ finished (λ pl' has. (refl, has)))).from
        pl (record { heap_is = refl; stream_is = refl; sent_is = refl; con_is = refl })

  begin-empty :
      (pl : Player setup)
      → pl.stream.first ≡ null
      → Returns
          (λ ph pl'.
            (ph ≡ finished) × Has answers pl.sys.heap pl.stream (answers.sent pl.world) none pl')
          (begin pl)
  unfolding begin get
  begin-empty pl e = simp e (closes pl)

  -- Given a client that answers: where the list of a stream is empty and its end is not reached, and a
  -- packet with null links, all its bytes, at least one and less than 0xffffff, and a reference waits
  -- to be put on it, a thread that begins before `link_last` is at its end, with nothing sent, however
  -- many steps follow; a thread that begins after it sends what the packet asks, and ends when told.
  pub begin-link_last :
      (pl : Player setup) (p : Ptr) (q : Packet) (n : ℕ)
      → IsList pl.sys.heap pl.stream []
      → p ≢ null
      → pl.sys.heap p ≡ some (between null null q)
      → IsWhole q
      → pl.stream.reached_eof ≡ false
      → pl.stream.th ≡ true
      → Returns
          (HasSent (answers.sent pl.world))
          ((do ph ← begin; reader (λ s. link_last s p); run_replay n ph) pl)
        × Returns (HasSent (answers.sent pl.world ++ queries ((p, q) ∷ []))) (
            (do
              reader (λ s. link_last s p)
              ph ← begin
              ph' ← run_replay (steps ((p, q) ∷ [])) ph
              stop
              step ph')
              pl)
  begin-link_last pl p q n list ne here whole on th = (
    Returns-and_then
        (λ ph pl'.
          (ph ≡ finished) × Has answers pl.sys.heap pl.stream (answers.sent pl.world) none pl')
        (HasSent (answers.sent pl.world)) (begin pl)
        (λ ph. do reader (λ s. link_last s p); run_replay n ph) (begin-empty pl list.first_is)
        (λ ph pl' (same, has). rw same (early pl' has)),
    late,
  )
    where
      early :
          (pl' : Player setup)
          → Has answers pl.sys.heap pl.stream (answers.sent pl.world) none pl'
          → Returns
              (HasSent (answers.sent pl.world))
              ((do reader (λ s. link_last s p); run_replay n finished) pl')
      early pl' has =
          let (s', h, linked, _, _, _) =
            link_last-IsList pl'.stream p q [] pl'.sys (rw (has.heap_is, has.stream_is) list) ne tt
              (rw has.heap_is here) in
          let sys' = record pl'.sys { heap = h } in
          rw
            (
              reader-eq (λ s. link_last s p) pl' s' sys' linked,
              run_replay-finished n (record pl' { sys = sys'; stream = s' }),
            )
            (refl, has.sent_is)

      late : Returns (HasSent (answers.sent pl.world ++ queries ((p, q) ∷ []))) (
          (do
            reader (λ s. link_last s p)
            ph ← begin
            ph' ← run_replay (steps ((p, q) ∷ [])) ph
            stop
            step ph')
            pl)
      late =
          let (s', h, linked, same, list', _) =
            link_last-IsList pl.stream p q [] pl.sys list ne tt here in
          let pl' = record pl { sys = record pl.sys { heap = h }; stream = s' } in
          let go =
            run_replay-finishes answers pl' p q [] list' (whole, tt)
              (ap (λ (s : Stream). s.reached_eof) same ∙ on)
              (ap (λ (s : Stream). s.th) same ∙ th) in
          rw (reader-eq (λ s. link_last s p) pl s' (record pl.sys { heap = h }) linked) (
            Returns-map
              (λ ph t.
                (ph ≡ finished)
                × (answers.sent t.world ≡ answers.sent pl.world ++ queries ((p, q) ∷ []))
                × (t.con ≡ none))
              (HasSent (answers.sent pl.world ++ queries ((p, q) ∷ [])))
              ((do ph ← begin; ph' ← run_replay (steps ((p, q) ∷ [])) ph; stop; step ph') pl')
              (λ ph t (e, f, _). (e, f)) go)

  -- Given a client that answers: where the packets of a stream are a list, the end is not reached,
  -- and the thread waits at a packet that is not the last, its next step leads on to the packet
  -- behind; but if the reader marks the end before that step, the step is the thread's last, and
  -- nothing more is sent, whatever queries stand behind.
  pub wake-stop :
      (pl : Player setup) (us : Cells) (p : Ptr) (q : Packet) (x : Ptr) (r : Packet) (cs : Cells)
      → IsList pl.sys.heap pl.stream (us ++ (p, q) ∷ (x, r) ∷ cs)
      → pl.stream.reached_eof ≡ false
      → pl.stream.th ≡ true
      → (step (waits p) pl ≡ ok (leaves p x) pl)
        × Returns (HasSent (answers.sent pl.world)) ((do stop; step (waits p)) pl)
  unfolding step wake get stop put
  wake-stop pl us p q x r cs list on th =
      let (_, (ne, here, (nx, _, _))) =
        Chain-split pl.sys.heap null us ((p, q) ∷ (x, r) ∷ cs) null list.linked in
      let pl' = record pl { stream = end_replay pl.stream } in
      (
        rw (load-run p (between (back null us) x q) pl ne here) (simp (on, null_test x nx) refl),
        rw (load-run p (between (back null us) x q) pl' ne here, stopped pl.stream th)
            (Returns-map
              (λ ph t.
                (ph ≡ finished)
                × Has answers pl'.sys.heap pl'.stream (answers.sent pl'.world) none t)
              (HasSent (answers.sent pl.world)) ((do db_close; pure finished) pl')
              (λ ph t (e, has). (e, has.sent_is)) (closes pl')),
      )
