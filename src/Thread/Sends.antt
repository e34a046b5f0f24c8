-- ===== src/Thread/Sends.antt =====
-- `db_query` sends the text of the query.
use mysqlpcap.Base.{
  ℕ, ◌≡◌, ◌≢◌, refl, Bool, true, false, not, Option, none, some, List, [], ◌∷◌, ◌++◌, Bytes, ◌==◌,
  arith, ◌&&◌,
}
use mysqlpcap.Base.Int.{ℤ, sub_ℕ}
use mysqlpcap.Base.Run.{M, ◌>>=◌}
use mysqlpcap.Packet.{Packet, Ptr, null}
use mysqlpcap.Pattern.{Applied, key, unmatched, get_query_key}
use mysqlpcap.Sys.{Heap, Stream}
use mysqlpcap.Thread.{Setup, Player, get, put, call, require, read_text}
use mysqlpcap.Thread.Query.{
  after_query, send_query, record_under, read_rows, query_text, record_elapsed, db_query,
}
use mysqlpcap.Thread.Rules.{
  Answers, Triple, bind-Triple, pure-Triple, branch-Triple, get-Triple, weaken-Triple,
  assume-Triple, map-Triple, Has, call-Triple, act-Triple,
}
use mysqlpcap.Thread.Connects.{goes_on-Triple, IsLinked, load-run, db_ensure_connected-Triple}

module _ {setup : Setup} (answers : Answers setup) {h : Heap} {s : Stream} {log : List Bytes} where
  open setup use {env, client, options}

  record_under-Triple :
      {c : Option client.Con} (a : Applied) (t : ℤ)
      → ((k : Bytes) × (a ≡ key k))
      → Triple (Has answers h s log c) (λ _ pl. Has answers h s log c pl) (record_under a t)
  unfolding record_under get put
  record_under-Triple (key k) t _ = record {
    from = λ pl has. record {
      heap_is = has.heap_is;
      stream_is = has.stream_is;
      sent_is = has.sent_is;
      con_is = has.con_is;
    };
  }
  record_under-Triple unmatched t (k, e) = cc
  record_under-Triple Applied.throws t (k, e) = cc

  record_elapsed-Triple :
      {c : Option client.Con} (text : Bytes) (start : ℕ)
      → Triple
          (Has answers h s log c)
          (λ _ pl. Has answers h s log c pl)
          (record_elapsed text start)
  unfolding record_elapsed
  record_elapsed-Triple text start =
      bind-Triple (call-Triple answers client.now (λ _. Unit) (λ w. (answers.now_quiet w, tt)))
        (λ end.
          weaken-Triple (λ pl p. p.1)
            (record_under-Triple (get_query_key env.pcre env.patterns text 1023) (sub_ℕ end start)
              (answers.has_key text)))

  read_rows-Triple :
      {c : Option client.Con} (r : Option client.Res)
      → Triple (Has answers h s log c) (λ _ pl. Has answers h s log c pl) (read_rows r)
  unfolding read_rows
  read_rows-Triple none = pure-Triple _ _ tt (λ pl has. has)
  read_rows-Triple (some res) =
      bind-Triple (act-Triple answers (client.fetch_rows res) (answers.rows_quiet res))
        (λ _. act-Triple answers (client.mysql_free_result res) (answers.free_quiet res))

  query_text-Triple :
      {c : Option client.Con} (p : Ptr) (q : Packet) (n : ℕ) (text : Bytes)
      → p ≢ null
      → h p ≡ some q
      → read_text q n ≡ some text
      → Triple
          (Has answers h s log c)
          (λ a pl. (a ≡ text) × Has answers h s log c pl)
          (query_text p p n)
  unfolding query_text require
  query_text-Triple p q n text ne here e = record {
    from = λ pl has. rw (load-run p q pl ne (rw has.heap_is here), same p, e) (refl, has);
  }
    where
      same : (p : Ptr) → (p == p) ≡ true
      same p = ground arith

module _ {setup : Setup} (answers : Answers setup) {h : Heap} {s : Stream} {log : List Bytes} where
  open setup use {env, client, options}

  after_query-Triple :
      {c : Option client.Con} (con : client.Con) (failed : Bool)
      → Triple (Has answers h s log c) (λ _ pl. Has answers h s log c pl) (after_query con failed)
  unfolding after_query
  after_query-Triple {c} con true = bind-Triple (get-Triple (Has answers h s log c)) (λ pl.
      branch-Triple (options.ignore_dup_key_errors && client.is_dup_entry con pl.world)
        (λ dup. pure-Triple _ _ tt (λ _ p. p.1))
        (λ other.
          weaken-Triple (λ pl p. p.1)
            (goes_on-Triple options.assert_on_query_error answers.goes_on)))
  after_query-Triple con false =
      bind-Triple
        (call-Triple answers (client.mysql_use_result con) (λ _. Unit)
          (λ w. (answers.result_quiet con w, tt)))
        (λ result. weaken-Triple (λ pl p. p.1) (read_rows-Triple answers result))

  send-Triple :
      (con : client.Con) (text : Bytes)
      → Triple
          (Has answers h s log (some con))
          (λ failed pl. Has answers h s (log ++ text ∷ []) (some con) pl)
          (call (client.mysql_real_query con text))
  unfolding call
  send-Triple con text = record {
    from = λ pl has. record {
      heap_is = has.heap_is;
      stream_is = has.stream_is;
      sent_is = rw (← has.sent_is) (answers.query_sent con text pl.world);
      con_is = has.con_is;
    };
  }

module _ {setup : Setup} (answers : Answers setup) {h : Heap} {s : Stream} {log : List Bytes} where
  open setup use {env, client, options}

  send_query-Triple :
      (c : Option client.Con) (con : client.Con) (text : Bytes) (start : ℕ)
      → c ≡ some con
      → Triple
          (Has answers h s log (some con))
          (λ _ pl. IsLinked answers h s (log ++ text ∷ []) pl)
          (send_query c text start)
  unfolding send_query
  send_query-Triple none con text start e = cc
  send_query-Triple (some con') con text start e =
      bind-Triple (weaken-Triple (λ pl has. rw e has) (send-Triple answers con' text)) (λ failed.
        bind-Triple (after_query-Triple answers con' failed)
          (λ _. linked con' (record_elapsed-Triple answers text start)))
    where
      linked :
          {m : M (Player setup) (Unit {0})} (con : client.Con)
          → Triple
              (Has answers h s (log ++ text ∷ []) (some con))
              (λ _ pl. Has answers h s (log ++ text ∷ []) (some con) pl)
              m
          → Triple
              (Has answers h s (log ++ text ∷ []) (some con))
              (λ _ pl. IsLinked answers h s (log ++ text ∷ []) pl)
              m
      linked con t = map-Triple (λ a pl has. (con, has)) t

  connected_send-Triple :
      (text : Bytes)
      → Triple
          (IsLinked answers h s log)
          (λ _ pl. IsLinked answers h s (log ++ text ∷ []) pl)
          (do start ← call client.now; pl ← get; send_query pl.con text start)
  unfolding get
  connected_send-Triple text = record {
    from = λ pl (con, has).
        (bind-Triple (call-Triple answers client.now (λ _. Unit) (λ w. (answers.now_quiet w, tt)))
            (λ start. record {
              from = λ pl (_, has').
                  (send_query-Triple pl.con con text start has'.con_is).from pl has';
            })).from
          pl has;
  }

  -- A query that one packet holds is sent, and nothing but the statistics changes.
  pub db_query-Triple :
      (c : Option client.Con) (p : Ptr) (q : Packet) (n : ℕ) (text : Bytes)
      → p ≢ null
      → h p ≡ some q
      → read_text q n ≡ some text
      → Triple
          (Has answers h s log c)
          (λ _ pl. IsLinked answers h s (log ++ text ∷ []) pl)
          (db_query p p n)
  unfolding db_query
  db_query-Triple c p q n text ne here e =
      bind-Triple (query_text-Triple answers p q n text ne here e) (λ text'. assume-Triple (λ same.
        bind-Triple (db_ensure_connected-Triple answers c) (λ connected.
          branch-Triple (not connected)
            (λ bad. record { from = λ pl p. absurd (ground (arith, bad, p.0)) })
            (λ good. weaken-Triple (λ pl p. p.1) (rw same (connected_send-Triple text))))))
