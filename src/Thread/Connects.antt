-- ===== src/Thread/Connects.antt =====
-- The connection of the replay thread: what its actions keep.
use mysqlpcap.Base.{
  ℕ, ◌≡◌, ◌≢◌, ◌-◌, ap, refl, Bool, true, false, not, Option, none, some, List, Bytes, arith, ltb,
}
use mysqlpcap.Base.Run.{ok, assert}
use mysqlpcap.Packet.{Packet, Ptr, null}
use mysqlpcap.Sys.{Heap, Stream}
use mysqlpcap.Stream.Links.Access.{load-eq}
use mysqlpcap.Thread.{
  Setup, MysqlOption, Player, get, put, load, shared, with_sys, ssl_ca, ssl_cert, ssl_key,
}
use mysqlpcap.Thread.Query.{
  set_option, setup_for_ssl, set_con, connect_with, connected_with, db_connect, db_close,
  db_ensure_connected, sleep_until,
}
use mysqlpcap.Thread.Rules.{
  Answers, Triple, bind-Triple, pure-Triple, branch-Triple, weaken-Triple, assume-Triple, Has,
  call-Triple, act-Triple,
}

pub load-run :
    {setup : Setup} (p : Ptr) (q : Packet) (pl : Player setup)
    → p ≢ null
    → pl.sys.heap p ≡ some q
    → load p pl ≡ ok q pl
unfolding load shared
load-run p q pl ne here = ap (with_sys pl) (load-eq p q pl.sys ne here)

module _ {setup : Setup} where
  pub goes_on-Triple :
      {P : Player setup → Type 0} (b : Bool) → b ≡ false → Triple P (λ _ pl. P pl) (assert (not b))
  goes_on-Triple true e = cc
  goes_on-Triple false e = record { from = λ pl p. p }

module _ {setup : Setup} (answers : Answers setup) (h : Heap) (s : Stream) (log : List Bytes) where
  -- The thread has a connection.
  abbrev pub IsLinked : Player setup → Type 0
  IsLinked pl = (con : setup.client.Con) × Has answers h s log (some con) pl

module _ {setup : Setup} (answers : Answers setup) {h : Heap} {s : Stream} {log : List Bytes} where
  open setup use {env, client, options}

  pub load-Triple :
      {c : Option client.Con} (p : Ptr) (q : Packet)
      → p ≢ null
      → h p ≡ some q
      → Triple (Has answers h s log c) (λ a pl. (a ≡ q) × Has answers h s log c pl) (load p)
  load-Triple p q ne here = record {
    from = λ pl has. rw (load-run p q pl ne (rw has.heap_is here)) (refl, has);
  }

  pub set_con-Triple :
      {c : Option client.Con} (c' : Option client.Con)
      → Triple (Has answers h s log c) (λ _ pl. Has answers h s log c' pl) (set_con c')
  unfolding set_con get put
  set_con-Triple c' = record {
    from = λ pl has. record {
      heap_is = has.heap_is;
      stream_is = has.stream_is;
      sent_is = has.sent_is;
      con_is = refl;
    };
  }

  pub sleep_until-Triple :
      {c : Option client.Con} (t : Option ℕ)
      → Triple (Has answers h s log c) (λ _ pl. Has answers h s log c pl) (sleep_until t)
  unfolding sleep_until
  sleep_until-Triple none = pure-Triple _ _ tt (λ pl has. has)
  sleep_until-Triple (some t) =
      bind-Triple (call-Triple answers client.now (λ _. Unit) (λ w. (answers.now_quiet w, tt)))
        (λ now.
          branch-Triple (ltb now t)
            (λ early.
              weaken-Triple (λ pl p. p.1)
                (act-Triple answers (client.sleep_for (t - now)) (answers.sleep_quiet (t - now))))
            (λ late. pure-Triple _ _ tt (λ pl p. p.1)))

  pub db_close-Triple :
      (c : Option client.Con)
      → Triple (Has answers h s log c) (λ _ pl. Has answers h s log none pl) db_close
  unfolding db_close get
  db_close-Triple none = record { from = λ pl has. simp has.con_is has }
  db_close-Triple (some con) = record {
    from = λ pl has. simp has.con_is (
        (bind-Triple (act-Triple answers (client.mysql_close con) (answers.close_quiet con))
            (λ _. set_con-Triple none)).from
          pl has);
  }

  set_option-Triple :
      {c : Option client.Con} (con : client.Con) (o : MysqlOption) (v : Option Bytes)
      → Triple
          (Has answers h s log c)
          (λ b pl. (b ≡ true) × Has answers h s log c pl)
          (set_option con o v)
  unfolding set_option
  set_option-Triple con o none = pure-Triple _ _ true (λ pl has. (refl, has))
  set_option-Triple con o (some v) =
      bind-Triple
        (call-Triple answers (client.mysql_options con o v) (λ b. b ≡ false)
          (λ w. (answers.options_quiet con o v w, answers.can_set con o v w)))
        (λ failed. pure-Triple _ _ (not failed) (λ pl p. (ap not p.0, p.1)))

  pub setup_for_ssl-Triple :
      {c : Option client.Con} (con : client.Con)
      → Triple
          (Has answers h s log c)
          (λ b pl. (b ≡ true) × Has answers h s log c pl)
          (setup_for_ssl con)
  unfolding setup_for_ssl
  setup_for_ssl-Triple con = bind-Triple (set_option-Triple con ssl_ca options.replay_ssl_ca) (λ ca.
      branch-Triple (not ca)
        (λ bad. pure-Triple _ _ false (λ pl p. absurd (ground (arith, bad, p.0))))
        (λ good.
          bind-Triple
            (weaken-Triple (λ pl p. p.1) (set_option-Triple con ssl_cert options.replay_ssl_cert))
            (λ cert.
              branch-Triple (not cert)
                (λ bad. pure-Triple _ _ false (λ pl p. absurd (ground (arith, bad, p.0))))
                (λ good.
                  weaken-Triple (λ pl p. p.1)
                    (set_option-Triple con ssl_key options.replay_ssl_key)))))

  connected_with-Triple :
      (con : client.Con) (failed : Bool)
      → failed ≡ false
      → Triple
          (Has answers h s log (some con))
          (λ b pl. (b ≡ true) × IsLinked answers h s log pl)
          (connected_with con failed)
  unfolding connected_with
  connected_with-Triple con true e = cc
  connected_with-Triple con false e = pure-Triple _ _ true (λ pl has. (refl, (con, has)))

  connect_with-Triple :
      (handle : Option client.Con)
      → ((con : client.Con) × (handle ≡ some con))
      → Triple
          (Has answers h s log handle)
          (λ b pl. (b ≡ true) × IsLinked answers h s log pl)
          (connect_with handle)
  unfolding connect_with
  connect_with-Triple none (con, e) = cc
  connect_with-Triple (some con) _ = bind-Triple (setup_for_ssl-Triple con) (λ secured.
      branch-Triple (not secured)
        (λ bad. record { from = λ pl p. absurd (ground (arith, bad, p.0)) })
        (λ good.
          bind-Triple
            (weaken-Triple (λ pl p. p.1)
              (call-Triple answers (client.mysql_real_connect con options) (λ b. b ≡ false)
                (λ w. (answers.connect_quiet con w, answers.can_connect con w))))
            (λ failed. assume-Triple (connected_with-Triple con failed))))

  pub db_connect-Triple :
      {c : Option client.Con}
      → Triple (Has answers h s log c) (λ b pl. (b ≡ true) × IsLinked answers h s log pl) db_connect
  unfolding db_connect
  db_connect-Triple =
      bind-Triple
        (call-Triple answers client.mysql_init (λ o. (con : client.Con) × (o ≡ some con))
          (λ w. (answers.init_quiet w, answers.can_init w)))
        (λ handle.
          assume-Triple
            (λ given. bind-Triple (set_con-Triple handle) (λ _. connect_with-Triple handle given)))

  pub db_ensure_connected-Triple :
      (c : Option client.Con)
      → Triple
          (Has answers h s log c)
          (λ b pl. (b ≡ true) × IsLinked answers h s log pl)
          db_ensure_connected
  unfolding db_ensure_connected get
  db_ensure_connected-Triple none = record {
    from = λ pl has. simp has.con_is (db_connect-Triple.from pl has);
  }
  db_ensure_connected-Triple (some con) = record {
    from = λ pl has. simp has.con_is (refl, (con, has));
  }
