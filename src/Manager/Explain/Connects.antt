-- ===== src/Manager/Explain/Connects.antt =====
-- The connection of `print_slow_queries` and the results that it prints: what they keep.
use mysqlpcap.Base.{
  ◌≡◌, ◌∙◌, ap, refl, Bool, true, false, not, Option, none, some, List, Bytes, if◌then◌else◌,
}
use mysqlpcap.Base.Run.{M}
use mysqlpcap.Manager.Explain.{
  Store, Explainer, set_con, call, act, require, set_option, setup_for_ssl, connected_with,
  connect_with, connect_for_explain, print_result, explained,
}
use mysqlpcap.Thread.{MysqlOption, ssl_ca, ssl_cert, ssl_key, Setup}
use mysqlpcap.Thread.Rules.{Answers, Triple, bind-Triple, pure-Triple, weaken-Triple, assume-Triple}

module _ {setup : Setup} (answers : Answers setup) where
  open setup use {client, options}

  -- What the server was sent, and the connection.
  pub record Asked (log : List Bytes) (c : Option client.Con) (e : Explainer setup) : Type 0 where
    pub sent_is : answers.sent e.world ≡ log
    pub con_is : e.explain_con ≡ c

  module _ {log : List Bytes} {c : Option client.Con} where
    pub call-Triple :
        {A : Type 0} (f : client.World → client.World × A) (P : A → Type 0)
        → ((w : client.World) → (answers.sent (f w).0 ≡ answers.sent w) × P (f w).1)
        → Triple (Asked log c) (λ a e. P a × Asked log c e) (call f)
    unfolding call
    call-Triple f P quiet = record {
      from = λ e has. (
        (quiet e.world).1,
        record { sent_is = (quiet e.world).0 ∙ has.sent_is; con_is = has.con_is },
      );
    }

    act-Triple :
        (f : client.World → client.World)
        → ((w : client.World) → answers.sent (f w) ≡ answers.sent w)
        → Triple (Asked log c) (λ _ e. Asked log c e) (act f)
    unfolding act
    act-Triple f quiet = record {
      from = λ e has. record { sent_is = quiet e.world ∙ has.sent_is; con_is = has.con_is };
    }

    set_con-Triple :
        (c' : Option client.Con) → Triple (Asked log c) (λ _ e. Asked log c' e) (set_con c')
    unfolding set_con
    set_con-Triple c' = record { from = λ e has. record { sent_is = has.sent_is; con_is = refl } }

    set_option-Triple :
        (con : client.Con) (o : MysqlOption) (v : Option Bytes)
        → Triple (Asked log c) (λ b e. (b ≡ true) × Asked log c e) (set_option con o v)
    unfolding set_option
    set_option-Triple con o none = pure-Triple _ _ true (λ e has. (refl, has))
    set_option-Triple con o (some v) =
        bind-Triple
          (call-Triple (client.mysql_options con o v) (λ b. b ≡ false)
            (λ w. (answers.options_quiet con o v w, answers.can_set con o v w)))
          (λ failed. pure-Triple _ _ (not failed) (λ e p. (ap not p.0, p.1)))

    -- Behind a call that gives true.
    goes_on-Triple :
        {A : Type 0} {Q : A → Explainer setup → Type 0} {n : M (Explainer setup) A}
        (m : M (Explainer setup) A) (b : Bool)
        → Triple (Asked log c) Q n
        → Triple (λ e. (b ≡ true) × Asked log c e) Q (if not b then m else n)
    goes_on-Triple m true t = weaken-Triple (λ e p. p.1) t
    goes_on-Triple m false t = record { from = λ e p. cc }

    setup_for_ssl-Triple :
        (con : client.Con)
        → Triple (Asked log c) (λ b e. (b ≡ true) × Asked log c e) (setup_for_ssl con)
    unfolding setup_for_ssl
    setup_for_ssl-Triple con =
        bind-Triple (set_option-Triple con ssl_ca options.replay_ssl_ca) (λ ca.
          goes_on-Triple _ ca (
            bind-Triple (set_option-Triple con ssl_cert options.replay_ssl_cert) (λ cert.
              goes_on-Triple _ cert (set_option-Triple con ssl_key options.replay_ssl_key))))

  -- There is a connection.
  abbrev pub IsOn : List Bytes → Explainer setup → Type 0
  IsOn log e = (con : client.Con) × Asked log (some con) e

  module _ {log : List Bytes} where
    connected_with-Triple :
        (con : client.Con) (failed : Bool)
        → failed ≡ false
        → Triple (Asked log (some con)) (λ _ e. IsOn log e) (connected_with con failed)
    unfolding connected_with
    connected_with-Triple con true e = cc
    connected_with-Triple con false e = pure-Triple _ _ true (λ e has. (con, has))

    connect_with-Triple :
        (handle : Option client.Con)
        → ((con : client.Con) × (handle ≡ some con))
        → Triple (Asked log handle) (λ _ e. IsOn log e) (connect_with handle)
    unfolding connect_with
    connect_with-Triple none (con, e) = cc
    connect_with-Triple (some con) _ = bind-Triple (setup_for_ssl-Triple con) (λ secured.
        goes_on-Triple _ secured (
          bind-Triple
            (call-Triple (client.mysql_real_connect con options) (λ b. b ≡ false)
              (λ w. (answers.connect_quiet con w, answers.can_connect con w)))
            (λ failed. assume-Triple (connected_with-Triple con failed))))

    pub connect_for_explain-Triple :
        {c : Option client.Con} → Triple (Asked log c) (λ _ e. IsOn log e) connect_for_explain
    unfolding connect_for_explain
    connect_for_explain-Triple =
        bind-Triple
          (call-Triple client.mysql_init (λ o. (con : client.Con) × (o ≡ some con))
            (λ w. (answers.init_quiet w, answers.can_init w)))
          (λ handle.
            assume-Triple (λ given.
              bind-Triple (set_con-Triple handle) (λ _. connect_with-Triple handle given)))

    pub require-Triple :
        {A : Type 0} {c : Option client.Con} (o : Option A) (a : A)
        → o ≡ some a
        → Triple (Asked log c) (λ b e. (b ≡ a) × Asked log c e) (require o)
    unfolding require
    require-Triple none a e = cc
    require-Triple (some b) a e = record { from = λ x has. (cc, has) }

  -- The results are read and printed without a further query.
  pub record IsQuiet (store : Store setup) : Type 0 where
    pub store_quiet :
        (c : client.Con) (w : client.World)
        → answers.sent (store.mysql_store_result c w).0 ≡ answers.sent w
    pub print_quiet :
        (r : client.Res) (w : client.World) → answers.sent (store.print_rows r w) ≡ answers.sent w

  module _ {log : List Bytes} {c : Option client.Con} (store : Store setup)
      (quiet : IsQuiet store) where
    print_result-Triple :
        (res : Option client.Res)
        → Triple (Asked log c) (λ _ e. Asked log c e) (print_result store res)
    unfolding print_result
    print_result-Triple none = pure-Triple _ _ tt (λ e has. has)
    print_result-Triple (some r) =
        bind-Triple (act-Triple (store.print_rows r) (quiet.print_quiet r))
          (λ _. act-Triple (client.mysql_free_result r) (answers.free_quiet r))

    pub explained-Triple :
        (con : client.Con) (failed : Bool)
        → Triple (Asked log c) (λ _ e. Asked log c e) (explained store con failed)
    unfolding explained
    explained-Triple con true = pure-Triple _ _ tt (λ e has. has)
    explained-Triple con false =
        bind-Triple
          (call-Triple (store.mysql_store_result con) (λ _. Unit)
            (λ w. (quiet.store_quiet con w, tt)))
          (λ res. weaken-Triple (λ e p. p.1) (print_result-Triple res))
