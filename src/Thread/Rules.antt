-- ===== src/Thread/Rules.antt =====
-- What is relied on of the MySQL client library and of PCRE2, and the rules for the actions of the
-- replay thread.
use mysqlpcap.Base.{
  ℕ, ◌≡◌, ◌∙◌, refl, Bool, true, false, Option, some, List, [], ◌∷◌, ◌++◌, Bytes, if◌then◌else◌,
}
use mysqlpcap.Base.Run.{M, pure, Returns, Returns-and_then, Returns-map, ◌>>=◌}
use mysqlpcap.Pattern.{key, get_query_key}
use mysqlpcap.Sys.{Heap, Stream}
use mysqlpcap.Thread.{Setup, MysqlOption, Player, get, call, act}

module _ (setup : Setup) where
  open setup use {env, client, options}

  -- A connection can be made, and each query that is handed to `mysql_real_query` is the next that the
  -- server is sent. It may fail there, unless the program is to stop then. No pattern makes PCRE2 fail.
  pub record Answers : Type 0 where
    pub sent : client.World → List Bytes
    pub now_quiet : (w : client.World) → sent (client.now w).0 ≡ sent w
    pub sleep_quiet : (n : ℕ) (w : client.World) → sent (client.sleep_for n w) ≡ sent w
    pub init_quiet : (w : client.World) → sent (client.mysql_init w).0 ≡ sent w
    pub options_quiet :
        (c : client.Con) (o : MysqlOption) (v : Bytes) (w : client.World)
        → sent (client.mysql_options c o v w).0 ≡ sent w
    pub connect_quiet :
        (c : client.Con) (w : client.World)
        → sent (client.mysql_real_connect c options w).0 ≡ sent w
    pub close_quiet : (c : client.Con) (w : client.World) → sent (client.mysql_close c w) ≡ sent w
    pub result_quiet :
        (c : client.Con) (w : client.World) → sent (client.mysql_use_result c w).0 ≡ sent w
    pub rows_quiet : (r : client.Res) (w : client.World) → sent (client.fetch_rows r w) ≡ sent w
    pub free_quiet :
        (r : client.Res) (w : client.World) → sent (client.mysql_free_result r w) ≡ sent w
    pub query_sent :
        (c : client.Con) (q : Bytes) (w : client.World)
        → sent (client.mysql_real_query c q w).0 ≡ sent w ++ q ∷ []
    pub can_init : (w : client.World) → (c : client.Con) × ((client.mysql_init w).1 ≡ some c)
    pub can_set :
        (c : client.Con) (o : MysqlOption) (v : Bytes) (w : client.World)
        → (client.mysql_options c o v w).1 ≡ false
    pub can_connect :
        (c : client.Con) (w : client.World) → (client.mysql_real_connect c options w).1 ≡ false
    pub goes_on : options.assert_on_query_error ≡ false
    pub has_key : (q : Bytes) → (k : Bytes) × (get_query_key env.pcre env.patterns q 1023 ≡ key k)

-- From a state with the first property an action returns, in one with the second.
pub record Triple {S : Type 0} {A : Type 0} (P : S → Type 0) (Q : A → S → Type 0) (m : M (S) A)
    : Type 0 where
  pub from : (pl : S) → P pl → Returns Q (m pl)

module _ {S : Type 0} where
  pub bind-Triple :
      {A B : Type 0} {P : S → Type 0} {Q : A → S → Type 0} {R : B → S → Type 0} {m : M (S) A}
      {k : A → M (S) B}
      → Triple P Q m
      → ((a : A) → Triple (Q a) R (k a))
      → Triple P R (m >>= k)
  bind-Triple {Q} {R} {m} {k} h next = record {
    from = λ pl p. Returns-and_then Q R (m pl) k (h.from pl p) (λ a t q. (next a).from t q);
  }

  pub pure-Triple :
      {A : Type 0} (P : S → Type 0) (Q : A → S → Type 0) (a : A)
      → ((pl : S) → P pl → Q a pl)
      → Triple P Q (pure a)
  pure-Triple P Q a h = record { from = h }

  pub map-Triple :
      {A : Type 0} {P : S → Type 0} {Q R : A → S → Type 0} {m : M (S) A}
      → ((a : A) (pl : S) → Q a pl → R a pl)
      → Triple P Q m
      → Triple P R m
  map-Triple {Q} {R} {m} f t = record { from = λ pl p. Returns-map Q R (m pl) f (t.from pl p) }

  -- What is known beside the state.
  pub assume-Triple :
      {A B : Type 0} {P : S → Type 0} {Q : A → S → Type 0} {m : M (S) A}
      → (B → Triple P Q m)
      → Triple (λ pl. B × P pl) Q m
  assume-Triple f = record { from = λ pl (b, p). (f b).from pl p }

  pub weaken-Triple :
      {A : Type 0} {P P' : S → Type 0} {Q : A → S → Type 0} {m : M (S) A}
      → ((pl : S) → P' pl → P pl)
      → Triple P Q m
      → Triple P' Q m
  weaken-Triple f h = record { from = λ pl p. h.from pl (f pl p) }

module _ {S : Type 0} {A : Type 0} {P : S → Type 0} {Q : A → S → Type 0} where
  pub branch-Triple :
      {m n : M (S) A} (b : Bool)
      → (b ≡ true → Triple P Q m)
      → (b ≡ false → Triple P Q n)
      → Triple P Q (if b then m else n)
  branch-Triple true h k = h refl
  branch-Triple false h k = k refl

module _ {setup : Setup} where
  pub get-Triple :
      (P : Player setup → Type 0) → Triple {S = Player setup} P (λ a pl. P a × P pl) get
  unfolding get
  get-Triple P = record { from = λ pl p. (p, p) }

module _ {setup : Setup} (answers : Answers setup) where
  open setup use {client}

  -- The packets, the stream, what the server was sent, and the connection.
  pub record Has (h : Heap) (s : Stream) (log : List Bytes) (c : Option client.Con)
      (pl : Player setup) : Type 0 where
    pub heap_is : pl.sys.heap ≡ h
    pub stream_is : pl.stream ≡ s
    pub sent_is : answers.sent pl.world ≡ log
    pub con_is : pl.con ≡ c

  module _ {h : Heap} {s : Stream} {log : List Bytes} {c : Option client.Con} where
    pub call-Triple :
        {A : Type 0} (f : client.World → client.World × A) (P : A → Type 0)
        → ((w : client.World) → (answers.sent (f w).0 ≡ answers.sent w) × P (f w).1)
        → Triple (Has h s log c) (λ a pl. P a × Has h s log c pl) (call f)
    unfolding call
    call-Triple f P quiet = record {
      from = λ pl has. (
        (quiet pl.world).1,
        record {
          heap_is = has.heap_is;
          stream_is = has.stream_is;
          sent_is = (quiet pl.world).0 ∙ has.sent_is;
          con_is = has.con_is;
        },
      );
    }

    pub act-Triple :
        (f : client.World → client.World)
        → ((w : client.World) → answers.sent (f w) ≡ answers.sent w)
        → Triple (Has h s log c) (λ a pl. Has h s log c pl) (act f)
    unfolding act
    act-Triple f quiet = record {
      from = λ pl has. record {
        heap_is = has.heap_is;
        stream_is = has.stream_is;
        sent_is = quiet pl.world ∙ has.sent_is;
        con_is = has.con_is;
      };
    }
