-- ===== src/Manager/Explain.antt =====
-- The slow queries at the end: `print_slow_queries` of mysql_stream_manager.cc with
-- `connect_for_explain` and `explain_query`. What is printed is not part of the state.
pub mod Connects
pub mod Sent
use mysqlpcap.Base.{
  ℕ, ◌+◌, ◌-◌, ◌%◌, ◌^◌, Bool, true, false, not, ◌||◌, Option, none, some, List, [], ◌∷◌, Bytes,
  length, take, if◌then◌else◌,
}
use mysqlpcap.Base.Run.{Run, ok, fault, M, pure, ◌>>=◌, ◌>>◌}
use mysqlpcap.Packet.{Packet, Ptr}
use mysqlpcap.Sys.{Heap}
use mysqlpcap.Thread.{MysqlOption, ssl_ca, ssl_cert, ssl_key, Setup, read_text, query_len, copy_to}

-- The rest of the MySQL client library. `print_rows` stands for the calls of `mysql_num_fields`,
-- `mysql_fetch_fields` and `mysql_fetch_row`.
pub record Store (setup : Setup) : Type 0 where
  pub mysql_store_result :
      setup.client.Con → setup.client.World → setup.client.World × Option setup.client.Res
  pub print_rows : setup.client.Res → setup.client.World → setup.client.World

-- `explain_con`, with the state of the client library
pub record Explainer (setup : Setup) : Type 0 where
  pub explain_con : Option setup.client.Con
  pub world : setup.client.World

-- `explain_str`
abbrev pub explain_str : (analyze : Bool) → Bytes
explain_str true =
    b'a' ∷ b'n' ∷ b'a' ∷ b'l' ∷ b'y' ∷ b'z' ∷ b'e' ∷ b' ' ∷ b'f' ∷ b'o' ∷ b'r' ∷ b'm' ∷ b'a' ∷ b't'
    ∷ b'=' ∷ b'j' ∷ b's' ∷ b'o' ∷ b'n' ∷ b' ' ∷ []
explain_str false = b'e' ∷ b'x' ∷ b'p' ∷ b'l' ∷ b'a' ∷ b'i' ∷ b'n' ∷ b' ' ∷ []

module _ {setup : Setup} where
  open setup use {client, options}

  unfoldable pub get : M (Explainer setup) (Explainer setup)
  get e = ok e e

  unfoldable pub set_con : Option client.Con → M (Explainer setup) (Unit {0})
  set_con c e = ok tt (record e { explain_con = c })

  -- A call of the client library.
  unfoldable pub call : {A : Type 0} → (client.World → client.World × A) → M (Explainer setup) A
  call f e = let (w, a) = f e.world in ok a (record e { world = w })

  unfoldable pub act : (client.World → client.World) → M (Explainer setup) (Unit {0})
  act f e = ok tt (record e { world = f e.world })

  unfoldable pub require : {A : Type 0} → Option A → M (Explainer setup) A
  require none e = fault
  require (some a) e = ok a e

  -- The buffer of `explain_query` without the byte 0 at its end, which is written too.
  unfoldable pub explain_text : (analyze : Bool) → Packet → M (Explainer setup) Bytes
  unfolding require
  explain_text analyze q = do
    let str = explain_str analyze
    let size = (query_len q + length str + 1) % 2 ^ 32
    text ← require (read_text q (query_len q))
    p ← require (copy_to size [] str)
    p' ← require (copy_to size p text)
    p'' ← require (copy_to size p' (0 ∷ []))
    pure (take ((size + 2 ^ 32 - 1) % 2 ^ 32) p'')

  -- One option of `setup_for_ssl`: the flag is false where it throws.
  unfoldable pub set_option : client.Con → MysqlOption → Option Bytes → M (Explainer setup) Bool
  unfolding call
  set_option con o none = pure true
  set_option con o (some value) = do
    failed ← call (client.mysql_options con o value)
    pure (not failed)

  -- `setup_for_ssl`, of a handle that is not null
  unfoldable pub setup_for_ssl : client.Con → M (Explainer setup) Bool
  unfolding set_option
  setup_for_ssl con = do
    ca ← set_option con ssl_ca options.replay_ssl_ca
    if not ca then pure false else do
      cert ← set_option con ssl_cert options.replay_ssl_cert
      if not cert then pure false else set_option con ssl_key options.replay_ssl_key

  -- `connect_for_explain` behind `mysql_real_connect`
  unfoldable pub connected_with : client.Con → (failed : Bool) → M (Explainer setup) Bool
  unfolding act set_con
  connected_with con true = do act (client.mysql_close con); set_con none; pure true
  connected_with con false = pure true

  -- `connect_for_explain` behind `mysql_init`. It leaves `explain_con` set where `setup_for_ssl`
  -- throws.
  unfoldable pub connect_with : Option client.Con → M (Explainer setup) Bool
  unfolding call connected_with setup_for_ssl
  connect_with none = pure false
  connect_with (some con) = do
    secured ← setup_for_ssl con
    if not secured
        then pure false
        else do failed ← call (client.mysql_real_connect con options); connected_with con failed

  unfoldable pub connect_for_explain : M (Explainer setup) Bool
  unfolding call set_con connect_with
  connect_for_explain = do handle ← call client.mysql_init; set_con handle; connect_with handle

module _ {setup : Setup} (store : Store setup) where
  open setup use {client}

  -- `explain_query` behind `mysql_store_result`
  unfoldable pub print_result : Option client.Res → M (Explainer setup) (Unit {0})
  unfolding act
  print_result none = pure tt
  print_result (some res) = do act (store.print_rows res); act (client.mysql_free_result res)

  -- `explain_query` behind `mysql_real_query`
  unfoldable pub explained : client.Con → (failed : Bool) → M (Explainer setup) (Unit {0})
  unfolding call print_result
  explained con true = pure tt
  explained con false = do res ← call (store.mysql_store_result con); print_result res

  unfoldable pub explain_query :
      (analyze : Bool) → client.Con → Packet → M (Explainer setup) (Unit {0})
  unfolding call explained explain_text
  explain_query analyze con q = do
    buf ← explain_text analyze q
    failed ← call (client.mysql_real_query con buf)
    explained con failed

  -- The test of `explain_con` in the loop.
  unfoldable pub explain_with :
      (analyze : Bool) → Option client.Con → Packet → M (Explainer setup) (Unit {0})
  unfolding explain_query
  explain_with analyze none q = pure tt
  explain_with analyze (some con) q = explain_query analyze con q

  -- The loop of `print_slow_queries`; `print_query` reads the text.
  unfoldable pub print_all :
      Heap → (asks analyze : Bool) → List Ptr → M (Explainer setup) (Unit {0})
  unfolding get require explain_with
  print_all heap asks analyze [] = pure tt
  print_all heap asks analyze (p ∷ ps) = do
    q ← require (heap p)
    text ← require (read_text q (query_len q))
    e ← get
    if asks then explain_with analyze e.explain_con q else pure tt
    print_all heap asks analyze ps

  unfoldable pub print_slow_queries :
      Heap → (do_explain do_analyze : Bool) → List Ptr → M (Explainer setup) (Unit {0})
  unfolding connect_for_explain print_all
  print_slow_queries heap do_explain do_analyze ps = do
    connected ← if do_explain || do_analyze then connect_for_explain else pure true
    print_all heap (do_explain || do_analyze) do_analyze ps
