-- ===== src/Thread/Query.antt =====
-- A query of the replay: `setup_for_ssl`, `db_connect`, `db_close` and `db_query`, `get_scheduled_ts`
-- and `init_replay`.
use mysqlpcap.Base.{
  ℕ, zero, suc, ◌+◌, ◌-◌, ◌*◌, ◌/◌, Bool, true, false, not, ◌&&◌, Option, none, some, [], Bytes,
  ltb, ◌==◌, if◌then◌else◌,
}
use mysqlpcap.Base.Int.{ℤ, sub_ℕ}
use mysqlpcap.Base.Run.{throws, fault, out_of_fuel, M, pure, assert, ◌>>=◌, ◌>>◌}
use mysqlpcap.Manager.{get_packet_ellapsed_us}
use mysqlpcap.Packet.{Packet, Ptr, null}
use mysqlpcap.Pattern.{Applied, key, unmatched, get_query_key}
use mysqlpcap.Stats.{record_query}
use mysqlpcap.Stream.Complete.{c_string}
use mysqlpcap.Thread.{
  MysqlOption, ssl_ca, ssl_cert, ssl_key, Setup, Player, packet_overflow_len, read_text, query_len,
  copy_to, whole_data, get, put, call, act, load, require,
}

module _ {setup : Setup} where
  open setup use {env, client, options}

  -- One option of `setup_for_ssl`: the flag is false where it throws.
  unfoldable pub set_option : client.Con → MysqlOption → Option Bytes → M (Player setup) Bool
  unfolding call
  set_option con o none = pure true
  set_option con o (some value) = do
    failed ← call (client.mysql_options con o value)
    pure (not failed)

  -- `setup_for_ssl`, of a handle that is not null
  unfoldable pub setup_for_ssl : client.Con → M (Player setup) Bool
  unfolding set_option
  setup_for_ssl con = do
    ca ← set_option con ssl_ca options.replay_ssl_ca
    if not ca then pure false else do
      cert ← set_option con ssl_cert options.replay_ssl_cert
      if not cert then pure false else set_option con ssl_key options.replay_ssl_key

  -- `con = …`
  unfoldable pub set_con : Option client.Con → M (Player setup) (Unit {0})
  unfolding get put
  set_con c = do pl ← get; put (record pl { con = c })

  -- `db_connect` behind `mysql_real_connect`
  unfoldable pub connected_with : client.Con → (failed : Bool) → M (Player setup) Bool
  unfolding act set_con
  connected_with con true = do act (client.mysql_close con); set_con none; pure false
  connected_with con false = pure true

  -- `db_connect` behind `mysql_init`. It leaves `con` set where `setup_for_ssl` throws.
  unfoldable pub connect_with : Option client.Con → M (Player setup) Bool
  unfolding call connected_with setup_for_ssl
  connect_with none = pure false
  connect_with (some con) = do
    secured ← setup_for_ssl con
    if not secured
        then pure false
        else do failed ← call (client.mysql_real_connect con options); connected_with con failed

  unfoldable pub db_connect : M (Player setup) Bool
  unfolding call set_con connect_with
  db_connect = do handle ← call client.mysql_init; set_con handle; connect_with handle

  unfoldable pub db_close : M (Player setup) (Unit {0})
  unfolding get act set_con
  db_close = do
    pl ← get
    elim pl.con [ none ↦ pure tt | some con ↦ (do act (client.mysql_close con); set_con none) ]

  unfoldable pub db_ensure_connected : M (Player setup) Bool
  unfolding get db_connect
  db_ensure_connected = do pl ← get; elim pl.con [ none ↦ db_connect | some con ↦ pure true ]

  -- `init_replay`
  unfoldable pub init_replay : M (Player setup) (Unit {0})
  unfolding get put call
  init_replay = do t ← call client.now; pl ← get; put (record pl { replay_start_ts = t })

  -- `get_scheduled_ts`; `none` is INVALID_TIME.
  unfoldable pub get_scheduled_ts : Player setup → Packet → Option ℕ
  unfolding get_packet_ellapsed_us
  get_scheduled_ts pl q =
      if options.speed_num == 0
      then none
      else some (
          pl.replay_start_ts
          + get_packet_ellapsed_us pl.sys q * options.speed_den / options.speed_num)

  -- The wait for the time of the query.
  unfoldable pub sleep_until : Option ℕ → M (Player setup) (Unit {0})
  unfolding call act
  sleep_until none = pure tt
  sleep_until (some t) = do
    now ← call client.now
    if ltb now t then act (client.sleep_for (t - now)) else pure tt

  -- The loop that copies the packets of a query behind each other, into a buffer of `size` bytes.
  unfoldable pub join_loop :
      ℕ → (size : ℕ) → (buffer : Bytes) → (cur_pkt : Ptr) → M (Player setup) Bytes
  unfolding load require copy_to whole_data
  join_loop zero size buffer p = λ _. out_of_fuel
  join_loop (suc fuel) size buffer p = do
    q ← load p
    if not (q.len == packet_overflow_len) then pure buffer else do
      bs ← require (whole_data q)
      buffer' ← require (copy_to size buffer bs)
      assert (not (q.next == null))
      join_loop fuel size buffer' q.next

  -- The bytes that `query` leads to when the query is sent.
  unfoldable pub query_text : (query_pkt cur_pkt : Ptr) → (q_len : ℕ) → M (Player setup) Bytes
  unfolding get load require read_text query_len copy_to join_loop
  query_text p cur n = do
    q ← load p
    if cur == p then require (read_text q n) else do
      bs ← require (read_text q (query_len q))
      buffer ← require (copy_to n [] bs)
      pl ← get
      join_loop (suc pl.sys.fresh) n buffer p

  -- `record_query`, under the key that `get_query_key` has found
  unfoldable pub record_under : Applied → (elapsed : ℤ) → M (Player setup) (Unit {0})
  unfolding get put c_string
  record_under (key k) t = do
    pl ← get
    let stats = record_query pl.sys.q_stats (c_string k) t
    put (record pl { sys = record pl.sys { q_stats = stats } })
  record_under unmatched t = λ _. throws
  record_under Applied.throws t = λ _. throws

  -- What stands behind `err:`: the time since `start` goes to the statistics.
  unfoldable pub record_elapsed : Bytes → (start : ℕ) → M (Player setup) (Unit {0})
  unfolding call record_under
  record_elapsed text start = do
    end ← call client.now
    record_under (get_query_key env.pcre env.patterns text 1023) (sub_ℕ end start)

  -- The result of a query, if it has one.
  unfoldable pub read_rows : Option client.Res → M (Player setup) (Unit {0})
  unfolding act
  read_rows none = pure tt
  read_rows (some res) = do act (client.fetch_rows res); act (client.mysql_free_result res)

  -- What stands between `mysql_real_query` and `err:`
  unfoldable pub after_query : client.Con → (failed : Bool) → M (Player setup) (Unit {0})
  unfolding get call read_rows
  after_query con true = do
    pl ← get
    if options.ignore_dup_key_errors && client.is_dup_entry con pl.world
        then pure tt
        else assert (not options.assert_on_query_error)
  after_query con false = do result ← call (client.mysql_use_result con); read_rows result

  -- `db_query` from `mysql_real_query` on; the handle is not looked at before.
  unfoldable pub send_query : Option client.Con → Bytes → (start : ℕ) → M (Player setup) (Unit {0})
  unfolding call after_query record_elapsed
  send_query none text start = λ _. fault
  send_query (some con) text start = do
    failed ← call (client.mysql_real_query con text)
    after_query con failed
    record_elapsed text start

  -- `db_query`, once all packets of the query are there
  unfoldable pub db_query : (query_pkt cur_pkt : Ptr) → (q_len : ℕ) → M (Player setup) (Unit {0})
  unfolding get call query_text db_ensure_connected send_query
  db_query p cur n = do
    text ← query_text p cur n
    connected ← db_ensure_connected
    if not connected
        then pure tt
        else do start ← call client.now; pl ← get; send_query pl.con text start
