-- ===== src/Program/Args.antt =====
-- `parse_args`, on what `getopt_long` returns one call after the other: a code, with the argument.
pub mod Last
use mysqlpcap.Base.{
  ℕ, Bool, true, false, Option, none, some, List, [], ◌∷◌, Bytes, ◌==◌, if◌then◌else◌,
}
use mysqlpcap.Pattern.{QueryPattern, add_query_pattern}
use mysqlpcap.Program.{Result, done, exits, aborts, no_fuel, ◌>>=◌, die, Machine, Options, defaults}

-- The cases of the switch. `unknown` is its default.
pub data Flag : Type 0 where
  input : Flag
  port : Flag
  ip : Flag
  ethernet_size : Flag
  verbose : Flag
  explain : Flag
  analyze : Flag
  run : Flag
  print_n_slow : Flag
  assert_on_query_error : Flag
  ignore_dup_key_errors : Flag
  replay_host : Flag
  replay_user : Flag
  replay_pw : Flag
  replay_db : Flag
  replay_ssl_ca : Flag
  replay_ssl_cert : Flag
  replay_ssl_key : Flag
  replay_port : Flag
  replay_speed : Flag
  query_pattern : Flag
  show_progress : Flag
  record_for_replay : Flag
  csv : Flag
  table_stats : Flag
  version : Flag
  help : Flag
  unknown : Flag

-- The code that a case of the switch is for.
unfoldable pub flag_of : (c : ℕ) → Flag
flag_of c =
    if c == b'i'
    then input
    else if c == b'p'
    then port
    else if c == b'h'
    then ip
    else if c == b'e'
    then ethernet_size
    else if c == b'V'
    then verbose
    else if c == b'E'
    then explain
    else if c == b'A'
    then analyze
    else if c == b'R'
    then run
    else if c == b'n'
    then print_n_slow
    else if c == 241
    then assert_on_query_error
    else if c == 242
    then ignore_dup_key_errors
    else if c == 230
    then replay_host
    else if c == 232
    then replay_user
    else if c == 233
    then replay_pw
    else if c == 234
    then replay_db
    else if c == 235
    then replay_ssl_ca
    else if c == 236
    then replay_ssl_cert
    else if c == 237
    then replay_ssl_key
    else if c == 231
    then replay_port
    else if c == 238
    then replay_speed
    else if c == b'q'
    then query_pattern
    else if c == 239
    then show_progress
    else if c == 240
    then record_for_replay
    else if c == 243
    then csv
    else if c == 244
    then table_stats
    else if c == b'v'
    then version
    else if c == b'H'
    then help
    else unknown

module _ (machine : Machine) where
  open machine use {pcre, atoi, atof, inet_aton}

  -- What `add_query_pattern` gives. A pattern that cannot be compiled is an exception, which `main`
  -- catches.
  unfoldable pub add_pattern :
      Option (List (QueryPattern pcre)) → Options pcre → Result (Options pcre)
  add_pattern none o = die
  add_pattern (some patterns) o = done (record o { query_patterns = patterns })

  -- What `inet_aton` gives.
  unfoldable pub set_ip : Option ℕ → Options pcre → Result (Options pcre)
  set_ip none o = die
  set_ip (some a) o = done (record o { mysql_ip = a })

  -- One case of the switch.
  unfoldable pub apply_flag : Flag → (arg : Bytes) → Options pcre → Result (Options pcre)
  unfolding add_pattern set_ip add_query_pattern
  apply_flag input arg o = done (record o { fname = some arg })
  apply_flag port arg o = done (record o { mysql_port = atoi arg })
  apply_flag ip arg o = set_ip (inet_aton arg) o
  apply_flag ethernet_size arg o = done (record o { ethernet_header_size = atoi arg })
  apply_flag verbose arg o = done (record o { verbose = true })
  apply_flag explain arg o = done (record o { do_explain = true })
  apply_flag analyze arg o = done (record o { do_analyze = true })
  apply_flag run arg o = done (record o { do_run = true })
  apply_flag print_n_slow arg o = done (record o { n_slow_queries = atoi arg })
  apply_flag assert_on_query_error arg o =
      done (record o { replay = record o.replay { assert_on_query_error = true } })
  apply_flag ignore_dup_key_errors arg o =
      done (record o { replay = record o.replay { ignore_dup_key_errors = true } })
  apply_flag replay_host arg o =
      done (record o { replay = record o.replay { replay_host = some arg } })
  apply_flag replay_user arg o =
      done (record o { replay = record o.replay { replay_user = some arg } })
  apply_flag replay_pw arg o = done (record o { replay = record o.replay { replay_pw = some arg } })
  apply_flag replay_db arg o = done (record o { replay = record o.replay { replay_db = some arg } })
  apply_flag replay_ssl_ca arg o =
      done (record o { replay = record o.replay { replay_ssl_ca = some arg } })
  apply_flag replay_ssl_cert arg o =
      done (record o { replay = record o.replay { replay_ssl_cert = some arg } })
  apply_flag replay_ssl_key arg o =
      done (record o { replay = record o.replay { replay_ssl_key = some arg } })
  apply_flag replay_port arg o =
      done (record o { replay = record o.replay { replay_port = atoi arg } })
  apply_flag replay_speed arg o =
      let (num, den) = atof arg in
      done (record o { replay = record o.replay { speed_num = num; speed_den = den } })
  apply_flag query_pattern arg o = add_pattern (add_query_pattern pcre o.query_patterns arg) o
  apply_flag show_progress arg o = done (record o { report_progress = true })
  apply_flag record_for_replay arg o = done (record o { record_for_replay_file = some arg })
  apply_flag csv arg o = done (record o { csv_file = some arg })
  apply_flag table_stats arg o = done (record o { table_stats_file = some arg })
  apply_flag version arg o = exits 0
  apply_flag help arg o = exits 0
  apply_flag unknown arg o = die

  -- The loop of `parse_args`.
  unfoldable pub args_loop : List (ℕ × Bytes) → Options pcre → Result (Options pcre)
  unfolding apply_flag flag_of
  args_loop [] o = done o
  args_loop ((c, arg) ∷ rest) o = apply_flag (flag_of c) arg o >>= args_loop rest

  unfoldable pub parse_args : List (ℕ × Bytes) → Result (Options pcre)
  unfolding args_loop
  parse_args results =
      args_loop results (defaults pcre) >>= λ o. elim o.fname [ none ↦ die | some name ↦ done o ]
