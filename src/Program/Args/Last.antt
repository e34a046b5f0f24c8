-- ===== src/Program/Args/Last.antt =====
-- What the options on the command line decide.
use mysqlpcap.Base.{
  ℕ, ◌≡◌, ◌∙◌, sym, refl, Bool, true, false, Option, none, some, List, [], ◌∷◌, Bytes, ◌==◌,
  if◌then◌else◌, arith,
}
use mysqlpcap.Pattern.{QueryPattern, add_query_pattern}
use mysqlpcap.Program.{done, exits, Yields, Yields-bind, Machine, Options, defaults}
use mysqlpcap.Program.Args
use mysqlpcap.Program.Args.{Flag, flag_of, apply_flag, args_loop, parse_args}

-- What a case of the switch does to the name of the file, and to whether queries are replayed.
abbrev name_with : Flag → Bytes → Option Bytes → Option Bytes
name_with Args.input arg name = some arg
name_with _ arg name = name

abbrev run_with : Flag → Bool → Bool
run_with Args.run found = true
run_with _ found = found

-- The argument of the last -i, and whether there is a -R.
abbrev pub last_input : List (ℕ × Bytes) → Option Bytes → Option Bytes
last_input [] name = name
last_input ((c, arg) ∷ rest) name = last_input rest (if c == b'i' then some arg else name)

abbrev pub has_run : List (ℕ × Bytes) → Bool → Bool
has_run [] found = found
has_run ((c, arg) ∷ rest) found = has_run rest (if c == b'R' then true else found)

-- -i and -R are what the switch takes them for, and nothing else is.
flag_of-input :
    (c : ℕ) (arg : Bytes) (name : Option Bytes)
    → name_with (flag_of c) arg name ≡ (if c == b'i' then some arg else name)
unfolding flag_of
flag_of-input c arg name = ground arith

flag_of-run :
    (c : ℕ) (found : Bool) → run_with (flag_of c) found ≡ (if c == b'R' then true else found)
unfolding flag_of
flag_of-run c found = ground arith

module _ (machine : Machine) where
  set_ip-steps :
      (o : Options machine.pcre) (a : Option ℕ)
      → Yields (λ o'. (o'.fname ≡ o.fname) × (o'.do_run ≡ o.do_run)) (Args.set_ip machine a o)
  unfolding Args.set_ip
  set_ip-steps o none = tt
  set_ip-steps o (some a) = (refl, refl)

  add_pattern-steps :
      (o : Options machine.pcre) (ps : Option (List (QueryPattern machine.pcre)))
      → Yields (λ o'. (o'.fname ≡ o.fname) × (o'.do_run ≡ o.do_run)) (Args.add_pattern machine ps o)
  unfolding Args.add_pattern
  add_pattern-steps o none = tt
  add_pattern-steps o (some ps) = (refl, refl)

  apply_flag-steps :
      (f : Flag) (arg : Bytes) (o : Options machine.pcre)
      → Yields
          (λ o'. (o'.fname ≡ name_with f arg o.fname) × (o'.do_run ≡ run_with f o.do_run))
          (apply_flag machine f arg o)
  unfolding apply_flag
  apply_flag-steps Args.input arg o = (refl, refl)
  apply_flag-steps Args.port arg o = (refl, refl)
  apply_flag-steps Args.ip arg o = set_ip-steps o (machine.inet_aton arg)
  apply_flag-steps Args.ethernet_size arg o = (refl, refl)
  apply_flag-steps Args.verbose arg o = (refl, refl)
  apply_flag-steps Args.explain arg o = (refl, refl)
  apply_flag-steps Args.analyze arg o = (refl, refl)
  apply_flag-steps Args.run arg o = (refl, refl)
  apply_flag-steps Args.print_n_slow arg o = (refl, refl)
  apply_flag-steps Args.assert_on_query_error arg o = (refl, refl)
  apply_flag-steps Args.ignore_dup_key_errors arg o = (refl, refl)
  apply_flag-steps Args.replay_host arg o = (refl, refl)
  apply_flag-steps Args.replay_user arg o = (refl, refl)
  apply_flag-steps Args.replay_pw arg o = (refl, refl)
  apply_flag-steps Args.replay_db arg o = (refl, refl)
  apply_flag-steps Args.replay_ssl_ca arg o = (refl, refl)
  apply_flag-steps Args.replay_ssl_cert arg o = (refl, refl)
  apply_flag-steps Args.replay_ssl_key arg o = (refl, refl)
  apply_flag-steps Args.replay_port arg o = (refl, refl)
  apply_flag-steps Args.replay_speed arg o = (refl, refl)
  apply_flag-steps Args.query_pattern arg o =
      add_pattern-steps o (add_query_pattern machine.pcre o.query_patterns arg)
  apply_flag-steps Args.show_progress arg o = (refl, refl)
  apply_flag-steps Args.record_for_replay arg o = (refl, refl)
  apply_flag-steps Args.csv arg o = (refl, refl)
  apply_flag-steps Args.table_stats arg o = (refl, refl)
  apply_flag-steps Args.version arg o = tt
  apply_flag-steps Args.help arg o = tt
  apply_flag-steps Args.unknown arg o = tt

  args_loop-last :
      (results : List (ℕ × Bytes)) (o : Options machine.pcre)
      → Yields
          (λ o'. (o'.fname ≡ last_input results o.fname) × (o'.do_run ≡ has_run results o.do_run))
          (args_loop machine results o)
  unfolding args_loop
  args_loop-last [] o = (refl, refl)
  args_loop-last ((c, arg) ∷ rest) o =
      Yields-bind
        (λ o'.
          (o'.fname ≡ name_with (flag_of c) arg o.fname)
          × (o'.do_run ≡ run_with (flag_of c) o.do_run))
        _ (apply_flag machine (flag_of c) arg o) (args_loop machine rest)
        (apply_flag-steps (flag_of c) arg o)
        (λ o' (e, f).
          rw (← flag_of-input c arg o.fname, ← flag_of-run c o.do_run, ← e, ← f)
            (args_loop-last rest o'))

  -- Where `parse_args` returns, the file is the argument of the last -i, of which there is one at
  -- least, and the queries are to be replayed exactly if -R is among the options; the options are known by
  -- their letters.
  pub parse_args-last :
      (results : List (ℕ × Bytes))
      → Yields
          (λ o.
            ((name : Bytes) × (o.fname ≡ some name) × (last_input results none ≡ some name))
            × (o.do_run ≡ has_run results false))
          (parse_args machine results)
  unfolding parse_args
  parse_args-last results =
      Yields-bind (λ o. (o.fname ≡ last_input results none) × (o.do_run ≡ has_run results false)) _
        (args_loop machine results (defaults machine.pcre)) _
        (args_loop-last results (defaults machine.pcre)) (λ o (e, f). go o o.fname refl e f)
    where
      go :
          (o : Options machine.pcre) (name : Option Bytes)
          → o.fname ≡ name
          → o.fname ≡ last_input results none
          → o.do_run ≡ has_run results false
          → Yields
              (λ o'.
                ((name : Bytes) × (o'.fname ≡ some name) × (last_input results none ≡ some name))
                × (o'.do_run ≡ has_run results false))
              (elim name [ none ↦ exits 1 | some _ ↦ done o ])
      go o none e f g = tt
      go o (some name) e f g = ((name, e, sym f ∙ e), g)
