-- ===== src/Examples/Commands.antt =====
-- A command line, a replay file, and the end of a manager.
use mysqlpcap.Base.{ℕ, ◌≡◌, refl, true, false, none, some, List, [], ◌∷◌, ◌++◌, Bytes, arith}
use mysqlpcap.Base.Run.{fault, Returns}
use mysqlpcap.Examples.Replaying.{ask, both, both_heap, replayed, shared, replaying, both-IsList}
use mysqlpcap.Examples.ReplayFiles.{memory-IsRegular}
use mysqlpcap.Examples.Running.{silent}
use mysqlpcap.Files.{memory}
use mysqlpcap.Manager.{find_stream}
use mysqlpcap.Manager.ReplayFile.Key.{find_or_make_stream-get_key}
use mysqlpcap.Manager.ReplayFile.{find_or_make_stream, magic, replay_file_ver, init_replay_file}
use mysqlpcap.Manager.Shutdown
use mysqlpcap.Manager.Shutdown.Freed.{AreReleased, cleanup-frees, cleanup-dangles}
use mysqlpcap.Packet.{null}
use mysqlpcap.Program.{Yields, Machine, Options, done, defaults}
use mysqlpcap.Program.Args.{flag_of, apply_flag, parse_args}
use mysqlpcap.Program.Args.Last.{last_input, has_run, parse_args-last}
use mysqlpcap.Program.Main.{settings, new_manager, is_replay}
use mysqlpcap.Program.Main.Magic.{HasWritten, is_replay-init_replay_file}
use mysqlpcap.Stream
use mysqlpcap.Stream.Links.{SameBut, between}
use mysqlpcap.Sys.{Stream, get_key, Sys}
use mysqlpcap.Wire.{int2store}

-- A machine with no files, on which every output can be opened.
abbrev machine : Machine
machine = record {
  os = memory;
  pcre = silent;
  atoi = λ s. 0;
  atof = λ s. (1, 1);
  inet_aton = λ s. none;
  parse_tables = λ q. [];
  stat = λ name. none;
  open_read = λ name. none;
  open_write = λ name. some ([], []);
  can_create = λ name. true;
  pcap_open_offline = λ name. none;
}

-- `-i a.pcap -R`, and the same with another -i behind it.
abbrev words : List (ℕ × Bytes)
words = (b'i', b'a' ∷ []) ∷ (b'R', []) ∷ (b'i', b'b' ∷ []) ∷ []

parse_args-last_example :
    Yields
      (λ o.
        ((name : Bytes) × (o.fname ≡ some name) × (last_input words none ≡ some name))
        × (o.do_run ≡ has_run words false))
      (parse_args machine words)
parse_args-last_example = parse_args-last machine words

parse_words :
    parse_args machine words
    ≡ done (record (defaults silent) { fname = some (b'b' ∷ []); do_run = true })
unfolding parse_args flag_of apply_flag
parse_words = refl

abbrev options : Options silent
options = record (defaults silent) {
  record_for_replay_file = some (b'r' ∷ []);
  mysql_ip = 0x0200a8c0;
}

is_replay-init_replay_file_example :
    Returns
      (λ failed t.
        (failed ≡ false)
        × HasWritten {env = settings machine options 0} memory-IsRegular
            (magic ++ int2store replay_file_ver)
            t)
      (init_replay_file (some ([], [])) (new_manager machine options 0))
    × (is_replay machine (some ([], (magic ++ int2store replay_file_ver) ++ 1 ∷ 2 ∷ []))
        ≡ done true)
is_replay-init_replay_file_example =
    is_replay-init_replay_file machine memory-IsRegular options 0 ([], [])
      ([], (magic ++ int2store replay_file_ver) ++ 1 ∷ 2 ∷ []) (new_manager machine options 0)
      (1 ∷ 2 ∷ []) refl refl

cleanup-frees_example :
    Returns
      (λ s' sys'.
        (s'.first ≡ null)
        × (s'.last ≡ null)
        × AreReleased sys'.heap both
        × SameBut both both_heap sys'.heap)
      (Stream.cleanup replayed shared)
cleanup-frees_example =
    cleanup-frees replayed both shared both-IsList (omega arith, (omega arith, tt)) (omega arith)

abbrev with_slow : Sys replaying
with_slow = record shared { slow_queries = 1 ∷ []; lookup = (5, replayed) ∷ [] }

cleanup-dangles_example : Shutdown.cleanup with_slow ≡ fault
cleanup-dangles_example =
    cleanup-dangles with_slow 1 (between null 2 ask) 5 replayed [] refl refl refl (omega arith)
      (omega arith) refl (omega arith)

no_stream : find_stream (get_key 0x0100a8c0 0x3412) shared.lookup ≡ none
unfolding find_stream
no_stream = refl

find_or_make_stream-get_key_example :
    Returns
      (λ found t.
        (s : Stream) × (found ≡ some s)
        × (s.src_ip ≡ 0x0100a8c0)
        × (s.src_port ≡ 0x3412)
        × (s.th ≡ true)
        × (find_stream (get_key 0x0100a8c0 0x3412) t.lookup ≡ some s))
      (find_or_make_stream (get_key 0x0100a8c0 0x3412) ask shared)
find_or_make_stream-get_key_example =
    find_or_make_stream-get_key 0x0100a8c0 0x3412 ask shared (omega arith) (omega arith)
      (omega arith) no_stream
