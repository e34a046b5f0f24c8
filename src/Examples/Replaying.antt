-- ===== src/Examples/Replaying.antt =====
-- A list of a query and its answer on the heap, and a replay of it.
use mysqlpcap.Base.{
  ℕ, ◌≡◌, refl, Bool, true, false, none, some, List, [], ◌∷◌, ◌++◌, Bytes, arith, length, zero, suc,
  ◌<◌, ap, ◌==◌, if◌then◌else◌,
}
use mysqlpcap.Base.Int.{pos}
use mysqlpcap.Base.Run.{ok, fault, Returns, ◌>>=◌, ◌>>◌}
use mysqlpcap.Examples.Running.{silent, settings, start, moment}
use mysqlpcap.Packet.{Packet, Ptr, null, is_query, is_eof, query}
use mysqlpcap.Pattern.{key, get_query_key}
use mysqlpcap.Stream.{link_last, unlink_pkt}
use mysqlpcap.Stream.Complete.{handle_packet_complete}
use mysqlpcap.Stream.Links.{Cells, IsList, SameBut, between}
use mysqlpcap.Stream.Links.Link.{link_last-IsList}
use mysqlpcap.Stream.Links.Unlink.{released, unlink_pkt-IsList}
use mysqlpcap.Sys.{Env, Heap, Stream, Sys, new_stream}
use mysqlpcap.Thread.{
  ReplayOptions, Client, Setup, Player, waits, leaves, finished, gathers, query_len,
}
use mysqlpcap.Thread.Rules.{Answers}
use mysqlpcap.Thread.Steps.{begin, run_replay, stop, step, reader}
use mysqlpcap.Thread.Rounds.{IsWhole, queries, steps}
use mysqlpcap.Thread.Finishes.{run_replay-finishes}
use mysqlpcap.Thread.Overflow.{run_replay-overflows}
use mysqlpcap.Thread.Dangles.{handle_packet_complete-dangles}
use mysqlpcap.Thread.Races.{HasSent, begin-link_last, wake-stop}

abbrev pub packet : (is_in : Bool) → Bytes → Packet
packet is_in bs = record {
  ref_count = 1;
  exec_time = pos 0;
  is_in = is_in;
  ts = moment;
  payload = some bs;
  len = length bs;
  cur_len = length bs;
  next = null;
  prev = null;
}

abbrev pub ask : Packet
ask = packet true (3 ∷ b'D' ∷ b'O' ∷ b' ' ∷ b'1' ∷ [])

abbrev pub answer : Packet
answer = packet false (0 ∷ 0 ∷ 0 ∷ [])

abbrev pub both : Cells
both = (1, ask) ∷ (2, answer) ∷ []

abbrev pub both_heap : Heap
both_heap a =
    if a == 1
    then some (between null 2 ask)
    else if a == 2
    then some (between 1 null answer)
    else none

abbrev pub replayed : Stream
replayed = record (new_stream 0x0100a8c0 0x3412 0x0200a8c0 0xea0c) {
  first = 1;
  last = 2;
  th = true;
}

abbrev pub replaying : Env
replaying = record settings { do_run = true }

-- A server that takes all queries and gives no rows. The clock stands still.
abbrev pub server : Client
server = record {
  World = List Bytes;
  Con = Unit;
  Res = Unit;
  now = λ w. (w, 0);
  sleep_for = λ n w. w;
  mysql_init = λ w. (w, some tt);
  mysql_options = λ c o v w. (w, false);
  mysql_real_connect = λ c o w. (w, false);
  mysql_close = λ c w. w;
  mysql_real_query = λ c q w. (w ++ q ∷ [], false);
  is_dup_entry = λ c w. false;
  mysql_use_result = λ c w. (w, none);
  fetch_rows = λ r w. w;
  mysql_free_result = λ r w. w;
}

abbrev here : ReplayOptions
here = record {
  replay_host = none;
  replay_user = none;
  replay_pw = none;
  replay_db = none;
  replay_port = 3306;
  replay_ssl_ca = none;
  replay_ssl_cert = none;
  replay_ssl_key = none;
  speed_num = 1;
  speed_den = 1;
  ignore_dup_key_errors = false;
  assert_on_query_error = false;
}

abbrev pub setup : Setup
setup = record { env = replaying; client = server; options = here }

abbrev pub shared : Sys replaying
shared = record {
  heap = both_heap;
  fresh = 3;
  perf = start.perf;
  lookup = [];
  slow_queries = [];
  q_stats = start.q_stats;
  table_stats = none;
  first_packet_ts = none;
  replay_fd = none;
  in_replay_write = false;
  ip_stream = start.ip_stream;
}

abbrev player : Player setup
player = record { sys = shared; stream = replayed; con = none; world = []; replay_start_ts = 0 }

pub no_patterns : (q : Bytes) → (k : Bytes) × (get_query_key silent [] q 1023 ≡ key k)
unfolding get_query_key
no_patterns q = ([], refl)

abbrev pub server_answers : Answers setup
server_answers = record {
  sent = λ w. w;
  now_quiet = λ w. refl;
  sleep_quiet = λ n w. refl;
  init_quiet = λ w. refl;
  options_quiet = λ c o v w. refl;
  connect_quiet = λ c w. refl;
  close_quiet = λ c w. refl;
  result_quiet = λ c w. refl;
  rows_quiet = λ r w. refl;
  free_quiet = λ r w. refl;
  query_sent = λ c q w. refl;
  can_init = λ w. (tt, refl);
  can_set = λ c o v w. refl;
  can_connect = λ c w. refl;
  goes_on = refl;
  has_key = no_patterns;
}

pub both-IsList : IsList both_heap replayed both
both-IsList = record {
  first_is = refl;
  last_is = refl;
  linked = (omega arith, refl, (omega arith, refl, tt));
  distinct = ((omega arith, tt), (tt, tt));
}

pub whole :
    (is_in : Bool) (bs : Bytes) → 0 < length bs → length bs < 0xffffff → IsWhole (packet is_in bs)
whole is_in bs h l = record {
  bytes = bs;
  payload_is = refl;
  all_there = refl;
  not_empty = h;
  last_part = l;
  in_use = omega arith;
}

run_replay-finishes_example :
    Returns
      (λ ph pl'.
        (ph ≡ finished)
        × (server_answers.sent pl'.world ≡ server_answers.sent player.world ++ queries both)
        × (pl'.con ≡ none))
      ((do ph ← begin; ph' ← run_replay (steps both) ph; stop; step ph') player)
run_replay-finishes_example =
    run_replay-finishes server_answers player 1 ask ((2, answer) ∷ []) both-IsList
      (
        whole true (3 ∷ b'D' ∷ b'O' ∷ b' ' ∷ b'1' ∷ []) (omega arith) (omega arith),
        (whole false (0 ∷ 0 ∷ 0 ∷ []) (omega arith) (omega arith), tt),
      )
      refl refl

queries-both : queries both ≡ (b'D' ∷ b'O' ∷ b' ' ∷ b'1' ∷ []) ∷ []
unfolding queries is_query mysqlpcap.Packet.byte query
queries-both = refl

-- The stream of which the thread is started before its first packet is there.
abbrev unstarted : Player setup
unstarted = record player {
  sys = record shared { heap = λ a. if a == 1 then some ask else none };
  stream = record replayed { first = null; last = null };
}

unstarted-IsList : IsList unstarted.sys.heap unstarted.stream []
unstarted-IsList = record { first_is = refl; last_is = refl; linked = tt; distinct = tt }

begin-link_last_example :
    Returns
      (HasSent server_answers [])
      ((do ph ← begin; reader (λ s. link_last s 1); run_replay 5 ph) unstarted)
    × Returns (HasSent server_answers (queries ((1, ask) ∷ []))) (
        (do
          reader (λ s. link_last s 1)
          ph ← begin
          ph' ← run_replay (steps ((1, ask) ∷ [])) ph
          stop
          step ph')
          unstarted)
begin-link_last_example =
    begin-link_last server_answers unstarted 1 ask 5 unstarted-IsList (omega arith) refl
      (whole true (3 ∷ b'D' ∷ b'O' ∷ b' ' ∷ b'1' ∷ []) (omega arith) (omega arith)) refl refl

-- The answer stands behind the packet at which the thread waits.
wake-stop_example :
    (step (waits 1) player ≡ ok (leaves 1 2) player)
    × Returns (HasSent server_answers []) ((do stop; step (waits 1)) player)
wake-stop_example = wake-stop server_answers player [] 1 ask 2 answer [] both-IsList refl refl

answer_asks_not : is_query answer ≡ some false
unfolding is_query mysqlpcap.Packet.byte
answer_asks_not = refl

answer_ends_not : is_eof answer ≡ some false
unfolding is_eof mysqlpcap.Packet.byte
answer_ends_not = refl

handle_packet_complete-dangles_example :
    (do reader handle_packet_complete; step (waits 2)) player ≡ fault
handle_packet_complete-dangles_example =
    handle_packet_complete-dangles player ((1, ask) ∷ []) 2 answer (waits 2) both-IsList refl
      answer_asks_not answer_ends_not refl refl

unlink_pkt-IsList_example :
    (s' : Stream) × (sys' : Sys replaying) × (unlink_pkt replayed 1 shared ≡ ok s' sys')
    × (s' ≡ record replayed { first = 2; last = 2 })
    × IsList sys'.heap s' ((2, answer) ∷ [])
    × (sys'.heap 1 ≡ released ask)
    × SameBut both both_heap sys'.heap
unlink_pkt-IsList_example =
    unlink_pkt-IsList replayed 1 ask [] ((2, answer) ∷ []) shared both-IsList (omega arith)

abbrev with_third : Sys replaying
with_third = record shared { heap = λ a. if a == 3 then some ask else both_heap a }

third-IsList : IsList with_third.heap replayed both
third-IsList = record {
  first_is = refl;
  last_is = refl;
  linked = (omega arith, refl, (omega arith, refl, tt));
  distinct = both-IsList.distinct;
}

link_last-IsList_example :
    (s' : Stream) × (h : Heap) × (link_last replayed 3 with_third
      ≡ ok s' (record with_third { heap = h }))
    × (s' ≡ record replayed { first = 1; last = 3 })
    × IsList h s' ((1, ask) ∷ (2, answer) ∷ (3, ask) ∷ [])
    × SameBut ((1, ask) ∷ (2, answer) ∷ (3, ask) ∷ []) with_third.heap h
link_last-IsList_example =
    link_last-IsList replayed 3 ask both with_third third-IsList (omega arith)
      (omega arith, (omega arith, tt)) refl

-- A query of 0xffffff bytes and its end.
unfoldable zeros : ℕ → Bytes
zeros zero = []
zeros (suc n) = 0 ∷ zeros n

length-zeros : (n : ℕ) → length (zeros n) ≡ n
unfolding zeros
length-zeros zero = refl
length-zeros (suc n) = ap suc (length-zeros n)

abbrev long : Packet
long = record ask { payload = some (zeros 0xffffff); len = 0xffffff; cur_len = 0xffffff }

abbrev long_shared : Sys replaying
long_shared = record shared {
  heap = λ a.
      if a == 1
      then some (between null 2 long)
      else if a == 2
      then some (between 1 null ask)
      else none;
}

run_replay-overflows_example :
    run_replay 2 (gathers 1 1 (query_len long) 0) (record player { sys = long_shared }) ≡ fault
run_replay-overflows_example =
    run_replay-overflows (record player { sys = long_shared }) null 1 2 long ask null 0
      (zeros 0xffffff) (omega arith, refl, (omega arith, refl, tt)) (omega arith) refl
      (length-zeros 0xffffff) refl (omega arith)
