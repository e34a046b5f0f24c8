-- ===== src/Manager/ReplayFile/Sound.antt =====
-- Reading a replay file keeps the invariant, whatever the file holds.
use mysqlpcap.Base.{
  ℕ, zero, suc, ◌/◌, ◌%◌, ◌^◌, ◌≡◌, refl, not, Option, none, some, Bytes, arith, length, ◌==◌,
  ==_iff, if◌then◌else◌, Bool-cases, inl, inr,
}
use mysqlpcap.Base.Maybe.{Gives}
use mysqlpcap.Base.Run.{Ensures}
use mysqlpcap.Files.{Files}
use mysqlpcap.Manager.{find_stream}
use mysqlpcap.Manager.ReplayFile.{
  magic, find_or_make, find_or_make_stream, deliver, replay_loop, read_part, process_replay_file,
}
use mysqlpcap.Manager.Sound.{
  find_stream-IsReady, new_stream-IsReady, start-IsReady, end-IsReady, save-Keeps, forget-Keeps,
}
use mysqlpcap.Packet.{Packet, PerfStats, empty}
use mysqlpcap.Packet.Bounds.{IsBounded}
use mysqlpcap.Replay.{whole, parse_header, read_exactly, read_body, read_rest, replay_read}
use mysqlpcap.Stats.{same_key}
use mysqlpcap.Stream.{start_replay, end_replay}
use mysqlpcap.Stream.Append.Sound.{append_packet-Keeps}
use mysqlpcap.Stream.Sound.{cleanup-Keeps}
use mysqlpcap.Sys.{Env, Stream, Sys, new_stream}
use mysqlpcap.Sys.Sound.{
  IsReady, IsSound, Keeps, Any, any, throws-Keeps, out_of_fuel-Keeps, bind-Keeps, branch-Keeps,
  pure-Keeps, require-Keeps, option-Keeps, get-Keeps, put-Keeps, allocate-Keeps, sound_only,
}
use mysqlpcap.Wire.{uint4korr}

whole-length : (o : Option Bytes) (n : ℕ) → Gives (λ bs. length bs ≡ n) (whole o n)
unfolding whole
whole-length none n = tt
whole-length (some bs) n = elim (Bool-cases (length bs == n)) [
  | inl same ↦ rw same ((==_iff (length bs) n).0 same)
  | inr other ↦ rw other tt
]

parse_header-IsBounded : (buf : Bytes) → IsBounded (parse_header empty buf).1
unfolding parse_header uint4korr
parse_header-IsBounded buf = record {
  within = omega arith;
  narrow = omega arith;
  inside = omega arith;
}

parse_header-cur_len : (buf : Bytes) → (parse_header empty buf).1.cur_len ≡ 0
unfolding parse_header
parse_header-cur_len buf = refl

read_exactly-length :
    (os : Files) (f : os.File) (n : ℕ) → Gives (λ bs. length bs ≡ n) (read_exactly os f n).1
unfolding read_exactly
read_exactly-length os f n = whole-length (os.read f n).1 n

read_body-IsBounded :
    (os : Files) (f : os.File) (key : ℕ) (q : Packet) (perf : PerfStats) (o : Option Bytes)
    → IsBounded q
    → q.cur_len ≡ 0
    → Gives (λ bs. length bs ≡ q.len) o
    → IsBounded (read_body os f key q perf o).1
unfolding read_body
read_body-IsBounded os f key q perf none g e h = record {
  within = omega arith;
  narrow = omega arith;
  inside = omega arith;
}
read_body-IsBounded os f key q perf (some bs) g e h = record {
  within = omega arith;
  narrow = g.narrow;
  inside = omega (arith, h);
}

read_rest-IsBounded :
    (os : Files) (f : os.File) (perf : PerfStats) (got : Option Bytes)
    → IsBounded (read_rest os f empty perf got).1
unfolding read_rest
read_rest-IsBounded os f perf none = record {
  within = omega arith;
  narrow = omega arith;
  inside = omega arith;
}
read_rest-IsBounded os f perf (some buf) = elim (Bool-cases ((parse_header empty buf).1.len == 0)) [
  | inl no_body ↦ rw no_body (parse_header-IsBounded buf)
  | inr body ↦ rw body (
      read_body-IsBounded os (read_exactly os f (parse_header empty buf).1.len).0
        (parse_header empty buf).0 (parse_header empty buf).1 perf
        (read_exactly os f (parse_header empty buf).1.len).1 (parse_header-IsBounded buf)
        (parse_header-cur_len buf) (read_exactly-length os f (parse_header empty buf).1.len))
]

-- A packet that is read from a file, whole or not.
replay_read-IsBounded :
    (os : Files) (f : os.File) (perf : PerfStats) → IsBounded (replay_read os f empty perf).1
unfolding replay_read
replay_read-IsBounded os f perf = read_rest-IsBounded os _ perf _

module _ {env : Env} where
  find_or_make-Keeps :
      (key : ℕ) (pkt : Packet) (o : Option Stream)
      → Gives IsReady o
      → Keeps {env = env} (Gives IsReady) (find_or_make key pkt o)
  unfolding find_or_make
  find_or_make-Keeps key pkt none r =
      branch-Keeps (pkt.len == 0) (λ _. pure-Keeps (Gives IsReady) none tt)
        (λ _.
          bind-Keeps (save-Keeps key made made-IsReady)
            (λ _ _. pure-Keeps (Gives IsReady) (some made) made-IsReady))
    where
      fresh_stream : Stream
      fresh_stream =
          new_stream (key / 2 ^ 32 % 2 ^ 32) (key % 2 ^ 32 % 2 ^ 16) env.mysql_ip
            (env.mysql_port % 2 ^ 16)

      made : Stream
      made = if env.do_run then start_replay fresh_stream else fresh_stream

      made-IsReady : IsReady made
      made-IsReady = start-IsReady env.do_run fresh_stream (new_stream-IsReady _ _ _ _)
  find_or_make-Keeps key pkt (some s) r =
      branch-Keeps (pkt.len == 0)
        (λ _. bind-Keeps (forget-Keeps key) (λ _ _.
          bind-Keeps
            (cleanup-Keeps (if env.do_run then end_replay s else s) (end-IsReady env.do_run s r))
            (λ _ _. pure-Keeps (Gives IsReady) none tt)))
        (λ _. pure-Keeps (Gives IsReady) (some s) r)

  find_or_make_stream-Keeps :
      (key : ℕ) (pkt : Packet) → Keeps {env = env} (Gives IsReady) (find_or_make_stream key pkt)
  unfolding find_or_make_stream
  find_or_make_stream-Keeps key pkt = bind-Keeps get-Keeps (λ sys sound.
      find_or_make-Keeps key pkt (find_stream key sys.lookup)
        (find_stream-IsReady key sys.lookup sound.ready))

  deliver-Keeps : (key : ℕ) (pkt : Packet) → IsBounded pkt → Keeps {env = env} Any (deliver key pkt)
  unfolding deliver
  deliver-Keeps key pkt g = bind-Keeps (find_or_make_stream-Keeps key pkt) (λ found r.
      option-Keeps IsReady found r (pure-Keeps Any tt tt) (λ s ready. bind-Keeps get-Keeps (λ sys _.
        bind-Keeps (allocate-Keeps pkt sys.perf g)
          (λ p _. bind-Keeps (append_packet-Keeps s p ready) (λ s' r'. save-Keeps key s' r')))))

  replay_loop-Keeps : (fuel : ℕ) → Keeps {env = env} Any (replay_loop fuel)
  unfolding replay_loop
  replay_loop-Keeps zero = out_of_fuel-Keeps
  replay_loop-Keeps (suc fuel) = bind-Keeps get-Keeps (λ sys sound.
      bind-Keeps (require-Keeps Any sys.replay_fd (any _)) (λ fd _.
        bind-Keeps
          (put-Keeps
            (record sys {
              replay_fd = some (replay_read env.os fd empty sys.perf).0;
              perf = (replay_read env.os fd empty sys.perf).2;
            })
            (record { bounded = sound.bounded; ready = sound.ready }))
          (λ _ _.
            option-Keeps Any (replay_read env.os fd empty sys.perf).3 (any _) (pure-Keeps Any tt tt)
              (λ key _.
                bind-Keeps (deliver-Keeps key _ (replay_read-IsBounded env.os fd sys.perf))
                  (λ _ _. replay_loop-Keeps fuel)))))

  read_part-Keeps : (n : ℕ) → Keeps {env = env} Any (read_part n)
  unfolding read_part
  read_part-Keeps n = bind-Keeps get-Keeps (λ sys sound.
      bind-Keeps (require-Keeps Any sys.replay_fd (any _)) (λ fd _.
        bind-Keeps
          (put-Keeps (record sys { replay_fd = some (read_exactly env.os fd n).0 })
            (record { bounded = sound.bounded; ready = sound.ready }))
          (λ _ _.
            option-Keeps Any (read_exactly env.os fd n).1 (any _) throws-Keeps
              (λ bs _. pure-Keeps Any bs tt))))

  process_replay_file-Keeps :
      (fuel : ℕ) (o : Option env.os.File) → Keeps {env = env} Any (process_replay_file fuel o)
  unfolding process_replay_file
  process_replay_file-Keeps fuel none = throws-Keeps
  process_replay_file-Keeps fuel (some fd) = bind-Keeps get-Keeps (λ sys sound.
      bind-Keeps
        (put-Keeps (record sys { replay_fd = some fd })
          (record { bounded = sound.bounded; ready = sound.ready }))
        (λ _ _. bind-Keeps (read_part-Keeps 4) (λ found _.
          branch-Keeps (not (same_key found magic)) (λ _. throws-Keeps)
            (λ _. bind-Keeps (read_part-Keeps 2) (λ version _. replay_loop-Keeps fuel)))))

  -- If in the manager's state no packet on the heap has received more bytes than its length, of 32 bits,
  -- nor holds more than that in its buffer, and every stream of the map has less than four bytes of a
  -- header in its buffer of four, then the same holds in any state in which `process_replay_file` returns, whatever the file
  -- holds and however its reads turn out.
  process_replay_file-IsSound :
      (fuel : ℕ) (file : Option env.os.File) (sys : Sys env)
      → IsSound env sys
      → Ensures (λ _ t. IsSound env t) (process_replay_file fuel file sys)
  process_replay_file-IsSound fuel file sys sound =
      sound_only Any (process_replay_file fuel file sys)
        ((process_replay_file-Keeps fuel file).from sys sound)
