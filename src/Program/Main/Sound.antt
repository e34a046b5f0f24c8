-- ===== src/Program/Main/Sound.antt =====
-- The manager of a capture keeps its invariant from the first frame to the last.
use mysqlpcap.Base.{ℕ, Bool, true, false, Option, none, some, List, [], ◌∷◌, Bytes, length, map}
use mysqlpcap.Base.Run.{Run, ok, throws, fault, out_of_fuel, Ensures}
use mysqlpcap.Manager.Capture.{Frame}
use mysqlpcap.Manager.Capture.Sound.{process_pkt-Keeps}
use mysqlpcap.Manager.ReplayFile.{magic, replay_file_ver, write_to_replay_file, init_replay_file}
use mysqlpcap.Replay.{is_short}
use mysqlpcap.Wire.{int2store}
use mysqlpcap.Manager.Shutdown.{finalize_all, finish_replay, print_query_stats}
use mysqlpcap.Manager.Sound.{AreReady, end-IsReady}
use mysqlpcap.Program.{Yields, Yields-bind, Machine, Options}
use mysqlpcap.Program.Loop.{capture_loop, finish}
use mysqlpcap.Program.Main.{
  caught, uncaught, recording, settings, new_manager, start_record, process_frames,
}
use mysqlpcap.Stream.{end_replay}
use mysqlpcap.Sys.{Env, Stream, Sys}
use mysqlpcap.Sys.Sound.{
  IsSound, Keeps, Any, any, bind-Keeps, branch-Keeps, pure-Keeps, require-Keeps, get-Keeps,
  put-Keeps,
}

ended : (m : List (ℕ × Stream)) → AreReady m → AreReady (map (λ (k, s). (k, end_replay s)) m)
ended [] h = tt
ended ((k, s) ∷ m) h = (end-IsReady true s h.0, ended m h.1)

module _ {env : Env} where
  write_to_replay_file-Keeps : (bs : Bytes) → Keeps {env = env} Any (write_to_replay_file bs)
  unfolding write_to_replay_file
  write_to_replay_file-Keeps bs = bind-Keeps get-Keeps (λ sys sound.
      bind-Keeps (require-Keeps Any sys.replay_fd (any sys.replay_fd)) (λ fd _.
        bind-Keeps
          (put-Keeps (record sys { replay_fd = some (env.os.write fd bs).0 })
            (record { bounded = sound.bounded; ready = sound.ready }))
          (λ _ _. pure-Keeps Any (is_short (env.os.write fd bs).1 (length bs)) tt)))

  init_replay_file-Keeps : (o : Option env.os.File) → Keeps {env = env} Any (init_replay_file o)
  unfolding init_replay_file
  init_replay_file-Keeps none = bind-Keeps get-Keeps (λ sys sound.
      bind-Keeps
        (put-Keeps (record sys { replay_fd = none })
          (record { bounded = sound.bounded; ready = sound.ready }))
        (λ _ _. pure-Keeps Any true tt))
  init_replay_file-Keeps (some fd) = bind-Keeps get-Keeps (λ sys sound.
      bind-Keeps
        (put-Keeps (record sys { replay_fd = some fd; in_replay_write = true })
          (record { bounded = sound.bounded; ready = sound.ready }))
        (λ _ _. bind-Keeps (write_to_replay_file-Keeps magic) (λ failed _.
          branch-Keeps failed (λ _. pure-Keeps Any true tt)
            (λ _. write_to_replay_file-Keeps (int2store replay_file_ver)))))

  finish_replay-Keeps : Keeps {env = env} Any finish_replay
  unfolding finish_replay
  finish_replay-Keeps = bind-Keeps get-Keeps (λ sys sound.
      put-Keeps (record sys { lookup = map (λ (k, s). (k, end_replay s)) sys.lookup })
        (record { bounded = sound.bounded; ready = ended sys.lookup sound.ready }))

  print_query_stats-Keeps : Keeps {env = env} Any print_query_stats
  unfolding print_query_stats
  print_query_stats-Keeps = bind-Keeps get-Keeps (λ sys sound.
      put-Keeps (record sys { q_stats = finalize_all sys.q_stats })
        (record { bounded = sound.bounded; ready = sound.ready }))

  capture_loop-Keeps : (frames : List Frame) → Keeps {env = env} Any (capture_loop frames)
  unfolding capture_loop
  capture_loop-Keeps [] = pure-Keeps Any tt tt
  capture_loop-Keeps (f ∷ frames) =
      bind-Keeps (process_pkt-Keeps f) (λ _ _. capture_loop-Keeps frames)

  finish-Keeps : (do_run : Bool) → Keeps {env = env} Any (finish do_run)
  unfolding finish
  finish-Keeps true = bind-Keeps finish_replay-Keeps (λ _ _. print_query_stats-Keeps)
  finish-Keeps false = print_query_stats-Keeps

  caught-IsSound :
      {A : Type 0} (r : Run (Sys env) A)
      → Ensures (λ a t. Any a × IsSound env t) r
      → Yields (IsSound env) (caught r)
  caught-IsSound (ok a s) h = h.1
  caught-IsSound throws h = tt
  caught-IsSound fault h = tt
  caught-IsSound out_of_fuel h = tt

  uncaught-IsSound :
      {A : Type 0} (r : Run (Sys env) A)
      → Ensures (λ a t. Any a × IsSound env t) r
      → Yields (IsSound env) (uncaught r)
  uncaught-IsSound (ok a s) h = h.1
  uncaught-IsSound throws h = tt
  uncaught-IsSound fault h = tt
  uncaught-IsSound out_of_fuel h = tt

  recording-IsSound :
      (r : Run (Sys env) Bool)
      → Ensures (λ a t. Any a × IsSound env t) r
      → Yields (IsSound env) (recording r)
  recording-IsSound (ok true s) h = tt
  recording-IsSound (ok false s) h = h.1
  recording-IsSound throws h = tt
  recording-IsSound fault h = tt
  recording-IsSound out_of_fuel h = tt

  start_record-IsSound :
      (create : Bytes → Option env.os.File) (file : Option Bytes) (sys : Sys env)
      → IsSound env sys
      → Yields (IsSound env) (start_record create file sys)
  unfolding start_record
  start_record-IsSound create none sys sound = sound
  start_record-IsSound create (some name) sys sound =
      recording-IsSound (init_replay_file (create name) sys)
        ((init_replay_file-Keeps (create name)).from sys sound)

-- Whatever the options, the frames and the machine are: where `process_pcap_file` comes to the end
-- of its manager, no packet on the manager's heap has received more bytes than its length, of 32
-- bits, nor holds more than that in its buffer, and every stream of the map has less than four bytes
-- of a header in its buffer of four.
process_frames-IsSound :
    (machine : Machine) (o : Options machine.pcre) (n : ℕ) (frames : List Frame)
    → Yields (IsSound (settings machine o n)) (process_frames machine o n frames)
unfolding process_frames
process_frames-IsSound machine o n frames =
    let env = settings machine o n in
    Yields-bind (IsSound env) (IsSound env) _ _
      (Yields-bind (IsSound env) (IsSound env)
        (start_record machine.open_write o.record_for_replay_file (new_manager machine o n))
        (λ sys. caught (capture_loop frames sys))
        (start_record-IsSound machine.open_write o.record_for_replay_file (new_manager machine o n)
          (record { bounded = λ p. tt; ready = tt }))
        (λ sys sound.
          caught-IsSound (capture_loop frames sys) ((capture_loop-Keeps frames).from sys sound)))
      (λ sys sound. uncaught-IsSound (finish o.do_run sys) ((finish-Keeps o.do_run).from sys sound))
