-- ===== src/Manager/ReplayFile.antt =====
-- Replay files: `init_replay_file`, `find_or_make_stream` and `process_replay_file`.
pub mod Sound
pub mod Key
pub mod Frame
pub mod Whole
use mysqlpcap.Base.{
  ℕ, zero, suc, ◌/◌, ◌%◌, ◌^◌, Bool, true, not, Option, none, some, [], ◌∷◌, Bytes, length, ◌==◌,
  if◌then◌else◌,
}
use mysqlpcap.Base.Run.{throws, out_of_fuel, M, pure, ◌>>=◌, ◌>>◌}
use mysqlpcap.Manager.{find_stream, save, forget}
use mysqlpcap.Packet.{Packet, empty}
use mysqlpcap.Replay.{read_exactly, replay_read, is_short}
use mysqlpcap.Stats.{same_key}
use mysqlpcap.Stream.{start_replay, end_replay, cleanup}
use mysqlpcap.Stream.Append.{append_packet}
use mysqlpcap.Sys.{Env, Stream, Sys, new_stream, get, put, require, allocate}
use mysqlpcap.Wire.{int2store}

-- `REPLAY_FILE_MAGIC`, and `REPLAY_FILE_VER` as `int2store` writes it
abbrev pub magic : Bytes
magic = b'M' ∷ b'C' ∷ b'A' ∷ b'P' ∷ []

abbrev pub replay_file_ver : ℕ
replay_file_ver = 1

module _ {env : Env} where
  -- `write_to_replay_file`: the flag says that it failed.
  unfoldable pub write_to_replay_file : Bytes → M (Sys env) Bool
  unfolding require
  write_to_replay_file bs = do
    sys ← get
    fd ← require sys.replay_fd
    let (fd', n) = env.os.write fd bs
    put (record sys { replay_fd = some fd' })
    pure (is_short n (length bs))

  -- `init_replay_file`, of the file that `open` gave
  unfoldable pub init_replay_file : Option env.os.File → M (Sys env) Bool
  unfolding write_to_replay_file
  init_replay_file none = do sys ← get; put (record sys { replay_fd = none }); pure true
  init_replay_file (some fd) = do
    sys ← get
    put (record sys { replay_fd = some fd; in_replay_write = true })
    failed ← write_to_replay_file magic
    if failed then pure true else write_to_replay_file (int2store replay_file_ver)

  -- `find_or_make_stream`, with what the search in the map gave
  unfoldable pub find_or_make : (key : ℕ) → Packet → Option Stream → M (Sys env) (Option Stream)
  unfolding save
  find_or_make key pkt none = if pkt.len == 0 then pure none else do
    let src_port = key % 2 ^ 32 % 2 ^ 16
    let s = new_stream (key / 2 ^ 32 % 2 ^ 32) src_port env.mysql_ip (env.mysql_port % 2 ^ 16)
    let s' = if env.do_run then start_replay s else s
    save key s'
    pure (some s')
  find_or_make key pkt (some s) =
      if pkt.len == 0
      then (do let s' = if env.do_run then end_replay s else s; forget key; cleanup s'; pure none)
      else pure (some s)

  -- `find_or_make_stream`
  unfoldable pub find_or_make_stream : (key : ℕ) → Packet → M (Sys env) (Option Stream)
  unfolding find_or_make
  find_or_make_stream key pkt = do sys ← get; find_or_make key pkt (find_stream key sys.lookup)

  -- What the loop of `process_replay_file` does with a packet that it has read.
  unfoldable pub deliver : (key : ℕ) → Packet → M (Sys env) (Unit {0})
  unfolding find_or_make_stream allocate append_packet save
  deliver key pkt = do
    found ← find_or_make_stream key pkt
    elim found [
      | none ↦ pure tt
      | some s ↦ do sys ← get; p ← allocate pkt sys.perf; s' ← append_packet s p; save key s'
    ]

  -- The loop, which ends at a record that cannot be read.
  unfoldable pub replay_loop : ℕ → M (Sys env) (Unit {0})
  unfolding require deliver
  replay_loop zero = λ _. out_of_fuel
  replay_loop (suc fuel) = do
    sys ← get
    fd ← require sys.replay_fd
    let (fd', pkt, perf, result) = replay_read env.os fd empty sys.perf
    put (record sys { replay_fd = some fd'; perf = perf })
    elim result [ none ↦ pure tt | some key ↦ (do deliver key pkt; replay_loop fuel) ]

  -- A read of a part of the file's header, which is thrown about if it is short.
  unfoldable pub read_part : ℕ → M (Sys env) Bytes
  unfolding require
  read_part n = do
    sys ← get
    fd ← require sys.replay_fd
    let (fd', got) = read_exactly env.os fd n
    put (record sys { replay_fd = some fd' })
    elim got [ none ↦ (λ _. throws) | some bs ↦ pure bs ]

  -- `process_replay_file`, of the file that `open` gave. The version is read and not looked at.
  unfoldable pub process_replay_file : (fuel : ℕ) → Option env.os.File → M (Sys env) (Unit {0})
  unfolding read_part replay_loop same_key
  process_replay_file fuel none = λ _. throws
  process_replay_file fuel (some fd) = do
    sys ← get
    put (record sys { replay_fd = some fd })
    found ← read_part 4
    if not (same_key found magic) then (λ _. throws) else do version ← read_part 2; replay_loop fuel
