-- ===== src/Program/Main/Magic.antt =====
-- A file that `init_replay_file` has begun is taken for a replay file.
use mysqlpcap.Base.{
  ℕ, ◌≡◌, ◌∙◌, ap, refl, true, false, not, some, [], ◌++◌, Bytes, length, take, ◌==◌, if◌then◌else◌,
  arith,
}
use mysqlpcap.Base.Run.{pure, Returns, Returns-and_then}
use mysqlpcap.Files.{IsRegular}
use mysqlpcap.Manager.ReplayFile.{magic, replay_file_ver, write_to_replay_file, init_replay_file}
use mysqlpcap.Program.{done, Machine, Options}
use mysqlpcap.Program.Main.{has_magic, is_replay, settings}
use mysqlpcap.Replay.{is_short, whole}
use mysqlpcap.Stats.{same_key}
use mysqlpcap.Sys.{Env, Sys, get, put, require}
use mysqlpcap.Wire.{int2store}

module _ {env : Env} (regular : IsRegular env.os) where
  -- The file stands behind `replay_fd`, with what was written to it.
  abbrev pub HasWritten : Bytes → Sys env → Type 0
  HasWritten bs sys = (fd : env.os.File) × (sys.replay_fd ≡ some fd) × (regular.written fd ≡ bs)

  write_to_replay_file-adds :
      (bs new : Bytes) (sys : Sys env)
      → HasWritten bs sys
      → Returns
          (λ failed t. (failed ≡ false) × HasWritten (bs ++ new) t)
          (write_to_replay_file new sys)
  unfolding write_to_replay_file get put require is_short
  write_to_replay_file-adds bs new sys (fd, here, w) = simp here (
    rw (regular.write_all fd new) (same (length new)),
    ((env.os.write fd new).0, refl, regular.write_behind fd new ∙ ap (λ b. b ++ new) w),
  )
    where
      same : (n : ℕ) → not (n == n) ≡ false
      same n = ground arith

  init_replay_file-writes :
      (fd : env.os.File) (sys : Sys env)
      → regular.written fd ≡ []
      → Returns
          (λ failed t. (failed ≡ false) × HasWritten (magic ++ int2store replay_file_ver) t)
          (init_replay_file (some fd) sys)
  unfolding init_replay_file get put
  init_replay_file-writes fd sys new =
      Returns-and_then (λ failed t. (failed ≡ false) × HasWritten magic t) _
        (write_to_replay_file magic (record sys { replay_fd = some fd; in_replay_write = true }))
        (λ failed. if failed then pure true else write_to_replay_file (int2store replay_file_ver))
        (write_to_replay_file-adds [] magic
          (record sys { replay_fd = some fd; in_replay_write = true }) (fd, refl, new))
        (λ failed t (e, has).
          rw e (write_to_replay_file-adds magic (int2store replay_file_ver) t has))

-- With files that behave as POSIX says of regular ones, for a manager of the program: on a new file
-- `init_replay_file` reports no error, and the file then holds the magic number and the version; and
-- whatever follows these in a file, `process_file` takes it for a replay file.
pub is_replay-init_replay_file :
    (machine : Machine) (regular : IsRegular machine.os) (o : Options machine.pcre) (n : ℕ)
    (fd g : machine.os.File) (sys : Sys (settings machine o n)) (rest : Bytes)
    → regular.written fd ≡ []
    → regular.remaining g ≡ (magic ++ int2store replay_file_ver) ++ rest
    → Returns
        (λ failed t.
          (failed ≡ false)
          × HasWritten {env = settings machine o n} regular (magic ++ int2store replay_file_ver) t)
        (init_replay_file (some fd) sys)
      × (is_replay machine (some g) ≡ done true)
unfolding is_replay whole has_magic same_key
is_replay-init_replay_file machine regular o n fd g sys rest new holds = (
  init_replay_file-writes {env = settings machine o n} regular fd sys new,
  ap (λ r. has_magic (whole r 4)) (regular.read_next g 4 ∙ ap (λ b. some (take 4 b)) holds),
)
