-- ===== src/Manager/ReplayFile/Whole.antt =====
-- A whole replay file: its records, one after the other.
use mysqlpcap.Base.{
  ℕ, zero, suc, ◌<◌, ◌≡◌, ◌∙◌, ap, sym, refl, false, Option, none, some, List, [], ◌∷◌, ◌++◌,
  append_assoc, append-nil, Bytes, length, All, arith, ◌==◌, if◌then◌else◌,
}
use mysqlpcap.Base.Run.{ok, M, pure, and_then, and_then-cong, ◌>>◌}
use mysqlpcap.Files.{Files, IsRegular}
use mysqlpcap.Manager.ReplayFile.{magic, deliver, replay_loop, read_part, process_replay_file}
use mysqlpcap.Packet.{Packet, PerfStats, empty}
use mysqlpcap.Replay.{read_exactly, replay_read, replay_write, allocate}
use mysqlpcap.Replay.Record.{IsRecord, encode, read_exactly-append, replay_write-encode}
use mysqlpcap.Replay.RoundTrip.{read_into, replay_read-encode, replay_read_end}
use mysqlpcap.Sys.{Env, Sys, get, put, require}
use mysqlpcap.Sys.Frame.{At}
use mysqlpcap.Manager.ReplayFile.Frame.{deliver-Frame}

-- The records of a file, and their bytes.
abbrev pub Records : Type 0
Records = List (ℕ × Packet)

abbrev pub encode_all : Records → Bytes
encode_all [] = []
encode_all ((key, p) ∷ rs) = encode key p ++ encode_all rs

abbrev pub AreRecords : Records → Type 0
AreRecords rs = All (λ r. IsRecord r.0 r.1) rs

module _ {env : Env} where
  -- The state when a record has been read: the file stands behind it, and its buffer is counted.
  abbrev pub behind : env.os.File → Packet → Sys env → Sys env
  behind fd p sys = record sys {
    replay_fd = some (replay_read env.os fd empty sys.perf).0;
    perf = if p.len == 0 then sys.perf else allocate sys.perf p.len;
  }

  -- Each record is delivered, in their order, and at last a read meets the end of the file.
  pub deliver_all : env.os.File → Records → M (Sys env) (Unit {0})
  deliver_all fd [] sys =
      ok tt (record sys { replay_fd = some (replay_read env.os fd empty sys.perf).0 })
  deliver_all fd ((key, p) ∷ rs) sys =
      and_then (deliver key (read_into empty p) (behind fd p sys))
        (λ _. deliver_all (replay_read env.os fd empty sys.perf).0 rs)

module _ {env : Env} where
  -- What a round of the loop does with what `replay_read` gives.
  round : ℕ → env.os.File × Packet × PerfStats × Option ℕ → M (Sys env) (Unit {0})
  round fuel (fd, pkt, perf, none) sys = ok tt (record sys { replay_fd = some fd; perf = perf })
  round fuel (fd, pkt, perf, some key) sys =
      and_then (deliver key pkt (record sys { replay_fd = some fd; perf = perf }))
        (λ _. replay_loop fuel)

  round_lem :
      (fuel : ℕ) (sys : Sys env) (fd : env.os.File)
      → sys.replay_fd ≡ some fd
      → replay_loop (suc fuel) sys ≡ round fuel (replay_read env.os fd empty sys.perf) sys
  unfolding replay_loop get put require round
  round_lem fuel sys fd e = simp e (go (replay_read env.os fd empty sys.perf).3)
    where
      go :
          (o : Option ℕ)
          → (elim o as (λ _. M (Sys env) (Unit {0})) [
            | none ↦ pure tt
            | some key ↦ (do deliver key (replay_read env.os fd empty sys.perf).1; replay_loop fuel)
          ])
              (record sys {
                replay_fd = some (replay_read env.os fd empty sys.perf).0;
                perf = (replay_read env.os fd empty sys.perf).2;
              })
            ≡ round fuel
                (
                  (replay_read env.os fd empty sys.perf).0,
                  (replay_read env.os fd empty sys.perf).1,
                  (replay_read env.os fd empty sys.perf).2,
                  o,
                )
                sys
      go none = refl
      go (some key) = refl

module _ {env : Env} (regular : IsRegular env.os) where
  open regular use {remaining}

  -- At a record.
  record_step :
      (fuel key : ℕ) (p : Packet) (fd : env.os.File) (sys : Sys env) (rest : Bytes)
      → IsRecord key p
      → sys.replay_fd ≡ some fd
      → remaining fd ≡ encode key p ++ rest
      → replay_loop (suc fuel) sys
        ≡ and_then (deliver key (read_into empty p) (behind fd p sys)) (λ _. replay_loop fuel)
  unfolding round
  record_step fuel key p fd sys rest r e h =
      let (found, packet, counted, left) =
        replay_read-encode env.os regular fd key p empty sys.perf rest r h in
      round_lem fuel sys fd e ∙ λ i.
      round fuel ((replay_read env.os fd empty sys.perf).0, packet i, counted i, found i) sys

  -- At the end.
  end_step :
      (fuel : ℕ) (fd : env.os.File) (sys : Sys env)
      → sys.replay_fd ≡ some fd
      → remaining fd ≡ []
      → replay_loop (suc fuel) sys ≡ deliver_all fd [] sys
  unfolding round deliver_all
  end_step fuel fd sys e h =
      let (found, counted) = replay_read_end env.os regular fd empty sys.perf h in
      round_lem fuel sys fd e ∙ λ i.
      round fuel
        (
          (replay_read env.os fd empty sys.perf).0,
          (replay_read env.os fd empty sys.perf).1,
          counted i,
          found i,
        )
        sys

  loop_whole :
      (fuel : ℕ) (rs : Records) (fd : env.os.File) (sys : Sys env)
      → length rs < fuel
      → AreRecords rs
      → sys.replay_fd ≡ some fd
      → sys.in_replay_write ≡ false
      → remaining fd ≡ encode_all rs
      → replay_loop fuel sys ≡ deliver_all fd rs sys
  unfolding deliver_all
  loop_whole zero rs fd sys l a e w h = absurd (omega arith)
  loop_whole (suc fuel) [] fd sys l a e w h = end_step fuel fd sys e h
  loop_whole (suc fuel) ((key, p) ∷ rs) fd sys l (r, a) e w h =
      record_step fuel key p fd sys (encode_all rs) r e h
      ∙ and_then-cong (λ _ t. At (some fd') t) (deliver key (read_into empty p) (behind fd p sys))
          (λ _. replay_loop fuel) (λ _. deliver_all fd' rs)
          ((deliver-Frame key (read_into empty p)).from (behind fd p sys) (refl, w))
          (λ _ t q. loop_whole fuel rs fd' t (omega arith) a q.0 q.1 left)
    where
      fd' : env.os.File
      fd' = (replay_read env.os fd empty sys.perf).0

      left : remaining fd' ≡ encode_all rs
      left = (replay_read-encode env.os regular fd key p empty sys.perf (encode_all rs) r h).3

module _ (os : Files) where
  open os use {File}

  -- The file behind the magic number and the version.
  abbrev pub behind_version : File → File
  behind_version fd = (read_exactly os (read_exactly os fd 4).0 2).0

  -- The records are written one after the other.
  pub write_records : File → Records → File
  write_records f [] = f
  write_records f ((key, p) ∷ rs) = write_records (replay_write os f key p).0 rs

  written-write_records :
      (regular : IsRegular os) (f : File) (rs : Records)
      → AreRecords rs
      → regular.written (write_records f rs) ≡ regular.written f ++ encode_all rs
  unfolding write_records
  written-write_records regular f [] _ = sym (append-nil (regular.written f))
  written-write_records regular f ((key, p) ∷ rs) (r, a) =
      written-write_records regular (replay_write os f key p).0 rs a
      ∙ ap (λ bs. bs ++ encode_all rs) (replay_write-encode os regular f key p r.full).1
      ∙ append_assoc (regular.written f) (encode key p) (encode_all rs)

module _ {env : Env} (regular : IsRegular env.os) where
  open regular use {written, remaining}

  -- With files that behave as POSIX says of regular ones: a file that was begun with the magic number
  -- and two bytes of a version, and to which `replay_write` wrote packets whose numbers have their
  -- widths and whose buffers are full, is read by `process_replay_file` as just these packets: while
  -- no replay file is written, and with more fuel than packets, it delivers each under its key, in
  -- their order, and ends at the end of the file.
  pub process_replay_file-write_records :
      (fuel : ℕ) (rs : Records) (f fd : env.os.File) (version : Bytes) (sys : Sys env)
      → length rs < fuel
      → AreRecords rs
      → length version ≡ 2
      → written f ≡ magic ++ version
      → remaining fd ≡ written (write_records env.os f rs)
      → sys.in_replay_write ≡ false
      → process_replay_file fuel (some fd) sys
        ≡ deliver_all
            (behind_version env.os fd)
            rs
            (record sys { replay_fd = some (behind_version env.os fd) })
  unfolding process_replay_file read_part get put require read_exactly deliver_all
  process_replay_file-write_records fuel rs f fd version sys l a two begun h w =
      let all =
        h
        ∙ (written-write_records env.os regular f rs a
            ∙ (ap (λ bs. bs ++ encode_all rs) begun
                ∙ append_assoc magic version (encode_all rs))) in
      let (first, left) =
        read_exactly-append env.os regular fd 4 magic (version ++ encode_all rs) refl all in
      let (second, left') =
        read_exactly-append env.os regular (read_exactly env.os fd 4).0 2 version (encode_all rs)
          two left in
      simp (first, second)
        (loop_whole regular fuel rs (behind_version env.os fd)
          (record sys { replay_fd = some (behind_version env.os fd) }) l a refl w left')
