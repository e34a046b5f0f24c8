-- ===== src/Examples/Records.antt =====
-- A replay file of two records, in memory, as it is written and read.
use mysqlpcap.Base.{◌≡◌, refl, some, [], ◌∷◌, ◌++◌, arith}
use mysqlpcap.Examples.ReplayFiles.{memory-IsRegular, full, full-IsRecord}
use mysqlpcap.Examples.Running.{settings, start}
use mysqlpcap.Files.{memory}
use mysqlpcap.Manager.ReplayFile.{magic, process_replay_file}
use mysqlpcap.Manager.ReplayFile.Whole.{
  Records, behind_version, deliver_all, write_records, process_replay_file-write_records,
}

abbrev two : Records
two = (77, full) ∷ (77, full) ∷ []

abbrev begun : memory.File
begun = (magic ++ 1 ∷ 0 ∷ [], [])

abbrev opened : memory.File
opened = ([], (write_records memory begun two).0)

process_replay_file-write_records_example :
    process_replay_file {env = settings} 3 (some opened) start
    ≡ deliver_all {env = settings}
        (behind_version memory opened)
        two
        (record start { replay_fd = some (behind_version memory opened) })
process_replay_file-write_records_example =
    process_replay_file-write_records {env = settings} memory-IsRegular 3 two begun opened
      (1 ∷ 0 ∷ []) start (omega arith) (full-IsRecord, (full-IsRecord, tt)) refl refl refl refl
