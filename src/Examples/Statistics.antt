-- ===== src/Examples/Statistics.antt =====
-- Patterns, statistics and tables: a rewriting pattern, a few times, and calls of `update_table`.
use mysqlpcap.Base.{
  codes, ◌≡◌, refl, ◌⊎◌, inl, inr, ℕ, ◌+◌, ◌-◌, ◌*◌, ◌/◌, ◌≤◌, ◌<◌, Option, none, some, List, Bytes,
  [], ◌∷◌, ◌++◌, arith, length, Bool, true, false, min, ltb, if◌then◌else◌,
}
use mysqlpcap.Base.Int.{ℤ, pos, ◌≤ℤ◌}
use mysqlpcap.Pattern.{
  parse_re_part, split_pattern, matched, no_memory, Pcre, QueryPattern, get_query_key,
}
use mysqlpcap.Pattern.Grammar.{plain, slash, escaped, parse_re_part-written}
use mysqlpcap.Pattern.Keys.{IsDocumented, get_query_key-fits, unset}
use mysqlpcap.Stats.{
  initial, PatternStats, finalize, get_pct_exec_time, no_queries, dbl_max, QueryStats,
}
use mysqlpcap.Stats.Percentile.{count_le, count_lt, get_pct_exec_time-count_le}
use mysqlpcap.Stats.Summary.{record_all, IsSummary, record_all-initial}
use mysqlpcap.Stats.Totals.{find, after, record_queries, record_queries-times_of}
use mysqlpcap.Tables.{Entry}
use mysqlpcap.Tables.Entries.{
  Call, update_all, times_for, find_entry, find_entry-times_for, IsEntryOf,
}

-- The expression `a\/b\d`, and what stands behind its slash.
parse_re_part-written_example :
    parse_re_part (b'a' ∷ b'\\' ∷ b'/' ∷ b'\\' ∷ b'd' ∷ b'/' ∷ codes "rest")
    ≡ (b'a' ∷ b'/' ∷ b'\\' ∷ b'd' ∷ [], codes "rest")
parse_re_part-written_example =
    parse_re_part-written (plain b'a' ∷ slash ∷ escaped b'd' ∷ []) (codes "rest")
      ((omega arith, omega arith), (tt, (omega arith, tt)))

abbrev argument : Bytes
argument = codes "s/a/b/"

split_argument : split_pattern argument ≡ (codes "a", codes "b")
unfolding split_pattern
split_argument = refl

-- A library whose patterns are matched by every subject, and whose output is the replacement.
abbrev constant : Pcre
constant = record {
  Code = Unit;
  compile = λ search. some tt;
  substitute =
      λ c s r n. if ltb (length r) n then (matched 1, r, length r) else (no_memory, [], unset);
}

abbrev named : Bytes → QueryPattern constant
named r = record { re = tt; replace_str = r }

constant-IsDocumented : IsDocumented constant
constant-IsDocumented = record {
  replaces = λ c s r n k out len e. ground arith;
  copies = λ c s r n out len e. ground arith;
  overflows = λ c s r n out len e. ground arith;
}

get_query_key-fits_example : (2 < 1023) ⊎ (codes "q1" ≡ [])
unfolding get_query_key
get_query_key-fits_example =
    get_query_key-fits constant constant-IsDocumented (named (codes "q1") ∷ []) (codes "select 1")
      1023 (codes "q1") ((λ e. cc), tt) refl

abbrev times : List ℤ
times = pos 300 ∷ pos 100 ∷ pos 200 ∷ []

record_all-initial_example : IsSummary (record_all initial times) times
unfolding dbl_max
record_all-initial_example =
    record_all-initial times
      ((omega arith, omega arith), ((omega arith, omega arith), ((omega arith, omega arith), tt)))

abbrev recorded : PatternStats
recorded = record initial { exec_times = times; n_queries = 3 }

get_pct_exec_time-count_le_example :
    (v : ℤ) × (get_pct_exec_time (finalize recorded) 95 ≡ some v)
    × (length times * 95 / 100 ≤ count_le v times)
    × (0 < count_le v times)
    × (count_lt v times ≤ length times * 95 / 100 - 1)
get_pct_exec_time-count_le_example =
    get_pct_exec_time-count_le recorded 95 (omega arith) (omega arith)

pct_recorded : get_pct_exec_time (finalize recorded) 95 ≡ some (pos 200)
unfolding get_pct_exec_time finalize
pct_recorded = refl

abbrev queries : List (Bytes × ℤ)
queries = (codes "a", pos 5) ∷ (codes "b", pos 7) ∷ (codes "a", pos 2) ∷ []

record_queries-times_of_example :
    (find (codes "a") (record_queries no_queries queries).lookup ≡ after none (pos 5 ∷ pos 2 ∷ []))
    × ((record_queries no_queries queries).n_queries ≡ 3)
    × ((record_queries no_queries queries).total_exec_time ≡ pos 14)
unfolding mysqlpcap.Stats.same_key mysqlpcap.Base.Int.◌+ℤ◌
record_queries-times_of_example = record_queries-times_of queries (codes "a")

abbrev calls : List Call
calls =
    record { token = codes "t1"; query_type = codes "select"; exec_time = pos 5 }
    ∷ record { token = codes "`t1`"; query_type = codes "select"; exec_time = pos 2 }
    ∷ record { token = codes "t2"; query_type = codes "select"; exec_time = pos 9 }
    ∷ []

find_entry-times_for_example :
    ((times_for (codes "t1") (codes "select") calls ≡ [])
      × (find_entry (codes "t1") (codes "select") (update_all [] calls) ≡ none))
    ⊎ ((e : Entry) × (find_entry (codes "t1") (codes "select") (update_all [] calls) ≡ some e)
        × IsEntryOf (times_for (codes "t1") (codes "select") calls) e)
find_entry-times_for_example = find_entry-times_for (codes "t1") (codes "select") calls
