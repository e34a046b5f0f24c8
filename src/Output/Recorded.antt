-- ===== src/Output/Recorded.antt =====
-- The CSV file of the queries that were recorded.
use mysqlpcap.Base.{
  ◌≡◌, ◌<◌, inl, inr, some, List, [], ◌∷◌, Bytes, length, length-append, All, arith, Bool-cases,
}
use mysqlpcap.Base.Int.{ℤ}
use mysqlpcap.Manager.Shutdown.{finalize_all}
use mysqlpcap.Output.{Format, newline, print_csv}
use mysqlpcap.Output.Csv.{AreReadable, Matches, read_rows, print_csv-Matches}
use mysqlpcap.Output.Read.{until, IsFree, IsPlain}
use mysqlpcap.Stats.{
  PatternStats, QueryStats, initial, no_queries, same_key, record_time, record_entry, record_query,
}
use mysqlpcap.Stats.Totals.{record_queries}

record_time-timed : (s : PatternStats) (t : ℤ) → 0 < length (record_time s t).exec_times
unfolding record_time
record_time-timed s t = omega (arith, length-append s.exec_times (t ∷ []))

record_entry-AreReadable :
    (k : Bytes) (t : ℤ) (m : List (Bytes × PatternStats))
    → IsFree b'"' k
    → AreReadable m
    → AreReadable (record_entry k t m)
unfolding record_entry
record_entry-AreReadable k t [] free good = ((free, record_time-timed initial t), tt)
record_entry-AreReadable k t ((j, s) ∷ m) free (h, good) = elim (Bool-cases (same_key j k)) [
  | inl same ↦ rw same ((h.0, record_time-timed s t), good)
  | inr other ↦ rw other (h, record_entry-AreReadable k t m free good)
]

record_queries-AreReadable :
    (q : QueryStats) (rs : List (Bytes × ℤ))
    → All (λ r. IsFree b'"' r.0) rs
    → AreReadable q.lookup
    → AreReadable (record_queries q rs).lookup
unfolding record_queries record_query
record_queries-AreReadable q [] free good = good
record_queries-AreReadable q ((k, t) ∷ rs) (h, free) good =
    record_queries-AreReadable (record_query q k t) rs free
      (record_entry-AreReadable k t q.lookup h good)

-- The statistics after a sequence of queries.
abbrev pub recorded : List (Bytes × ℤ) → QueryStats
recorded rs = record_queries no_queries rs

-- If numbers are written without commas and line ends, and no key has a quote: after any sequence of
-- queries, once the statistics are finalized, the CSV file is written without a read outside of the times,
-- and behind its first line there is a row for each pattern, in their order. The fields of the row are
-- the key, the number of queries, the least and the greatest time, the sum by the number, the mean of the
-- two middle times, the time of rank 95 percent and the sum, where the middle and the rank are those of
-- the pattern's times in ascending order.
pub print_csv-recorded :
    (format : Format) (plain : IsPlain format) (rs : List (Bytes × ℤ))
    → All (λ r. IsFree b'"' r.0) rs
    → (text : Bytes) × (print_csv format (finalize_all (recorded rs)) ≡ some text)
      × Matches format plain
          (recorded rs).lookup
          (read_rows (length (recorded rs).lookup) (until newline text).1)
print_csv-recorded format plain rs free =
    print_csv-Matches format plain (recorded rs) (record_queries-AreReadable no_queries rs free tt)
