-- ===== src/Output.antt =====
-- What the program writes of its statistics: `Query_stats::print` of mysql_stream_manager.cc and
-- `Table_stats::print` of table_stats.cc. Rows come in the order of
-- the lists that stand for the maps.
pub mod Read
pub mod Csv
pub mod Recorded
pub mod TableLine
pub mod Named
use mysqlpcap.Base.{ℕ, Option, none, some, List, [], ◌∷◌, ◌++◌, Bytes, codes}
use mysqlpcap.Base.Int.{ℤ}
use mysqlpcap.Base.Maybe.{◌>>=◌}
use mysqlpcap.Stats.{PatternStats, QueryStats, median_doubled, get_pct_exec_time}
use mysqlpcap.Tables.{Entry, Entries, TableStats}

-- The conversions of `fprintf` in the C locale: a parameter. `show_f t d` and `show_f5 t d` are `%f`
-- and `%.5f` of the quotient of `t` and `d` microseconds, `show_g` is what `std::cout` makes of it, and
-- `show_u` is `%lu`.
pub record Format : Type 0 where
  pub show_u : ℕ → Bytes
  pub show_f : ℤ → ℕ → Bytes
  pub show_f5 : ℤ → ℕ → Bytes
  pub show_g : ℤ → ℕ → Bytes

-- Each text behind a comma.
abbrev pub commas : List Bytes → Bytes
commas [] = []
commas (c ∷ cs) = b',' ∷ (c ++ commas cs)

abbrev pub newline : ℕ
newline = 10

-- The first line of the CSV file.
abbrev pub csv_header : Bytes
csv_header =
    codes
      "Query Pattern ID, N, Minimum execution time, Maximum Execution Time, Average Execution Time,Median Execution Time, 95pct Execution Time,Total Execution Time"
    ++ newline ∷ []

module _ (format : Format) where
  open format use {show_u, show_f, show_f5, show_g}

  -- The numbers of a row; `none` where a time is read that is not there.
  unfoldable pub csv_columns : PatternStats → Option (List Bytes)
  csv_columns s = do
    median ← median_doubled s
    pct ← get_pct_exec_time s 95
    some (
        show_u s.n_queries
        ∷ show_f s.min_exec_time 1
        ∷ show_f s.max_exec_time 1
        ∷ show_f s.total_exec_time s.n_queries
        ∷ show_f median 2
        ∷ show_f pct 1
        ∷ show_f s.total_exec_time 1
        ∷ [])

  -- The row of a key, which is a C string.
  unfoldable pub csv_row : (key : Bytes) → PatternStats → Option Bytes
  unfolding csv_columns
  csv_row key s = do
    columns ← csv_columns s
    some (b'"' ∷ (key ++ b'"' ∷ (commas columns ++ newline ∷ [])))

  unfoldable pub csv_rows : List (Bytes × PatternStats) → Option Bytes
  unfolding csv_row
  csv_rows [] = some []
  csv_rows ((key, s) ∷ m) = do row ← csv_row key s; rows ← csv_rows m; some (row ++ rows)

  -- `Query_stats::print`, to the CSV file
  unfoldable pub print_csv : QueryStats → Option Bytes
  unfolding csv_rows
  print_csv q = do rows ← csv_rows q.lookup; some (csv_header ++ rows)

  -- `Query_stats::print`, to the terminal
  unfoldable pub text_rows : List (Bytes × PatternStats) → Bytes
  text_rows [] = []
  text_rows ((key, s) ∷ m) =
      codes "Query Pattern ID: "
      ++ key
      ++ codes " N: "
      ++ show_u s.n_queries
      ++ codes " min: "
      ++ show_g s.min_exec_time 1
      ++ codes "s max: "
      ++ show_g s.max_exec_time 1
      ++ codes "s avg: "
      ++ show_g s.total_exec_time s.n_queries
      ++ codes "s total time "
      ++ show_g s.total_exec_time 1
      ++ codes "s"
      ++ newline ∷ []
      ++ text_rows m

  unfoldable pub print_text : QueryStats → Bytes
  unfolding text_rows
  print_text q =
      codes "Overall N: "
      ++ show_u q.n_queries
      ++ codes " total time "
      ++ show_g q.total_exec_time 1
      ++ newline ∷ []
      ++ text_rows q.lookup

  -- `Table_query_entry::print`
  unfoldable pub print_entry : Entry → Bytes
  print_entry e =
      commas
        (show_u e.n ∷ show_f5 e.min_time 1 ∷ show_f5 e.max_time 1 ∷ show_f5 e.total_time e.n ∷ [])

  -- `Table_query_info::print`
  unfoldable pub print_info : (table_name : Bytes) → Entries → Bytes
  unfolding print_entry
  print_info name [] = []
  print_info name ((ty, e) ∷ es) = commas (name ∷ ty ∷ []) ++ (print_entry e ++ print_info name es)

  unfoldable pub print_tables : TableStats → Bytes
  unfolding print_info
  print_tables [] = []
  print_tables ((name, es) ∷ s) = print_info name es ++ print_tables s

  -- `Table_stats::print`, with the time of day that `strftime` gives
  unfoldable pub print_table_stats : (timestamp : Bytes) → TableStats → Bytes
  unfolding print_tables
  print_table_stats timestamp s = timestamp ++ (print_tables s ++ newline ∷ [])
