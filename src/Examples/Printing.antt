-- ===== src/Examples/Printing.antt =====
-- The usage text of the program, and what it writes of its statistics.
use mysqlpcap.Base.{
  codes, ℕ, ◌+◌, ◌≤◌, ◌≡◌, refl, some, List, [], ◌∷◌, ◌++◌, Bytes, length, get_elem?,
}
use mysqlpcap.Program.Usage.{
  blanks, newline, option, required_argument, no_argument, long_options, descriptions, option_str,
  widest, missing_line, usage_of,
}
use mysqlpcap.Program.Usage.Aligned.{usage_of-aligned, usage_of-missing}
use mysqlpcap.Base.{◌==◌, false}
use mysqlpcap.Base.Int.{pos}
use mysqlpcap.Output.{Format, print_csv, print_table_stats}
use mysqlpcap.Manager.Shutdown.{finalize_all}
use mysqlpcap.Output.Csv.{read_rows, Matches}
use mysqlpcap.Output.Recorded.{recorded, print_csv-recorded}
use mysqlpcap.Output.Read.{until, fields, IsCell, IsPlain}
use mysqlpcap.Base.Int.{ℤ}
use mysqlpcap.Output.Named.{run_tables}
use mysqlpcap.Output.TableLine.{table_cells, fields-print_table_stats}

usage_of-aligned_example :
    (k : ℕ) × (2 ≤ k)
    × (length (option_str (option "port" required_argument b'p')) + k ≡ widest 0 long_options + 2)
    × (get_elem? (usage_of long_options descriptions) 1
        ≡ some (
            blanks 2
            ++ option_str (option "port" required_argument b'p')
            ++ blanks k
            ++ codes "Target server port (used for filtering)."
            ++ newline))
usage_of-aligned_example =
    usage_of-aligned long_options descriptions 1 (option "port" required_argument b'p')
      (codes "Target server port (used for filtering).") refl refl

-- There is no description for `--verbose`, so that there is none left for `--help`.
usage_of-missing_example :
    (shown : List Bytes) × (length shown ≡ length descriptions)
    × (usage_of long_options descriptions
        ≡ shown ++ missing_line (option "help" no_argument b'H') ∷ [])
usage_of-missing_example =
    usage_of-missing long_options descriptions (option "help" no_argument b'H') refl

-- All numbers are written alike.
abbrev format : Format
format = record {
  show_u = λ n. codes "1";
  show_f = λ t d. codes "0.5";
  show_f5 = λ t d. codes "0.5";
  show_g = λ t d. codes "0.5";
}

format-IsPlain : IsPlain format
format-IsPlain = record {
  u_cell = λ n. record { no_comma = (refl, tt); no_newline = (refl, tt) };
  f_cell = λ t d. record {
    no_comma = (refl, (refl, (refl, tt)));
    no_newline = (refl, (refl, (refl, tt)));
  };
  f5_cell = λ t d. record {
    no_comma = (refl, (refl, (refl, tt)));
    no_newline = (refl, (refl, (refl, tt)));
  };
}

two_bytes :
    (a b : ℕ)
    → (a == b',') ≡ false
    → (b == b',') ≡ false
    → (a == 10) ≡ false
    → (b == 10) ≡ false
    → IsCell (a ∷ b ∷ [])
two_bytes a b h k m n = record { no_comma = (h, (k, tt)); no_newline = (m, (n, tt)) }

abbrev one_query : List (List (Bytes × Bytes) × ℤ)
one_query = ((codes "do", codes "`t1`") ∷ [], pos 5) ∷ []

fields-print_table_stats_example :
    fields
      (length (table_cells format (run_tables [] one_query)))
      (print_table_stats format (codes "3h") (run_tables [] one_query) ++ codes "rest")
    ≡ (codes "3h" ∷ table_cells format (run_tables [] one_query), codes "rest")
fields-print_table_stats_example =
    fields-print_table_stats format format-IsPlain (codes "3h") (codes "rest") one_query
      (two_bytes b'3' b'h' refl refl refl refl) ((two_bytes b'd' b'o' refl refl refl refl, tt), tt)

-- Two queries under one key.
abbrev two_queries : List (Bytes × ℤ)
two_queries = (codes "q", pos 7) ∷ (codes "q", pos 4) ∷ []

print_csv-recorded_example :
    (text : Bytes) × (print_csv format (finalize_all (recorded two_queries)) ≡ some text)
    × Matches format format-IsPlain
        (recorded two_queries).lookup
        (read_rows (length (recorded two_queries).lookup) (until 10 text).1)
print_csv-recorded_example =
    print_csv-recorded format format-IsPlain two_queries ((refl, tt), ((refl, tt), tt))
