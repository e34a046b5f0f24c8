-- ===== src/Output/TableLine.antt =====
-- The line of the table statistics, read back.
use mysqlpcap.Base.{◌≡◌, refl, ◌∙◌, ap, sym, List, [], ◌∷◌, ◌++◌, append_assoc, Bytes, length, All}
use mysqlpcap.Output.{
  Format, commas, newline, print_entry, print_info, print_tables, print_table_stats,
}
use mysqlpcap.Base.Int.{ℤ}
use mysqlpcap.Output.Named.{AreNamed, run_tables, run_tables-AreNamed}
use mysqlpcap.Output.Read.{fields, IsCell, IsPlain, fields-commas, commas-append, All-append}
use mysqlpcap.Tables.{Entry, Entries, TableStats}

module _ (format : Format) where
  open format use {show_u, show_f5}

  abbrev pub entry_cells : Entry → List Bytes
  entry_cells e =
      show_u e.n ∷ show_f5 e.min_time 1 ∷ show_f5 e.max_time 1 ∷ show_f5 e.total_time e.n ∷ []

  -- Six fields for each table and type of query.
  abbrev pub info_cells : (table_name : Bytes) → Entries → List Bytes
  info_cells name [] = []
  info_cells name ((ty, e) ∷ es) = name ∷ ty ∷ (entry_cells e ++ info_cells name es)

  abbrev pub table_cells : TableStats → List Bytes
  table_cells [] = []
  table_cells ((name, es) ∷ s) = info_cells name es ++ table_cells s

  print_info-commas :
      (name : Bytes) (es : Entries) → print_info format name es ≡ commas (info_cells name es)
  unfolding print_info print_entry
  print_info-commas name [] = refl
  print_info-commas name ((ty, e) ∷ es) =
      simp (print_info-commas name es, commas-append, append_assoc) refl

  print_tables-commas : (s : TableStats) → print_tables format s ≡ commas (table_cells s)
  unfolding print_tables
  print_tables-commas [] = refl
  print_tables-commas ((name, es) ∷ s) =
      (λ i. print_info-commas name es i ++ print_tables-commas s i)
      ∙ sym (commas-append (info_cells name es) (table_cells s))

  module _ (plain : IsPlain format) where
    info_cells-IsCell :
        (name : Bytes) (es : Entries)
        → IsCell name
        → All (λ e. IsCell e.0) es
        → All IsCell (info_cells name es)
    info_cells-IsCell name [] n _ = tt
    info_cells-IsCell name ((ty, e) ∷ es) n (t, ts) = (
      n,
      (
        t,
        (
          plain.u_cell _,
          (
            plain.f5_cell _ _,
            (plain.f5_cell _ _, (plain.f5_cell _ _, info_cells-IsCell name es n ts)),
          ),
        ),
      ),
    )

    table_cells-IsCell : (s : TableStats) → AreNamed s → All IsCell (table_cells s)
    table_cells-IsCell [] _ = tt
    table_cells-IsCell ((name, es) ∷ s) ((n, ts), rest) =
        All-append IsCell (info_cells name es) (table_cells s) (info_cells-IsCell name es n ts)
          (table_cells-IsCell s rest)

    fields-AreNamed :
        (timestamp rest : Bytes) (s : TableStats)
        → IsCell timestamp
        → AreNamed s
        → fields (length (table_cells s)) (print_table_stats format timestamp s ++ rest)
          ≡ (timestamp ∷ table_cells s, rest)
    unfolding print_table_stats
    fields-AreNamed timestamp rest s t named =
        ap (fields (length (table_cells s))) (
          regroup timestamp (print_tables format s) rest
          ∙ ap (λ bs. timestamp ++ (bs ++ newline ∷ rest)) (print_tables-commas s))
        ∙ fields-commas timestamp (table_cells s) rest t (table_cells-IsCell s named)
      where
        regroup : (a b c : Bytes) → (a ++ (b ++ newline ∷ [])) ++ c ≡ a ++ (b ++ newline ∷ c)
        regroup a b c = simp append_assoc

    -- For all queries of a run, of which the types have no commas and line ends, the line of the
    -- table statistics can be read back, if numbers and the time of day are written without commas
    -- and line ends: split at the commas it gives the time of day and then, for each table and type
    -- of query, the table, the type, the count, and the three times. The tokens of the tables can be
    -- any bytes.
    pub fields-print_table_stats :
        (timestamp rest : Bytes) (queries : List (List (Bytes × Bytes) × ℤ))
        → IsCell timestamp
        → All (λ q. All (λ c. IsCell c.0) q.0) queries
        → fields
            (length (table_cells (run_tables [] queries)))
            (print_table_stats format timestamp (run_tables [] queries) ++ rest)
          ≡ (timestamp ∷ table_cells (run_tables [] queries), rest)
    fields-print_table_stats timestamp rest queries t typed =
        fields-AreNamed timestamp rest (run_tables [] queries) t
          (run_tables-AreNamed [] queries typed tt)
