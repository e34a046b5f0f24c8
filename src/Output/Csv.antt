-- ===== src/Output/Csv.antt =====
-- The rows of the CSV file, read back.
use mysqlpcap.Base.{
  ap, sym, ◌∙◌, ◌*◌, get_elem?, map, ℕ, zero, suc, ◌-◌, ◌/◌, ◌%◌, ◌<◌, ◌≡◌, refl, inl, inr, false,
  some, List, [], ◌∷◌, ◌++◌, append_assoc, Bytes, length, All, arith, ◌==◌, Bool-cases,
}
use mysqlpcap.Base.Int.{ℤ, ◌+ℤ◌}
use mysqlpcap.Output.{
  Format, commas, newline, csv_header, csv_columns, csv_row, csv_rows, print_csv,
}
use mysqlpcap.Output.Read.{until, IsFree, until-append, fields, IsCell, IsPlain, fields-commas}
use mysqlpcap.Manager.Shutdown.{finalize_all}
use mysqlpcap.Stats.{
  PatternStats, QueryStats, finalize, sort, median_doubled, get_pct_exec_time, pct_position,
}
use mysqlpcap.Stats.Percentile.{
  get_elem?-total, pct_position_bounds, pct_position_value, IsSorted, sort-IsSorted, count_le,
  count_le-sort, length-sort,
}

-- A key in quotes, and the fields behind it; the rest is what stands behind the line.
pub read_row : (commas : ℕ) → Bytes → (Bytes × List Bytes) × Bytes
unfolding until fields
read_row n bs =
    let (open_quote, r) = until b'"' bs in
    let (key, r') = until b'"' r in
    let (comma, r'') = until b',' r' in let (fs, rest) = fields n r'' in ((key, fs), rest)

pub read_rows : ℕ → Bytes → List (Bytes × List Bytes)
read_rows zero bs = []
read_rows (suc n) bs = let (row, rest) = read_row 6 bs in row ∷ read_rows n rest

-- Each pattern has a time at least, and a key without quotes.
abbrev pub AreReadable : List (Bytes × PatternStats) → Type 0
AreReadable m = All (λ e. IsFree b'"' e.0 × (0 < length e.1.exec_times)) m

median_doubled-total :
    (s : PatternStats)
    → 0 < length s.exec_times
    → (a b : ℤ) × (get_elem? s.exec_times (length s.exec_times / 2) ≡ some a)
      × (get_elem? s.exec_times ((length s.exec_times - 1) / 2) ≡ some b)
      × (median_doubled s ≡ some (a +ℤ b))
unfolding median_doubled
median_doubled-total s h =
    let xs = s.exec_times in
    let (a, e) = get_elem?-total xs (length xs / 2) (omega arith) in
    let (b, e') = get_elem?-total xs (length xs / 2 - 1) (omega arith) in
    elim (Bool-cases (length xs % 2 == 1)) [
      | inl odd ↦
          (a, a, e, ap (get_elem? xs) (ground arith) ∙ e, rw (not_zero (length xs) h, odd, e) refl)
      | inr even ↦ (
        a,
        b,
        e,
        ap (get_elem? xs) (ground arith) ∙ e',
        rw (not_zero (length xs) h, even, e, e') refl,
      )
    ]
  where
    not_zero : (n : ℕ) → 0 < n → (n == 0) ≡ false
    not_zero n h = ground arith

get_pct_exec_time-total :
    (s : PatternStats)
    → 0 < length s.exec_times
    → (v : ℤ) × (get_elem? s.exec_times (length s.exec_times * 95 / 100 - 1) ≡ some v)
      × (get_pct_exec_time s 95 ≡ some v)
unfolding get_pct_exec_time
get_pct_exec_time-total s h =
    let rank = pct_position_value (length s.exec_times) 95 h (omega arith) in
    let (v, e) =
      get_elem?-total s.exec_times (pct_position (length s.exec_times) 95)
        (pct_position_bounds (length s.exec_times) 95 h (omega arith)).0 in
    (v, ap (get_elem? s.exec_times) (sym rank) ∙ e, e)

abbrev row_text : (key : Bytes) → List Bytes → Bytes
row_text key columns = b'"' ∷ (key ++ b'"' ∷ (commas columns ++ newline ∷ []))

read_row-row_text :
    (n : ℕ) (key c : Bytes) (cs : List Bytes) (rest : Bytes)
    → IsFree b'"' key
    → n ≡ length cs
    → IsCell c
    → All IsCell cs
    → read_row n (row_text key (c ∷ cs) ++ rest) ≡ ((key, c ∷ cs), rest)
unfolding read_row
read_row-row_text n key c cs rest free six h hs =
    rw
      (
        regroup key c cs rest,
        until-append b'"' key (b',' ∷ (c ++ (commas cs ++ newline ∷ rest))) free,
        six,
        fields-commas c cs rest h hs,
      )
      refl
  where
    regroup :
        (key c : Bytes) (cs : List Bytes) (rest : Bytes)
        → (key ++ b'"' ∷ (b',' ∷ (c ++ commas cs) ++ newline ∷ [])) ++ rest
          ≡ key ++ b'"' ∷ b',' ∷ (c ++ (commas cs ++ newline ∷ rest))
    regroup key c cs rest = simp append_assoc

module _ (format : Format) (plain : IsPlain format) where
  open format use {show_u, show_f}

  -- The row of a pattern: its key, the number of its queries, the least, the greatest and the mean time,
  -- the mean of the two middle times, the time of rank 95 percent, and the sum of the times; the times
  -- are taken in order.
  pub record IsRow (e : Bytes × PatternStats) (r : Bytes × List Bytes) : Type 0 where
    pub key_is : r.0 ≡ e.0
    pub times : List ℤ
    pub sorted : IsSorted times
    pub same_times : (v : ℤ) → count_le v times ≡ count_le v e.1.exec_times
    pub upper : ℤ
    pub lower : ℤ
    pub pct : ℤ
    pub upper_is : get_elem? times (length times / 2) ≡ some upper
    pub lower_is : get_elem? times ((length times - 1) / 2) ≡ some lower
    pub pct_is : get_elem? times (length times * 95 / 100 - 1) ≡ some pct
    pub cells :
        r.1
        ≡ show_u e.1.n_queries
          ∷ show_f e.1.min_exec_time 1
          ∷ show_f e.1.max_exec_time 1
          ∷ show_f e.1.total_exec_time e.1.n_queries
          ∷ show_f (upper +ℤ lower) 2
          ∷ show_f pct 1
          ∷ show_f e.1.total_exec_time 1
          ∷ []

  -- A row for each pattern, in their order.
  abbrev pub Matches : List (Bytes × PatternStats) → List (Bytes × List Bytes) → Type 0
  Matches [] [] = Unit
  Matches [] (r ∷ rs) = ⊥
  Matches (e ∷ m) [] = ⊥
  Matches (e ∷ m) (r ∷ rs) = IsRow e r × Matches m rs

  csv_columns-IsRow :
      (key : Bytes) (s : PatternStats)
      → 0 < length s.exec_times
      → (c : Bytes) × (cs : List Bytes) × (csv_columns format (finalize s) ≡ some (c ∷ cs))
        × IsRow (key, s) (key, c ∷ cs)
        × (6 ≡ length cs)
        × IsCell c
        × All IsCell cs
  unfolding csv_columns finalize
  csv_columns-IsRow key s h =
      let long : 0 < length (sort s.exec_times) = omega (arith, length-sort s.exec_times) in
      let (a, b, at, at', e) = median_doubled-total (finalize s) long in
      let (v, at'', e') = get_pct_exec_time-total (finalize s) long in
      (
        show_u s.n_queries,
        show_f s.min_exec_time 1
            ∷ show_f s.max_exec_time 1
            ∷ show_f s.total_exec_time s.n_queries
            ∷ show_f (a +ℤ b) 2
            ∷ show_f v 1
            ∷ show_f s.total_exec_time 1
            ∷ [],
        rw (e, e') refl,
        record {
          key_is = refl;
          times = sort s.exec_times;
          sorted = sort-IsSorted s.exec_times;
          same_times = λ x. count_le-sort x s.exec_times;
          upper = a;
          lower = b;
          pct = v;
          upper_is = at;
          lower_is = at';
          pct_is = at'';
          cells = refl;
        },
        refl,
        plain.u_cell _,
        (
          plain.f_cell _ _,
          (
            plain.f_cell _ _,
            (plain.f_cell _ _, (plain.f_cell _ _, (plain.f_cell _ _, (plain.f_cell _ _, tt)))),
          ),
        ),
      )

  csv_rows-Matches :
      (m : List (Bytes × PatternStats))
      → AreReadable m
      → (text : Bytes) × (csv_rows format (map (λ (k, s). (k, finalize s)) m) ≡ some text)
        × Matches m (read_rows (length m) text)
  unfolding csv_rows csv_row read_rows
  csv_rows-Matches [] _ = ([], refl, tt)
  csv_rows-Matches ((key, s) ∷ m) ((free, timed), good) =
      let (c, cs, e, row, six, h, hs) = csv_columns-IsRow key s timed in
      let (text, e', rows) = csv_rows-Matches m good in
      let back = read_row-row_text 6 key c cs text free six h hs in
      (row_text key (c ∷ cs) ++ text, rw (e, e') refl, rw back (row, rows))

  -- The CSV file of a query's statistics, once these are sorted.
  pub print_csv-Matches :
      (q : QueryStats)
      → AreReadable q.lookup
      → (text : Bytes) × (print_csv format (finalize_all q) ≡ some text)
        × Matches q.lookup (read_rows (length q.lookup) (until newline text).1)
  unfolding print_csv until finalize_all
  print_csv-Matches q good =
      let (text, e, rows) = csv_rows-Matches q.lookup good in (csv_header ++ text, rw e refl, rows)
