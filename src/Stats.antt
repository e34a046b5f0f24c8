-- ===== src/Stats.antt =====
-- Execution times: `Query_pattern_stats` and `Query_stats` of mysql_stream_manager.h and .cc. A
-- time is a whole number of microseconds where the program has seconds in a double, so that no
-- rounding is modelled. A `std::map` is the list of its entries; its order is not modelled. A
-- `size_t` counter is taken to stay below 2^64.
pub mod Summary
pub mod Percentile
pub mod Totals
use mysqlpcap.Base.{
  ℕ, ◌+◌, ◌-◌, ◌*◌, ◌/◌, ◌%◌, ◌^◌, Bool, true, false, ◌&&◌, Option, none, some, List, [], ◌∷◌, ◌++◌,
  Bytes, length, get_elem?, leb, ◌==◌, if◌then◌else◌,
}
use mysqlpcap.Base.Int.{ℤ, pos, ◌+ℤ◌, ltb_ℤ}
use mysqlpcap.Base.Maybe.{◌>>=◌}

-- `DBL_MAX` seconds
unfoldable pub dbl_max : ℤ
dbl_max = pos ((2 ^ 53 - 1) * 2 ^ 971 * 1000000)

pub record PatternStats : Type 0 where
  pub min_exec_time : ℤ
  pub max_exec_time : ℤ
  pub total_exec_time : ℤ
  pub n_queries : ℕ
  pub exec_times : List ℤ

abbrev pub initial : PatternStats
initial = record {
  min_exec_time = dbl_max;
  max_exec_time = pos 0;
  total_exec_time = pos 0;
  n_queries = 0;
  exec_times = [];
}

-- `Query_pattern_stats::record_query`
unfoldable pub record_time : PatternStats → (exec_time : ℤ) → PatternStats
record_time s t = record {
  min_exec_time = if ltb_ℤ t s.min_exec_time then t else s.min_exec_time;
  max_exec_time = if ltb_ℤ s.max_exec_time t then t else s.max_exec_time;
  total_exec_time = s.total_exec_time +ℤ t;
  n_queries = s.n_queries + 1;
  exec_times = s.exec_times ++ t ∷ [];
}

-- `std::sort`
unfoldable pub insert : ℤ → List ℤ → List ℤ
insert t [] = t ∷ []
insert t (x ∷ xs) = if ltb_ℤ x t then x ∷ insert t xs else t ∷ x ∷ xs

unfoldable pub sort : List ℤ → List ℤ
unfolding insert
sort [] = []
sort (x ∷ xs) = insert x (sort xs)

-- `Query_pattern_stats::finalize`
unfoldable pub finalize : PatternStats → PatternStats
unfolding sort
finalize s = record s { exec_times = sort s.exec_times }

-- `get_median_exec_time`, in half microseconds
unfoldable pub median_doubled : PatternStats → Option ℤ
median_doubled s =
    let size = length s.exec_times in
    if size == 0
    then some (pos 0)
    else if size % 2 == 1
    then (do m ← get_elem? s.exec_times (size / 2); some (m +ℤ m))
    else (do
      a ← get_elem? s.exec_times (size / 2)
      b ← get_elem? s.exec_times (size / 2 - 1)
      some (a +ℤ b))

-- The index that `get_pct_exec_time` reads, for a vector whose size times `pct` is below 2^31. The
-- `size - 1` of an empty vector wraps.
unfoldable pub pct_position : (size pct : ℕ) → ℕ
pct_position size pct =
    let position = if size * pct / 100 == 0 then 0 else size * pct / 100 - 1 in
    if leb size position then (size + 2 ^ 64 - 1) % 2 ^ 64 else position

unfoldable pub get_pct_exec_time : PatternStats → (pct : ℕ) → Option ℤ
unfolding pct_position
get_pct_exec_time s pct = get_elem? s.exec_times (pct_position (length s.exec_times) pct)

-- Equality of two keys
unfoldable pub same_key : Bytes → Bytes → Bool
same_key [] [] = true
same_key (x ∷ xs) (y ∷ ys) = x == y && same_key xs ys
same_key _ _ = false

pub record QueryStats : Type 0 where
  pub lookup : List (Bytes × PatternStats)
  pub total_exec_time : ℤ
  pub n_queries : ℕ

abbrev pub no_queries : QueryStats
no_queries = record { lookup = []; total_exec_time = pos 0; n_queries = 0 }

-- The entry of a key is made when the key is new.
unfoldable pub record_entry : Bytes → ℤ → List (Bytes × PatternStats) → List (Bytes × PatternStats)
unfolding same_key record_time
record_entry k t [] = (k, record_time initial t) ∷ []
record_entry k t ((j, s) ∷ m) =
    if same_key j k then (j, record_time s t) ∷ m else (j, s) ∷ record_entry k t m

-- `Query_stats::record_query`
unfoldable pub record_query : QueryStats → (lookup_key : Bytes) → (exec_time : ℤ) → QueryStats
unfolding record_entry
record_query q k t = record {
  lookup = record_entry k t q.lookup;
  total_exec_time = q.total_exec_time +ℤ t;
  n_queries = q.n_queries + 1;
}
