-- ===== src/Tables.antt =====
-- table_stats.h and table_stats.cc: the statistics of each table and type of query. Times and maps
-- are as in Stats. The bytes of a name are ASCII, as far as `isalpha` and `isalnum` are concerned.
pub mod Entries
pub mod Names
pub mod Simple
pub mod Tokens
use mysqlpcap.Base.{
  ℕ, ◌+◌, Bool, true, false, ◌&&◌, ◌||◌, Option, none, some, List, [], ◌∷◌, Bytes, leb, ◌==◌,
  if◌then◌else◌,
}
use mysqlpcap.Base.Int.{ℤ, ◌+ℤ◌, ltb_ℤ}
use mysqlpcap.Stats.{same_key}

-- `Table_query_entry`
pub record Entry : Type 0 where
  pub n : ℕ
  pub min_time : ℤ
  pub max_time : ℤ
  pub total_time : ℤ

-- `Table_query_entry::update`
unfoldable pub update : Entry → (exec_time : ℤ) → Entry
update e t = record {
  n = e.n + 1;
  min_time = if ltb_ℤ t e.min_time then t else e.min_time;
  max_time = if ltb_ℤ e.max_time t then t else e.max_time;
  total_time = e.total_time +ℤ t;
}

-- The entry of a type that is new.
abbrev pub first_entry : ℤ → Entry
first_entry t = record { n = 1; min_time = t; max_time = t; total_time = t }

-- `Table_query_info::entries`, by type of query, and `Table_stats::stats`, by table
abbrev pub Entries : Type 0
Entries = List (Bytes × Entry)

abbrev pub TableStats : Type 0
TableStats = List (Bytes × Entries)

-- `Table_query_info::register_query`
unfoldable pub register_query : Entries → (query_type : Bytes) → (exec_time : ℤ) → Entries
unfolding same_key update
register_query [] ty t = (ty, first_entry t) ∷ []
register_query ((j, e) ∷ m) ty t =
    if same_key j ty then (j, update e t) ∷ m else (j, e) ∷ register_query m ty t

abbrev within : ℕ → ℕ → ℕ → Bool
within lo hi c = leb lo c && leb c hi

unfoldable pub is_alpha : ℕ → Bool
is_alpha c = within b'a' b'z' c || within b'A' b'Z' c

unfoldable pub table_char : ℕ → Bool
unfolding is_alpha
table_char c = is_alpha c || within b'0' b'9' c || c == b'_' || c == b'$'

-- The second loop of `update_table`: the bytes of the name.
unfoldable pub name_bytes : Bytes → Bytes
unfolding table_char
name_bytes [] = []
name_bytes (c ∷ cs) = if table_char c then c ∷ name_bytes cs else []

-- Its first loop: the name begins at the first letter of the C string.
unfoldable pub table_name : Bytes → Bytes
table_name [] = []
table_name (c ∷ cs) =
    if is_alpha c then name_bytes (c ∷ cs) else if c == 0 then [] else table_name cs

-- The statistics of a table whose name is found, which may be new.
unfoldable pub update_named : TableStats → (table_name query_type : Bytes) → ℤ → TableStats
unfolding register_query
update_named [] name ty t = (name, register_query [] ty t) ∷ []
update_named ((j, es) ∷ m) name ty t =
    if same_key j name then (j, register_query es ty t) ∷ m else (j, es) ∷ update_named m name ty t

-- `Table_stats::update_table`
unfoldable pub update_table : TableStats → (table_token query_type : Bytes) → ℤ → TableStats
unfolding table_name update_named
update_table s token ty t = update_named s (table_name token) ty t

-- The calls of `Table_parser::handle_table` that a parse of one query makes, in their order.
unfoldable pub handle_tables : TableStats → List (Bytes × Bytes) → ℤ → TableStats
unfolding update_table
handle_tables s [] t = s
handle_tables s ((ty, token) ∷ calls) t = handle_tables (update_table s token ty t) calls t
