-- ===== src/Tables/Simple.antt =====
-- The parser that `USE_SIMPLE_PARSER` chooses: `tokenize_query` and the first part of
-- `Table_stats::update_from_query`.
use mysqlpcap.Base.{
  codes, ℕ, zero, suc, ◌+◌, Bool, ◌&&◌, ◌||◌, List, [], ◌∷◌, ◌++◌, Bytes, length, leb, ◌==◌,
  if◌then◌else◌, map,
}
use mysqlpcap.Base.Int.{ℤ}
use mysqlpcap.Stats.{same_key}
use mysqlpcap.Tables.{TableStats, handle_tables}

unfoldable pub is_space : ℕ → Bool
is_space c = c == b' ' || (leb 9 c && leb c 13)

unfoldable pub lower : ℕ → ℕ
lower c = if leb b'A' c && leb c b'Z' then c + 32 else c

-- The words of a text: `word` is what stands before it of a word that has begun.
unfoldable pub words : (word : Bytes) → Bytes → List Bytes
unfolding is_space
words [] [] = []
words (w ∷ ws) [] = (w ∷ ws) ∷ []
words [] (c ∷ cs) = words (if is_space c then [] else c ∷ []) cs
words (w ∷ ws) (c ∷ cs) =
    let ended = (w ∷ ws) ∷ words [] cs in
    let longer = words (w ∷ (ws ++ c ∷ [])) cs in if is_space c then ended else longer

-- `back() == ';'` and `pop_back()`
unfoldable pub drop_semicolon : Bytes → Bytes
drop_semicolon [] = []
drop_semicolon (c ∷ []) = if c == b';' then [] else c ∷ []
drop_semicolon (c ∷ d ∷ cs) = c ∷ drop_semicolon (d ∷ cs)

-- `tokenize_query`
unfoldable pub tokenize_query : Bytes → List Bytes
unfolding words lower drop_semicolon
tokenize_query query = map (λ w. drop_semicolon (map lower w)) (words [] query)

-- The words that end a list of tables, and those that end it behind a table.
unfoldable pub ends_tables : Bytes → Bool
unfolding same_key
ends_tables t =
    same_key t (codes "where")
    || same_key t (codes "group")
    || same_key t (codes "order")
    || same_key t (codes "on")
    || same_key t (codes "inner")
    || same_key t (codes "left")
    || same_key t (codes "natural")
    || same_key t (codes "right")

unfoldable pub ends_behind : Bytes → Bool
unfolding same_key
ends_behind t =
    same_key t (codes "join")
    || same_key t (codes "on")
    || same_key t (codes "where")
    || same_key t (codes "group")
    || same_key t (codes "order")

-- `if (tokens[j] == "as") j += 2`
unfoldable pub skip_alias : List Bytes → List Bytes
unfolding same_key
skip_alias [] = []
skip_alias (t ∷ []) = if same_key t (codes "as") then [] else t ∷ []
skip_alias (t ∷ u ∷ ts) = if same_key t (codes "as") then ts else t ∷ u ∷ ts

-- `j = tokens.size()` where the list of tables ends behind a table.
unfoldable pub stop_behind : List Bytes → List Bytes
unfolding ends_behind
stop_behind [] = []
stop_behind (t ∷ ts) = if ends_behind t then [] else t ∷ ts

-- The inner loop, from position `j` on: the tokens that `update_table` is called for. A round takes
-- a token at least, so that the number of tokens is enough fuel.
unfoldable pub select_tables : ℕ → List Bytes → List Bytes
unfolding ends_tables skip_alias stop_behind
select_tables zero ts = []
select_tables (suc fuel) [] = []
select_tables (suc fuel) (t ∷ ts) =
    let rest = select_tables fuel (stop_behind (skip_alias ts)) in
    if ends_tables t then [] else t ∷ rest

-- The outer loop.
unfoldable pub all_tables : List Bytes → List Bytes
unfolding select_tables
all_tables [] = []
all_tables (t ∷ ts) =
    (if same_key t (codes "from") || same_key t (codes "join")
      then select_tables (length ts) ts
      else [])
    ++ all_tables ts

abbrev pub tagged : Bytes → List Bytes → List (Bytes × Bytes)
tagged ty [] = []
tagged ty (t ∷ ts) = (ty, t) ∷ tagged ty ts

-- `tokens.size() > 2 && tokens[1] == keyword`, and then the call for `tokens[2]`
unfoldable pub third_token : (query_type keyword : Bytes) → List Bytes → List (Bytes × Bytes)
unfolding same_key
third_token ty keyword (second ∷ third ∷ ts) =
    if same_key second keyword then (ty, third) ∷ [] else []
third_token ty keyword _ = []

-- `tokens.size() > 1`, and then the call for `tokens[1]`
unfoldable pub second_token : (query_type : Bytes) → List Bytes → List (Bytes × Bytes)
second_token ty [] = []
second_token ty (second ∷ _) = (ty, second) ∷ []

-- The calls of `update_table` that the simple parser makes, with the type of query.
unfoldable pub simple_calls : List Bytes → List (Bytes × Bytes)
unfolding same_key second_token third_token all_tables
simple_calls [] = []
simple_calls (first ∷ ts) =
    if same_key first (codes "insert")
    then third_token first (codes "into") ts
    else if same_key first (codes "update")
    then second_token first ts
    else if same_key first (codes "delete")
    then third_token first (codes "from") ts
    else if same_key first (codes "select")
    then tagged first (all_tables (first ∷ ts))
    else []

-- `Table_stats::update_from_query` with the simple parser
unfoldable pub update_from_query : TableStats → (query : Bytes) → ℤ → TableStats
unfolding tokenize_query simple_calls handle_tables
update_from_query s query t = handle_tables s (simple_calls (tokenize_query query)) t
