-- ===== src/Output/Named.antt =====
-- The names in the table statistics do not end a field.
use mysqlpcap.Base.{
  ◌≡◌, refl, true, false, List, [], ◌∷◌, Bytes, All, ◌==◌, arith, if◌then◌else◌, ℕ, Bool,
}
use mysqlpcap.Base.Int.{ℤ}
use mysqlpcap.Output.{newline}
use mysqlpcap.Output.Read.{IsCell}
use mysqlpcap.Stats.{same_key}
use mysqlpcap.Tables.{
  Entries, TableStats, update, register_query, is_alpha, table_char, name_bytes, table_name,
  update_named, update_table, handle_tables,
}

-- The byte is neither a comma nor a line end.
IsNeither : ℕ → Type 0
IsNeither b = ((b == b',') ≡ false) × ((b == newline) ≡ false)

table_char-IsNeither : (c : ℕ) → table_char c ≡ true → IsNeither c
unfolding table_char IsNeither
table_char-IsNeither c h = (ground arith, ground arith)

IsCell-cons : (c : ℕ) (cs : Bytes) → IsNeither c → IsCell cs → IsCell (c ∷ cs)
unfolding IsNeither
IsCell-cons c cs h g = record { no_comma = (h.0, g.no_comma); no_newline = (h.1, g.no_newline) }

empty-IsCell : IsCell []
empty-IsCell = record { no_comma = tt; no_newline = tt }

name_bytes-IsCell : (bs : Bytes) → IsCell (name_bytes bs)
unfolding name_bytes
name_bytes-IsCell [] = empty-IsCell
name_bytes-IsCell (c ∷ cs) = go (table_char c) refl (name_bytes-IsCell cs)
  where
    go :
        (b : Bool)
        → table_char c ≡ b
        → IsCell (name_bytes cs)
        → IsCell (if b then c ∷ name_bytes cs else [])
    go true e g = IsCell-cons c (name_bytes cs) (table_char-IsNeither c e) g
    go false e g = empty-IsCell

table_name-IsCell : (bs : Bytes) → IsCell (table_name bs)
unfolding table_name
table_name-IsCell [] = empty-IsCell
table_name-IsCell (c ∷ cs) =
    go (is_alpha c) (c == 0) (name_bytes-IsCell (c ∷ cs)) (table_name-IsCell cs)
  where
    go :
        (b end : Bool)
        → IsCell (name_bytes (c ∷ cs))
        → IsCell (table_name cs)
        → IsCell (if b then name_bytes (c ∷ cs) else if end then [] else table_name cs)
    go true end h k = h
    go false true h k = empty-IsCell
    go false false h k = k

abbrev pub AreTyped : Entries → Type 0
AreTyped es = All (λ e. IsCell e.0) es

register_query-AreTyped :
    (es : Entries) (ty : Bytes) (t : ℤ)
    → IsCell ty
    → AreTyped es
    → AreTyped (register_query es ty t)
unfolding register_query
register_query-AreTyped [] ty t h _ = (h, tt)
register_query-AreTyped ((j, e) ∷ m) ty t h (g, gs) =
    go (same_key j ty) (register_query-AreTyped m ty t h gs)
  where
    go :
        (b : Bool)
        → AreTyped (register_query m ty t)
        → AreTyped (if b then (j, update e t) ∷ m else (j, e) ∷ register_query m ty t)
    go true k = (g, gs)
    go false k = (g, k)

-- The names of tables and types do not end a field.
abbrev pub AreNamed : TableStats → Type 0
AreNamed s = All (λ t. IsCell t.0 × AreTyped t.1) s

update_named-AreNamed :
    (s : TableStats) (name ty : Bytes) (t : ℤ)
    → IsCell name
    → IsCell ty
    → AreNamed s
    → AreNamed (update_named s name ty t)
unfolding update_named
update_named-AreNamed [] name ty t n h _ = ((n, register_query-AreTyped [] ty t h tt), tt)
update_named-AreNamed ((j, es) ∷ m) name ty t n h ((g, typed), gs) =
    go (same_key j name) (update_named-AreNamed m name ty t n h gs)
  where
    go :
        (b : Bool)
        → AreNamed (update_named m name ty t)
        → AreNamed
            (if b then (j, register_query es ty t) ∷ m else (j, es) ∷ update_named m name ty t)
    go true k = ((g, register_query-AreTyped es ty t h typed), gs)
    go false k = ((g, typed), k)

handle_tables-AreNamed :
    (s : TableStats) (calls : List (Bytes × Bytes)) (t : ℤ)
    → All (λ c. IsCell c.0) calls
    → AreNamed s
    → AreNamed (handle_tables s calls t)
unfolding handle_tables update_table
handle_tables-AreNamed s [] t _ n = n
handle_tables-AreNamed s ((ty, token) ∷ calls) t (h, hs) n =
    handle_tables-AreNamed (update_table s token ty t) calls t hs
      (update_named-AreNamed s (table_name token) ty t (table_name-IsCell token) h n)

-- The queries of a run: the calls for the tables of each, and its time.
abbrev pub run_tables : TableStats → List (List (Bytes × Bytes) × ℤ) → TableStats
run_tables s [] = s
run_tables s ((calls, t) ∷ queries) = run_tables (handle_tables s calls t) queries

pub run_tables-AreNamed :
    (s : TableStats) (queries : List (List (Bytes × Bytes) × ℤ))
    → All (λ q. All (λ c. IsCell c.0) q.0) queries
    → AreNamed s
    → AreNamed (run_tables s queries)
run_tables-AreNamed s [] _ n = n
run_tables-AreNamed s ((calls, t) ∷ queries) (h, hs) n =
    run_tables-AreNamed (handle_tables s calls t) queries hs (handle_tables-AreNamed s calls t h n)
