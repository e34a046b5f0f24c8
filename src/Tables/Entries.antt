-- ===== src/Tables/Entries.antt =====
-- Each table and type of query has the statistics of its own times.
use mysqlpcap.Base.{
  ◌≡◌, refl, sym, ap, ◌⊎◌, ◌++◌, append_assoc, append-nil, length-append, ◌∙◌, inl, inr, ◌&&◌,
  Option, none, some, List, [], ◌∷◌, Bytes, arith, length, All, if◌then◌else◌, Bool-cases,
}
use mysqlpcap.Base.Int.{ℤ, ◌+ℤ◌, ◌≤ℤ◌, +ℤ-zero}
use mysqlpcap.Stats.{same_key}
use mysqlpcap.Stats.Summary.{
  sum, sum-append, Among, Among-if, Among-last, Among-append, Between-append,
}
use mysqlpcap.Stats.Totals.{same_key_iff}
use mysqlpcap.Tables.{
  Entry, Entries, TableStats, update, first_entry, register_query, table_name, update_named,
  update_table,
}

abbrev pub find_type : Bytes → Entries → Option Entry
find_type ty [] = none
find_type ty ((j, e) ∷ m) = if same_key j ty then some e else find_type ty m

-- The entry of a table and a type.
abbrev pub find_entry : (table ty : Bytes) → TableStats → Option Entry
find_entry table ty [] = none
find_entry table ty ((j, es) ∷ m) =
    if same_key j table then find_type ty es else find_entry table ty m

abbrev pub with_time : Option Entry → ℤ → Entry
with_time none t = first_entry t
with_time (some e) t = update e t

find_type-register_query :
    (es : Entries) (ty ty' : Bytes) (t : ℤ)
    → find_type ty' (register_query es ty t)
      ≡ (if same_key ty ty' then some (with_time (find_type ty es) t) else find_type ty' es)
unfolding register_query
find_type-register_query [] ty ty' t = refl
find_type-register_query ((j, e) ∷ m) ty ty' t = ground (
  arith,
  same_key_iff j ty,
  same_key_iff j ty',
  same_key_iff ty ty',
  find_type-register_query m ty ty' t,
)

find_entry-update_named :
    (s : TableStats) (name ty table' ty' : Bytes) (t : ℤ)
    → find_entry table' ty' (update_named s name ty t) ≡ (
        if same_key name table'
        then (if same_key ty ty'
            then some (with_time (find_entry name ty s) t)
            else find_entry table' ty' s)
        else find_entry table' ty' s)
unfolding update_named
find_entry-update_named [] name ty table' ty' t =
    ground (arith, find_type-register_query [] ty ty' t)
find_entry-update_named ((j, es) ∷ m) name ty table' ty' t = ground (
  arith,
  same_key_iff j name,
  same_key_iff j table',
  same_key_iff name table',
  find_type-register_query es ty ty' t,
  find_entry-update_named m name ty table' ty' t,
)

-- One call of `update_table`: the token, the type of query and the time.
pub record Call : Type 0 where
  pub token : Bytes
  pub query_type : Bytes
  pub exec_time : ℤ

unfoldable pub update_all : TableStats → List Call → TableStats
update_all s [] = s
update_all s (c ∷ cs) = update_all (update_table s c.token c.query_type c.exec_time) cs

-- The times of the calls for a table and a type.
abbrev pub times_for : (table ty : Bytes) → List Call → List ℤ
times_for table ty [] = []
times_for table ty (c ∷ cs) =
    if same_key (table_name c.token) table && same_key c.query_type ty
    then c.exec_time ∷ times_for table ty cs
    else times_for table ty cs

abbrev pub add_times : Option Entry → List ℤ → Option Entry
add_times o [] = o
add_times o (t ∷ ts) = add_times (some (with_time o t)) ts

find_entry-update_all :
    (table ty : Bytes) (cs : List Call) (s : TableStats)
    → find_entry table ty (update_all s cs)
      ≡ add_times (find_entry table ty s) (times_for table ty cs)
unfolding update_all update_table
find_entry-update_all table ty [] s = refl
find_entry-update_all table ty (c ∷ cs) s =
    find_entry-update_all table ty cs _
    ∙ rw (find_entry-update_named s (table_name c.token) c.query_type table ty c.exec_time)
        (elim (Bool-cases (same_key (table_name c.token) table)) [
          | inr other ↦ rw other
          | inl same ↦ elim (Bool-cases (same_key c.query_type ty)) [
            | inr other ↦ rw (same, other)
            | inl same' ↦ rw (
              same,
              same',
              (same_key_iff (table_name c.token) table).0 same,
              (same_key_iff c.query_type ty).0 same',
            )
          ]
        ])

-- The entry describes the times `ts`.
pub record IsEntryOf (ts : List ℤ) (e : Entry) : Type 0 where
  pub counted : e.n ≡ length ts
  pub totalled : e.total_time ≡ sum ts
  pub between : All (λ t. (e.min_time ≤ℤ t) × (t ≤ℤ e.max_time)) ts
  pub attained : Among e.min_time ts × Among e.max_time ts

first_entry-IsEntryOf : (t : ℤ) → IsEntryOf (t ∷ []) (first_entry t)
first_entry-IsEntryOf t = record {
  counted = refl;
  totalled = sym (+ℤ-zero t);
  between = ((omega arith, omega arith), tt);
  attained = (inl refl, inl refl);
}

update-IsEntryOf :
    {ts : List ℤ} {e : Entry} (t : ℤ) → IsEntryOf ts e → IsEntryOf (ts ++ t ∷ []) (update e t)
unfolding update
update-IsEntryOf {ts} {e} t h = record {
  counted = omega (arith, h.counted, length-append ts (t ∷ []));
  totalled = ap (λ k. k +ℤ t) h.totalled ∙ sym (sum-append ts t);
  between =
      Between-append e.min_time e.max_time (update e t).min_time (update e t).max_time ts t
        h.between (ground arith) (ground arith) (ground arith) (ground arith);
  attained = (
    Among-if _ _ _ _ (Among-last ts t) (Among-append _ ts t h.attained.0),
    Among-if _ _ _ _ (Among-last ts t) (Among-append _ ts t h.attained.1),
  );
}

add_times-IsEntryOf :
    (ts us : List ℤ) (e : Entry)
    → IsEntryOf us e
    → (e' : Entry) × (add_times (some e) ts ≡ some e') × IsEntryOf (us ++ ts) e'
add_times-IsEntryOf [] us e h = (e, refl, rw append-nil h)
add_times-IsEntryOf (t ∷ ts) us e h =
    rw (← append_assoc us (t ∷ []) ts)
      (add_times-IsEntryOf ts (us ++ t ∷ []) (update e t) (update-IsEntryOf t h))

-- After any calls of `update_table`, a table and a type of query that no call was for have no entry;
-- otherwise their entry has the number, the sum, the least and the greatest of exactly the times of
-- the calls for them.
pub find_entry-times_for :
    (table ty : Bytes) (cs : List Call)
    → ((times_for table ty cs ≡ []) × (find_entry table ty (update_all [] cs) ≡ none))
      ⊎ ((e : Entry) × (find_entry table ty (update_all [] cs) ≡ some e)
          × IsEntryOf (times_for table ty cs) e)
find_entry-times_for table ty cs =
    rw (find_entry-update_all table ty cs []) (go (times_for table ty cs))
  where
    go :
        (ts : List ℤ)
        → ((ts ≡ []) × (add_times none ts ≡ none))
          ⊎ ((e : Entry) × (add_times none ts ≡ some e) × IsEntryOf ts e)
    go [] = inl (refl, refl)
    go (t ∷ ts) = inr (add_times-IsEntryOf ts (t ∷ []) (first_entry t) (first_entry-IsEntryOf t))
