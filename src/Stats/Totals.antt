-- ===== src/Stats/Totals.antt =====
-- `Query_stats`: each pattern has the statistics of its own times, and the totals those of all.
use mysqlpcap.Base.{
  ◌+◌, ◌≡◌, refl, ◌↔◌, inl, inr, sym, ◌∙◌, true, Option, none, some, List, [], ◌∷◌, Bytes, arith,
  length, if◌then◌else◌, Bool-cases,
}
use mysqlpcap.Base.Int.{ℤ, ◌+ℤ◌, +ℤ_assoc, +ℤ-zero, zero-+ℤ}
use mysqlpcap.Stats.{
  PatternStats, initial, same_key, QueryStats, no_queries, record_entry, record_query,
}
use mysqlpcap.Stats.Summary.{record_all, sum}

pub same_key_iff : (a b : Bytes) → (same_key a b ≡ true) ↔ (a ≡ b)
unfolding same_key
same_key_iff (x ∷ a) (y ∷ b) = ground (arith, same_key_iff a b)
same_key_iff _ _ = ground arith

-- The entry of a key.
abbrev pub find : Bytes → List (Bytes × PatternStats) → Option PatternStats
find k [] = none
find k ((j, s) ∷ m) = if same_key j k then some s else find k m

-- The statistics of a pattern that may be new, when times are recorded in it.
abbrev pub after : Option PatternStats → List ℤ → Option PatternStats
after o [] = o
after none (t ∷ ts) = some (record_all initial (t ∷ ts))
after (some s) (t ∷ ts) = some (record_all s (t ∷ ts))

abbrev pub times_of : Bytes → List (Bytes × ℤ) → List ℤ
times_of k [] = []
times_of k ((j, t) ∷ rs) = if same_key j k then t ∷ times_of k rs else times_of k rs

unfoldable pub record_queries : QueryStats → List (Bytes × ℤ) → QueryStats
record_queries q [] = q
record_queries q ((k, t) ∷ rs) = record_queries (record_query q k t) rs

abbrev pub all_times : List (Bytes × ℤ) → List ℤ
all_times [] = []
all_times ((k, t) ∷ rs) = t ∷ all_times rs

find-record_entry :
    (k j : Bytes) (t : ℤ) (m : List (Bytes × PatternStats))
    → find j (record_entry k t m) ≡ (if same_key k j then after (find k m) (t ∷ []) else find j m)
unfolding record_entry record_all
find-record_entry k j t [] = ground arith
find-record_entry k j t ((i, s) ∷ m) =
    ground (arith, same_key_iff i k, same_key_iff i j, same_key_iff k j, find-record_entry k j t m)

after-cons :
    (o : Option PatternStats) (t : ℤ) (ts : List ℤ) → after (after o (t ∷ [])) ts ≡ after o (t ∷ ts)
unfolding record_all
after-cons none t [] = refl
after-cons none t (u ∷ ts) = refl
after-cons (some s) t [] = refl
after-cons (some s) t (u ∷ ts) = refl

find-record_queries :
    (k : Bytes) (rs : List (Bytes × ℤ)) (q : QueryStats)
    → find k (record_queries q rs).lookup ≡ after (find k q.lookup) (times_of k rs)
unfolding record_queries record_query
find-record_queries k [] q = refl
find-record_queries k ((j, t) ∷ rs) q = elim (Bool-cases (same_key j k)) [
  | inl same ↦
      find-record_queries k rs (record_query q j t)
      ∙ rw (find-record_entry j k t q.lookup, same, after-cons, (same_key_iff j k).0 same)
  | inr other ↦
      find-record_queries k rs (record_query q j t) ∙ rw (find-record_entry j k t q.lookup, other)
]

totals :
    (rs : List (Bytes × ℤ)) (q : QueryStats)
    → ((record_queries q rs).n_queries ≡ q.n_queries + length rs)
      × ((record_queries q rs).total_exec_time ≡ q.total_exec_time +ℤ sum (all_times rs))
unfolding record_queries record_query
totals [] q = (omega arith, sym (+ℤ-zero q.total_exec_time))
totals ((k, t) ∷ rs) q =
    let (n, total) = totals rs (record_query q k t) in
    (omega arith, total ∙ +ℤ_assoc q.total_exec_time t (sum (all_times rs)))

-- After any sequence of queries, each key has the statistics of the times recorded under it, in
-- their order, and no entry if there are none; the totals are the number and the sum of all times.
pub record_queries-times_of :
    (rs : List (Bytes × ℤ)) (k : Bytes)
    → (find k (record_queries no_queries rs).lookup ≡ after none (times_of k rs))
      × ((record_queries no_queries rs).n_queries ≡ length rs)
      × ((record_queries no_queries rs).total_exec_time ≡ sum (all_times rs))
record_queries-times_of rs k = (
  find-record_queries k rs no_queries,
  omega (arith, (totals rs no_queries).0),
  (totals rs no_queries).1 ∙ zero-+ℤ _,
)
