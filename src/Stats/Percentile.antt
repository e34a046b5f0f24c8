-- ===== src/Stats/Percentile.antt =====
-- `finalize` sorts, and `get_pct_exec_time` reads a percentile of the sorted times.
use mysqlpcap.Base.{
  ℕ, zero, suc, ◌+◌, ◌-◌, ◌*◌, ◌/◌, ◌≤◌, ◌<◌, ◌≡◌, refl, some, List, [], ◌∷◌, arith, length,
  get_elem?, All, if◌then◌else◌, Bool-cases, inl, inr,
}
use mysqlpcap.Base.Int.{ℤ, ◌≤ℤ◌, ltb_ℤ}
use mysqlpcap.Stats.{PatternStats, insert, sort, finalize, pct_position, get_pct_exec_time}

-- How many of the times are at most `v`.
unfoldable pub count_le : ℤ → List ℤ → ℕ
count_le v [] = 0
count_le v (x ∷ xs) = (if ltb_ℤ v x then 0 else 1) + count_le v xs

-- How many of the times are less than `v`.
unfoldable pub count_lt : ℤ → List ℤ → ℕ
count_lt v [] = 0
count_lt v (x ∷ xs) = (if ltb_ℤ x v then 1 else 0) + count_lt v xs

abbrev pub IsSorted : List ℤ → Type 0
IsSorted [] = Unit
IsSorted (x ∷ xs) = All (λ y. x ≤ℤ y) xs × IsSorted xs

All-insert : (P : ℤ → Type 0) (t : ℤ) (xs : List ℤ) → P t → All P xs → All P (insert t xs)
unfolding insert
All-insert P t [] h a = (h, tt)
All-insert P t (x ∷ xs) h a = elim (Bool-cases (ltb_ℤ x t)) [
  | inl later ↦ rw later (a.0, All-insert P t xs h a.1)
  | inr here ↦ rw here (h, a)
]

All-mono : (a b : ℤ) (xs : List ℤ) → a ≤ℤ b → All (λ y. b ≤ℤ y) xs → All (λ y. a ≤ℤ y) xs
All-mono a b [] h k = tt
All-mono a b (x ∷ xs) h k = (omega arith, All-mono a b xs h k.1)

insert-IsSorted : (t : ℤ) (xs : List ℤ) → IsSorted xs → IsSorted (insert t xs)
unfolding insert
insert-IsSorted t [] h = (tt, tt)
insert-IsSorted t (x ∷ xs) h = elim (Bool-cases (ltb_ℤ x t)) [
  | inl later ↦
      rw later (All-insert (λ y. x ≤ℤ y) t xs (ground arith) h.0, insert-IsSorted t xs h.1)
  | inr here ↦ rw here ((ground arith, All-mono t x xs (ground arith) h.0), h)
]

pub sort-IsSorted : (xs : List ℤ) → IsSorted (sort xs)
unfolding sort
sort-IsSorted [] = tt
sort-IsSorted (x ∷ xs) = insert-IsSorted x (sort xs) (sort-IsSorted xs)

count_le-insert : (v t : ℤ) (xs : List ℤ) → count_le v (insert t xs) ≡ count_le v (t ∷ xs)
unfolding count_le insert
count_le-insert v t [] = refl
count_le-insert v t (x ∷ xs) = elim (Bool-cases (ltb_ℤ x t)) [
  | inl later ↦ rw later (omega (arith, count_le-insert v t xs))
  | inr here ↦ rw here
]

pub count_le-sort : (v : ℤ) (xs : List ℤ) → count_le v (sort xs) ≡ count_le v xs
unfolding sort count_le
count_le-sort v [] = refl
count_le-sort v (x ∷ xs) = omega (arith, count_le-insert v x (sort xs), count_le-sort v xs)

length-insert : (t : ℤ) (xs : List ℤ) → length (insert t xs) ≡ suc (length xs)
unfolding insert
length-insert t [] = refl
length-insert t (x ∷ xs) = ground (arith, length-insert t xs)

pub length-sort : (xs : List ℤ) → length (sort xs) ≡ length xs
unfolding sort
length-sort [] = refl
length-sort (x ∷ xs) = omega (arith, length-insert x (sort xs), length-sort xs)

All-get : (a v : ℤ) (xs : List ℤ) (i : ℕ) → All (λ y. a ≤ℤ y) xs → get_elem? xs i ≡ some v → a ≤ℤ v
All-get a v [] i h e = absurd (cc)
All-get a v (x ∷ xs) zero h e = ground arith
All-get a v (x ∷ xs) (suc i) h e = All-get a v xs i h.1 e

-- In a sorted list, what stands at position i has at least i + 1 elements that are at most it.
count_le-get :
    (v : ℤ) (xs : List ℤ) (i : ℕ) → IsSorted xs → get_elem? xs i ≡ some v → i < count_le v xs
unfolding count_le
count_le-get v [] i h e = absurd (cc)
count_le-get v (x ∷ xs) zero h e = ground arith
count_le-get v (x ∷ xs) (suc i) h e =
    ground (arith, All-get x v xs i h.0 e, count_le-get v xs i h.1 e)

pub get_elem?-total : (xs : List ℤ) (i : ℕ) → i < length xs → (v : ℤ) × (get_elem? xs i ≡ some v)
get_elem?-total [] i h = absurd (omega arith)
get_elem?-total (x ∷ xs) zero h = (x, refl)
get_elem?-total (x ∷ xs) (suc i) h = get_elem?-total xs i (omega arith)

product : (size pct : ℕ) → pct ≤ 100 → size * pct ≤ size * 100
product size pct h = grind arith

pub pct_position_bounds :
    (size pct : ℕ)
    → 0 < size
    → pct ≤ 100
    → (pct_position size pct < size) × (size * pct / 100 ≤ pct_position size pct + 1)
unfolding pct_position
pct_position_bounds size pct h k = ground (arith, product size pct k)

count_lt-insert : (v t : ℤ) (xs : List ℤ) → count_lt v (insert t xs) ≡ count_lt v (t ∷ xs)
unfolding count_lt insert
count_lt-insert v t [] = refl
count_lt-insert v t (x ∷ xs) = elim (Bool-cases (ltb_ℤ x t)) [
  | inl later ↦ rw later (omega (arith, count_lt-insert v t xs))
  | inr here ↦ rw here
]

count_lt-sort : (v : ℤ) (xs : List ℤ) → count_lt v (sort xs) ≡ count_lt v xs
unfolding sort count_lt
count_lt-sort v [] = refl
count_lt-sort v (x ∷ xs) = omega (arith, count_lt-insert v x (sort xs), count_lt-sort v xs)

none_less : (v : ℤ) (xs : List ℤ) → All (λ y. v ≤ℤ y) xs → count_lt v xs ≡ 0
unfolding count_lt
none_less v [] h = refl
none_less v (x ∷ xs) h = ground (arith, none_less v xs h.1)

-- In a sorted list, no more than i elements are less than what stands at position i.
count_lt-get :
    (v : ℤ) (xs : List ℤ) (i : ℕ) → IsSorted xs → get_elem? xs i ≡ some v → count_lt v xs ≤ i
unfolding count_lt
count_lt-get v [] i h e = absurd (cc)
count_lt-get v (x ∷ xs) zero h e =
    let same : x ≡ v = ground arith in ground (arith, none_less v xs (rw same at h.0))
count_lt-get v (x ∷ xs) (suc i) h e = ground (arith, count_lt-get v xs i h.1 e)

pub pct_position_value :
    (size pct : ℕ) → 0 < size → pct ≤ 100 → pct_position size pct ≡ size * pct / 100 - 1
unfolding pct_position
pct_position_value size pct h k = ground (arith, product size pct k)

-- After `finalize`, and for a pattern with at least one time, `get_pct_exec_time` reads inside the
-- vector, and the time it gives is the one of rank `pct` percent of the times, rounded down, or the
-- least if that is 0: at least that many times are at most it, and fewer than that, or none, are less.
pub get_pct_exec_time-count_le :
    (s : PatternStats) (pct : ℕ)
    → 0 < length s.exec_times
    → pct ≤ 100
    → (v : ℤ) × (get_pct_exec_time (finalize s) pct ≡ some v)
      × (length s.exec_times * pct / 100 ≤ count_le v s.exec_times)
      × (0 < count_le v s.exec_times)
      × (count_lt v s.exec_times ≤ length s.exec_times * pct / 100 - 1)
unfolding get_pct_exec_time finalize
get_pct_exec_time-count_le s pct h k =
    let size = length-sort s.exec_times in
    let bounds = pct_position_bounds (length s.exec_times) pct h k in
    let rank = pct_position_value (length s.exec_times) pct h k in
    let i = pct_position (length s.exec_times) pct in
    let (v, e) = get_elem?-total (sort s.exec_times) i (omega arith) in
    let le = count_le-get v (sort s.exec_times) i (sort-IsSorted s.exec_times) e in
    let lt = count_lt-get v (sort s.exec_times) i (sort-IsSorted s.exec_times) e in
    let same = count_le-sort v s.exec_times in
    (
      v,
      rw size e,
      omega (arith, le, same),
      omega (arith, le, same),
      omega (arith, lt, count_lt-sort v s.exec_times, rank),
    )
