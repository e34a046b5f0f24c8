-- ===== src/Stats/Summary.antt =====
-- What the statistics of one pattern say of the times that were recorded.
use mysqlpcap.Base.{
  ◌≡◌, refl, ◌⊎◌, inl, inr, sym, ap, ◌∙◌, Bool, true, false, List, [], ◌∷◌, ◌++◌, append_assoc,
  append-nil, arith, length, length-append, All, if◌then◌else◌,
}
use mysqlpcap.Base.Int.{ℤ, pos, ◌+ℤ◌, ◌≤ℤ◌, ltb_ℤ, +ℤ_assoc, +ℤ_comm}
use mysqlpcap.Stats.{PatternStats, initial, record_time, dbl_max}

unfoldable pub record_all : PatternStats → List ℤ → PatternStats
record_all s [] = s
record_all s (t ∷ ts) = record_all (record_time s t) ts

abbrev pub sum : List ℤ → ℤ
sum [] = pos 0
sum (t ∷ ts) = t +ℤ sum ts

abbrev pub Among : ℤ → List ℤ → Type 0
Among t [] = ⊥
Among t (x ∷ xs) = (t ≡ x) ⊎ Among t xs

-- The statistics are those of the times `ts`.
pub record IsSummary (s : PatternStats) (ts : List ℤ) : Type 0 where
  pub counted : s.n_queries ≡ length ts
  pub kept : s.exec_times ≡ ts
  pub totalled : s.total_exec_time ≡ sum ts
  pub between : All (λ t. (s.min_exec_time ≤ℤ t) × (t ≤ℤ s.max_exec_time)) ts
  pub attained :
      ((ts ≡ []) × (s.min_exec_time ≡ dbl_max) × (s.max_exec_time ≡ pos 0))
      ⊎ (Among s.min_exec_time ts × Among s.max_exec_time ts)

antisym : (a b : ℤ) → a ≤ℤ b → b ≤ℤ a → a ≡ b
antisym a b h k = ground arith

pub sum-append : (xs : List ℤ) (t : ℤ) → sum (xs ++ t ∷ []) ≡ sum xs +ℤ t
sum-append [] t = +ℤ_comm t (pos 0)
sum-append (x ∷ xs) t = ap (λ k. x +ℤ k) (sum-append xs t) ∙ sym (+ℤ_assoc x (sum xs) t)

pub Among-append : (a : ℤ) (xs : List ℤ) (t : ℤ) → Among a xs → Among a (xs ++ t ∷ [])
Among-append a [] t h = absurd h
Among-append a (x ∷ xs) t (inl e) = inl e
Among-append a (x ∷ xs) t (inr h) = inr (Among-append a xs t h)

pub Among-last : (xs : List ℤ) (t : ℤ) → Among t (xs ++ t ∷ [])
Among-last [] t = inl refl
Among-last (x ∷ xs) t = inr (Among-last xs t)

abbrev pub Between : ℤ → ℤ → List ℤ → Type 0
Between lo hi = All (λ t. (lo ≤ℤ t) × (t ≤ℤ hi))

pub Between-append :
    (lo hi lo' hi' : ℤ) (xs : List ℤ) (t : ℤ)
    → Between lo hi xs
    → lo' ≤ℤ lo
    → hi ≤ℤ hi'
    → lo' ≤ℤ t
    → t ≤ℤ hi'
    → Between lo' hi' (xs ++ t ∷ [])
Between-append lo hi lo' hi' [] t h a b c d = ((c, d), tt)
Between-append lo hi lo' hi' (x ∷ xs) t h a b c d =
    ((omega arith, omega arith), Between-append lo hi lo' hi' xs t h.1 a b c d)

module _ (s : PatternStats) (t : ℤ) where
  new_min : (if ltb_ℤ t s.min_exec_time then t else s.min_exec_time) ≤ℤ s.min_exec_time
  new_min = ground arith

  new_min-le : (if ltb_ℤ t s.min_exec_time then t else s.min_exec_time) ≤ℤ t
  new_min-le = ground arith

  new_max : s.max_exec_time ≤ℤ (if ltb_ℤ s.max_exec_time t then t else s.max_exec_time)
  new_max = ground arith

  new_max-ge : t ≤ℤ (if ltb_ℤ s.max_exec_time t then t else s.max_exec_time)
  new_max-ge = ground arith

first_min : (t m : ℤ) → t ≤ℤ m → (if ltb_ℤ t m then t else m) ≡ t
first_min t m h = ground (arith, antisym t m)

first_max : (t m : ℤ) → m ≤ℤ t → (if ltb_ℤ m t then t else m) ≡ t
first_max t m h = ground (arith, antisym t m)

pub Among-if :
    (b : Bool) (x y : ℤ) (ts : List ℤ) → Among x ts → Among y ts → Among (if b then x else y) ts
Among-if true x y ts h k = h
Among-if false x y ts h k = k

record_time-IsSummary :
    {s : PatternStats} {ts : List ℤ} (t : ℤ)
    → IsSummary s ts
    → pos 0 ≤ℤ t
    → t ≤ℤ dbl_max
    → IsSummary (record_time s t) (ts ++ t ∷ [])
unfolding record_time
record_time-IsSummary {s} {ts} t h lo hi = record {
  counted = omega (arith, h.counted, length-append ts (t ∷ []));
  kept = ap (λ xs. xs ++ t ∷ []) h.kept;
  totalled = ap (λ k. k +ℤ t) h.totalled ∙ sym (sum-append ts t);
  between =
      Between-append _ _ _ _ ts t h.between (new_min s t) (new_max s t) (new_min-le s t)
        (new_max-ge s t);
  attained = inr (elim h.attained [
    | inl (empty, least, greatest) ↦ rw empty (
      inl (first_min t s.min_exec_time (rw least hi)),
      inl (first_max t s.max_exec_time (rw greatest lo)),
    )
    | inr (a, b) ↦ (
      Among-if _ _ _ _ (Among-last ts t) (Among-append _ ts t a),
      Among-if _ _ _ _ (Among-last ts t) (Among-append _ ts t b),
    )
  ]);
}

initial-IsSummary : IsSummary initial []
initial-IsSummary = record {
  counted = refl;
  kept = refl;
  totalled = refl;
  between = tt;
  attained = inl (refl, refl, refl);
}

record_all-IsSummary :
    (s : PatternStats) (us ts : List ℤ)
    → IsSummary s us
    → All (λ t. (pos 0 ≤ℤ t) × (t ≤ℤ dbl_max)) ts
    → IsSummary (record_all s ts) (us ++ ts)
unfolding record_all
record_all-IsSummary s us [] h a = rw append-nil h
record_all-IsSummary s us (t ∷ ts) h a = rw (← append_assoc us (t ∷ []) ts) (
    record_all-IsSummary (record_time s t) (us ++ t ∷ []) ts (record_time-IsSummary t h a.0.0 a.0.1)
      a.1)

-- When times from 0 to DBL_MAX have been recorded in a pattern that was new, its count is their
-- number, its total their sum and its vector their list; its minimum and maximum bound them all, and
-- are two of them unless there are none.
pub record_all-initial :
    (ts : List ℤ)
    → All (λ t. (pos 0 ≤ℤ t) × (t ≤ℤ dbl_max)) ts
    → IsSummary (record_all initial ts) ts
record_all-initial ts h = record_all-IsSummary initial [] ts initial-IsSummary h
