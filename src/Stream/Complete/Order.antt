-- ===== src/Stream/Complete/Order.antt =====
-- `slow_queries.insert` and the end of the list, and what it is to hold the slowest queries.
use mathlib.Core.List.{Perm}
use mathlib.Core.List.Perm
use mysqlpcap.Base.{
  ℕ, suc, ◌≤◌, ◌<◌, ◌≡◌, ◌⊎◌, inl, inr, ◌∙◌, ap, sym, refl, true, some, List, [], ◌∷◌, ◌++◌, length,
  append_assoc, All, arith, Bool-cases, if◌then◌else◌,
}
use mysqlpcap.Base.Int.{ℤ, ◌≤ℤ◌, ltb_ℤ}
use mysqlpcap.Packet.{Ptr}
use mysqlpcap.Stream.Complete.{time_at, insert_slow, split_last}
use mysqlpcap.Sys.{Heap}

module _ (time : Ptr → ℤ) where
  -- The packets of the list take as long on the heap.
  abbrev pub Timed : Heap → List Ptr → Type 0
  Timed h ps = All (λ x. time_at h x ≡ some (time x)) ps

  -- The slowest come first.
  abbrev pub IsSorted : List Ptr → Type 0
  IsSorted [] = Unit
  IsSorted (x ∷ xs) = All (λ y. time y ≤ℤ time x) xs × IsSorted xs

  -- Of all queries `ps`, the list `ks` holds the `n` slowest, or all if there are not as many.
  pub record Slowest (n : ℕ) (ps ks : List Ptr) : Type 0 where
    pub left_out : List Ptr
    pub same : Perm (ks ++ left_out) ps
    pub sorted : IsSorted ks
    pub no_slower : All (λ x. All (λ k. time x ≤ℤ time k) ks) left_out
    pub fits : length ks ≤ n
    pub full : (left_out ≡ []) ⊎ (length ks ≡ n)

  pub insert_by : Ptr → List Ptr → List Ptr
  insert_by p [] = p ∷ []
  insert_by p (x ∷ xs) =
      let later = insert_by p xs in if ltb_ℤ (time x) (time p) then p ∷ x ∷ xs else x ∷ later

  pub insert_slow-Timed :
      (h : Heap) (p : Ptr) (xs : List Ptr)
      → Timed h xs
      → insert_slow h (time p) p xs ≡ some (insert_by p xs)
  unfolding insert_slow insert_by
  insert_slow-Timed h p [] _ = refl
  insert_slow-Timed h p (x ∷ xs) (e, es) = ground (arith, e, insert_slow-Timed h p xs es)

  pub All-insert_by :
      (P : Ptr → Type 0) (p : Ptr) (xs : List Ptr) → P p → All P xs → All P (insert_by p xs)
  unfolding insert_by
  All-insert_by P p [] h _ = (h, tt)
  All-insert_by P p (x ∷ xs) h (g, gs) = elim (Bool-cases (ltb_ℤ (time x) (time p))) [
    | inl t ↦ rw t (h, (g, gs))
    | inr f ↦ rw f (g, All-insert_by P p xs h gs)
  ]

  All-map : {P Q : Ptr → Type 0} (xs : List Ptr) → ((x : Ptr) → P x → Q x) → All P xs → All Q xs
  All-map [] f _ = tt
  All-map (x ∷ xs) f (h, hs) = (f x h, All-map xs f hs)

  faster : (x y p : Ptr) → time y ≤ℤ time x → ltb_ℤ (time x) (time p) ≡ true → time y ≤ℤ time p
  faster x y p h t = ground arith

  insert_by-IsSorted : (p : Ptr) (xs : List Ptr) → IsSorted xs → IsSorted (insert_by p xs)
  unfolding insert_by
  insert_by-IsSorted p [] _ = (tt, tt)
  insert_by-IsSorted p (x ∷ xs) (low, s) = elim (Bool-cases (ltb_ℤ (time x) (time p))) [
    | inl t ↦ rw t ((ground arith, All-map xs (λ y h. faster x y p h t) low), (low, s))
    | inr f ↦ rw f (All-insert_by _ p xs (ground arith) low, insert_by-IsSorted p xs s)
  ]

  pub insert_by-perm : (p : Ptr) (xs : List Ptr) → Perm (insert_by p xs) (p ∷ xs)
  unfolding insert_by
  insert_by-perm p [] = Perm.rfl
  insert_by-perm p (x ∷ xs) = elim (Bool-cases (ltb_ℤ (time x) (time p))) [
    | inl t ↦ rw t Perm.rfl
    | inr f ↦ rw f (Perm.trans (Perm.cons x (insert_by-perm p xs)) (Perm.swap p x xs))
  ]

  length-insert_by : (p : Ptr) (xs : List Ptr) → length (insert_by p xs) ≡ suc (length xs)
  unfolding insert_by
  length-insert_by p [] = refl
  length-insert_by p (x ∷ xs) = elim (Bool-cases (ltb_ℤ (time x) (time p))) [
    | inl t ↦ rw t refl
    | inr f ↦ rw (f, length-insert_by p xs) refl
  ]

  -- All but the last, and the last.
  pub front : Ptr → List Ptr → List Ptr
  front x [] = []
  front x (y ∷ ys) = x ∷ front y ys

  pub back : Ptr → List Ptr → Ptr
  back x [] = x
  back x (y ∷ ys) = back y ys

  pub split_last-front :
      (x : Ptr) (xs : List Ptr) → split_last (x ∷ xs) ≡ some (front x xs, back x xs)
  unfolding split_last front back
  split_last-front x [] = refl
  split_last-front x (y ∷ ys) = ground (arith, split_last-front y ys)

  pub front-append-back : (x : Ptr) (xs : List Ptr) → front x xs ++ back x xs ∷ [] ≡ x ∷ xs
  unfolding front back
  front-append-back x [] = refl
  front-append-back x (y ∷ ys) = ap (λ l. x ∷ l) (front-append-back y ys)

  pub All-front : (P : Ptr → Type 0) (x : Ptr) (xs : List Ptr) → All P (x ∷ xs) → All P (front x xs)
  unfolding front
  All-front P x [] _ = tt
  All-front P x (y ∷ ys) (h, hs) = (h, All-front P y ys hs)

  All-back : (P : Ptr → Type 0) (x : Ptr) (xs : List Ptr) → All P (x ∷ xs) → P (back x xs)
  unfolding back
  All-back P x [] (h, _) = h
  All-back P x (y ∷ ys) (_, hs) = All-back P y ys hs

  front-IsSorted : (x : Ptr) (xs : List Ptr) → IsSorted (x ∷ xs) → IsSorted (front x xs)
  unfolding front
  front-IsSorted x [] _ = tt
  front-IsSorted x (y ∷ ys) (low, s) = (All-front _ y ys low, front-IsSorted y ys s)

  back-no_slower :
      (x : Ptr) (xs : List Ptr)
      → IsSorted (x ∷ xs)
      → All (λ k. time (back x xs) ≤ℤ time k) (front x xs)
  unfolding front back
  back-no_slower x [] _ = tt
  back-no_slower x (y ∷ ys) (low, s) = (All-back _ y ys low, back-no_slower y ys s)

  front_all : List Ptr → List Ptr
  front_all [] = []
  front_all (x ∷ xs) = front x xs

  All-front_cons :
      (P : Ptr → Type 0) (x : Ptr) (ys : List Ptr) → P x → All P (front_all ys) → All P (front x ys)
  unfolding front front_all
  All-front_cons P x [] h _ = tt
  All-front_cons P x (y ∷ ys) h hs = (h, hs)

  -- What is no slower than the rest of the list, is no slower than all but the last with the new one.
  front_all-no_slower :
      (r p : Ptr) (xs : List Ptr)
      → All (λ k. time r ≤ℤ time k) xs
      → All (λ k. time r ≤ℤ time k) (front_all (insert_by p xs))
  unfolding insert_by front_all front
  front_all-no_slower r p [] _ = tt
  front_all-no_slower r p (x ∷ xs) (low, s) = elim (Bool-cases (ltb_ℤ (time x) (time p))) [
    | inl t ↦ rw t (faster x r p low t, All-front _ x xs (low, s))
    | inr f ↦ rw f (All-front_cons _ x (insert_by p xs) low (front_all-no_slower r p xs s))
  ]

  -- A query that is put in where there is room.
  pub room-Slowest :
      {n : ℕ} {ps ks : List Ptr} (p : Ptr)
      → Slowest n ps ks
      → length (insert_by p ks) ≤ n
      → Slowest n (p ∷ ps) (insert_by p ks)
  room-Slowest {n} {ps} {ks} p s room = elim s.full [
    | inl none_left ↦ record {
      left_out = [];
      same =
          Perm.trans (Perm.append_right [] (insert_by-perm p ks))
            (Perm.cons p (rw none_left at s.same));
      sorted = insert_by-IsSorted p ks s.sorted;
      no_slower = tt;
      fits = room;
      full = inl refl;
    }
    | inr at_limit ↦ absurd (omega (arith, length-insert_by p ks))
  ]

  length-front : (x : Ptr) (xs : List Ptr) → length (front x xs) ≡ length xs
  unfolding front
  length-front x [] = refl
  length-front x (y ∷ ys) = ap suc (length-front y ys)

  regroup :
      (p y : Ptr) (ys ks rest : List Ptr)
      → insert_by p ks ≡ y ∷ ys
      → front y ys ++ back y ys ∷ rest ≡ insert_by p ks ++ rest
  regroup p y ys ks rest e =
      sym (append_assoc (front y ys) (back y ys ∷ []) rest)
      ∙ ap (λ l. l ++ rest) (front-append-back y ys ∙ sym e)

  -- The last of too many is left out.
  pub evict-Slowest :
      {n : ℕ} {ps ks : List Ptr} (p y : Ptr) (ys : List Ptr)
      → Slowest n ps ks
      → insert_by p ks ≡ y ∷ ys
      → n < length (y ∷ ys)
      → Slowest n (p ∷ ps) (front y ys)
  unfolding front front_all
  evict-Slowest {n} {ps} {ks} p y ys s e over =
      let size = ap length e in
      record {
        left_out = back y ys ∷ s.left_out;
        same =
            rw (regroup p y ys ks s.left_out e) (
              Perm.trans (Perm.append_right s.left_out (insert_by-perm p ks)) (Perm.cons p s.same));
        sorted = front-IsSorted y ys (rw e at (insert_by-IsSorted p ks s.sorted));
        no_slower = (
          back-no_slower y ys (rw e at (insert_by-IsSorted p ks s.sorted)),
          All-map s.left_out (λ r low. rw e at (front_all-no_slower r p ks low)) s.no_slower,
        );
        fits = omega (arith, size, length-insert_by p ks, length-front y ys, s.fits);
        full = inr (omega (arith, size, length-insert_by p ks, length-front y ys, s.fits, over));
      }

  pub insert_by-cons :
      (p : Ptr) (xs : List Ptr) → (y : Ptr) × (ys : List Ptr) × (insert_by p xs ≡ y ∷ ys)
  unfolding insert_by
  insert_by-cons p [] = (p, [], refl)
  insert_by-cons p (x ∷ xs) = elim (Bool-cases (ltb_ℤ (time x) (time p))) [
    | inl t ↦ (p, x ∷ xs, rw t refl)
    | inr f ↦ (x, insert_by p xs, rw f refl)
  ]
