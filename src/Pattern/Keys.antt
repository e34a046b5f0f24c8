-- ===== src/Pattern/Keys.antt =====
-- Which pattern names a query, and how long the key may be, given what PCRE2 documents of
-- `pcre2_substitute`.
use mysqlpcap.Base.{
  ℕ, zero, suc, ◌-◌, ◌^◌, ◌≤◌, ◌<◌, ◌≡◌, refl, ap, ◌≢◌, ◌⊎◌, inl, inr, List, [], ◌∷◌, Bytes, arith,
  length,
}
use mysqlpcap.Pattern.{
  Pcre, Rc, matched, no_memory, failure, Applied, key, unmatched, throws, QueryPattern,
  blank_line_ends, read_result, apply, get_query_key,
}

-- `PCRE2_UNSET`
abbrev pub unset : ℕ
unset = 2 ^ 64 - 1

-- What PCRE2 documents: a successful call leaves the length of what it wrote, and the output and
-- its NUL fit; without a match the subject is copied; a call that runs out of room leaves
-- `PCRE2_UNSET`.
pub record IsDocumented (pcre : Pcre) : Type 0 where
  pub replaces :
      (c : pcre.Code) (s r : Bytes) (n k : ℕ) (out : Bytes) (len : ℕ)
      → pcre.substitute c s r n ≡ (matched (suc k), out, len)
      → (len ≡ length out) × (length out < n)
  pub copies :
      (c : pcre.Code) (s r : Bytes) (n : ℕ) (out : Bytes) (len : ℕ)
      → pcre.substitute c s r n ≡ (matched 0, out, len)
      → (len ≡ length s) × (length s < n)
  pub overflows :
      (c : pcre.Code) (s r : Bytes) (n : ℕ) (out : Bytes) (len : ℕ)
      → pcre.substitute c s r n ≡ (no_memory, out, len)
      → len ≡ unset

module _ (pcre : Pcre) (doc : IsDocumented pcre) where
  -- A call for which there was room leaves a smaller length, and its key is below the given one.
  read_result_room :
      (c : pcre.Code) (s r : Bytes) (len : ℕ) (answer : Rc × Bytes × ℕ)
      → pcre.substitute c s r len ≡ answer
      → answer.0 ≢ no_memory
      → ((k : Bytes) × ((read_result answer).0 ≡ key k) × (length k < len))
        ⊎ (((read_result answer).0 ≡ unmatched) × ((read_result answer).1 < len))
        ⊎ ((read_result answer).0 ≡ throws)
  unfolding read_result
  read_result_room c s r len (matched zero, out, n) e room =
      inr (inl (refl, omega (arith, doc.copies _ _ _ _ _ _ e)))
  read_result_room c s r len (matched (suc k), out, n) e room =
      inl (out, ground arith, (doc.replaces _ _ _ _ _ _ _ e).1)
  read_result_room c s r len (no_memory, out, n) e room = absurd (room refl)
  read_result_room c s r len (failure, out, n) e room = inr (inr refl)

  read_result-no_memory :
      (c : pcre.Code) (s r : Bytes) (len : ℕ) (answer : Rc × Bytes × ℕ)
      → pcre.substitute c s r len ≡ answer
      → answer.0 ≡ no_memory
      → read_result answer ≡ (unmatched, unset)
  unfolding read_result
  read_result-no_memory c s r len (no_memory, out, n) e f =
      ap (λ k. (unmatched, k)) (doc.overflows _ _ _ _ _ _ e)
  read_result-no_memory c s r len (matched k, out, n) e f = cc
  read_result-no_memory c s r len (failure, out, n) e f = cc

  -- No pattern of the list runs out of room for its output when its turn comes.
  abbrev pub NeverFull : List (QueryPattern pcre) → Bytes → ℕ → Type 0
  NeverFull [] query len = Unit
  NeverFull (p ∷ ps) query len =
      ((pcre.substitute p.re (blank_line_ends query) p.replace_str len).0 ≢ no_memory)
      × NeverFull ps query (apply pcre p query len).1

  weaken :
      {a b : ℕ} (r : Applied) (k : Bytes)
      → a ≤ b
      → (r ≡ key k → (length k < a) ⊎ (k ≡ []))
      → r ≡ key k
      → (length k < b) ⊎ (k ≡ [])
  weaken r k le f e = ground (arith, f e)

  -- Given what PCRE2 documents of `pcre2_substitute`: where no pattern runs out of room, the key that
  -- `get_query_key` finds fits into the buffer with its NUL, or it is empty.
  pub get_query_key-fits :
      (patterns : List (QueryPattern pcre)) (query : Bytes) (len : ℕ) (k : Bytes)
      → NeverFull patterns query len
      → get_query_key pcre patterns query len ≡ key k
      → (length k < len) ⊎ (k ≡ [])
  unfolding get_query_key apply
  get_query_key-fits [] query len k h e = inr (ground arith)
  get_query_key-fits (p ∷ ps) query len k h e =
      elim (read_result_room p.re (blank_line_ends query) p.replace_str len _ refl h.0) [
        | inl (j, found, small) ↦ inl (ground arith)
        | inr (inl (next, smaller)) ↦
            ground (arith, get_query_key-fits ps query (apply pcre p query len).1 k h.1)
        | inr (inr thrown) ↦ ground arith
      ]

  -- Given what PCRE2 documents of `pcre2_substitute`: after a pattern that ran out of room,
  -- `get_query_key` runs the others as if the buffer held 2^64 - 1 bytes, whatever its size.
  get_query_key-no_memory :
      (p : QueryPattern pcre) (ps : List (QueryPattern pcre)) (query : Bytes) (len : ℕ)
      → (pcre.substitute p.re (blank_line_ends query) p.replace_str len).0 ≡ no_memory
      → get_query_key pcre (p ∷ ps) query len ≡ get_query_key pcre ps query unset
  unfolding get_query_key apply
  get_query_key-no_memory p ps query len full =
      cc (read_result-no_memory p.re (blank_line_ends query) p.replace_str len _ refl full)
