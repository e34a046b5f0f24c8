-- ===== src/Program/Usage/Aligned.antt =====
-- The lines of the usage text: they are aligned, and there is one for each option that is described.
use mysqlpcap.Base.{
  ℕ, zero, suc, ◌+◌, ◌-◌, ◌≤◌, ◌≡◌, refl, ◌∙◌, ap, some, List, [], ◌∷◌, ◌++◌, append_assoc, Bytes,
  length, get_elem?, arith,
}
use mysqlpcap.Program.Usage.{
  LongOption, blanks, newline, option_str, wider, widest, set_width, option_line, missing_line,
  option_lines, usage_of,
}

le-wider : (w n : ℕ) → (w ≤ wider w n) × (n ≤ wider w n)
unfolding wider
le-wider w n = ground arith

le-widest : (os : List LongOption) (w : ℕ) → w ≤ widest w os
unfolding widest
le-widest [] w = omega arith
le-widest (o ∷ os) w =
    omega
      (arith, le-widest os (wider w (length (option_str o))), le-wider w (length (option_str o)))

option-le-widest :
    (os : List LongOption) (w i : ℕ) (o : LongOption)
    → get_elem? os i ≡ some o
    → length (option_str o) ≤ widest w os
unfolding widest
option-le-widest [] w i o e = cc
option-le-widest (o' ∷ os) w zero o e =
    let same : o' ≡ o = cc in
    rw (← same) (
      omega (
        arith,
        le-widest os (wider w (length (option_str o'))),
        le-wider w (length (option_str o')),
      ))
option-le-widest (o' ∷ os) w (suc i) o e =
    option-le-widest os (wider w (length (option_str o'))) i o e

get_elem?-option_lines :
    (width : ℕ) (os : List LongOption) (ds : List Bytes) (i : ℕ) (o : LongOption) (d : Bytes)
    → get_elem? os i ≡ some o
    → get_elem? ds i ≡ some d
    → get_elem? (option_lines width os ds) i ≡ some (option_line width o d)
unfolding option_lines
get_elem?-option_lines width [] ds i o d e e' = cc
get_elem?-option_lines width (o' ∷ os) [] i o d e e' = cc
get_elem?-option_lines width (o' ∷ os) (d' ∷ ds) zero o d e e' =
    λ j. some (option_line width (same j) (same' j))
  where
    same : o' ≡ o
    same = cc

    same' : d' ≡ d
    same' = cc
get_elem?-option_lines width (o' ∷ os) (d' ∷ ds) (suc i) o d e e' =
    get_elem?-option_lines width os ds i o d e e'

missing_last :
    (width : ℕ) (os : List LongOption) (ds : List Bytes) (o : LongOption)
    → get_elem? os (length ds) ≡ some o
    → (shown : List Bytes) × (length shown ≡ length ds)
      × (option_lines width os ds ≡ shown ++ missing_line o ∷ [])
unfolding option_lines
missing_last width [] ds o e = cc
missing_last width (o' ∷ os) [] o e = ([], refl, λ j. missing_line (same j) ∷ [])
  where
    same : o' ≡ o
    same = cc
missing_last width (o' ∷ os) (d ∷ ds) o e =
    let (shown, size, rest) = missing_last width os ds o e in
    (option_line width o' d ∷ shown, ap suc size, ap (λ l. option_line width o' d ∷ l) rest)

-- The descriptions are aligned: for each table of options and list of descriptions, the line of the
-- i-th option is two blanks, the option, at least two blanks more, and the i-th description, which
-- begins in the same column on each line.
pub usage_of-aligned :
    (os : List LongOption) (ds : List Bytes) (i : ℕ) (o : LongOption) (d : Bytes)
    → get_elem? os i ≡ some o
    → get_elem? ds i ≡ some d
    → (k : ℕ) × (2 ≤ k)
      × (length (option_str o) + k ≡ widest 0 os + 2)
      × (get_elem? (usage_of os ds) i ≡ some (blanks 2 ++ option_str o ++ blanks k ++ d ++ newline))
unfolding usage_of option_line set_width
usage_of-aligned os ds i o d e e' =
    let fits = option-le-widest os 0 i o e in
    (
      widest 0 os + 2 - length (option_str o),
      omega arith,
      omega arith,
      get_elem?-option_lines (widest 0 os + 2) os ds i o d e e' ∙ simp (append_assoc) refl,
    )

-- Where there are fewer descriptions than options, the text ends with an error behind the last
-- description: the first option that has none, and all options behind it, are not described.
pub usage_of-missing :
    (os : List LongOption) (ds : List Bytes) (o : LongOption)
    → get_elem? os (length ds) ≡ some o
    → (shown : List Bytes) × (length shown ≡ length ds)
      × (usage_of os ds ≡ shown ++ missing_line o ∷ [])
unfolding usage_of
usage_of-missing os ds o e = missing_last (widest 0 os + 2) os ds o e
