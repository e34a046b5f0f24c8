-- ===== src/Output/Read.antt =====
-- A reader of lines with commas: it takes no escapes, and the first field of a row may be in quotes.
use mysqlpcap.Base.{
  ℕ, zero, suc, ◌≡◌, refl, ◌∙◌, ap, sym, false, List, [], ◌∷◌, ◌++◌, append_assoc, Bytes, length,
  All, ◌==◌, ==_iff, if◌then◌else◌,
}
use mysqlpcap.Base.Int.{ℤ}
use mysqlpcap.Output.{Format, commas, newline}

-- What stands before the first `c`, and what stands behind it.
unfoldable pub until : (c : ℕ) → Bytes → Bytes × Bytes
until c [] = ([], [])
until c (b ∷ bs) = let more = until c bs in if b == c then ([], bs) else (b ∷ more.0, more.1)

abbrev pub IsFree : (c : ℕ) → Bytes → Type 0
IsFree c bs = All (λ b. (b == c) ≡ false) bs

pub until-append : (c : ℕ) (bs rest : Bytes) → IsFree c bs → until c (bs ++ c ∷ rest) ≡ (bs, rest)
unfolding until
until-append c [] rest _ = rw ((==_iff c c).1 refl) refl
until-append c (b ∷ bs) rest (ne, free) = rw (ne, until-append c bs rest free) refl

-- So many fields that a comma ends, and the last of the line.
unfoldable pub fields : (commas : ℕ) → Bytes → List Bytes × Bytes
unfolding until
fields zero bs = let (f, rest) = until newline bs in (f ∷ [], rest)
fields (suc n) bs =
    let (f, rest) = until b',' bs in let (fs, rest') = fields n rest in (f ∷ fs, rest')

-- A text that does not end its field.
pub record IsCell (c : Bytes) : Type 0 where
  pub no_comma : IsFree b',' c
  pub no_newline : IsFree newline c

pub fields-commas :
    (c : Bytes) (cs : List Bytes) (rest : Bytes)
    → IsCell c
    → All IsCell cs
    → fields (length cs) (c ++ (commas cs ++ newline ∷ rest)) ≡ (c ∷ cs, rest)
unfolding fields
fields-commas c [] rest h _ = rw (until-append newline c rest h.no_newline) refl
fields-commas c (d ∷ ds) rest h (g, gs) =
    rw
      (
        append_assoc d (commas ds) (newline ∷ rest),
        until-append b',' c (d ++ (commas ds ++ newline ∷ rest)) h.no_comma,
        fields-commas d ds rest g gs,
      )
      refl

-- Numbers are written without commas and line ends.
pub record IsPlain (format : Format) : Type 0 where
  pub u_cell : (n : ℕ) → IsCell (format.show_u n)
  pub f_cell : (t : ℤ) (d : ℕ) → IsCell (format.show_f t d)
  pub f5_cell : (t : ℤ) (d : ℕ) → IsCell (format.show_f5 t d)

pub commas-append : (cs ds : List Bytes) → commas (cs ++ ds) ≡ commas cs ++ commas ds
commas-append [] ds = refl
commas-append (c ∷ cs) ds =
    ap (λ bs. b',' ∷ bs)
      (ap (λ bs. c ++ bs) (commas-append cs ds) ∙ sym (append_assoc c (commas cs) (commas ds)))

pub All-append : (P : Bytes → Type 0) (cs ds : List Bytes) → All P cs → All P ds → All P (cs ++ ds)
All-append P [] ds _ h = h
All-append P (c ∷ cs) ds (g, gs) h = (g, All-append P cs ds gs h)
