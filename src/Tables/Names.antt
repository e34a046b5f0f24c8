-- ===== src/Tables/Names.antt =====
-- Which name `update_table` finds in a token.
use mysqlpcap.Base.{◌==◌, ℕ, ◌≡◌, refl, true, false, [], ◌∷◌, ◌++◌, Bytes, All, arith}
use mysqlpcap.Tables.{is_alpha, table_char, name_bytes, table_name}

-- What ends a name: a byte that is none of its bytes, or the end of the token.
abbrev pub EndsName : Bytes → Type 0
EndsName [] = Unit
EndsName (c ∷ cs) = table_char c ≡ false

alpha-table_char : (c : ℕ) → is_alpha c ≡ true → table_char c ≡ true
unfolding table_char
alpha-table_char c h = ground arith

name_bytes-append :
    (name rest : Bytes)
    → All (λ c. table_char c ≡ true) name
    → EndsName rest
    → name_bytes (name ++ rest) ≡ name
unfolding name_bytes
name_bytes-append [] [] h e = refl
name_bytes-append [] (c ∷ rest) h e = rw e
name_bytes-append (c ∷ name) rest h e = rw h.0 (rw (name_bytes-append name rest h.1 e))

-- In a token that begins with bytes which are no letters and not 0, such as quotes, the table's name is the
-- first letter with the letters, digits, `_` and `$` that follow it without a gap.
table_name-append :
    (quotes : Bytes) (c : ℕ) (name rest : Bytes)
    → All (λ q. (is_alpha q ≡ false) × ((q == 0) ≡ false)) quotes
    → is_alpha c ≡ true
    → All (λ b. table_char b ≡ true) name
    → EndsName rest
    → table_name (quotes ++ c ∷ (name ++ rest)) ≡ c ∷ name
unfolding table_name
table_name-append [] c name rest q a h e =
    rw a (name_bytes-append (c ∷ name) rest (alpha-table_char c a, h) e)
table_name-append (x ∷ quotes) c name rest q a h e =
    rw (q.0.0, q.0.1) (table_name-append quotes c name rest q.1 a h e)
