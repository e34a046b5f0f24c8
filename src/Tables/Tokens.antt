-- ===== src/Tables/Tokens.antt =====
-- The words of a query, and what the simple parser makes of an INSERT and a DELETE.
use mysqlpcap.Base.{ℕ, ◌≡◌, ◌⊎◌, true, false, List, [], ◌∷◌, ◌++◌, Bytes, All, map, codes}
use mysqlpcap.Tables.Simple.{is_space, lower, drop_semicolon}

-- A word: no space, and not empty.
pub record IsWord (w : Bytes) : Type 0 where
  pub head : ℕ
  pub tail : Bytes
  pub is_cons : w ≡ head ∷ tail
  pub no_space : All (λ c. is_space c ≡ false) w

-- Blanks, at least one.
pub record IsBlank (b : Bytes) : Type 0 where
  pub first : ℕ
  pub others : Bytes
  pub is_cons : b ≡ first ∷ others
  pub spaces : All (λ c. is_space c ≡ true) b

-- Words with blanks behind them.
abbrev pub text_of : List (Bytes × Bytes) → Bytes
text_of [] = []
text_of ((w, b) ∷ ws) = w ++ (b ++ text_of ws)

abbrev pub words_of : List (Bytes × Bytes) → List Bytes
words_of ws = map (λ x. x.0) ws

abbrev pub AreWords : List (Bytes × Bytes) → Type 0
AreWords ws = All (λ x. IsWord x.0 × IsBlank x.1) ws

-- Behind a word stand blanks, or nothing at all.
abbrev pub IsEnded : (b rest : Bytes) → Type 0
IsEnded b rest = IsBlank b ⊎ ((b ≡ []) × (rest ≡ []))

-- A word as a token: in lower case, without a semicolon at its end.
abbrev pub token : Bytes → Bytes
token w = drop_semicolon (map lower w)

-- The statements of which the table is the third word.
pub data Dml : Type 0 where
  insert_into : Dml
  delete_from : Dml

abbrev pub verb : Dml → Bytes
verb insert_into = codes "insert"
verb delete_from = codes "delete"

abbrev pub preposition : Dml → Bytes
preposition insert_into = codes "into"
preposition delete_from = codes "from"
