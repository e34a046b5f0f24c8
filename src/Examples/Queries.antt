-- ===== src/Examples/Queries.antt =====
-- The simple parser on an INSERT.
use mysqlpcap.Base.{List, Bytes, [], ◌∷◌, codes}

-- `INSERT  into`, and a tabulator.
abbrev insert : List (Bytes × Bytes)
insert = (codes "INSERT", codes "  ") ∷ (codes "into", 9 ∷ []) ∷ []
