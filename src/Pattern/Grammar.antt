-- ===== src/Pattern/Grammar.antt =====
-- The language that `parse_re_part` reads, and the bound on what it writes.
use mysqlpcap.Base.{
  ℕ, ◌+◌, ◌≤◌, ◌≡◌, ◌≢◌, Bool, true, false, List, [], ◌∷◌, ◌++◌, append_assoc, append-nil, Bytes,
  All, arith, length, length-append, length-take, if◌then◌else◌, take, min,
}
use mysqlpcap.Pattern.{parse_loop, parse_re_part, skip_char, split_pattern, max_pattern_len}

-- One piece of a part: a plain byte, a slash behind a backslash, or another byte behind one.
pub data Piece : Type 0 where
  plain : ℕ → Piece
  slash : Piece
  escaped : ℕ → Piece

abbrev pub IsPiece : Piece → Type 0
IsPiece (plain c) = (c ≢ b'/') × (c ≢ b'\\')
IsPiece slash = Unit
IsPiece (escaped c) = c ≢ b'/'

-- How a list of pieces is written in an argument, and the regular expression that it stands for.
abbrev pub written : List Piece → Bytes → Bytes
written [] rest = rest
written (plain c ∷ ps) rest = c ∷ written ps rest
written (slash ∷ ps) rest = b'\\' ∷ b'/' ∷ written ps rest
written (escaped c ∷ ps) rest = b'\\' ∷ c ∷ written ps rest

abbrev pub meaning : List Piece → Bytes
meaning [] = []
meaning (plain c ∷ ps) = c ∷ meaning ps
meaning (slash ∷ ps) = b'/' ∷ meaning ps
meaning (escaped c ∷ ps) = b'\\' ∷ c ∷ meaning ps

parse_loop-written :
    (ps : List Piece) (output rest : Bytes)
    → All IsPiece ps
    → parse_loop false output (written ps (b'/' ∷ rest)) ≡ (output ++ meaning ps, rest)
unfolding parse_loop
parse_loop-written [] output rest h = rw append-nil
parse_loop-written (plain c ∷ ps) output rest h = ground (
  arith,
  parse_loop-written ps (output ++ c ∷ []) rest,
  append_assoc output (c ∷ []) (meaning ps),
)
parse_loop-written (slash ∷ ps) output rest h = ground (
  arith,
  parse_loop-written ps (output ++ b'/' ∷ []) rest,
  append_assoc output (b'/' ∷ []) (meaning ps),
)
parse_loop-written (escaped c ∷ ps) output rest h = ground (
  arith,
  parse_loop-written ps (output ++ b'\\' ∷ c ∷ []) rest,
  append_assoc output (b'\\' ∷ c ∷ []) (meaning ps),
)

-- A part that is written as plain bytes (no slash and no backslash), escaped slashes and other escaped
-- bytes, and is closed by a slash, is read as the expression that these pieces stand for, and what
-- stands behind the slash is left.
pub parse_re_part-written :
    (ps : List Piece) (rest : Bytes)
    → All IsPiece ps
    → parse_re_part (written ps (b'/' ∷ rest)) ≡ (meaning ps, rest)
unfolding parse_re_part
parse_re_part-written ps rest h = parse_loop-written ps [] rest h

-- Two bytes are written only for two that were read.
parse_loop-length :
    (in_esc : Bool) (output arg : Bytes)
    → length (parse_loop in_esc output arg).0 + length (parse_loop in_esc output arg).1
      ≤ length output + length arg + (if in_esc then 1 else 0)
unfolding parse_loop
parse_loop-length in_esc output [] = ground arith
parse_loop-length true output (c ∷ arg) = ground (
  arith,
  parse_loop-length false (output ++ c ∷ []) arg,
  parse_loop-length false (output ++ b'\\' ∷ c ∷ []) arg,
  length-append output (c ∷ []),
  length-append output (b'\\' ∷ c ∷ []),
)
parse_loop-length false output (c ∷ arg) = ground (
  arith,
  parse_loop-length false (output ++ c ∷ []) arg,
  parse_loop-length true output arg,
  length-append output (c ∷ []),
)

parse_re_part-length :
    (arg : Bytes) → length (parse_re_part arg).0 + length (parse_re_part arg).1 ≤ length arg
unfolding parse_re_part
parse_re_part-length arg = omega (arith, parse_loop-length false [] arg)

-- Both parts fit into the buffers of `add_query_pattern`, which hold the length of the argument,
-- cut to 8192, and a NUL.
split_pattern-bounds :
    (arg : Bytes)
    → (length (split_pattern arg).0
        ≤ min max_pattern_len (length (skip_char b'/' (skip_char b's' arg))))
      × (length (split_pattern arg).1
          ≤ min max_pattern_len (length (skip_char b'/' (skip_char b's' arg))))
unfolding split_pattern
split_pattern-bounds arg =
    let text = take max_pattern_len (skip_char b'/' (skip_char b's' arg)) in
    let size = length-take max_pattern_len (skip_char b'/' (skip_char b's' arg)) in
    (
      omega (arith, parse_re_part-length text, size),
      omega (arith, parse_re_part-length text, parse_re_part-length (parse_re_part text).1, size),
    )
