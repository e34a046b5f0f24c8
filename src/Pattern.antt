-- ===== src/Pattern.antt =====
-- Query patterns: `parse_re_part` and `param_info::add_query_pattern` of mysql_stream_manager.cc,
-- `Query_pattern` of query_pattern.cc, and `Mysql_stream_manager::get_query_key`. A C string is
-- its bytes before the terminating NUL. The PCRE2 library is a parameter.
pub mod Grammar
pub mod Keys
use mysqlpcap.Base.{
  ℕ, Bool, true, false, Option, none, some, List, [], ◌∷◌, ◌++◌, Bytes, length, take, ltb, min,
  ◌==◌, ◌||◌, map, if◌then◌else◌,
}

-- The loop of `parse_re_part`: what stands in `output` up to `p`, and `*argp` at the end.
unfoldable pub parse_loop : (in_esc : Bool) → (output arg : Bytes) → Bytes × Bytes
parse_loop in_esc output [] = (output, [])
parse_loop true output (c ∷ arg) =
    parse_loop false (if c == b'/' then output ++ c ∷ [] else output ++ b'\\' ∷ c ∷ []) arg
parse_loop false output (c ∷ arg) =
    let escape = parse_loop true output arg in
    let plain = parse_loop false (output ++ c ∷ []) arg in
    if c == b'\\' then escape else if c == b'/' then (output, arg) else plain

unfoldable pub parse_re_part : Bytes → Bytes × Bytes
unfolding parse_loop
parse_re_part arg = parse_loop false [] arg

abbrev pub max_pattern_len : ℕ
max_pattern_len = 8192

-- `if (*arg == c) arg++`
unfoldable pub skip_char : ℕ → Bytes → Bytes
skip_char c [] = []
skip_char c (x ∷ arg) = if x == c then arg else x ∷ arg

-- What `add_query_pattern` cuts its argument into: the search and the replacement.
unfoldable pub split_pattern : Bytes → Bytes × Bytes
unfolding skip_char parse_re_part
split_pattern arg =
    let (search, rest) =
      parse_re_part (take max_pattern_len (skip_char b'/' (skip_char b's' arg))) in
    let (replace, end) = parse_re_part rest in (search, replace)

-- The result code of `pcre2_substitute`: the number of matches, or an error.
pub data Rc : Type 0 where
  matched : ℕ → Rc
  no_memory : Rc
  failure : Rc

-- PCRE2, as far as the program calls it. `substitute` is given the code, the subject, the
-- replacement and the length in `*outlengthptr`; it returns the code, what it writes to the
-- output, and the length that it leaves in `*outlengthptr`.
pub record Pcre : Type 1 where
  pub Code : Type 0
  pub compile : Bytes → Option Code
  pub substitute : Code → (subject replacement : Bytes) → (outlength : ℕ) → Rc × Bytes × ℕ

-- What a pattern says of a query: its key, no match, or a `Query_pattern_exception`.
pub data Applied : Type 0 where
  key : Bytes → Applied
  unmatched : Applied
  throws : Applied

-- The copy that `strbuf` makes: line ends become blanks.
unfoldable pub blank_line_ends : Bytes → Bytes
blank_line_ends = map (λ c. if c == b'\r' || c == b'\n' then b' ' else c)

-- What `apply` makes of the answer of PCRE2, and the length that stands in `*out_len` afterwards.
unfoldable pub read_result : Rc × Bytes × ℕ → Applied × ℕ
read_result (no_memory, output, len) = (unmatched, len)
read_result (failure, output, len) = (throws, len)
read_result (matched n, output, len) = (if n == 0 then unmatched else key output, len)

module _ (pcre : Pcre) where
  open pcre use {Code, compile, substitute}

  pub record QueryPattern : Type 0 where
    pub re : Code
    pub replace_str : Bytes

  -- `none` is the exception of the constructor `Query_pattern::Query_pattern`.
  unfoldable pub add_query_pattern : List QueryPattern → Bytes → Option (List QueryPattern)
  unfolding split_pattern
  add_query_pattern patterns arg =
      let (search, replace) = split_pattern arg in
      elim (compile search) [
        | none ↦ none
        | some code ↦ some (patterns ++ record { re = code; replace_str = replace } ∷ [])
      ]

  unfoldable pub apply : QueryPattern → (subject : Bytes) → (out_len : ℕ) → Applied × ℕ
  unfolding blank_line_ends read_result
  apply p subject out_len =
      read_result (substitute p.re (blank_line_ends subject) p.replace_str out_len)

  -- `get_query_key`: `*key_buf_len` is handed from one pattern to the next. No pattern gives the
  -- empty key.
  unfoldable pub get_query_key : List QueryPattern → (query : Bytes) → (key_buf_len : ℕ) → Applied
  unfolding apply
  get_query_key [] query len = key []
  get_query_key (p ∷ patterns) query len =
      let (result, len') = apply p query len in
      let next = get_query_key patterns query len' in
      elim result [ key k ↦ key k | throws ↦ throws | unmatched ↦ next ]
