-- ===== src/Manager/Text.antt =====
-- `strncasestr` and `could_be_query`.
use mysqlpcap.Base.{
  codes, ℕ, ◌+◌, ◌≤◌, ◌≡◌, ◌↔◌, inl, inr, refl, ap, Bool, true, false, ◌&&◌, ◌||◌, [], ◌∷◌, ◌++◌,
  Bytes, arith, length, take, take-all, take-append, drop, get_or, ltb, leb, ◌==◌, if◌then◌else◌,
  Bool-cases,
}

-- `tolower` in the C locale
unfoldable pub lower : ℕ → ℕ
lower c = if leb b'A' c && leb c b'Z' then c + 32 else c

-- `strncasecmp(haystack, needle, n) == 0`, for a needle of length n without a NUL
unfoldable pub starts_nocase : (needle haystack : Bytes) → Bool
starts_nocase [] h = true
starts_nocase (n ∷ ns) [] = false
starts_nocase (n ∷ ns) (c ∷ h) = lower c == lower n && starts_nocase ns h

-- The loop of `strncasestr`. The source stops when fewer bytes are left than the needle has; a
-- shorter rest never starts with it.
unfoldable pub scan_nocase : (needle haystack : Bytes) → Bool
scan_nocase ns [] = false
scan_nocase ns (c ∷ h) = starts_nocase ns (c ∷ h) || scan_nocase ns h

-- An empty needle is found at once.
unfoldable pub search_nocase : (needle haystack : Bytes) → Bool
search_nocase [] h = true
search_nocase (n ∷ ns) h = scan_nocase (n ∷ ns) h

-- `strncasestr(haystack, needle, len)`, where `len` is the length of the haystack: `strnlen` cuts
-- the needle to that length.
unfoldable pub strncasestr : (haystack needle : Bytes) → Bool
unfolding search_nocase
strncasestr h needle = search_nocase (take (length h) needle) h

unfoldable pub has_query_word : Bytes → Bool
unfolding strncasestr
has_query_word h =
    strncasestr h (codes "select")
    || strncasestr h (codes "update")
    || strncasestr h (codes "delete")
    || strncasestr h (codes "alter")
    || strncasestr h (codes "call")
    || strncasestr h (codes "show")

-- `could_be_query`, of a segment of which all bytes can be read
unfoldable pub could_be_query : Bytes → Bool
unfolding has_query_word
could_be_query bs = ltb 4 (length bs) && get_or bs 4 0 == 0x3 && has_query_word (drop 5 bs)

-- Two texts that differ in the case of letters only.
abbrev pub SameText : Bytes → Bytes → Type 0
SameText [] [] = Unit
SameText (x ∷ xs) (y ∷ ys) = (lower x ≡ lower y) × SameText xs ys
SameText _ _ = ⊥

-- The needle stands somewhere in the haystack, in any case of its letters.
pub record Occurs (needle h : Bytes) : Type 0 where
  pub before : Bytes
  pub found : Bytes
  pub behind : Bytes
  pub splits : h ≡ before ++ (found ++ behind)
  pub same : SameText found needle

starts_nocase-SameText : (ns w rest : Bytes) → SameText w ns → starts_nocase ns (w ++ rest) ≡ true
unfolding starts_nocase
starts_nocase-SameText [] [] rest s = refl
starts_nocase-SameText [] (c ∷ w) rest s = refl
starts_nocase-SameText (n ∷ ns) [] rest s = absurd s
starts_nocase-SameText (n ∷ ns) (c ∷ w) rest s =
    ground (arith, s.0, starts_nocase-SameText ns w rest s.1)

starts_nocase-prefix :
    (ns h : Bytes)
    → starts_nocase ns h ≡ true
    → (w : Bytes) × (rest : Bytes) × (h ≡ w ++ rest) × SameText w ns
unfolding starts_nocase
starts_nocase-prefix [] h e = ([], h, refl, tt)
starts_nocase-prefix (n ∷ ns) [] e = absurd (cc)
starts_nocase-prefix (n ∷ ns) (c ∷ h) e =
    let (w, rest, split, same) = starts_nocase-prefix ns h (ground arith) in
    (c ∷ w, rest, ap (◌∷◌ c) split, (ground arith, same))

scan_nocase-Occurs : (ns h : Bytes) → scan_nocase ns h ≡ true → Occurs ns h
unfolding scan_nocase
scan_nocase-Occurs ns [] e = absurd (cc)
scan_nocase-Occurs ns (c ∷ h) e = elim (Bool-cases (starts_nocase ns (c ∷ h))) [
  | inl here ↦
      let (w, rest, split, same) = starts_nocase-prefix ns (c ∷ h) here in
      record { before = []; found = w; behind = rest; splits = split; same = same }
  | inr later ↦
      let o = scan_nocase-Occurs ns h (ground arith) in
      record {
        before = c ∷ o.before;
        found = o.found;
        behind = o.behind;
        splits = ap (◌∷◌ c) o.splits;
        same = o.same;
      }
]

Occurs-scan_nocase :
    (n : ℕ) (ns before w rest : Bytes)
    → SameText w (n ∷ ns)
    → scan_nocase (n ∷ ns) (before ++ (w ++ rest)) ≡ true
unfolding scan_nocase
Occurs-scan_nocase n ns [] [] rest s = absurd s
Occurs-scan_nocase n ns [] (c ∷ w) rest s = rw (starts_nocase-SameText (n ∷ ns) (c ∷ w) rest s)
Occurs-scan_nocase n ns (b ∷ before) w rest s =
    ground (arith, Occurs-scan_nocase n ns before w rest s)

-- In a text that is at least as long as the needle, `strncasestr` finds the needle exactly if it
-- stands there, in any case of its letters.
pub strncasestr-Occurs :
    (h : Bytes) (n : ℕ) (ns : Bytes)
    → length (n ∷ ns) ≤ length h
    → (strncasestr h (n ∷ ns) ≡ true) ↔ Occurs (n ∷ ns) h
unfolding strncasestr
strncasestr-Occurs h n ns l = rw (take-all (length h) (n ∷ ns) l) (
  scan_nocase-Occurs (n ∷ ns) h,
  λ o. rw o.splits (Occurs-scan_nocase n ns o.before o.found o.behind o.same),
)

-- A text that is shorter than the needle, and is the beginning of it, is found too: `strnlen` cuts
-- the needle.
strncasestr_short : (h rest : Bytes) → strncasestr h (h ++ rest) ≡ true
unfolding strncasestr scan_nocase starts_nocase
strncasestr_short h rest = rw (take-append (length h) h rest refl) (search_self h)
  where
    starts_self : (w : Bytes) → starts_nocase w w ≡ true
    starts_self [] = refl
    starts_self (c ∷ w) = ground (arith, starts_self w)

    search_self : (w : Bytes) → search_nocase w w ≡ true
    search_self [] = refl
    search_self (c ∷ w) = rw (starts_self (c ∷ w))
