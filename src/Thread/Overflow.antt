-- ===== src/Thread/Overflow.antt =====
-- A query in more than one packet: the copy in `db_query` does not fit.
use mysqlpcap.Base.{
  ℕ, suc, ◌+◌, ◌-◌, ◌<◌, ◌≤◌, ◌%◌, ◌^◌, ◌≡◌, ◌≢◌, ◌∙◌, sym, ap, refl, true, false, none, some, [],
  ◌∷◌, Bytes, length, take, drop, min, length-take, length-drop, ◌==◌, arith, leb,
}
use mysqlpcap.Base.Run.{ok, fault}
use mysqlpcap.Packet.{Packet, Ptr, null}
use mysqlpcap.Stream.Links.{Chain, null_test, between}
use mysqlpcap.Thread.{
  Setup, Player, gathers, get, require, read_text, query_len, copy_to, whole_data,
}
use mysqlpcap.Thread.Query.{join_loop, query_text, db_query}
use mysqlpcap.Thread.Connects.{load-run}
use mysqlpcap.Thread.Steps.{gather, step, run_replay}

-- The text of a packet, and how long it is.
text_of :
    (q : Packet) (bs : Bytes)
    → q.payload ≡ some bs
    → length bs ≡ q.len
    → 0 < q.len
    → q.len < 2 ^ 32
    → (t : Bytes) × (read_text q (query_len q) ≡ some t)
      × (length t ≡ query_len q)
      × (suc (query_len q) ≡ q.len)
unfolding read_text query_len
text_of q bs e l pos small = rw e (
  take (query_len q) (drop 1 bs),
  rw (fits (length bs) q.len l pos small) refl,
  length-take (query_len q) (drop 1 bs)
      ∙ (ap (min (query_len q)) (length-drop 1 bs) ∙ long (length bs) q.len l pos small),
  wraps q.len pos small,
)
  where
    wraps : (n : ℕ) → 0 < n → n < 2 ^ 32 → suc ((n + 2 ^ 32 - 1) % 2 ^ 32) ≡ n
    wraps n pos small = omega arith

    long :
        (k n : ℕ)
        → k ≡ n
        → 0 < n
        → n < 2 ^ 32
        → min ((n + 2 ^ 32 - 1) % 2 ^ 32) (k - 1) ≡ (n + 2 ^ 32 - 1) % 2 ^ 32
    long k n l pos small = omega arith

    fits : (k n : ℕ) → k ≡ n → 0 < n → n < 2 ^ 32 → leb (1 + (n + 2 ^ 32 - 1) % 2 ^ 32) k ≡ true
    fits k n l pos small = ground arith

copy_to-fits : (size : ℕ) (t : Bytes) → length t ≤ size → copy_to size [] t ≡ some t
unfolding copy_to
copy_to-fits size t l = ground arith

copy_to-fails : (size : ℕ) (t bs : Bytes) → size < length t + length bs → copy_to size t bs ≡ none
unfolding copy_to
copy_to-fails size t bs l = ground arith

whole_data-all :
    (q : Packet) (bs : Bytes) → q.payload ≡ some bs → length bs ≡ q.len → whole_data q ≡ some bs
unfolding whole_data
whole_data-all q bs e l = rw e (ground arith)

full_test : (n : ℕ) → n ≡ 0xffffff → (n == 0xffffff) ≡ true
full_test n e = ground arith

short_test : (n : ℕ) → n < 0xffffff → (n == 0xffffff) ≡ false
short_test n e = ground arith

ptr_test : (x p : Ptr) → x ≢ p → (x == p) ≡ false
ptr_test x p ne = ground arith

module _ {setup : Setup} (pl : Player setup) (p x : Ptr) (q r : Packet) (k start : ℕ)
    (np : p ≢ null) (hp : pl.sys.heap p ≡ some q) (nx : x ≢ null)
    (hx : pl.sys.heap x ≡ some r) where
  gather-next :
      q.len ≡ 0xffffff
      → q.next ≡ x
      → gather p p k start pl ≡ ok (gathers p x ((k + r.len) % 2 ^ 32) start) pl
  unfolding gather get
  gather-next full e =
      rw (load-run p q pl np hp, full_test q.len full, e, null_test x nx, load-run x r pl nx hx)
        refl

  gather-last : r.len < 0xffffff → db_query p x k pl ≡ fault → gather p x k start pl ≡ fault
  unfolding gather
  gather-last short fails = rw (load-run x r pl nx hx, short_test r.len short, fails) refl

  db_query-overflows :
      (bs t : Bytes)
      → x ≢ p
      → q.len ≡ 0xffffff
      → whole_data q ≡ some bs
      → read_text q (query_len q) ≡ some t
      → length t ≤ k
      → k < length t + length bs
      → db_query p x k pl ≡ fault
  unfolding db_query query_text join_loop require get
  db_query-overflows bs t other full whole read fits over =
      rw
        (
          load-run p q pl np hp,
          ptr_test x p other,
          read,
          copy_to-fits k t fits,
          load-run p q pl np hp,
          full_test q.len full,
          whole,
          copy_to-fails k t bs over,
        )
        refl

query_len-between : (b n : Ptr) (q : Packet) → query_len (between b n q) ≡ query_len q
unfolding query_len
query_len-between b n q = refl

sizes :
    (tl ql n rl bl : ℕ)
    → tl ≡ ql
    → suc ql ≡ n
    → n ≡ 0xffffff
    → bl ≡ n
    → rl < 0xffffff
    → (tl ≤ (ql + rl) % 2 ^ 32) × ((ql + rl) % 2 ^ 32 < tl + bl)
sizes tl ql n rl bl a b c d e = (omega arith, omega arith)

module _ {setup : Setup} where
  -- Where a query is in two packets of the list, of which the first has all its 0xffffff bytes and
  -- the second is shorter, `db_query` faults: the copy of the first runs past the buffer.
  pub run_replay-overflows :
      (pl : Player setup) (b p x : Ptr) (q r : Packet) (behind start : ℕ) (bs : Bytes)
      → Chain pl.sys.heap b ((p, q) ∷ (x, r) ∷ []) behind
      → x ≢ p
      → q.payload ≡ some bs
      → length bs ≡ q.len
      → q.len ≡ 0xffffff
      → r.len < 0xffffff
      → run_replay 2 (gathers p p (query_len q) start) pl ≡ fault
  unfolding run_replay step
  run_replay-overflows pl b p x q r behind start bs (np, hp, (nx, hx, _)) other e l full short =
      let q' = between b x q in
      let (t, read, long, one) =
        text_of q' bs e l (rw full (omega arith)) (rw full (omega arith)) in
      let same = query_len-between b x q in
      let (fits, over) =
        sizes (length t) (query_len q) q.len r.len (length bs) (long ∙ same)
          (ap suc (sym same) ∙ one) full l short in
      let k = (query_len q + r.len) % 2 ^ 32 in
      rw
        (
          gather-next pl p x q' (between p behind r) (query_len q) start np hp nx hx full refl,
          gather-last pl p x q' (between p behind r) k start np hp nx hx short (
              db_query-overflows pl p x q' (between p behind r) k start np hp nx hx bs t other full
                (whole_data-all q' bs e l) read fits over),
        )
        refl
