-- ===== src/Manager/Explain/Sent.antt =====
-- What `print_slow_queries` sends the server.
use mysqlpcap.Base.{
  ℕ, ◌≡◌, ◌+◌, ◌-◌, ◌<◌, ◌≤◌, ◌%◌, ◌^◌, ◌∙◌, ap, sym, refl, Bool, true, false, ◌||◌, some, List, [],
  ◌∷◌, ◌++◌, Bytes, map, min, length, append_assoc, append-nil, length-append, length-take,
  length-drop, take-append, arith, take,
}
use mysqlpcap.Base.Run.{ok, M, Returns, ◌>>=◌, ◌>>◌}
use mysqlpcap.Packet.{Packet, Ptr, query}
use mysqlpcap.Manager.Explain.{
  Store, Explainer, explain_str, explain_text, get, call, require, explain_query, explain_with,
  print_all, print_slow_queries,
}
use mysqlpcap.Manager.Explain.Connects.{
  Asked, IsQuiet, connect_for_explain-Triple, require-Triple, explained-Triple,
}
use mysqlpcap.Sys.{Heap}
use mysqlpcap.Thread.{Setup, read_text, query_len, copy_to}
use mysqlpcap.Thread.Rounds.{IsWhole, read_text-IsWhole}
use mysqlpcap.Thread.Rules.{
  Answers, Triple, bind-Triple, pure-Triple, map-Triple, weaken-Triple, assume-Triple,
}

copy_to-fits :
    (size : ℕ) (b bs : Bytes) → length b + length bs ≤ size → copy_to size b bs ≡ some (b ++ bs)
unfolding copy_to
copy_to-fits size b bs l = ground arith

str_short : (analyze : Bool) → length (explain_str analyze) < 21
str_short true = omega arith
str_short false = omega arith

query_len-length : (q : Packet) → IsWhole q → length (query q) ≡ query_len q
unfolding query query_len
query_len-length q w = rw (w.payload_is) (
    length-drop 1 (take q.len w.bytes)
    ∙ (ap (λ n. n - 1) (length-take q.len w.bytes)
        ∙ numbers (length w.bytes) q.len w.all_there w.not_empty w.last_part))
  where
    numbers : (k n : ℕ) → k ≡ n → 0 < n → n < 0xffffff → min n k - 1 ≡ (n + 2 ^ 32 - 1) % 2 ^ 32
    numbers k n a b c = omega arith

query_len-small : (q : Packet) → IsWhole q → query_len q < 0xffffff
unfolding query_len
query_len-small q w = numbers q.len w.not_empty w.last_part
  where
    numbers : (n : ℕ) → 0 < n → n < 0xffffff → (n + 2 ^ 32 - 1) % 2 ^ 32 < 0xffffff
    numbers n b c = omega arith

-- A buffer of as many bytes as the two texts and one more takes them, and a byte 0.
module _ (str text : Bytes) (n : ℕ) (ln : length text ≡ n) (small : n < 0xffffff)
    (short : length str < 21) where
  first_fits : length {A = ℕ} [] + length str ≤ (n + length str + 1) % 2 ^ 32
  first_fits = omega arith

  second_fits : length str + length text ≤ (n + length str + 1) % 2 ^ 32
  second_fits = omega arith

  third_fits : length (str ++ text) + length {A = ℕ} (0 ∷ []) ≤ (n + length str + 1) % 2 ^ 32
  third_fits = rw (length-append str text) (omega arith)

  less_one : length (str ++ text) ≡ ((n + length str + 1) % 2 ^ 32 + 2 ^ 32 - 1) % 2 ^ 32
  less_one = length-append str text ∙ omega arith

explain_text-IsWhole :
    {setup : Setup} (analyze : Bool) (q : Packet) (e : Explainer setup)
    → IsWhole q
    → explain_text analyze q e ≡ ok (explain_str analyze ++ query q) e
unfolding explain_text require
explain_text-IsWhole analyze q e w =
    let str = explain_str analyze in
    let text = query q in
    let n = query_len q in
    let ln = query_len-length q w in
    let small = query_len-small q w in
    let short = str_short analyze in
    let size = (n + length str + 1) % 2 ^ 32 in
    rw
      (
        read_text-IsWhole q w,
        copy_to-fits size [] str (first_fits str text n ln small short),
        copy_to-fits size str text (second_fits str text n ln small short),
        copy_to-fits size (str ++ text) (0 ∷ []) (third_fits str text n ln small short),
        take-append ((size + 2 ^ 32 - 1) % 2 ^ 32) (str ++ text) (0 ∷ [])
            (less_one str text n ln small short),
      )
      refl

-- The packets of the list are on the heap, each with all its bytes.
abbrev pub Loaded : Heap → List Ptr → List Packet → Type 0
Loaded h [] [] = Unit
Loaded h [] (q ∷ qs) = ⊥
Loaded h (p ∷ ps) [] = ⊥
Loaded h (p ∷ ps) (q ∷ qs) = (h p ≡ some q) × IsWhole q × Loaded h ps qs

-- What the server is asked of them.
abbrev pub plans : (analyze : Bool) → List Packet → List Bytes
plans analyze qs = map (λ q. explain_str analyze ++ query q) qs

module _ {setup : Setup} (answers : Answers setup) (store : Store setup)
    (quiet : IsQuiet answers store) where
  open setup use {client}

  explain_query-Triple :
      {log : List Bytes} (analyze : Bool) (con : client.Con) (q : Packet)
      → IsWhole q
      → Triple
          (Asked answers log (some con))
          (λ _ e. Asked answers (log ++ (explain_str analyze ++ query q) ∷ []) (some con) e)
          (explain_query store analyze con q)
  unfolding explain_query call
  explain_query-Triple analyze con q w = record {
    from = λ e has. rw (explain_text-IsWhole analyze q e w) (
        (explained-Triple answers store quiet con
            (client.mysql_real_query con (explain_str analyze ++ query q) e.world).1).from
          _
          (record {
            sent_is =
                answers.query_sent con (explain_str analyze ++ query q) e.world
                ∙ ap (λ l. l ++ (explain_str analyze ++ query q) ∷ []) has.sent_is;
            con_is = has.con_is;
          }));
  }

  asks_next-Triple :
      {log : List Bytes} {R : Unit {0} → Explainer setup → Type 0}
      {n : M (Explainer setup) (Unit {0})} (analyze : Bool) (con : client.Con) (q : Packet)
      → IsWhole q
      → Triple (Asked answers (log ++ (explain_str analyze ++ query q) ∷ []) (some con)) R n
      → Triple
          (Asked answers log (some con))
          R
          (do e ← get; explain_with store analyze e.explain_con q; n)
  unfolding get explain_with
  asks_next-Triple analyze con q w t = record {
    from = λ e has.
        simp has.con_is ((bind-Triple (explain_query-Triple analyze con q w) (λ _. t)).from e has);
  }

  print_all-Triple :
      (h : Heap) (analyze : Bool) (con : client.Con) (ps : List Ptr) (qs : List Packet)
      (log : List Bytes)
      → Loaded h ps qs
      → Triple
          (Asked answers log (some con))
          (λ _ e. answers.sent e.world ≡ log ++ plans analyze qs)
          (print_all store h true analyze ps)
  unfolding print_all
  print_all-Triple h analyze con [] [] log _ =
      pure-Triple _ _ tt (λ e has. has.sent_is ∙ sym (append-nil log))
  print_all-Triple h analyze con [] (q ∷ qs) log l = absurd l
  print_all-Triple h analyze con (p ∷ ps) [] log l = absurd l
  print_all-Triple h analyze con (p ∷ ps) (q ∷ qs) log (here, w, l) =
      bind-Triple (require-Triple answers (h p) q here) (λ q'. assume-Triple (λ same. rw same (
        bind-Triple
          (require-Triple answers (read_text q (query_len q)) (query q) (read_text-IsWhole q w))
          (λ text.
            weaken-Triple (λ e p. p.1)
              (asks_next-Triple analyze con q w (
                map-Triple
                  (λ _ e sent.
                    sent
                    ∙ append_assoc log ((explain_str analyze ++ query q) ∷ []) (plans analyze qs))
                  (print_all-Triple h analyze con ps qs
                    (log ++ (explain_str analyze ++ query q) ∷ []) l)))))))

  -- Where plans are asked for, the libraries answer as for the replay thread (`Answers`, so that a
  -- connection can be made) and results are read without a further query, `print_slow_queries`
  -- comes to its end, for each list of packets on the heap that are complete, in use, not empty and
  -- of less than 0xffffff bytes, whether the server takes the requests or not. The server is sent
  -- one request for each packet, in the order of the list: `explain`, or `analyze format=json` if
  -- that is set, and the text of the query.
  pub print_slow_queries-plans :
      (h : Heap) (do_explain do_analyze : Bool) (ps : List Ptr) (qs : List Packet)
      (e : Explainer setup)
      → (do_explain || do_analyze) ≡ true
      → Loaded h ps qs
      → Returns
          (λ _ e'. answers.sent e'.world ≡ answers.sent e.world ++ plans do_analyze qs)
          (print_slow_queries store h do_explain do_analyze ps e)
  unfolding print_slow_queries
  print_slow_queries-plans h do_explain do_analyze ps qs e asks l = rw asks (
      (bind-Triple (connect_for_explain-Triple answers) (λ connected. record {
        from = λ e' (con, has).
            (print_all-Triple h do_analyze con ps qs (answers.sent e.world) l).from e' has;
      })).from
        e (record { sent_is = refl; con_is = refl }))
