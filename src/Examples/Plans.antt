-- ===== src/Examples/Plans.antt =====
-- The plans of a list of two queries, at a server that answers.
use mysqlpcap.Base.{◌≡◌, refl, arith, true, false, some, none, ◌==◌, if◌then◌else◌, [], ◌∷◌, ◌++◌}
use mysqlpcap.Base.Run.{Returns}
use mysqlpcap.Examples.Replaying.{packet, ask, setup, server_answers, whole}
use mysqlpcap.Manager.Explain.{Store, Explainer, print_slow_queries}
use mysqlpcap.Manager.Explain.Connects.{IsQuiet}
use mysqlpcap.Packet.{Packet}
use mysqlpcap.Sys.{Heap}
use mysqlpcap.Manager.Explain.Sent.{Loaded, plans, print_slow_queries-plans}

-- A second query.
abbrev again : Packet
again = packet true (3 ∷ b'D' ∷ b'O' ∷ b' ' ∷ b'2' ∷ [])

abbrev plain_heap : Heap
plain_heap a = if a == 1 then some ask else if a == 2 then some again else none

-- It answers each request with a result.
abbrev answering : Store setup
answering = record { mysql_store_result = λ c w. (w, some tt); print_rows = λ r w. w }

quiet : IsQuiet server_answers answering
quiet = record { store_quiet = λ c w. refl; print_quiet = λ r w. refl }

abbrev unconnected : Explainer setup
unconnected = record { explain_con = none; world = [] }

loaded : Loaded plain_heap (1 ∷ 2 ∷ []) (ask ∷ again ∷ [])
loaded = (
  refl,
  whole true _ (omega arith) (omega arith),
  (refl, whole true _ (omega arith) (omega arith), tt),
)

print_slow_queries-plans_example :
    Returns
      (λ _ e.
        server_answers.sent e.world
        ≡ server_answers.sent unconnected.world ++ plans false (ask ∷ again ∷ []))
      (print_slow_queries answering plain_heap true false (1 ∷ 2 ∷ []) unconnected)
print_slow_queries-plans_example =
    print_slow_queries-plans server_answers answering quiet plain_heap true false (1 ∷ 2 ∷ [])
      (ask ∷ again ∷ []) unconnected refl loaded
