-- ===== src/Manager/Sound.antt =====
-- The map of streams keeps the invariant.
use mysqlpcap.Base.{
  ℕ, refl, Bool, true, false, List, [], ◌∷◌, All, arith, Bool-cases, inl, inr, ◌==◌, if◌then◌else◌,
}
use mysqlpcap.Base.Maybe.{Gives}
use mysqlpcap.Manager.{find_stream, put_stream, erase_stream, save, forget}
use mysqlpcap.Sys.{Env, Stream, new_stream}
use mysqlpcap.Sys.Sound.{IsReady, Keeps, Any, bind-Keeps, get-Keeps, put-Keeps}
use mysqlpcap.Stream.{start_replay, end_replay}

abbrev pub AreReady : List (ℕ × Stream) → Type 0
AreReady = All (λ e. IsReady e.1)

pub find_stream-IsReady :
    (k : ℕ) (m : List (ℕ × Stream)) → AreReady m → Gives IsReady (find_stream k m)
unfolding find_stream
find_stream-IsReady k [] h = tt
find_stream-IsReady k ((j, s) ∷ m) h = elim (Bool-cases (j == k)) [
  | inl same ↦ rw same h.0
  | inr other ↦ rw other (find_stream-IsReady k m h.1)
]

put_stream-AreReady :
    (k : ℕ) (s : Stream) (m : List (ℕ × Stream))
    → IsReady s
    → AreReady m
    → AreReady (put_stream k s m)
unfolding put_stream
put_stream-AreReady k s [] r h = (r, tt)
put_stream-AreReady k s ((j, old) ∷ m) r h = elim (Bool-cases (j == k)) [
  | inl same ↦ rw same (r, h.1)
  | inr other ↦ rw other (h.0, put_stream-AreReady k s m r h.1)
]

erase_stream-AreReady : (k : ℕ) (m : List (ℕ × Stream)) → AreReady m → AreReady (erase_stream k m)
unfolding erase_stream
erase_stream-AreReady k [] h = tt
erase_stream-AreReady k ((j, s) ∷ m) h = elim (Bool-cases (j == k)) [
  | inl same ↦ rw same h.1
  | inr other ↦ rw other (h.0, erase_stream-AreReady k m h.1)
]

-- A new stream, and what the start and the end of its thread do to it.
pub new_stream-IsReady : (si sp di dp : ℕ) → IsReady (new_stream si sp di dp)
new_stream-IsReady si sp di dp = record { short = omega arith; size = refl }

pub start-IsReady : (b : Bool) (s : Stream) → IsReady s → IsReady (if b then start_replay s else s)
unfolding start_replay
start-IsReady true s r = record { short = r.short; size = r.size }
start-IsReady false s r = r

pub end-IsReady : (b : Bool) (s : Stream) → IsReady s → IsReady (if b then end_replay s else s)
unfolding end_replay
end-IsReady false s r = r
end-IsReady true s r = elim (Bool-cases s.th) [
  | inl runs ↦ rw runs (record { short = r.short; size = r.size })
  | inr stands ↦ rw stands (record { short = r.short; size = r.size })
]

module _ {env : Env} where
  pub save-Keeps : (k : ℕ) (s : Stream) → IsReady s → Keeps {env = env} Any (save k s)
  unfolding save
  save-Keeps k s r = bind-Keeps get-Keeps (λ sys sound.
      put-Keeps (record sys { lookup = put_stream k s sys.lookup })
        (record {
          bounded = sound.bounded;
          ready = put_stream-AreReady k s sys.lookup r sound.ready;
        }))

  pub forget-Keeps : (k : ℕ) → Keeps {env = env} Any (forget k)
  unfolding forget
  forget-Keeps k = bind-Keeps get-Keeps (λ sys sound.
      put-Keeps (record sys { lookup = erase_stream k sys.lookup })
        (record {
          bounded = sound.bounded;
          ready = erase_stream-AreReady k sys.lookup sound.ready;
        }))
