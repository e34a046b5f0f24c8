-- ===== src/Manager/ReplayFile/Key.antt =====
-- The key of a client and the stream that a replay file makes of it.
use mysqlpcap.Base.{
  ℕ, ◌/◌, ◌%◌, ◌^◌, ◌<◌, ◌≡◌, ◌≢◌, ◌∙◌, refl, Bool, true, false, none, some, List, [], ◌∷◌, arith,
  ◌==◌, if◌then◌else◌, Bool-cases, inl, inr,
}
use mysqlpcap.Base.Run.{Returns}
use mysqlpcap.Manager.{find_stream, put_stream, save}
use mysqlpcap.Manager.ReplayFile.{find_or_make, find_or_make_stream}
use mysqlpcap.Packet.{Packet}
use mysqlpcap.Stream.{start_replay}
use mysqlpcap.Sys.{Env, Stream, Sys, new_stream, get, put, get_key}

pub find_stream-put_stream :
    (k : ℕ) (s : Stream) (m : List (ℕ × Stream)) → find_stream k (put_stream k s m) ≡ some s
unfolding find_stream put_stream
find_stream-put_stream k s [] = ground arith
find_stream-put_stream k s ((j, old) ∷ m) = elim (Bool-cases (j == k)) [
  | inl same ↦ rw same (ground arith)
  | inr other ↦ rw (other, other) (find_stream-put_stream k s m)
]

key_parts :
    (ip port : ℕ)
    → ip < 2 ^ 32
    → port < 2 ^ 16
    → ((get_key ip port / 2 ^ 32) % 2 ^ 32 ≡ ip) × (get_key ip port % 2 ^ 32 % 2 ^ 16 ≡ port)
unfolding get_key
key_parts ip port h l = (omega arith, omega arith)

started :
    (b : Bool) (s : Stream)
    → s.th ≡ false
    → ((if b then start_replay s else s).src_ip ≡ s.src_ip)
      × ((if b then start_replay s else s).src_port ≡ s.src_port)
      × ((if b then start_replay s else s).th ≡ b)
unfolding start_replay
started true s e = (refl, refl, refl)
started false s e = (refl, refl, e)

module _ {env : Env} where
  -- For an address of 32 bits and a port of 16, and a packet that is not the end of a stream: where the
  -- map has no stream with their key, `find_or_make_stream` returns a stream with that address and
  -- that port, which the map then has under the key, and which has a thread exactly if queries are to
  -- be replayed.
  pub find_or_make_stream-get_key :
      (ip port : ℕ) (pkt : Packet) (sys : Sys env)
      → ip < 2 ^ 32
      → port < 2 ^ 16
      → pkt.len ≢ 0
      → find_stream (get_key ip port) sys.lookup ≡ none
      → Returns
          (λ found t.
            (s : Stream) × (found ≡ some s)
            × (s.src_ip ≡ ip)
            × (s.src_port ≡ port)
            × (s.th ≡ env.do_run)
            × (find_stream (get_key ip port) t.lookup ≡ some s))
          (find_or_make_stream (get_key ip port) pkt sys)
  unfolding find_or_make_stream find_or_make get put save
  find_or_make_stream-get_key ip port pkt sys h l ne new =
      let key = get_key ip port in
      let (ip_is, port_is) = key_parts ip port h l in
      let fresh =
        new_stream (key / 2 ^ 32 % 2 ^ 32) (key % 2 ^ 32 % 2 ^ 16) env.mysql_ip
          (env.mysql_port % 2 ^ 16) in
      let made = if env.do_run then start_replay fresh else fresh in
      let (same_ip, same_port, runs) = started env.do_run fresh refl in
      rw (new, nonzero pkt.len ne)
        (
          made,
          refl,
          same_ip ∙ ip_is,
          same_port ∙ port_is,
          runs,
          find_stream-put_stream key made sys.lookup,
        )
    where
      nonzero : (n : ℕ) → n ≢ 0 → (n == 0) ≡ false
      nonzero n ne = ground arith
