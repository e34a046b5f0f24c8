-- ===== src/Thread/Steps.antt =====
-- `run_replay`, one phase to the next.
use mysqlpcap.Base.{ℕ, zero, suc, ◌+◌, ◌%◌, ◌^◌, true, not, ◌==◌, if◌then◌else◌}
use mysqlpcap.Base.Run.{M, pure, ◌>>=◌, ◌>>◌}
use mysqlpcap.Packet.{Ptr, null, is_query}
use mysqlpcap.Stream.{consider_unlink_pkt, end_replay}
use mysqlpcap.Sys.{Sys, Stream}
use mysqlpcap.Thread.{
  Setup, Player, Phase, at, gathers, passed, waits, leaves, finished, packet_overflow_len,
  read_text, query_len, get, put, call, shared, load, require,
}
use mysqlpcap.Thread.Query.{db_close, get_scheduled_ts, sleep_until, record_elapsed, db_query}

module _ {setup : Setup} where
  open setup use {client}

  -- `consider_unlink_pkt(tmp, true)`
  unfoldable pub unlink_passed : Ptr → M (Player setup) (Unit {0})
  unfolding get put shared consider_unlink_pkt
  unlink_passed p = do
    pl ← get
    s ← shared (consider_unlink_pkt pl.stream p true)
    pl' ← get
    put (record pl' { stream = s })

  -- The head of the loop, and `db_query` up to its own loop.
  unfoldable pub visit : Ptr → M (Player setup) Phase
  unfolding get load require call sleep_until get_scheduled_ts query_len
  visit p = do
    q ← load p
    asks ← require (is_query q)
    if not asks then pure (passed p) else do
      pl ← get
      start ← call client.now
      sleep_until (get_scheduled_ts pl q)
      pure (gathers p p (query_len q) start)

  -- A round of the loop of `db_query`, or the rest of it.
  unfoldable pub gather : (query_pkt cur_pkt : Ptr) → (q_len start : ℕ) → M (Player setup) Phase
  unfolding get load require read_text record_elapsed db_query
  gather p cur n start = do
    c ← load cur
    if not (c.len == packet_overflow_len) then (do db_query p cur n; pure (passed p)) else do
      pl ← get
      if not (c.next == null)
          then (do d ← load c.next; pure (gathers p c.next ((n + d.len) % 2 ^ 32) start))
          else if not pl.stream.reached_eof
          then pure (gathers p cur n start)
          else do
            q ← load p
            text ← require (read_text q n)
            record_elapsed text start
            pure (passed p)

  -- Behind `db_query`: the next packet, if there is one.
  unfoldable pub pass : Ptr → M (Player setup) Phase
  unfolding load unlink_passed
  pass p = do
    q ← load p
    if q.next == null then pure (waits p) else do unlink_passed p; pure (at q.next)

  -- The loop that waits, once it is woken.
  unfoldable pub wake : Ptr → M (Player setup) Phase
  unfolding get load db_close
  wake p = do
    q ← load p
    pl ← get
    if pl.stream.reached_eof
        then (do db_close; pure finished)
        else if q.next == null
        then pure (waits p)
        else pure (leaves p q.next)

  unfoldable pub step : Phase → M (Player setup) Phase
  unfolding visit gather pass wake unlink_passed
  step (at p) = visit p
  step (gathers p cur n start) = gather p cur n start
  step (passed p) = pass p
  step (waits p) = wake p
  step (leaves tmp p) = do unlink_passed tmp; pure (at p)
  step finished = pure finished

  -- The start of the thread.
  unfoldable pub begin : M (Player setup) Phase
  unfolding get db_close
  begin = do
    pl ← get
    if pl.stream.first == null then (do db_close; pure finished) else pure (at pl.stream.first)

  -- A number of steps in which the reader does nothing.
  unfoldable pub run_replay : ℕ → Phase → M (Player setup) Phase
  unfolding step
  run_replay zero ph = pure ph
  run_replay (suc n) ph = do ph' ← step ph; run_replay n ph'

  -- `end_replay` by the reader, up to the point where it joins the thread.
  unfoldable pub stop : M (Player setup) (Unit {0})
  unfolding get put end_replay
  stop = do pl ← get; put (record pl { stream = end_replay pl.stream })

  -- What the reader does to the stream, while the thread stands somewhere.
  unfoldable pub reader : (Stream → M (Sys setup.env) Stream) → M (Player setup) (Unit {0})
  unfolding get put shared
  reader f = do pl ← get; s ← shared (f pl.stream); pl' ← get; put (record pl' { stream = s })
