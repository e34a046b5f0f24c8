-- ===== src/Thread/Dangles.antt =====
-- A packet that the reader frees while the replay thread stands at it.
use mysqlpcap.Base.{
  ◌≡◌, ◌∙◌, ap, refl, Bool, true, false, not, ◌&&◌, Option, none, some, [], ◌∷◌, ◌++◌, ◌==◌, arith,
}
use mysqlpcap.Base.Run.{ok, fault, ◌>>◌}
use mysqlpcap.Packet.{Packet, Ptr, null, is_query, is_eof}
use mysqlpcap.Stream.{unlink_pkt}
use mysqlpcap.Stream.Complete.{handle_packet_complete}
use mysqlpcap.Stream.Links.{
  is_query-between, is_eof-between, Cells, IsList, Chain-split, back, back-append, between,
}
use mysqlpcap.Stream.Links.Access.{load-eq, load-gone}
use mysqlpcap.Stream.Links.Unlink.{unlink_pkt-IsList}
use mysqlpcap.Sys
use mysqlpcap.Sys.{Env, Sys, Stream, require}
use mysqlpcap.Thread.{
  Setup, Player, Phase, at, gathers, passed, waits, leaves, finished, load, shared, with_sys,
}
use mysqlpcap.Thread.Steps.{visit, pass, wake, step, reader}
use mysqlpcap.Thread.Races.{reader-eq}

-- The packet that the thread looks at next.
abbrev pub stands_at : Phase → Option Ptr
stands_at (at p) = some p
stands_at (passed p) = some p
stands_at (waits p) = some p
stands_at _ = none

and_false : (b : Bool) → (b && false) ≡ false
and_false true = refl
and_false false = refl

module _ {env : Env} where
  handle_response :
      (s : Stream) (p : Ptr) (l : Packet) (sys : Sys env)
      → s.last ≡ p
      → Sys.load p sys ≡ ok l sys
      → is_query l ≡ some false
      → is_eof l ≡ some false
      → l.is_in ≡ false
      → handle_packet_complete s sys ≡ unlink_pkt s p sys
  unfolding handle_packet_complete require
  handle_response s p l sys here there no_query no_eof out =
      simp (here, there, no_query, no_eof, and_false (not (s.last_query == null)), out) refl

module _ {setup : Setup} where
  thread_load-gone : (p : Ptr) (pl : Player setup) → pl.sys.heap p ≡ none → load p pl ≡ fault
  unfolding load shared
  thread_load-gone p pl e = ap (with_sys pl) (load-gone p pl.sys e)

  step-gone :
      (p : Ptr) (ph : Phase) (pl : Player setup)
      → stands_at ph ≡ some p
      → pl.sys.heap p ≡ none
      → step ph pl ≡ fault
  unfolding step visit pass wake
  step-gone p (at p') pl e gone =
      let same : p' ≡ p = cc in rw (thread_load-gone p' pl (ap pl.sys.heap same ∙ gone)) refl
  step-gone p (passed p') pl e gone =
      let same : p' ≡ p = cc in rw (thread_load-gone p' pl (ap pl.sys.heap same ∙ gone)) refl
  step-gone p (waits p') pl e gone =
      let same : p' ≡ p = cc in rw (thread_load-gone p' pl (ap pl.sys.heap same ∙ gone)) refl
  step-gone p (gathers _ _ _ _) pl e gone = cc
  step-gone p (leaves _ _) pl e gone = cc
  step-gone p finished pl e gone = cc

  -- Where the packets of a stream are a list, and the last is of an answer, by its bytes no
  -- query and no end, with one reference: if the thread stands at it, at the head of its
  -- loop, behind `db_query` or in the loop that waits, and the reader runs `handle_packet_complete`,
  -- the thread's next step faults, since the packet is freed.
  pub handle_packet_complete-dangles :
      (pl : Player setup) (us : Cells) (p : Ptr) (q : Packet) (ph : Phase)
      → IsList pl.sys.heap pl.stream (us ++ (p, q) ∷ [])
      → q.ref_count ≡ 1
      → is_query q ≡ some false
      → is_eof q ≡ some false
      → q.is_in ≡ false
      → stands_at ph ≡ some p
      → (do reader handle_packet_complete; step ph) pl ≡ fault
  handle_packet_complete-dangles pl us p q ph list one no_query no_eof out stands =
      let (_, (ne, here, _)) = Chain-split pl.sys.heap null us ((p, q) ∷ []) null list.linked in
      let (s', sys', done, _, _, freed, _) =
        unlink_pkt-IsList pl.stream p q us [] pl.sys list (rw one (omega arith)) in
      rw
        (reader-eq handle_packet_complete pl s' sys' (
          handle_response pl.stream p (between (back null us) null q) pl.sys
            (list.last_is ∙ back-append null us ((p, q) ∷ []))
            (load-eq p (between (back null us) null q) pl.sys ne here)
            (is_query-between (back null us) null q ∙ no_query)
            (is_eof-between (back null us) null q ∙ no_eof) out
          ∙ done))
        (step-gone p ph (record pl { sys = sys'; stream = s' }) stands (freed ∙ rw one refl))
