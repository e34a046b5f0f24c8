-- ===== src/Manager/Capture/Sent.antt =====
-- The packets that a client sends in one frame, from the capture to the list of their stream.
use mysqlpcap.Base.{
  ℕ, ◌⊎◌, inl, inr, Bool, false, not, Option, none, some, List, Bytes, ◌&&◌, ◌||◌, ◌==◌,
  if◌then◌else◌,
}
use mysqlpcap.Base.Run.{M, pure, ◌>>◌}
use mysqlpcap.Manager.{save}
use mysqlpcap.Manager.Capture.{
  Segment, Frame, ntohs, has_bit, is_inbound, client_key, feed_stream, handle_segment, end_stream,
}
use mysqlpcap.Manager.Text.{could_be_query}
use mysqlpcap.Stream.{start_replay}
use mysqlpcap.Sys.{Env, Stream, Sys, new_stream}

module _ {env : Env} (f : Frame) (g : Segment) (fs : List (ℕ × Bytes)) where
  -- The part of `handle_segment` behind the search.
  abbrev handle_found : Option Stream → M (Sys env) Bool
  handle_found o = elim o [
    | none ↦
        if not (has_bit g.th_flags 1) && (not (is_inbound env g) && not (could_be_query g.contents))
        then pure false
        else (do
          let s = new_stream g.ip_src g.th_sport g.ip_dst g.th_dport
          let s' = if env.do_run then start_replay s else s
          save (client_key env g) s'
          feed_stream (client_key env g) f g s')
    | some s ↦
        if has_bit g.th_flags 2 || has_bit g.th_flags 0
        then end_stream (client_key env g) f s
        else feed_stream (client_key env g) f g s
  ]

  -- The part of `process_pkt` behind the reading.
  abbrev handle_read : Bool ⊎ Segment → M (Sys env) Bool
  handle_read r = elim r [
    | inl done ↦ pure done
    | inr g ↦
        if not (ntohs g.th_sport == env.mysql_port) && not (ntohs g.th_dport == env.mysql_port)
        then pure false
        else handle_segment f g
  ]
