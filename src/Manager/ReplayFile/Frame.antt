-- ===== src/Manager/ReplayFile/Frame.antt =====
-- Delivering a packet leaves the replay file alone, while no replay file is written.
use mysqlpcap.Base.{ℕ, Option, none, some}
use mysqlpcap.Manager.{save, forget}
use mysqlpcap.Manager.ReplayFile.{find_or_make, find_or_make_stream, deliver}
use mysqlpcap.Packet.{Packet}
use mysqlpcap.Stream.Frame.{append_packet-Frame, cleanup-Frame}
use mysqlpcap.Sys.{Env, Stream}
use mysqlpcap.Sys.Frame.{At, Frame, frame, bind-Frame, pure-Frame, option-Frame}

module _ {env : Env} {fd : Option env.os.File} where
  save-Frame : (key : ℕ) (s : Stream) → Frame (At {env = env} fd) (save key s)
  unfolding save
  save-Frame key s = search (frame) depth 30

  forget-Frame : (key : ℕ) → Frame (At {env = env} fd) (forget key)
  unfolding forget
  forget-Frame key = search (frame) depth 30

  find_or_make-Frame :
      (key : ℕ) (pkt : Packet) (o : Option Stream)
      → Frame (At {env = env} fd) (find_or_make key pkt o)
  unfolding find_or_make
  find_or_make-Frame key pkt none = search (frame, save-Frame) depth 30
  find_or_make-Frame key pkt (some s) = search (frame, forget-Frame, cleanup-Frame) depth 30

  find_or_make_stream-Frame :
      (key : ℕ) (pkt : Packet) → Frame (At {env = env} fd) (find_or_make_stream key pkt)
  unfolding find_or_make_stream
  find_or_make_stream-Frame key pkt = search (frame, find_or_make-Frame) depth 30

  pub deliver-Frame : (key : ℕ) (pkt : Packet) → Frame (At {env = env} fd) (deliver key pkt)
  unfolding deliver
  deliver-Frame key pkt = bind-Frame (find_or_make_stream-Frame key pkt) (λ found.
      option-Frame found (pure-Frame tt)
        (λ s. search (frame, append_packet-Frame, save-Frame) depth 30))
