-- ===== src/Packet/Counters.antt =====
-- Reference counts and the counters of `Perf_stats`.
use mysqlpcap.Base.{
  ℕ, ◌+◌, ◌%◌, ◌^◌, ◌≤◌, ◌<◌, ◌≡◌, ◌≢◌, if◌then◌else◌, Bool, true, false, none, some, arith, ◌==◌,
}
use mysqlpcap.Base.Maybe.{◌>>=◌}
use mysqlpcap.Packet.{Packet, PerfStats, Timeval, make, cleanup, mark_ref, unmark_ref}

-- For lengths of 32 bits and a memory counter of 64: when a packet is made, and cleaned up while it
-- has that length and a buffer, however filled, the buffer is gone, the memory counter is what it was
-- before, and one packet more is counted as allocated, and one as freed.
cleanup-make :
    (ts : Timeval) (len : ℕ) (is_in : Bool) (perf : PerfStats) (p : Packet)
    → perf.pkt_mem_in_use < 2 ^ 64
    → len < 2 ^ 32
    → p.len ≡ len
    → p.payload ≢ none
    → ((cleanup p (make ts len is_in perf).1).0.payload ≡ none)
      × ((cleanup p (make ts len is_in perf).1).1.pkt_mem_in_use ≡ perf.pkt_mem_in_use)
      × ((cleanup p (make ts len is_in perf).1).1.pkt_alloced ≡ (perf.pkt_alloced + 1) % 2 ^ 64)
      × ((cleanup p (make ts len is_in perf).1).1.pkt_freed ≡ (perf.pkt_freed + 1) % 2 ^ 64)
unfolding make cleanup
cleanup-make ts len is_in perf p mem small same filled = ground arith

-- For a packet with at most two references: after a reference is taken and given back, the packet and
-- the counters are as they were if another reference is left; otherwise `unmark_ref` has cleaned the
-- packet up and says that it is to be freed.
unmark_ref-mark_ref :
    (p : Packet) (perf : PerfStats)
    → p.ref_count ≤ 2
    → (mark_ref p >>= λ q. unmark_ref q perf) ≡ (
        if p.ref_count == 0
        then some (((cleanup p perf).0, (cleanup p perf).1, true))
        else some (p, perf, false))
unfolding mark_ref unmark_ref cleanup
unmark_ref-mark_ref p perf few = ground arith
