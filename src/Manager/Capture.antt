-- ===== src/Manager/Capture.antt =====
-- `Mysql_stream_manager::process_pkt`: one packet of a capture.
pub mod Reads
pub mod Fed
pub mod Sent
pub mod Sound
use mysqlpcap.Base.{
  ℕ, ◌+◌, ◌-◌, ◌*◌, ◌/◌, ◌%◌, ◌^◌, Bool, true, false, not, ◌&&◌, ◌||◌, none, some, List, [], ◌∷◌,
  Bytes, length, take, drop, get_elem?, ltb, ◌==◌, if◌then◌else◌, ◌⊎◌, inl, inr,
}
use mysqlpcap.Base.Run.{M, pure, assert, ◌>>=◌, ◌>>◌}
use mysqlpcap.Fragments
use mysqlpcap.Fragments.{has_fragments, get_first_fragment, remaining_fragments}
use mysqlpcap.Manager.{find_stream, save, forget}
use mysqlpcap.Manager.Text.{could_be_query}
use mysqlpcap.Packet.{Timeval}
use mysqlpcap.Stream.{
  register_tcp_seq, start_replay, end_replay, starting_packet, register_stream_end, cleanup,
}
use mysqlpcap.Stream.Append.{append}
use mysqlpcap.Sys.{Env, Stream, Sys, new_stream, get, put, require, get_key}

-- `sizeof(struct sniff_ip)` and `sizeof(struct sniff_tcp)`
abbrev pub sizeof_ip : ℕ
sizeof_ip = 20

abbrev pub sizeof_tcp : ℕ
sizeof_tcp = 20

-- What the headers of a packet say, and the data behind them. Ports, addresses and the sequence
-- number are as they stand in memory.
pub record Segment : Type 0 where
  pub ip_src : ℕ
  pub ip_dst : ℕ
  pub ip_id : ℕ
  pub th_sport : ℕ
  pub th_dport : ℕ
  pub th_seq : ℕ
  pub th_flags : ℕ
  pub contents : Bytes
  pub has_more_fragments : Bool

-- `ntohs`
unfoldable pub ntohs : ℕ → ℕ
ntohs x = x % 256 * 256 + x / 256

-- `flags & (1 << k)`
unfoldable pub has_bit : ℕ → ℕ → Bool
has_bit x k = x / 2 ^ k % 2 == 1

-- `bool in`
unfoldable pub is_inbound : Env → Segment → Bool
unfolding ntohs
is_inbound env g = g.ip_dst == env.mysql_ip && ntohs g.th_dport == env.mysql_port

-- The key of the client's end.
unfoldable pub client_key : Env → Segment → ℕ
unfolding is_inbound
client_key env g =
    if is_inbound env g then get_key g.ip_src g.th_sport else get_key g.ip_dst g.th_dport

-- What the manager is told of the packet by libpcap: `ts`, `caplen` and the bytes.
pub record Frame : Type 0 where
  pub ts : Timeval
  pub caplen : ℕ
  pub bytes : Bytes

module _ {env : Env} where
  unfoldable pub u8 : Bytes → ℕ → M (Sys env) ℕ
  unfolding require
  u8 bs i = require (get_elem? bs i)

  unfoldable pub u16 : Bytes → ℕ → M (Sys env) ℕ
  unfolding u8
  u16 bs i = do a ← u8 bs i; b ← u8 bs (i + 1); pure (a + b * 256)

  unfoldable pub u32 : Bytes → ℕ → M (Sys env) ℕ
  unfolding u16
  u32 bs i = do a ← u16 bs i; b ← u16 bs (i + 2); pure (a + b * 2 ^ 16)

  -- `ip_stream.enqueue`
  unfoldable pub enqueue_fragment : (ip_id ip_off : ℕ) → Bytes → M (Sys env) (Unit {0})
  unfolding require
  enqueue_fragment id off bs = do
    sys ← get
    ips ← require (Fragments.enqueue sys.ip_stream id off bs)
    put (record sys { ip_stream = ips })

  -- The fields of a TCP header at the start of `tcp`.
  unfoldable pub read_tcp : (packet tcp contents : Bytes) → Bool → M (Sys env) Segment
  unfolding u8 u16 u32
  read_tcp packet tcp contents more = do
    src ← u32 packet (env.ethernet_header_size + 12)
    dst ← u32 packet (env.ethernet_header_size + 16)
    id ← u16 packet (env.ethernet_header_size + 4)
    sport ← u16 tcp 0
    dport ← u16 tcp 2
    seq ← u32 tcp 4
    flags ← u8 tcp 13
    pure (record {
      ip_src = src;
      ip_dst = dst;
      ip_id = id;
      th_sport = sport;
      th_dport = dport;
      th_seq = seq;
      th_flags = flags;
      contents = contents;
      has_more_fragments = more;
    })

  -- The packet's data are those of the first fragment that was kept.
  unfoldable pub first_of_fragments : (packet : Bytes) → (ip_id : ℕ) → M (Sys env) (Bool ⊎ Segment)
  unfolding require u8 read_tcp
  first_of_fragments packet id = do
    sys ← get
    frag ← require (get_first_fragment sys.ip_stream id)
    tcp ← require frag
    assert (not (ltb (length tcp) sizeof_tcp))
    off ← u8 tcp 12
    let tcp_header_len = off / 16 * 4
    if ltb (length tcp) tcp_header_len
        then pure (inl false)
        else do seg ← read_tcp packet tcp (drop tcp_header_len tcp) true; pure (inr seg)

  -- The packet's data are its own: `get_tcp_header` and the check behind it.
  unfoldable pub own_data : Frame → M (Sys env) (Bool ⊎ Segment)
  unfolding u8 read_tcp
  own_data f = do
    vhl ← u8 f.bytes env.ethernet_header_size
    let tcp = drop (env.ethernet_header_size + vhl % 16 * 4) f.bytes
    off ← u8 tcp 12
    let start = env.ethernet_header_size + vhl % 16 * 4 + off / 16 * 4
    if ltb f.caplen start then pure (inl false) else do
      seg ← read_tcp f.bytes tcp (take (f.caplen - start) (drop start f.bytes)) false
      pure (inr seg)

  -- The part of `process_pkt` that reads the packet: its result, or the segment to handle.
  unfoldable pub read_segment : Frame → M (Sys env) (Bool ⊎ Segment)
  unfolding u8 u16 enqueue_fragment first_of_fragments own_data
  read_segment f =
      let eth = env.ethernet_header_size in
      if ltb f.caplen (eth + sizeof_ip) then pure (inl false) else do
        ip_p ← u8 f.bytes (eth + 9)
        if not (ip_p == 6) then pure (inl false) else do
          ip_off ← u16 f.bytes (eth + 6)
          ip_id ← u16 f.bytes (eth + 4)
          if has_bit ip_off 13
              then (do
                vhl ← u8 f.bytes eth
                let start = eth + vhl % 16 * 4
                if ltb f.caplen start then pure (inl false) else do
                  let data_len = (f.caplen - start) % 2 ^ 16
                  enqueue_fragment ip_id ip_off (take data_len (drop start f.bytes))
                  pure (inl true))
              else do
                sys ← get
                if has_fragments sys.ip_stream ip_id
                    then first_of_fragments f.bytes ip_id
                    else own_data f

  -- `ip_stream.append_remaining_packets`
  unfoldable pub append_fragments : Stream → Timeval → Bool → List Bytes → M (Sys env) Stream
  unfolding append
  append_fragments s ts is_in [] = pure s
  append_fragments s ts is_in (w ∷ ws) = do
    (s', _) ← append s ts w is_in
    append_fragments s' ts is_in ws

  -- The part of `process_pkt` behind the search for the stream.
  unfoldable pub feed_stream : (key : ℕ) → Frame → Segment → Stream → M (Sys env) Bool
  unfolding save starting_packet append append_fragments require
  feed_stream key f g s = if length g.contents == 0 then pure true else do
    sys ← get
    put (record sys {
      first_packet_ts = elim sys.first_packet_ts [ none ↦ some f.ts | some t ↦ some t ];
    })
    let (s₁, passes) = register_tcp_seq s g.th_seq
    save key s₁
    if not passes then pure false else do
      starting ← starting_packet s₁
      if is_inbound env g && (starting && not (could_be_query g.contents)) then pure false else do
        (s₂, _) ← append s₁ f.ts g.contents (is_inbound env g)
        sys' ← get
        s₃ ←
            if g.has_more_fragments
            then (do
              ws ← require (remaining_fragments sys'.ip_stream g.ip_id)
              append_fragments s₂ f.ts (is_inbound env g) ws)
            else pure s₂
        save key s₃
        pure true

  -- The end of a stream, on `TH_RST` or `TH_FIN`.
  unfoldable pub end_stream : (key : ℕ) → Frame → Stream → M (Sys env) Bool
  unfolding register_stream_end cleanup forget
  end_stream key f s = do
    register_stream_end s f.ts
    let s' = if env.do_run then end_replay s else s
    forget key
    cleanup s'
    pure true

  -- The part that finds the stream of a segment, or makes it.
  unfoldable pub handle_segment : Frame → Segment → M (Sys env) Bool
  unfolding find_stream save feed_stream end_stream
  handle_segment f g = do
    sys ← get
    elim (find_stream (client_key env g) sys.lookup) [
      | none ↦
          if not (has_bit g.th_flags 1)
            && (not (is_inbound env g) && not (could_be_query g.contents))
          then pure false
          else (do
            let s = new_stream g.ip_src g.th_sport g.ip_dst g.th_dport
            let s' = if env.do_run then start_replay s else s
            save (client_key env g) s'
            feed_stream (client_key env g) f g s')
      | some s ↦
          if has_bit g.th_flags 2 || has_bit g.th_flags 0
          then end_stream (client_key env g) f s
          else feed_stream (client_key env g) f g s
    ]

  -- `process_pkt`
  unfoldable pub process_pkt : Frame → M (Sys env) Bool
  unfolding read_segment handle_segment
  process_pkt f = do
    r ← read_segment f
    elim r [
      | inl done ↦ pure done
      | inr g ↦
          if not (ntohs g.th_sport == env.mysql_port) && not (ntohs g.th_dport == env.mysql_port)
          then pure false
          else handle_segment f g
    ]
