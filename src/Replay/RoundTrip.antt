-- ===== src/Replay/RoundTrip.antt =====
-- What `replay_read` makes of the bytes that `replay_write` wrote, and of a file that ends early.
use mysqlpcap.Base.{
  ℕ, ◌-◌, ◌<◌, ◌≡◌, refl, inl, inr, ap, ◌∙◌, false, none, some, [], ◌++◌, append_assoc, Bytes,
  arith, length, take, length-take, take-append_ge, length-append, ◌==◌, if◌then◌else◌, Bool-cases,
}
use native.Mathlib.Decide.{dec_lt}
use mysqlpcap.Files.{Files, IsRegular}
use mysqlpcap.Packet.{Packet, PerfStats}
use mysqlpcap.Replay.{
  packet_header_size, header, contents, whole, replay_write, read_exactly, allocate, replay_read,
}
use mysqlpcap.Replay.Record.{
  IsRecord, encode, length-header, parse_header-header, read_exactly-append, replay_write-encode,
  eq_nil,
}

-- The packet that a record gives, read into `q`: a record without bytes leaves the buffer alone.
abbrev pub read_into : Packet → Packet → Packet
read_into q p = record q {
  is_in = p.is_in;
  ts = p.ts;
  len = p.len;
  payload = if p.len == 0 then q.payload else some (contents p);
}

module _ (os : Files) (regular : IsRegular os) where
  open regular use {written, remaining}

  -- A read of more bytes than are left.
  read_exactly_short :
      (f : os.File) (n : ℕ) → length (remaining f) < n → (read_exactly os f n).1 ≡ none
  unfolding read_exactly whole
  read_exactly_short f n h = rw (regular.read_next) (ground (arith, length-take n (remaining f)))

  -- Where the bytes left begin with a record, `replay_read` gives its key and its packet, counts
  -- the buffer, and stops behind the record.
  pub replay_read-encode :
      (f : os.File) (key : ℕ) (p q : Packet) (perf : PerfStats) (rest : Bytes)
      → IsRecord key p
      → remaining f ≡ encode key p ++ rest
      → ((replay_read os f q perf).3 ≡ some key)
        × ((replay_read os f q perf).1 ≡ read_into q p)
        × ((replay_read os f q perf).2 ≡ (if p.len == 0 then perf else allocate perf p.len))
        × (remaining (replay_read os f q perf).0 ≡ rest)
  unfolding replay_read
  replay_read-encode f key p q perf rest r e =
      let (got, left) =
        read_exactly-append os regular f packet_header_size (header key p) (contents p ++ rest)
          (length-header key p) (e ∙ append_assoc (header key p) (contents p) rest) in
      rw (got, parse_header-header key p r q)
        (elim (Bool-cases (p.len == 0)) [
          | inl no_body ↦ rw no_body (
            refl,
            refl,
            refl,
            left ∙ ap (λ bs. bs ++ rest) (eq_nil (contents p) (ground (arith, r.full))),
          )
          | inr body ↦
              let (got_body, left_body) =
                read_exactly-append os regular _ p.len (contents p) rest r.full left in
              rw (body, got_body) (refl, refl, refl, left_body)
        ])

  -- At the end of the file.
  pub replay_read_end :
      (f : os.File) (q : Packet) (perf : PerfStats)
      → remaining f ≡ []
      → ((replay_read os f q perf).3 ≡ none) × ((replay_read os f q perf).2 ≡ perf)
  unfolding replay_read
  replay_read_end f q perf e =
      rw (read_exactly_short f packet_header_size (omega (arith, ap length e))) (refl, refl)

  -- With files that behave as POSIX says of regular ones: `replay_read` of a file that ends inside the
  -- record of a packet whose numbers have their widths and whose buffer is full, or in front of that
  -- record, gives an error, and leaves the packet without a buffer and with length 0.
  pub replay_read_truncated :
      (f : os.File) (key : ℕ) (p q : Packet) (perf : PerfStats) (n : ℕ)
      → IsRecord key p
      → n < length (encode key p)
      → remaining f ≡ take n (encode key p)
      → ((replay_read os f q perf).3 ≡ none)
        × ((replay_read os f q perf).1.payload ≡ none)
        × ((replay_read os f q perf).1.len ≡ 0)
  unfolding replay_read
  replay_read_truncated f key p q perf n r short e = elim (dec_lt n packet_header_size) [
    | yes inside ↦
        rw
          (read_exactly_short f packet_header_size
            (omega (arith, ap length e, length-take n (encode key p))))
          (refl, refl, refl)
    | no behind ↦
        let size = length-header key p in
        let rest = take (n - length (header key p)) (contents p) in
        let (got, left) =
          read_exactly-append os regular f packet_header_size (header key p) rest size
            (e ∙ take-append_ge n (header key p) (contents p) (omega arith)) in
        let more : (p.len == 0) ≡ false =
          ground (arith, r.full, length-append (header key p) (contents p)) in
        let ends : length (remaining (read_exactly os f packet_header_size).0) < p.len = omega (
          arith,
          ap length left,
          length-take (n - length (header key p)) (contents p),
          r.full,
          length-append (header key p) (contents p),
        ) in
        rw (got, parse_header-header key p r q, more, read_exactly_short _ p.len ends)
          (refl, refl, refl)
  ]

  -- With files that behave as POSIX says of regular ones: a packet whose numbers have their widths
  -- and whose buffer is full is written by `replay_write` to a new file without an error, and is read
  -- back by `replay_read` from the start of that file, whatever follows it there: the same key,
  -- direction, time, length and bytes, and the rest of the file is left.
  pub replay_read-replay_write :
      (f g : os.File) (key : ℕ) (p q : Packet) (perf : PerfStats) (rest : Bytes)
      → IsRecord key p
      → written f ≡ []
      → remaining g ≡ written (replay_write os f key p).0 ++ rest
      → ((replay_write os f key p).1 ≡ false)
        × ((replay_read os g q perf).3 ≡ some key)
        × ((replay_read os g q perf).1 ≡ read_into q p)
        × (remaining (replay_read os g q perf).0 ≡ rest)
  replay_read-replay_write f g key p q perf rest r new e =
      let (success, bytes) = replay_write-encode os regular f key p r.full in
      let (a, b, c, d) =
        replay_read-encode g key p q perf rest r
          (e ∙ ap (λ bs. bs ++ rest) (bytes ∙ ap (λ bs. bs ++ encode key p) new)) in
      (success, a, b, d)
