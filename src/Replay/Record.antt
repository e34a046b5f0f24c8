-- ===== src/Replay/Record.antt =====
-- The bytes of one record, and what `replay_write` and `replay_read` do with a regular file.
use mysqlpcap.Base.{
  ℕ, ◌^◌, ◌<◌, ◌≡◌, refl, inl, inr, sym, ap, ◌∙◌, false, not, some, [], ◌∷◌, ◌++◌, append_assoc,
  append-nil, Bytes, arith, length, drop, take-append, drop-append, ◌==◌, ==_iff, Bool-cases,
}
use mysqlpcap.Files.{Files, IsRegular}
use mysqlpcap.Packet.{Packet}
use mysqlpcap.Wire.{at, int4store, int8store, uint4korr, uint8korr}
use mysqlpcap.Wire.RoundTrip.{uint4korr-int4store, uint8korr-int8store}
use mysqlpcap.Replay.{
  packet_header_size, header, contents, is_short, whole, replay_write, read_exactly, parse_header,
}

-- A packet that a record can hold: its numbers have their widths, and its buffer is full.
pub record IsRecord (key : ℕ) (p : Packet) : Type 0 where
  pub key_fits : key < 2 ^ 64
  pub sec_fits : p.ts.tv_sec < 2 ^ 64
  pub usec_fits : p.ts.tv_usec < 2 ^ 64
  pub len_fits : p.len < 2 ^ 32
  pub full : length (contents p) ≡ p.len

-- The bytes of a record.
abbrev pub encode : (key : ℕ) → Packet → Bytes
encode key p = header key p ++ contents p

pub length-header : (key : ℕ) (p : Packet) → length (header key p) ≡ packet_header_size
unfolding header int4store int8store
length-header key p = refl

module _ (key : ℕ) (p : Packet) (r : IsRecord key p) where
  sec_back : uint8korr (drop 9 (header key p)) ≡ p.ts.tv_sec
  unfolding header int8store int4store
  sec_back = uint8korr-int8store p.ts.tv_sec (int8store p.ts.tv_usec ++ int4store p.len) r.sec_fits

  usec_back : uint8korr (drop 17 (header key p)) ≡ p.ts.tv_usec
  unfolding header int8store int4store
  usec_back = uint8korr-int8store p.ts.tv_usec (int4store p.len) r.usec_fits

  len_back : uint4korr (drop 25 (header key p)) ≡ p.len
  unfolding header int8store int4store
  len_back = uint4korr-int4store p.len [] r.len_fits

  key_back : uint8korr (header key p) ≡ key
  unfolding header int8store int4store
  key_back = uint8korr-int8store key (drop 8 (header key p)) r.key_fits

  flag_back : not (at (header key p) 8 == 0) ≡ p.is_in
  unfolding header int8store int4store
  flag_back = ground arith

  pub parse_header-header :
      (q : Packet)
      → parse_header q (header key p) ≡ (key, record q { is_in = p.is_in; ts = p.ts; len = p.len })
  unfolding parse_header
  parse_header-header q = λ i. (
    key_back i,
    record q {
      is_in = flag_back i;
      ts = record { tv_sec = sec_back i; tv_usec = usec_back i };
      len = len_back i;
    },
  )

pub eq_nil : (bs : Bytes) → length bs ≡ 0 → bs ≡ []
eq_nil [] h = refl
eq_nil (b ∷ bs) h = absurd (omega arith)

module _ (os : Files) (regular : IsRegular os) where
  open regular use {written, remaining, write_all, write_behind, read_next, read_past}

  is_short_same : (n : ℕ) → is_short (some n) n ≡ false
  unfolding is_short
  is_short_same n = ground arith

  -- A write of `n` bytes is not short.
  write_done :
      (f : os.File) (bs : Bytes) (n : ℕ) → length bs ≡ n → is_short (os.write f bs).1 n ≡ false
  write_done f bs n e = rw (write_all, e) (is_short_same n)

  -- On a regular file `replay_write` succeeds and appends the record.
  pub replay_write-encode :
      (f : os.File) (key : ℕ) (p : Packet)
      → length (contents p) ≡ p.len
      → ((replay_write os f key p).1 ≡ false)
        × (written (replay_write os f key p).0 ≡ written f ++ encode key p)
  unfolding replay_write
  replay_write-encode f key p full =
      rw (write_done f (header key p) packet_header_size (length-header key p))
        (elim (Bool-cases (p.len == 0)) [
          | inl none_left ↦ rw none_left (
            refl,
            write_behind f (header key p)
                ∙ ap (λ bs. written f ++ bs)
                    (sym (append-nil (header key p))
                      ∙ ap (λ bs. header key p ++ bs) (sym (eq_nil (contents p) (ground arith)))),
          )
          | inr more ↦ rw more (
            write_done _ (contents p) p.len full,
            write_behind _ (contents p)
                ∙ ap (λ bs. bs ++ contents p) (write_behind f (header key p))
                ∙ append_assoc (written f) (header key p) (contents p),
          )
        ])

  -- A read of `n` bytes, where those that are left begin with `bs` of that length.
  pub read_exactly-append :
      (f : os.File) (n : ℕ) (bs rest : Bytes)
      → length bs ≡ n
      → remaining f ≡ bs ++ rest
      → ((read_exactly os f n).1 ≡ some bs) × (remaining (read_exactly os f n).0 ≡ rest)
  unfolding read_exactly whole
  read_exactly-append f n bs rest size e =
      rw (read_next, e, take-append n bs rest size, (==_iff _ n).1 size)
        (refl, read_past f n ∙ ap (drop n) e ∙ drop-append n bs rest size)
