-- ===== src/Files.antt =====
-- The POSIX calls that the program makes on an open file: a parameter of the model.
use mysqlpcap.Base.{ℕ, ◌≡◌, ◌++◌, Option, some, Bytes, length, take, drop}

-- `write` gives the number of bytes written and `read` the bytes that it has put into the buffer;
-- `none` is the result -1.
pub record Files : Type 1 where
  pub File : Type 0
  pub write : File → Bytes → File × Option ℕ
  pub read : File → ℕ → File × Option Bytes

-- What POSIX says of a regular file on a disk that is not full: a write puts all its bytes behind
-- those written before, and a read takes as many as it is asked for, or all that are left.
pub record IsRegular (os : Files) : Type 0 where
  pub written : os.File → Bytes
  pub remaining : os.File → Bytes
  pub write_all : (f : os.File) (bs : Bytes) → (os.write f bs).1 ≡ some (length bs)
  pub write_behind : (f : os.File) (bs : Bytes) → written (os.write f bs).0 ≡ written f ++ bs
  pub read_next : (f : os.File) (n : ℕ) → (os.read f n).1 ≡ some (take n (remaining f))
  pub read_past : (f : os.File) (n : ℕ) → remaining (os.read f n).0 ≡ drop n (remaining f)

-- A file in memory: what was written to it, and what is left to read.
abbrev pub memory : Files
memory = record {
  File = Bytes × Bytes;
  write = λ (w, r) bs. ((w ++ bs, r), some (length bs));
  read = λ (w, r) n. ((w, drop n r), some (take n r));
}
