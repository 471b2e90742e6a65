-- ===== src/Storage/ChunkBuffer/Files.antt =====
-- C's stdio as src/storage/chunk_buffer.cpp uses it: a parameter, and what the code relies on.
use telegram_disk.Base.{
  ℕ, ◌+◌, ◌-◌, min, ◌≤◌, ◌≡◌, Bool, true, false, Option, some, ◌++◌, length, take, drop,
}
use telegram_disk.Base.Bits.{Bytes}
use Prim.Native.String.{String}

-- `fflush` and `rewind` (`fseek` to 0) say whether the call returned 0.
pub record Stdio : Type 1 where
  pub File : Type 0
  pub open_file : String → Option File
  pub fwrite : File → Bytes → ℕ × File
  pub fflush : File → Bool × File
  pub rewind : File → Bool × File
  pub fread : File → ℕ → Bytes × File
  pub ferror : File → Bool

-- Documented behaviour of a file opened by "w+b". A short write and a failed call promise nothing.
pub record StdioLaws (io : Stdio) : Type 0 where
  pub content : Stdio.File io → Bytes
  pub position : Stdio.File io → ℕ
  pub opened :
      (p : String) (f : Stdio.File io)
      → Stdio.open_file io p ≡ some f
      → (length (content f) ≡ 0) × (position f ≡ 0)
  pub written :
      (f : Stdio.File io) (part : Bytes)
      → position f ≡ length (content f)
      → (Stdio.fwrite io f part).0 ≡ length part
      → (content (Stdio.fwrite io f part).1 ≡ content f ++ part)
        × (position (Stdio.fwrite io f part).1 ≡ position f + length part)
  pub flushed :
      (f : Stdio.File io) → (Stdio.fflush io f).0 ≡ true → content (Stdio.fflush io f).1 ≡ content f
  pub rewound :
      (f : Stdio.File io)
      → (Stdio.rewind io f).0 ≡ true
      → (content (Stdio.rewind io f).1 ≡ content f) × (position (Stdio.rewind io f).1 ≡ 0)
  pub was_read :
      (f : Stdio.File io) (n : ℕ)
      → let (got, f') = Stdio.fread io f n in
        (got ≡ take (length got) (drop (position f) (content f)))
        × (length got ≤ n)
        × (content f' ≡ content f)
        × (position f' ≡ position f + length got)
  -- A read is short only at the end of the file or on an error.
  pub read_full :
      (f : Stdio.File io) (n : ℕ)
      → Stdio.ferror io (Stdio.fread io f n).1 ≡ false
      → length (Stdio.fread io f n).0 ≡ min n (length (content f) - position f)

-- A disk on which nothing goes wrong.
pub record IsHealthy (io : Stdio) : Type 0 where
  pub flushes : (f : Stdio.File io) → (Stdio.fflush io f).0 ≡ true
  pub rewinds : (f : Stdio.File io) → (Stdio.rewind io f).0 ≡ true
  pub no_error : (f : Stdio.File io) → Stdio.ferror io f ≡ false
