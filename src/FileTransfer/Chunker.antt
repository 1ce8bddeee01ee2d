-- ===== src/FileTransfer/Chunker.antt =====
-- internal/filetransfer/chunker.go: a file cut into chunks of one size. What a path leads to is
-- an argument of each call. `int64` arithmetic is exact: a file's size and the offsets in it fit.
pub mod Contents
use ensemble.Common.{
  ℕ, zero, suc, ◌+◌, ◌-◌, ◌*◌, ◌/◌, ◌%◌, ◌^◌, List, [], ◌∷◌, length, take, drop, ltb, leb, ◌==◌,
  not, Result, ok, err, ◌>>=◌, ◌>>◌, guard, if◌then◌else◌,
}
use ensemble.Crypto.{Bytes, Sha256}

pub data FileState : Type 0 where
  missing : FileState
  directory : FileState
  regular : Bytes → FileState

pub data ChunkError : Type 0 where
  bad_chunk_size stat_failed is_directory empty_file out_of_range open_failed read_failed :
      ChunkError

pub record Chunk : Type 0 where
  pub index : ℕ
  pub bytes : Bytes
  pub hash : Bytes

pub record Chunker : Type 0 where
  pub file_size : ℕ
  pub chunk_size : ℕ
  pub total : ℕ  -- uint32

abbrev pub u32 : ℕ → ℕ
u32 n = n % 4294967296

abbrev pub default_chunk_size : ℕ
default_chunk_size = 262144

-- `info.Size()` of what `os.Stat` finds.
unfoldable pub stat_size : FileState → Result ChunkError ℕ
stat_size missing = err stat_failed
stat_size directory = err is_directory
stat_size (regular content) = ok (length content)

unfoldable pub new_chunker_with_size : FileState → ℕ → Result ChunkError Chunker
unfolding stat_size
new_chunker_with_size file chunk_size = do
  guard (ltb 0 chunk_size) bad_chunk_size
  size ← stat_size file
  guard (ltb 0 size) empty_file
  ok (record {
    file_size = size;
    chunk_size = chunk_size;
    total = u32 ((size + chunk_size - 1) / chunk_size);
  })

unfoldable pub new_chunker : FileState → Result ChunkError Chunker
unfolding new_chunker_with_size
new_chunker file = new_chunker_with_size file default_chunk_size

-- `Seek` and `io.ReadFull`: at least one byte, and fewer than asked for only at the end.
unfoldable pub read_full : FileState → ℕ → ℕ → Result ChunkError Bytes
read_full missing offset n = err open_failed
read_full directory offset n = err read_failed
read_full (regular content) offset n =
    if ltb offset (length content) then ok (take n (drop offset content)) else err read_failed

module _ (h : Sha256) where
  unfoldable pub read_chunk : Chunker → FileState → ℕ → Result ChunkError Chunk
  unfolding read_full
  read_chunk c file index = do
    guard (ltb index c.total) out_of_range
    buf ← read_full file (index * c.chunk_size) c.chunk_size
    ok (record { index = index; bytes = buf; hash = h.digest buf })

  -- The loop of `AllChunkHashes` with `rounds` rounds left, at index `i`.
  unfoldable pub hashes_from : Chunker → FileState → ℕ → ℕ → Result ChunkError (List Bytes)
  hashes_from c file zero i = ok []
  hashes_from c file (suc rounds) i = do
    chunk ← read_chunk c file i
    rest ← hashes_from c file rounds (suc i)
    ok (chunk.hash ∷ rest)

  unfoldable pub all_chunk_hashes : Chunker → FileState → Result ChunkError (List Bytes)
  unfolding hashes_from
  all_chunk_hashes c file = hashes_from c file c.total 0
