-- ===== src/Pcap/Compression.antt =====
-- `NativeCompression.snappy` and `decompress` of analyze-pcap.py. The libraries that they call are
-- parameters: gzip, liblz4, libzstd and libsnappy, each of which may fail.
pub mod Ends
use coroutines_kafka_consume.Prelude.{
  ℕ, zero, suc, ◌+◌, ◌≤◌, ◌<◌, Bool, true, false, ◌&&◌, Option, none, some, List, [], ◌∷◌, ◌++◌,
  ltb, leb, nat_beq, length, if◌then◌else◌,
}
use coroutines_kafka_consume.Pcap.Result.{Result, ok, err, stuck, Error, ◌>>=◌, ◌>>◌, guard}
use coroutines_kafka_consume.Pcap.Bytes.{Bytes, slice, unpack_word}

-- data.startswith(prefix)
abbrev pub starts_with : Bytes → Bytes → Bool
starts_with [] bytes = true
starts_with (x ∷ prefix) [] = false
starts_with (x ∷ prefix) (y ∷ bytes) = nat_beq x y && starts_with prefix bytes

-- b"\x82SNAPPY\x00"
abbrev pub snappy_magic : Bytes
snappy_magic = 0x82 ∷ 83 ∷ 78 ∷ 65 ∷ 80 ∷ 80 ∷ 89 ∷ 0 ∷ []

-- The libraries; none is the exception of a failed call.
pub record Libraries : Type 0 where
  pub gzip : Bytes → Option Bytes
  pub lz4 : Bytes → Option Bytes
  pub zstd : Bytes → Option Bytes
  pub snappy_block : Bytes → Option Bytes

abbrev pub called : Option Bytes → Result Bytes
called none = err Error.library_error
called (some bytes) = ok bytes

module _ (libraries : Libraries) where
  -- while position + 4 <= len(data): ...
  unfoldable pub snappy_loop : ℕ → Bytes → ℕ → Bytes → Result Bytes
  unfolding slice unpack_word
  snappy_loop zero bytes position output =
      if leb (position + 4) (length bytes) then stuck else ok output
  snappy_loop (suc fuel) bytes position output =
      let more = (do
        size ← unpack_word bytes position
        let position' = position + 4
        guard (ltb 0 size && leb (position' + size) (length bytes)) Error.invalid_framing
        block ← called (libraries.snappy_block (slice bytes position' (position' + size)))
        snappy_loop fuel bytes (position' + size) (output ++ block)) in
      if leb (position + 4) (length bytes) then more else ok output

  -- Each round takes five bytes at least.
  unfoldable pub snappy : Bytes → Result Bytes
  unfolding snappy_loop
  snappy bytes =
      if starts_with snappy_magic bytes
      then snappy_loop (length bytes) bytes 16 []
      else called (libraries.snappy_block bytes)

  unfoldable pub decompress : ℕ → Bytes → Result Bytes
  unfolding snappy
  decompress codec bytes =
      if nat_beq codec 0
      then ok bytes
      else if nat_beq codec 1
      then called (libraries.gzip bytes)
      else if nat_beq codec 2
      then snappy bytes
      else if nat_beq codec 3
      then called (libraries.lz4 bytes)
      else if nat_beq codec 4
      then called (libraries.zstd bytes)
      else err Error.unsupported_codec
