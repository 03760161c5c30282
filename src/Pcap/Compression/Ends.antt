-- ===== src/Pcap/Compression/Ends.antt =====
-- Decompression ends: the loop over the frames of Kafka's Snappy format has enough fuel.
use coroutines_kafka_consume.Prelude.{
  ℕ, zero, suc, ◌+◌, ◌≤◌, ◌&&◌, Option, none, some, [], ◌++◌, arith, ltb, leb, nat_beq, length,
  if_by, if_ind,
}
use coroutines_kafka_consume.Pcap.Result.{
  ok, err, stuck, Error, Ensures, Ensures-bind, Ensures-guard,
}
use coroutines_kafka_consume.Pcap.Bytes.{Bytes, slice, unpack_word-ne-stuck}
use coroutines_kafka_consume.Pcap.Compression.{
  Libraries, called, snappy_magic, starts_with, snappy_loop, snappy, decompress,
}

called-Ensures : (o : Option Bytes) → Ensures (λ b. Unit) (called o)
called-Ensures none = tt
called-Ensures (some bytes) = tt

module _ (libraries : Libraries) (bytes : Bytes) where
  snappy_loop-Ensures :
      (fuel position : ℕ) (output : Bytes)
      → length bytes ≤ position + fuel
      → Ensures (λ b. Unit) (snappy_loop libraries fuel bytes position output)
  unfolding snappy_loop
  snappy_loop-Ensures zero position output enough =
      if_by (Ensures (λ b. Unit)) (leb (position + 4) (length bytes)) {x = stuck} {y = ok output}
        (λ more. absurd (ground (arith, more, enough))) (λ done. tt)
  snappy_loop-Ensures (suc fuel) position output enough =
      if_ind (Ensures (λ b. Unit)) (leb (position + 4) (length bytes)) {y = ok output}
        (Ensures-bind (λ w. Unit) (λ b. Unit) _ _ (unpack_word-ne-stuck bytes position)
          (λ size u.
            Ensures-guard (λ b. Unit) (ltb 0 size && leb (position + 4 + size) (length bytes)) _ _
              (λ framed.
                Ensures-bind (λ b. Unit) (λ b. Unit) _ _
                  (called-Ensures
                    (libraries.snappy_block (slice bytes (position + 4) (position + 4 + size))))
                  (λ block u.
                    snappy_loop-Ensures fuel (position + 4 + size) (output ++ block)
                      (omega (arith, enough))))))
        tt

  -- `decompress` returns or raises.
  pub decompress-Ensures : (codec : ℕ) → Ensures (λ b. Unit) (decompress libraries codec bytes)
  unfolding decompress snappy
  decompress-Ensures codec = if_ind (Ensures (λ b. Unit)) (nat_beq codec 0) {x = ok bytes} tt (
      if_ind (Ensures (λ b. Unit)) (nat_beq codec 1) (called-Ensures (libraries.gzip bytes)) (
        if_ind (Ensures (λ b. Unit)) (nat_beq codec 2)
          (if_ind (Ensures (λ b. Unit)) (starts_with snappy_magic bytes)
            (snappy_loop-Ensures (length bytes) 16 [] (omega arith))
            (called-Ensures (libraries.snappy_block bytes)))
          (if_ind (Ensures (λ b. Unit)) (nat_beq codec 3) (called-Ensures (libraries.lz4 bytes)) (
            if_ind (Ensures (λ b. Unit)) (nat_beq codec 4) {y = err Error.unsupported_codec}
              (called-Ensures (libraries.zstd bytes)) tt))))
