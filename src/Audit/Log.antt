-- ===== src/Audit/Log.antt =====
-- `add_line` of analyze-audit.py and the loop over the lines of a file in `read_gzip_path` and
-- `read_plain_path`, without the decoding of UTF-8 and the printing of progress. The accumulator is an AuditAccumulator or a
-- MultiWindowAuditAccumulator, so its `add` is a parameter; none is a ValueError of `parse_record`.
pub mod Written
use Prim.Native.Char.{Char, code}
use coroutines_kafka_consume.Prelude.{
  ℕ, ◌+◌, Bool, true, false, ◌&&◌, ◌||◌, Option, none, some, String, List, [], ◌∷◌, ◌>>=◌, leb,
  nat_beq, if◌then◌else◌,
}
use coroutines_kafka_consume.Prelude.Int.{ℤ}
use coroutines_kafka_consume.Audit.Record.{AuditRecord}
use coroutines_kafka_consume.Audit.Parse.{parse_record}

abbrev pub in_range : ℕ → ℕ → ℕ → Bool
in_range low high n = leb low n && leb n high

-- str.isspace of one character
abbrev pub is_space : Char → Bool
is_space c =
    let n = code c in
    in_range 9 13 n
    || (in_range 28 32 n
        || (nat_beq n 133
            || (nat_beq n 160
                || (nat_beq n 5760
                    || (in_range 8192 8202 n
                        || (in_range 8232 8233 n
                            || (nat_beq n 8239 || (nat_beq n 8287 || nat_beq n 12288))))))))

-- not line.strip()
abbrev pub is_blank : String → Bool
is_blank String.[] = true
is_blank (String.◌∷◌ c text) = is_space c && is_blank text

-- text.startswith(prefix)
abbrev pub text_starts_with : String → String → Bool
text_starts_with String.[] text = true
text_starts_with (String.◌∷◌ c prefix) String.[] = false
text_starts_with (String.◌∷◌ c prefix) (String.◌∷◌ d text) =
    nat_beq (code c) (code d) && text_starts_with prefix text

module _ {ℓ} {S : Type ℓ} (add : AuditRecord → S → S) (int : String → Option ℤ) where
  -- accumulator.add(parse_record(line)); return 1
  abbrev pub add_parsed : Option AuditRecord → S → Option (ℕ × S)
  add_parsed none accumulator = none
  add_parsed (some r) accumulator = some (1, add r accumulator)

  unfoldable pub add_line : String → S → Option (ℕ × S)
  unfolding parse_record
  add_line line accumulator =
      if is_blank line
      then some (0, accumulator)
      else if text_starts_with "S|" line
      then some (0, accumulator)
      else add_parsed (parse_record int line) accumulator

  -- for line in file: count += add_line(line, accumulator)
  unfoldable pub add_lines : List String → ℕ → S → Option (ℕ × S)
  unfolding add_line
  add_lines [] count accumulator = some (count, accumulator)
  add_lines (line ∷ rest) count accumulator = do
    added ← add_line line accumulator
    add_lines rest (count + added.0) added.1
