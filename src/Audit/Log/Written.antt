-- ===== src/Audit/Log/Written.antt =====
-- A whole log as the applications write it: audit lines, lines of the shutdown, and blank lines.
use coroutines_kafka_consume.Prelude.{
  ℕ, ◌+◌, ◌≡◌, refl, ap, ◌∙◌, true, false, Option, some, String, List, [], ◌∷◌, arith, length, map,
  Every,
}
use coroutines_kafka_consume.Prelude.Int.{ℤ}
use coroutines_kafka_consume.Audit.Record.{RecordKey, AuditRecord}
use coroutines_kafka_consume.Audit.Parse.Columns.{
  Event, published, processed, failed, retried, dropped, handed_off, columns_of, record_of,
}
use coroutines_kafka_consume.Audit.Parse.Line.{
  ◌⧺◌, newlines, join_bars, is_plain, has_plain_reason, parse_record-line,
}
use coroutines_kafka_consume.Audit.Log.{is_blank, text_starts_with, add_line, add_lines}

-- A record as it is written, with the newlines behind it.
pub record Written : Type 0 where
  pub event : Event
  pub key : RecordKey
  pub audit_ms : ℤ
  pub message_key : String
  pub ending : ℕ

pub data Entry : Type 0 where
  audit : Written → Entry
  shutdown blank : String → Entry

abbrev pub record_written : Written → AuditRecord
record_written w = record_of w.event w.key w.audit_ms w.message_key

-- A key and a reason have neither bars nor newlines, and a blank line has only whitespace.
abbrev pub IsWritten : Entry → Type 0
IsWritten (audit w) = (is_plain w.message_key ≡ true) × (has_plain_reason w.event ≡ true)
IsWritten (shutdown text) = Unit
IsWritten (blank text) = is_blank text ≡ true

abbrev pub records_of : List Entry → List AuditRecord
records_of [] = []
records_of (audit w ∷ entries) = record_written w ∷ records_of entries
records_of (shutdown text ∷ entries) = records_of entries
records_of (blank text ∷ entries) = records_of entries

module _ (str : ℤ → String) where
  abbrev pub line_of_record : Written → String
  line_of_record w =
      join_bars (columns_of str w.event w.key w.audit_ms w.message_key) ⧺ newlines w.ending

  abbrev pub line_of : Entry → String
  line_of (audit w) = line_of_record w
  line_of (shutdown text) = "S|" ⧺ text
  line_of (blank text) = text

  is_blank-line : (w : Written) → is_blank (line_of_record w) ≡ false
  is_blank-line w =
      elim w.event
        as (λ e.
          is_blank (join_bars (columns_of str e w.key w.audit_ms w.message_key) ⧺ newlines w.ending)
          ≡ false) [
            | published ms ↦ refl
            | processed ↦ refl
            | failed ↦ refl
            | retried ↦ refl
            | dropped reason ↦ refl
            | handed_off reason ↦ refl
          ]

  text_starts_with-line : (w : Written) → text_starts_with "S|" (line_of_record w) ≡ false
  text_starts_with-line w =
      elim w.event
        as (λ e.
          text_starts_with "S|"
            (join_bars (columns_of str e w.key w.audit_ms w.message_key) ⧺ newlines w.ending)
          ≡ false) [
            | published ms ↦ refl
            | processed ↦ refl
            | failed ↦ refl
            | retried ↦ refl
            | dropped reason ↦ refl
            | handed_off reason ↦ refl
          ]

-- Every record in its order.
abbrev pub add_all {ℓ} : {S : Type ℓ} → (AuditRecord → S → S) → List AuditRecord → S → S
add_all add [] accumulator = accumulator
add_all add (r ∷ rs) accumulator = add_all add rs (add r accumulator)

module _ {ℓ} {S : Type ℓ} (add : AuditRecord → S → S) (int : String → Option ℤ) (str : ℤ → String)
    (read : (z : ℤ) → int (str z) ≡ some z) (plain : (z : ℤ) → is_plain (str z) ≡ true) where
  add_line-audit :
      (w : Written) (accumulator : S)
      → IsWritten (audit w)
      → add_line add int (line_of_record str w) accumulator
        ≡ some (1, add (record_written w) accumulator)
  unfolding add_line
  add_line-audit w accumulator h =
      rw
        (
          is_blank-line str w,
          text_starts_with-line str w,
          parse_record-line int str read plain w.event w.key w.audit_ms w.message_key w.ending h.0
              h.1,
        )
        refl

  add_line-blank :
      (text : String) (accumulator : S)
      → is_blank text ≡ true
      → add_line add int text accumulator ≡ some (0, accumulator)
  unfolding add_line
  add_line-blank text accumulator h = rw h refl

  add_lines-from :
      (entries : List Entry) (count : ℕ) (accumulator : S)
      → Every IsWritten entries
      → add_lines add int (map (line_of str) entries) count accumulator
        ≡ some (count + length (records_of entries), add_all add (records_of entries) accumulator)
  unfolding add_lines add_line
  add_lines-from [] count accumulator hs = ap (λ (n : ℕ). some (n, accumulator)) (omega arith)
  add_lines-from (audit w ∷ entries) count accumulator hs =
      let after = add (record_written w) accumulator in
      rw (add_line-audit w accumulator hs.0) (
        add_lines-from entries (count + 1) after hs.1
        ∙ ap (λ (n : ℕ). some (n, add_all add (records_of entries) after)) (omega arith))
  add_lines-from (shutdown text ∷ entries) count accumulator hs =
      add_lines-from entries (count + 0) accumulator hs.1
      ∙ ap (λ (n : ℕ). some (n, add_all add (records_of entries) accumulator)) (omega arith)
  add_lines-from (blank text ∷ entries) count accumulator hs =
      rw (add_line-blank text accumulator hs.0) (
        add_lines-from entries (count + 0) accumulator hs.1
        ∙ ap (λ (n : ℕ). some (n, add_all add (records_of entries) accumulator)) (omega arith))

-- If `int` reads what `str` writes and `str` writes neither bars nor newlines, then reading a whole
-- log of audit lines whose keys and reasons have neither, of "S|" lines with any text and of lines
-- with whitespace only, in any order, raises nothing: it counts the audit lines and gives the
-- accumulator, whatever its `add` is, just their records, in their order.
pub add_lines-written {ℓ} :
    {S : Type ℓ} (add : AuditRecord → S → S) (int : String → Option ℤ) (str : ℤ → String)
    → ((z : ℤ) → int (str z) ≡ some z)
    → ((z : ℤ) → is_plain (str z) ≡ true)
    → (entries : List Entry) (accumulator : S) → Every IsWritten entries
    → add_lines add int (map (line_of str) entries) 0 accumulator
      ≡ some (length (records_of entries), add_all add (records_of entries) accumulator)
add_lines-written add int str read plain entries accumulator hs =
    add_lines-from add int str read plain entries 0 accumulator hs
    ∙ ap (λ (n : ℕ). some (n, add_all add (records_of entries) accumulator)) (omega arith)
