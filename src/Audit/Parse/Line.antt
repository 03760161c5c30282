-- ===== src/Audit/Parse/Line.antt =====
-- Lines as `encodePublishedAuditRecord` (LoadTestAuditLog.kt) and `encodeConsumerAuditRecord`
-- (AuditLog.kt) write them, which join the columns with bars, are read back.
use Prim.Native.Char.{Char}
use coroutines_kafka_consume.Prelude.{
  ℕ, zero, suc, ◌≡◌, refl, ap, ◌∙◌, Bool, true, false, not, ◌&&◌, Option, some, String, List, [],
  ◌∷◌, arith, Every,
}
use coroutines_kafka_consume.Prelude.Int.{ℤ}
use coroutines_kafka_consume.Audit.Record.{RecordKey}
use coroutines_kafka_consume.Audit.Parse.{
  is_newline, is_bar, keep, rstrip_newlines, split_bars, parse_parts, parse_record,
}
use coroutines_kafka_consume.Audit.Parse.Columns.{
  Event, published, dropped, handed_off, consumer_columns, columns_of, record_of,
  parse_parts-columns_of,
}

infixr 65 ◌⧺◌
-- One text and then another.
abbrev pub ◌⧺◌ : String → String → String
String.[] ⧺ text = text
(String.◌∷◌ c s) ⧺ text = String.◌∷◌ c (s ⧺ text)

abbrev pub newlines : ℕ → String
newlines zero = String.[]
newlines (suc n) = String.◌∷◌ "\n" (newlines n)

-- The columns, with a bar before each but the first.
abbrev pub with_bars : List String → String
with_bars [] = String.[]
with_bars (column ∷ columns) = String.◌∷◌ "|" (column ⧺ with_bars columns)

abbrev pub join_bars : List String → String
join_bars [] = String.[]
join_bars (column ∷ columns) = column ⧺ with_bars columns

-- Neither a bar nor a newline.
abbrev pub is_plain : String → Bool
is_plain String.[] = true
is_plain (String.◌∷◌ c text) = not (is_bar c) && (not (is_newline c) && is_plain text)

abbrev pub AllPlain : List String → Type 0
AllPlain = Every (λ (text : String). is_plain text ≡ true)

split_bars-⧺ :
    (columns : List String) (column : String)
    → is_plain column ≡ true
    → AllPlain columns
    → split_bars (column ⧺ with_bars columns) ≡ column ∷ columns
unfolding split_bars
split_bars-⧺ [] String.[] p ps = refl
split_bars-⧺ (next ∷ columns) String.[] p ps =
    ap (λ (parts : List String). String.[] ∷ parts) (split_bars-⧺ columns next ps.0 ps.1)
split_bars-⧺ columns (String.◌∷◌ c text) p ps =
    rw (split_bars-⧺ columns text (ground (arith, p)) ps) (ground (arith, p))

-- No newline.
is_line : String → Bool
is_line String.[] = true
is_line (String.◌∷◌ c text) = not (is_newline c) && is_line text

rstrip-newlines : (n : ℕ) → rstrip_newlines (newlines n) ≡ String.[]
unfolding rstrip_newlines
rstrip-newlines zero = refl
rstrip-newlines (suc n) = rw (rstrip-newlines n) refl

keep-other : (c : Char) (text : String) → is_newline c ≡ false → keep c text ≡ String.◌∷◌ c text
keep-other c String.[] h = rw h refl
keep-other c (String.◌∷◌ d text) h = refl

rstrip-⧺ :
    (text : String) (n : ℕ) → is_line text ≡ true → rstrip_newlines (text ⧺ newlines n) ≡ text
unfolding rstrip_newlines is_line
rstrip-⧺ String.[] n h = rstrip-newlines n
rstrip-⧺ (String.◌∷◌ c text) n h =
    rw (rstrip-⧺ text n (ground (arith, h))) (keep-other c text (ground (arith, h)))

is_line-⧺ :
    (text rest : String) → is_plain text ≡ true → is_line rest ≡ true → is_line (text ⧺ rest) ≡ true
unfolding is_line
is_line-⧺ String.[] rest p h = h
is_line-⧺ (String.◌∷◌ c text) rest p h =
    let more = is_line-⧺ text rest (ground (arith, p)) h in ground (arith, p, more)

is_line-with_bars : (columns : List String) → AllPlain columns → is_line (with_bars columns) ≡ true
unfolding is_line
is_line-with_bars [] ps = refl
is_line-with_bars (column ∷ columns) ps =
    is_line-⧺ column (with_bars columns) ps.0 (is_line-with_bars columns ps.1)

-- A line of plain columns is read by its columns.
parse_record-join_bars :
    (int : String → Option ℤ) (columns : List String) (n : ℕ)
    → AllPlain columns
    → parse_record int (join_bars columns ⧺ newlines n) ≡ parse_parts int columns
unfolding parse_record split_bars parse_parts
parse_record-join_bars int [] n ps =
    ap (λ (text : String). parse_parts int (split_bars text)) (rstrip-newlines n)
parse_record-join_bars int (column ∷ columns) n ps =
    let line = is_line-⧺ column (with_bars columns) ps.0 (is_line-with_bars columns ps.1) in
    ap (λ (text : String). parse_parts int (split_bars text))
      (rstrip-⧺ (column ⧺ with_bars columns) n line)
    ∙ ap (parse_parts int) (split_bars-⧺ columns column ps.0 ps.1)

-- The reason of an event, if it has one, is plain.
abbrev pub has_plain_reason : Event → Bool
has_plain_reason (dropped (some reason)) = is_plain reason
has_plain_reason (handed_off (some reason)) = is_plain reason
has_plain_reason _ = true

module _ (str : ℤ → String) (plain : (z : ℤ) → is_plain (str z) ≡ true) where
  consumer_columns-AllPlain :
      (key : RecordKey) (audit_ms : ℤ) (message_key : String) (detail : List String)
      → is_plain message_key ≡ true
      → AllPlain detail
      → AllPlain (consumer_columns str key audit_ms message_key detail)
  consumer_columns-AllPlain key audit_ms message_key detail k d =
      (plain key.topic_id, (plain key.partition, (plain key.offset, (plain audit_ms, (k, d)))))

  columns_of-AllPlain :
      (event : Event) (key : RecordKey) (audit_ms : ℤ) (message_key : String)
      → is_plain message_key ≡ true
      → has_plain_reason event ≡ true
      → AllPlain (columns_of str event key audit_ms message_key)
  columns_of-AllPlain (published kafka_ms) key audit_ms message_key k r = (
    refl,
    (
      plain key.topic_id,
      (plain key.partition, (plain key.offset, (plain kafka_ms, (plain audit_ms, (k, tt))))),
    ),
  )
  columns_of-AllPlain (dropped (some reason)) key audit_ms message_key k r =
      (refl, consumer_columns-AllPlain key audit_ms message_key (reason ∷ []) k (r, tt))
  columns_of-AllPlain (handed_off (some reason)) key audit_ms message_key k r =
      (refl, consumer_columns-AllPlain key audit_ms message_key (reason ∷ []) k (r, tt))
  columns_of-AllPlain event key audit_ms message_key k r =
      (refl, consumer_columns-AllPlain key audit_ms message_key [] k tt)

-- If `int` reads what `str` writes, `str` writes neither bars nor newlines, and the message key and
-- the reason have none either, then a line of any type, with a reason or without, that joins its
-- columns with bars and ends in any number of newlines, is read back as the record that it was
-- written for.
pub parse_record-line :
    (int : String → Option ℤ) (str : ℤ → String)
    → ((z : ℤ) → int (str z) ≡ some z)
    → ((z : ℤ) → is_plain (str z) ≡ true)
    → (event : Event) (key : RecordKey) (audit_ms : ℤ) (message_key : String) (n : ℕ)
    → is_plain message_key ≡ true
    → has_plain_reason event ≡ true
    → parse_record int (join_bars (columns_of str event key audit_ms message_key) ⧺ newlines n)
      ≡ some (record_of event key audit_ms message_key)
parse_record-line int str read plain event key audit_ms message_key n k r =
    parse_record-join_bars int (columns_of str event key audit_ms message_key) n
      (columns_of-AllPlain str plain event key audit_ms message_key k r)
    ∙ parse_parts-columns_of int str read event key audit_ms message_key
