-- ===== src/Audit/Tests/Lines.antt =====
-- Lines of an audit log, with numbers written as texts of that many letters.
use coroutines_kafka_consume.Prelude.{
  ℕ, zero, suc, ◌≡◌, refl, ap, ◌∙◌, true, Option, none, some, String, List, [], ◌∷◌, string_eq, map,
  length,
}
use coroutines_kafka_consume.Prelude.Int.{ℤ, pos}
use coroutines_kafka_consume.Pcap.Varint.{unzigzag}
use coroutines_kafka_consume.Pcap.Varint.RoundTrip.{zigzag, unzigzag-zigzag}
use coroutines_kafka_consume.Audit.Parse.{parse_record}
use coroutines_kafka_consume.Audit.Parse.Columns.{Event, columns_of, record_of}
use coroutines_kafka_consume.Audit.Parse.Line.{
  ◌⧺◌, newlines, join_bars, is_plain, parse_record-line,
}
use coroutines_kafka_consume.Audit.Accumulator.{AuditAccumulator, new_accumulator, add}
use coroutines_kafka_consume.Audit.Log.{add_lines}
use coroutines_kafka_consume.Audit.Log.Written.{
  Entry, line_of, records_of, add_all, add_lines-written,
}
use coroutines_kafka_consume.Audit.Tests.{key_at}

abbrev letters : ℕ → String
letters zero = String.[]
letters (suc n) = String.◌∷◌ "x" (letters n)

abbrev count_letters : String → ℕ
count_letters String.[] = zero
count_letters (String.◌∷◌ c text) = suc (count_letters text)

count_letters-letters : (n : ℕ) → count_letters (letters n) ≡ n
count_letters-letters zero = refl
count_letters-letters (suc n) = ap suc (count_letters-letters n)

is_plain-letters : (n : ℕ) → is_plain (letters n) ≡ true
is_plain-letters zero = refl
is_plain-letters (suc n) = is_plain-letters n

abbrev str : ℤ → String
str z = letters (zigzag z)

abbrev int : String → Option ℤ
int text = some (unzigzag (count_letters text))

int-str : (z : ℤ) → int (str z) ≡ some z
int-str z =
    ap (λ (n : ℕ). some (unzigzag n)) (count_letters-letters (zigzag z))
    ∙ ap some (unzigzag-zigzag z)

parse_record-line_example :
    parse_record int (
      join_bars (columns_of str (Event.dropped (some "late")) (key_at (pos 0) 8) (pos 3) "a")
      ⧺ newlines 1)
    ≡ some (record_of (Event.dropped (some "late")) (key_at (pos 0) 8) (pos 3) "a")
parse_record-line_example =
    parse_record-line int str int-str (λ z. is_plain-letters (zigzag z))
      (Event.dropped (some "late")) (key_at (pos 0) 8) (pos 3) "a" 1 refl refl

-- A message key with a bar is two columns: a processed record of it is refused, and of a dropped
-- record without a reason the key is cut and the rest of it becomes the reason.
parse_record-bar_in_key :
    (parse_record int "C|xx|xx|xx|xx|a|b\n" ≡ none)
    × (parse_record int "D|xxxxxx||||a|b\n"
        ≡ some (record_of (Event.dropped (some "b")) (key_at (pos 0) 0) (pos 0) "a"))
unfolding parse_record
parse_record-bar_in_key = (refl, refl)

abbrev entry : Event → Entry
entry event = Entry.audit (record {
  event = event;
  key = key_at (pos 0) 8;
  audit_ms = pos 3;
  message_key = "a";
  ending = 1;
})

abbrev some_log : List Entry
some_log =
    Entry.shutdown "shutdown|begin|17\n"
    ∷ entry (Event.published (pos 1))
    ∷ Entry.blank " \n"
    ∷ entry (Event.dropped (some "late"))
    ∷ []

abbrev new : AuditAccumulator
new = new_accumulator none [] [] none

add_lines-written_example :
    add_lines add int (map (line_of str) some_log) 0 new
    ≡ some (length (records_of some_log), add_all add (records_of some_log) new)
add_lines-written_example =
    add_lines-written add int str int-str (λ z. is_plain-letters (zigzag z)) some_log new
      (tt, ((refl, refl), (refl, ((refl, refl), tt))))
