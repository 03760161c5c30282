-- ===== src/Audit/Offsets.antt =====
-- `ClosedOffsetStore` of demo/infra/shared/audit/analyze-audit.py: the outcome flags of the closed
-- records of one topic, in pages of 65,536 offsets.
use coroutines_kafka_consume.Prelude.{
  ℕ, ◌≡◌, Bool, [], ◌&&◌, Option, none, some, arith, pair_eq, pair_beq_iff, nat_beq, if◌then◌else◌,
}
use coroutines_kafka_consume.Prelude.Int.{
  ℤ, pos, negsuc, int_beq, int_beq_iff, floor_div, floor_mod, int_eq,
}
use coroutines_kafka_consume.Dict
use coroutines_kafka_consume.Dict.{Dict}
use coroutines_kafka_consume.Audit.Record.{RecordKey}

abbrev pub offset_page_size : ℕ
offset_page_size = 65536

-- A `bytearray`, by what its index operator reads; a new one reads zero everywhere.
abbrev pub Page : Type 0
Page = ℕ → ℕ

abbrev pub new_page : Page
new_page i = 0

abbrev pub write : Page → ℕ → ℕ → Page
write page i byte j = if nat_beq i j then byte else page j

pub record ClosedOffsetStore : Type 0 where
  pub pages : Dict (ℤ × ℤ) Page

abbrev pub empty : ClosedOffsetStore
empty = record { pages = [] }

abbrev page_key : RecordKey → ℤ × ℤ
page_key key = (key.partition, floor_div key.offset offset_page_size)

abbrev slot : RecordKey → ℕ
slot key = floor_mod key.offset offset_page_size

unfoldable pub get : ClosedOffsetStore → RecordKey → ℕ
unfolding Dict.lookup
get store key = elim (Dict.lookup (page_key key) store.pages) [
  | none ↦ 0
  | some page ↦ page (slot key)
]

abbrev page_or_new : Option Page → Page
page_or_new none = new_page
page_or_new (some page) = page

unfoldable pub set : ClosedOffsetStore → RecordKey → ℕ → ClosedOffsetStore
unfolding Dict.lookup Dict.insert
set store key flags =
    let page = page_or_new (Dict.lookup (page_key key) store.pages) in
    record { pages = Dict.insert (page_key key) (write page (slot key) flags) store.pages }

unfoldable pub clear : ClosedOffsetStore → ClosedOffsetStore
clear store = empty

-- The page and the place in it determine the offset.
offset_eq :
    (a b : ℤ)
    → floor_div a offset_page_size ≡ floor_div b offset_page_size
    → floor_mod a offset_page_size ≡ floor_mod b offset_page_size
    → a ≡ b
offset_eq (pos a) (pos b) p q = ground arith
offset_eq (negsuc a) (negsuc b) p q = ground arith
offset_eq (pos a) (negsuc b) p q = ground arith
offset_eq (negsuc a) (pos b) p q = ground arith

-- The two keys name the same record of the topic that the store is for.
abbrev pub same_offset : RecordKey → RecordKey → Bool
same_offset k j = int_beq k.partition j.partition && int_beq k.offset j.offset

-- Reading after a write gives the flags that were written if the two keys have the same partition
-- and offset, negative ones too, and else what the store had there before.
pub get-set :
    (store : ClosedOffsetStore) (k j : RecordKey) (flags : ℕ)
    → get (set store k flags) j ≡ (if same_offset k j then flags else get store j)
unfolding get set
get-set store k j flags = ground (
  arith,
  Dict.lookup-insert (page_key k) (page_key j)
      (write (page_or_new (Dict.lookup (page_key k) store.pages)) (slot k) flags) store.pages,
  pair_beq_iff (page_key k) (page_key j),
  int_beq_iff k.partition j.partition,
  int_beq_iff k.offset j.offset,
  int_beq_iff (floor_div k.offset offset_page_size) (floor_div j.offset offset_page_size),
  offset_eq k.offset j.offset,
)
