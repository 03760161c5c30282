-- ===== src/Pcap/Result.antt =====
-- The exceptions of the readers of analyze-pcap.py, and steps that may raise one.
use coroutines_kafka_consume.Prelude.{◌≡◌, refl, Bool, true, false}

pub data Error : Type 0 where
  truncated_varint oversized_varint truncated_unsigned_varint oversized_unsigned_varint : Error
  truncated_short truncated_integer truncated_tagged_fields truncated_message : Error
  truncated_payload invalid_string invalid_bytes null_compact truncated_compact_string : Error
  truncated_compact_bytes unexpected_request truncated_topic_uuid null_partitions : Error
  truncated_offsets truncated_transaction truncated_records invalid_length : Error
  invalid_header_count invalid_header_key wrong_length : Error
  -- `bytes.decode` raises the first, which is a ValueError too; `struct.unpack_from` the second.
  unicode_error struct_error : Error
  -- RuntimeError, of the decompression
  invalid_framing unsupported_codec library_error : Error

-- `stuck` is no Python value: a loop of the model has run out of fuel.
pub data Result {ℓ} (Value : Type ℓ) : Type ℓ where
  stuck : Result Value
  err : Error → Result Value
  ok : Value → Result Value

-- The rest of a function, which an exception passes over.
infixl 5 ◌>>◌ ◌>>=◌
abbrev pub ◌>>=◌ {ℓ κ} :
    {Value : Type ℓ} {Next : Type κ} → Result Value → (Value → Result Next) → Result Next
stuck >>= next = stuck
err error >>= next = err error
ok value >>= next = next value

abbrev pub ◌>>◌ {κ} : {Next : Type κ} → Result (Unit {0}) → Result Next → Result Next
checked >> next = checked >>= (λ done. next)

-- if not condition: raise error
abbrev pub guard : Bool → Error → Result (Unit {0})
guard false error = err error
guard true error = ok tt

-- What holds of the value if the step returns one; and the step does return or raise.
abbrev pub Ensures {ℓ} : {A : Type ℓ} → (A → Type 0) → Result A → Type 0
Ensures P (ok a) = P a
Ensures P (err e) = Unit
Ensures P stuck = ⊥

module _ {ℓ} {A : Type ℓ} where
  pub Ensures-imp :
      (P Q : A → Type 0) (m : Result A) → Ensures P m → ((a : A) → P a → Q a) → Ensures Q m
  Ensures-imp P Q (ok a) h imp = imp a h
  Ensures-imp P Q (err e) h imp = tt
  Ensures-imp P Q stuck h imp = h

  pub Ensures-guard :
      (Q : A → Type 0) (b : Bool) (e : Error) (k : Result A)
      → (b ≡ true → Ensures Q k)
      → Ensures Q (guard b e >> k)
  Ensures-guard Q true e k h = h refl
  Ensures-guard Q false e k h = tt

pub Ensures-bind {ℓ κ} :
    {A : Type ℓ} {B : Type κ} (P : A → Type 0) (Q : B → Type 0) (m : Result A) (f : A → Result B)
    → Ensures P m
    → ((a : A) → P a → Ensures Q (f a))
    → Ensures Q (m >>= f)
Ensures-bind P Q (ok a) f h next = next a h
Ensures-bind P Q (err e) f h next = tt
Ensures-bind P Q stuck f h next = h

-- The step returns a value, of which `P` holds.
abbrev pub Yields {ℓ} : {A : Type ℓ} → (A → Type 0) → Result A → Type 0
Yields P (ok a) = P a
Yields P (err e) = ⊥
Yields P stuck = ⊥

pub Yields-bind {ℓ κ} :
    {A : Type ℓ} {B : Type κ} (P : A → Type 0) (Q : B → Type 0) (m : Result A) (f : A → Result B)
    → Yields P m
    → ((a : A) → P a → Yields Q (f a))
    → Yields Q (m >>= f)
Yields-bind P Q (ok a) f h next = next a h
Yields-bind P Q (err e) f h next = absurd h
Yields-bind P Q stuck f h next = absurd h

pub Yields-imp {ℓ} :
    {A : Type ℓ} (P Q : A → Type 0) (m : Result A) → Yields P m → ((a : A) → P a → Q a) → Yields Q m
Yields-imp P Q (ok a) h imp = imp a h
Yields-imp P Q (err e) h imp = h
Yields-imp P Q stuck h imp = h
