-- ===== src/Protobuf.antt =====
-- src/protobuf.js: the reader of the protobuf wire format. Bytes are numbers below 256; a read past
-- the end throws, which is none. The sum of a varint is
-- exact, as in `readVarBigInt`; `readVarint`, which adds floats, is this function below 2 ^ 53.
pub mod Varint
pub mod Skip
pub mod Tests
use collectivus.Prelude.{
  ℕ, zero, suc, ◌+◌, ◌-◌, ◌*◌, ◌/◌, ◌%◌, ◌^◌, Bool, true, false, Option, none, some, List, [], ◌∷◌,
  ltb, leb, ◌==◌, if◌then◌else◌, length, take, drop,
}

-- `DataReader`
pub record Reader : Type 0 where
  pub bytes : List ℕ
  pub offset : ℕ

abbrev pub advance : ℕ → Reader → Reader
advance n r = record r { offset = r.offset + n }

-- The bytes from the offset on.
abbrev pub ahead : Reader → List ℕ
ahead r = drop r.offset r.bytes

abbrev pub one_more : Option (ℕ × ℕ) → Option (ℕ × ℕ)
one_more none = none
one_more (some (value, n)) = some (value, suc n)

abbrev pub one_skipped : Option ℕ → Option ℕ
one_skipped none = none
one_skipped (some n) = some (suc n)

-- The loop of `readVarBigInt`, and of `readVarint` below 2 ^ 53: the value, and how many bytes it
-- took. The seven bits of a byte do not meet the bits below them, so `|` is a sum.
pub varint_loop : ℕ → ℕ → List ℕ → Option (ℕ × ℕ)
varint_loop result shift [] = none
varint_loop result shift (byte ∷ bytes) =
    let next = result + byte % 128 * 2 ^ shift in
    let later = varint_loop next (shift + 7) bytes in
    if ltb byte 128 then some (next, 1) else one_more later

-- The loop of `skipField` over a varint: how many bytes it took.
pub skip_loop : List ℕ → Option ℕ
skip_loop [] = none
skip_loop (byte ∷ bytes) =
    let later = skip_loop bytes in if ltb byte 128 then some 1 else one_skipped later

abbrev pub taken : Reader → Option (ℕ × ℕ) → Option (ℕ × Reader)
taken r none = none
taken r (some (value, n)) = some (value, advance n r)

-- `readVarint`, and `readVarBigInt`
pub read_varint : Reader → Option (ℕ × Reader)
read_varint r = taken r (varint_loop 0 0 (ahead r))

abbrev pub low_tag : Option (ℕ × Reader) → Option ((ℕ × ℕ) × Reader)
low_tag none = none
low_tag (some (tag, r)) = some ((tag % 2 ^ 32 / 8, tag % 8), r)

-- `readTag`: `tag >>> 3` is of the low 32 bits.
pub read_tag : Reader → Option ((ℕ × ℕ) × Reader)
read_tag r = low_tag (read_varint r)

-- The check of `readBytes`, and the slice.
abbrev pub slice : Option (ℕ × Reader) → Option (List ℕ × Reader)
slice none = none
slice (some (n, r)) =
    if ltb (length r.bytes) (r.offset + n) then none else some (take n (ahead r), advance n r)

-- `readBytes`
pub read_bytes : Reader → Option (List ℕ × Reader)
read_bytes r = slice (read_varint r)

abbrev pub skipped : Reader → Option ℕ → Option Reader
skipped r none = none
skipped r (some n) = some (advance n r)

abbrev pub skip_slice : Option (ℕ × Reader) → Option Reader
skip_slice none = none
skip_slice (some (n, r)) = if ltb (length r.bytes) (r.offset + n) then none else some (advance n r)

-- `skipField`
pub skip_field : Reader → ℕ → Option Reader
skip_field r wire_type =
    if wire_type == 0
    then skipped r (skip_loop (ahead r))
    else if wire_type == 1
    then some (advance 8 r)
    else if wire_type == 2
    then skip_slice (read_varint r)
    else if wire_type == 5
    then some (advance 4 r)
    else none
