-- ===== src/Protobuf/Skip.antt =====
-- `skipField` of src/protobuf.js against the readers of the same fields.
use collectivus.Prelude.{
  ℕ, ◌+◌, ◌*◌, ◌%◌, ◌^◌, ◌≡◌, refl, ap, ◌∙◌, Option, none, some, List, [], ◌∷◌, ltb, length,
  Bool-cases, inl, inr,
}
use collectivus.Protobuf.{
  Reader, ahead, one_more, one_skipped, varint_loop, skip_loop, taken, read_varint, slice,
  read_bytes, skipped, skip_slice, skip_field,
}

-- The reader behind what was read.
abbrev pub after {ℓ} : {A : Type ℓ} → Option (A × Reader) → Option Reader
after none = none
after (some (a, r)) = some r

abbrev count_of : Option (ℕ × ℕ) → Option ℕ
count_of none = none
count_of (some (value, n)) = some n

count_of-one_more : (o : Option (ℕ × ℕ)) → one_skipped (count_of o) ≡ count_of (one_more o)
count_of-one_more none = refl
count_of-one_more (some (value, n)) = refl

skip_loop-count :
    (result shift : ℕ) (bytes : List ℕ)
    → skip_loop bytes ≡ count_of (varint_loop result shift bytes)
unfolding skip_loop varint_loop
skip_loop-count result shift [] = refl
skip_loop-count result shift (byte ∷ bytes) = elim (Bool-cases (ltb byte 128)) [
  | inl e ↦ rw e refl
  | inr e ↦ rw e (
      ap one_skipped (skip_loop-count (result + byte % 128 * 2 ^ shift) (shift + 7) bytes)
      ∙ count_of-one_more (varint_loop (result + byte % 128 * 2 ^ shift) (shift + 7) bytes))
]

skipped-taken : (r : Reader) (o : Option (ℕ × ℕ)) → skipped r (count_of o) ≡ after (taken r o)
skipped-taken r none = refl
skipped-taken r (some (value, n)) = refl

skip_slice-after : (o : Option (ℕ × Reader)) → skip_slice o ≡ after (slice o)
skip_slice-after none = refl
skip_slice-after (some (n, r)) = elim (Bool-cases (ltb (length r.bytes) (r.offset + n))) [
  | inl e ↦ rw e refl
  | inr e ↦ rw e refl
]

-- A varint field and a length-delimited one that are skipped leave the reader where reading them
-- does, and fail where reading them fails.
pub skip_field-after :
    (r : Reader)
    → (skip_field r 0 ≡ after (read_varint r)) × (skip_field r 2 ≡ after (read_bytes r))
unfolding skip_field read_varint read_bytes
skip_field-after r = (
  ap (skipped r) (skip_loop-count 0 0 (ahead r)) ∙ skipped-taken r (varint_loop 0 0 (ahead r)),
  skip_slice-after (read_varint r),
)
