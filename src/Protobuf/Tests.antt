-- ===== src/Protobuf/Tests.antt =====
-- The theorems on src/protobuf.js at concrete bytes: 300 is encoded in two.
use collectivus.Prelude.{◌≡◌, refl, arith, some, [], ◌∷◌, length}
use collectivus.Protobuf.{Reader, advance, read_varint}
use collectivus.Protobuf.Varint.{encode, read_varint-encode}

abbrev reader : Reader
reader = record { bytes = 8 ∷ 172 ∷ 2 ∷ 7 ∷ []; offset = 1 }

read_varint-encode_example : read_varint reader ≡ some (300, advance (length (encode 300)) reader)
unfolding encode
read_varint-encode_example = read_varint-encode reader 300 (7 ∷ []) (omega arith) refl
