-- ===== src/Mpt/Encode.antt =====
-- The encoder of bin/eth_deposit.rs.
use obscura_network.Prelude.{
  ℕ, zero, suc, ◌+◌, ◌/◌, ◌%◌, true, false, ◌&&◌, List, [], ◌∷◌, ◌++◌, Bytes, length, get_or,
  nat_eq, leb, if◌then◌else◌,
}

-- The bytes of a number, the highest first, before those in `acc`.
unfoldable pub be_bytes : ℕ → ℕ → Bytes → Bytes
be_bytes zero x acc = acc
be_bytes (suc n) x acc = be_bytes n (x / 256) ((x % 256) ∷ acc)

unfoldable pub to_be_bytes : ℕ → ℕ → Bytes
to_be_bytes n x = be_bytes n x []

-- The bytes from the first that is not zero on; of zeros only, the last one.
unfoldable pub skip_zeros : Bytes → Bytes
skip_zeros [] = []
skip_zeros (b ∷ []) = b ∷ []
skip_zeros (b ∷ c ∷ l) = elim (nat_eq b 0) [ true ↦ skip_zeros (c ∷ l) | false ↦ b ∷ c ∷ l ]

-- The first byte and the length, for a string (`short` is 0x80) and for a list (0xc0).
unfoldable pub rlp_header : ℕ → ℕ → Bytes
rlp_header short len =
    if leb len 55
    then (short + len) ∷ []
    else let len_trimmed = skip_zeros (to_be_bytes 8 len) in
      (short + 55 + length len_trimmed) ∷ len_trimmed

unfoldable pub rlp_encode_bytes : Bytes → Bytes
rlp_encode_bytes bytes =
    if nat_eq (length bytes) 1 && leb (get_or bytes 0 0) 0x7f
    then bytes
    else rlp_header 0x80 (length bytes) ++ bytes

unfoldable pub rlp_encode_uint : ℕ → Bytes
rlp_encode_uint val =
    if nat_eq val 0 then 0x80 ∷ [] else rlp_encode_bytes (skip_zeros (to_be_bytes 16 val))

-- `items.iter().flat_map(..)`
unfoldable pub concat : List Bytes → Bytes
concat [] = []
concat (item ∷ items) = item ++ concat items

unfoldable pub rlp_encode_list : List Bytes → Bytes
rlp_encode_list items = let payload = concat items in rlp_header 0xc0 (length payload) ++ payload
