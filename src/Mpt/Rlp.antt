-- ===== src/Mpt/Rlp.antt =====
-- The decoder of mpt.rs. A vector is what is left of it; sums of lengths wrap at 64 bits, as in a
-- release build for the 64-bit machine of the prover.
use obscura_network.Prelude.{
  ℕ, zero, suc, ◌+◌, ◌-◌, ◌*◌, ◌%◌, ◌&&◌, List, [], ◌∷◌, Bytes, length, take, drop, leb, ltb,
  if◌then◌else◌, u64_mod, wrapping_add, Result, ok, err, ◌>>=◌, ◌>>◌, guard,
}

-- `None`, a range whose start is after its end, and a loop that the fuel did not see to its end.
pub data RlpError : Type 0 where
  malformed slice_panic out_of_fuel : RlpError

-- `result = (result << 8) | b as usize` for each byte: the shift leaves the low byte zero.
unfoldable pub be_loop : ℕ → Bytes → ℕ
be_loop result [] = result
be_loop result (b ∷ bytes) = be_loop (result * 256 % u64_mod + b) bytes

abbrev pub decode_be_usize : Bytes → ℕ
decode_be_usize bytes = be_loop 0 bytes

-- `&data[from..to]`
abbrev pub slice : ℕ → ℕ → Bytes → Result RlpError Bytes
slice from to bytes =
    if leb from to && leb to (length bytes)
    then ok (take (to - from) (drop from bytes))
    else err slice_panic

-- The number that `len_of_len` bytes after the first give, and where what it counts ends. `data` has
-- the first byte, of which only the length of the length is left here.
unfoldable pub long_end : ℕ → Bytes → Result RlpError ℕ
long_end len_of_len bytes = do
  guard (leb (1 + len_of_len) (length bytes)) malformed
  ok (wrapping_add (1 + len_of_len) (decode_be_usize (take len_of_len (drop 1 bytes))))

-- Where a list item ends.
unfoldable pub list_end : ℕ → Bytes → Result RlpError ℕ
list_end first bytes =
    if leb first 0xf7 then ok (1 + (first - 0xc0)) else long_end (first - 0xf7) bytes

unfoldable pub short_string : ℕ → Bytes → Result RlpError (Bytes × ℕ)
short_string len bytes = do
  guard (leb (1 + len) (length bytes)) malformed
  ok (take len (drop 1 bytes), 1 + len)

unfoldable pub long_string : ℕ → Bytes → Result RlpError (Bytes × ℕ)
long_string len_of_len bytes = do
  end ← long_end len_of_len bytes
  guard (leb end (length bytes)) malformed
  item ← slice (1 + len_of_len) end bytes
  ok (item, end)

unfoldable pub list_item : ℕ → Bytes → Result RlpError (Bytes × ℕ)
list_item first bytes = do
  list_len ← list_end first bytes
  guard (leb list_len (length bytes)) malformed
  ok (take list_len bytes, list_len)

unfoldable pub rlp_decode_item : Bytes → Result RlpError (Bytes × ℕ)
rlp_decode_item [] = err malformed
rlp_decode_item (first ∷ rest) =
    if leb first 0x7f
    then ok (first ∷ [], 1)
    else if leb first 0xb7
    then short_string (first - 0x80) (first ∷ rest)
    else if leb first 0xbf
    then long_string (first - 0xb7) (first ∷ rest)
    else list_item first (first ∷ rest)

-- `while pos < payload.len()`, on what is left of the payload from `pos` on
unfoldable pub items_loop : ℕ → Bytes → Result RlpError (List Bytes)
items_loop fuel [] = ok []
items_loop zero (b ∷ payload) = err out_of_fuel
items_loop (suc fuel) (b ∷ payload) = do
  (item, consumed) ← rlp_decode_item (b ∷ payload)
  items ← items_loop fuel (drop consumed (b ∷ payload))
  ok (item ∷ items)

-- The payload of a list.
unfoldable pub list_payload : Bytes → Result RlpError Bytes
list_payload [] = err malformed
list_payload (first ∷ rest) =
    if ltb first 0xc0
    then err malformed
    else if leb first 0xf7
    then short_string (first - 0xc0) (first ∷ rest) >>= (λ (payload, _). ok payload)
    else long_string (first - 0xf7) (first ∷ rest) >>= (λ (payload, _). ok payload)

unfoldable pub rlp_decode_list : Bytes → Result RlpError (List Bytes)
rlp_decode_list bytes = list_payload bytes >>= λ payload. items_loop (length payload) payload
