-- ===== src/Mpt/Lists.antt =====
-- The round trips of strings and of lists of strings.
use obscura_network.Prelude.{
  ℕ, zero, suc, ◌+◌, ◌-◌, ◌^◌, ◌≤◌, ◌<◌, ◌≡◌, refl, sym, ap, ◌∙◌, inl, inr, true, false, ◌&&◌, List,
  [], ◌∷◌, ◌++◌, Bytes, map, length, length-append, get_or, nat_eq, leb, ltb, arith, Bool-cases, ok,
}
use obscura_network.Mpt.Rlp.{
  short_string, long_string, rlp_decode_item, items_loop, list_payload, rlp_decode_list,
}
use obscura_network.Mpt.Encode.{rlp_header, rlp_encode_bytes, concat, rlp_encode_list}
use obscura_network.Mpt.RoundTrip.{
  drop-length, trimmed, length-trimmed, decode-trimmed, short_string-append, long_string-append,
}

pub append_assoc : (a b c : Bytes) → (a ++ b) ++ c ≡ a ++ (b ++ c)
append_assoc [] b c = refl
append_assoc (x ∷ a) b c = ap (λ l. x ∷ l) (append_assoc a b c)

-- A string of at most 55 bytes, and a longer one.
short_item :
    (bytes rest : Bytes)
    → length bytes ≤ 55
    → rlp_decode_item ((0x80 + length bytes) ∷ (bytes ++ rest)) ≡ ok (bytes, 1 + length bytes)
unfolding rlp_decode_item
short_item bytes rest h =
    let first = 0x80 + length bytes in
    let r0 : leb first 0x7f ≡ false = ground arith in
    let r1 : leb first 0xb7 ≡ true = ground (arith, h) in
    let e : first - 0x80 ≡ length bytes = omega arith in
    rw (r0, r1, e) (short_string-append first bytes rest)

long_item :
    (bytes rest : Bytes)
    → length bytes + 9 < 2 ^ 64
    → rlp_decode_item (
        (0x80 + 55 + length (trimmed (length bytes))) ∷ (trimmed (length bytes) ++ (bytes ++ rest)))
      ≡ ok (bytes, 1 + length (trimmed (length bytes)) + length bytes)
unfolding rlp_decode_item
long_item bytes rest h =
    let len = trimmed (length bytes) in
    let (some, few) = length-trimmed (length bytes) in
    let first = 0x80 + 55 + length len in
    let r0 : leb first 0x7f ≡ false = ground arith in
    let r1 : leb first 0xb7 ≡ false = ground (arith, some) in
    let r2 : leb first 0xbf ≡ true = ground (arith, few) in
    let e : first - 0xb7 ≡ length len = omega arith in
    rw (r0, r1, r2, e)
      (long_string-append first len bytes rest (decode-trimmed (length bytes) (omega arith))
        (omega (arith, few)))

single_item :
    (bytes rest : Bytes)
    → (nat_eq (length bytes) 1 && leb (get_or bytes 0 0) 0x7f) ≡ true
    → rlp_decode_item (bytes ++ rest) ≡ ok (bytes, length bytes)
unfolding rlp_decode_item
single_item [] rest h = ground (arith, h)
single_item (b ∷ []) rest h = let small : leb b 0x7f ≡ true = ground (arith, h) in rw small refl
single_item (b ∷ c ∷ l) rest h = ground (arith, h)

-- The decoder of an item reads an encoded string back, whatever follows it, and takes all of its
-- encoding, for a string whose encoding has a length that is a machine word.
pub rlp_decode_item-encode :
    (bytes rest : Bytes)
    → length bytes + 9 < 2 ^ 64
    → rlp_decode_item (rlp_encode_bytes bytes ++ rest) ≡ ok (bytes, length (rlp_encode_bytes bytes))
unfolding rlp_encode_bytes rlp_header
rlp_decode_item-encode bytes rest h =
    elim (Bool-cases (nat_eq (length bytes) 1 && leb (get_or bytes 0 0) 0x7f)) [
      | inl single ↦ rw single (single_item bytes rest single)
      | inr other ↦ elim (Bool-cases (leb (length bytes) 55)) [
        | inl short ↦
            rw (other, short)
              (short_item bytes rest (ground (arith, short))
                ∙ ap (λ n. ok (bytes, n)) (omega arith))
        | inr long ↦
            let len = trimmed (length bytes) in
            rw (other, long)
              (ap (λ l. rlp_decode_item ((0x80 + 55 + length len) ∷ l))
                  (append_assoc len bytes rest)
                ∙ (long_item bytes rest h
                    ∙ ap (λ n. ok (bytes, n)) (omega (arith, length-append len bytes))))
      ]
    ]

-- An encoding has at least one byte, and as many as the string.
length-encode :
    (bytes : Bytes)
    → (1 ≤ length (rlp_encode_bytes bytes)) × (length bytes ≤ length (rlp_encode_bytes bytes))
unfolding rlp_encode_bytes rlp_header
length-encode bytes = elim (Bool-cases (nat_eq (length bytes) 1 && leb (get_or bytes 0 0) 0x7f)) [
  | inl single ↦ rw single (ground (arith, single))
  | inr other ↦ elim (Bool-cases (leb (length bytes) 55)) [
    | inl short ↦ rw (other, short) (omega arith, omega arith)
    | inr long ↦
        rw (other, long) (omega arith, omega (arith, length-append (trimmed (length bytes)) bytes))
  ]
]

-- One round of the loop.
items_loop-append :
    (fuel : ℕ) (enc rest item : Bytes) (items : List Bytes)
    → 1 ≤ length enc
    → rlp_decode_item (enc ++ rest) ≡ ok (item, length enc)
    → items_loop fuel rest ≡ ok items
    → items_loop (suc fuel) (enc ++ rest) ≡ ok (item ∷ items)
unfolding items_loop
items_loop-append fuel [] rest item items some e h = absurd (omega arith)
items_loop-append fuel (b ∷ enc) rest item items some e h =
    rw (e, drop-length (b ∷ enc) rest, h) refl

items_loop-concat :
    (fuel : ℕ) (items : List Bytes)
    → length (concat (map rlp_encode_bytes items)) ≤ fuel
    → fuel + 9 < 2 ^ 64
    → items_loop fuel (concat (map rlp_encode_bytes items)) ≡ ok items
unfolding items_loop concat
items_loop-concat fuel [] h k = refl
items_loop-concat zero (item ∷ items) h k = absurd (
    omega (
      arith,
      length-encode item,
      length-append (rlp_encode_bytes item) (concat (map rlp_encode_bytes items)),
    ))
items_loop-concat (suc fuel) (item ∷ items) h k =
    let rest = concat (map rlp_encode_bytes items) in
    let (some, fits) = length-encode item in
    let sum = length-append (rlp_encode_bytes item) rest in
    items_loop-append fuel (rlp_encode_bytes item) rest item items some
      (rlp_decode_item-encode item rest (omega (arith, fits, sum)))
      (items_loop-concat fuel items (omega (arith, some, sum)) (omega arith))

pub append_nil : (l : Bytes) → l ++ [] ≡ l
append_nil [] = refl
append_nil (x ∷ l) = ap (λ m. x ∷ m) (append_nil l)

short_list :
    (payload : Bytes)
    → length payload ≤ 55
    → list_payload ((0xc0 + length payload) ∷ payload) ≡ ok payload
unfolding list_payload
short_list payload h =
    let first = 0xc0 + length payload in
    let r0 : ltb first 0xc0 ≡ false = ground arith in
    let r1 : leb first 0xf7 ≡ true = ground (arith, h) in
    let e : first - 0xc0 ≡ length payload = omega arith in
    let read : short_string (length payload) (first ∷ payload) ≡ ok (payload, 1 + length payload) =
      ap (λ l. short_string (length payload) (first ∷ l)) (sym (append_nil payload))
      ∙ short_string-append first payload [] in
    rw (r0, r1, e, read) refl

long_list :
    (payload : Bytes)
    → length payload + 9 < 2 ^ 64
    → list_payload
        ((0xc0 + 55 + length (trimmed (length payload))) ∷ (trimmed (length payload) ++ payload))
      ≡ ok payload
unfolding list_payload
long_list payload h =
    let len = trimmed (length payload) in
    let (some, few) = length-trimmed (length payload) in
    let first = 0xc0 + 55 + length len in
    let r0 : ltb first 0xc0 ≡ false = ground arith in
    let r1 : leb first 0xf7 ≡ false = ground (arith, some) in
    let e : first - 0xf7 ≡ length len = omega arith in
    let read : long_string (length len) (first ∷ (len ++ payload))
        ≡ ok (payload, 1 + length len + length payload) =
      ap (λ l. long_string (length len) (first ∷ (len ++ l))) (sym (append_nil payload))
      ∙ long_string-append first len payload [] (decode-trimmed (length payload) (omega arith))
          (omega (arith, few)) in
    rw (r0, r1, e, read) refl

list_payload-header :
    (payload : Bytes)
    → length payload + 9 < 2 ^ 64
    → list_payload (rlp_header 0xc0 (length payload) ++ payload) ≡ ok payload
unfolding list_payload rlp_header
list_payload-header payload h = elim (Bool-cases (leb (length payload) 55)) [
  | inl short ↦ rw (short, rlp_header) (short_list payload (ground (arith, short)))
  | inr long ↦ rw (long, rlp_header) (long_list payload h)
]

-- The decoder of a list reads back what the encoder wrote for a list of strings, if the length of
-- the whole is a machine word.
pub rlp_decode_list-encode :
    (items : List Bytes)
    → length (concat (map rlp_encode_bytes items)) + 9 < 2 ^ 64
    → rlp_decode_list (rlp_encode_list (map rlp_encode_bytes items)) ≡ ok items
unfolding rlp_decode_list rlp_encode_list
rlp_decode_list-encode items h =
    let payload = concat (map rlp_encode_bytes items) in
    rw (list_payload-header payload h) (items_loop-concat (length payload) items (omega arith) h)
