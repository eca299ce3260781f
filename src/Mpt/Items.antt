-- ===== src/Mpt/Items.antt =====
-- The lengths of the items of a list, beside that of the node that it stands in.
use obscura_network.Prelude.{
  ℕ, zero, suc, ◌+◌, ◌-◌, ◌≤◌, ◌<◌, ◌≡◌, inl, inr, refl, ap, List, [], ◌∷◌, Bytes, length, take,
  drop, get_or, leb, ltb, arith, Bool-cases, Result, ok, err, Result-cases, ◌>>=◌, wrapping_add,
}
use obscura_network.Mpt.Rlp.{
  slice, be_loop, long_end, list_end, short_string, long_string, list_item, rlp_decode_item,
  items_loop, list_payload, rlp_decode_list,
}

length-take : (n : ℕ) (l : Bytes) → length (take n l) ≤ n
length-take zero l = omega arith
length-take (suc n) [] = omega arith
length-take (suc n) (x ∷ l) = omega (arith, length-take n l)

pub length-drop : (n : ℕ) (l : Bytes) → length (drop n l) ≡ length l - n
length-drop zero l = omega arith
length-drop (suc n) [] = omega arith
length-drop (suc n) (x ∷ l) = omega (arith, length-drop n l)

length-slice : (from to : ℕ) (l item : Bytes) → slice from to l ≡ ok item → length item ≤ to - from
length-slice from to l item h = ground (arith, h, length-take (to - from) (drop from l))

short_string-bound :
    (len : ℕ) (l item : Bytes) (n : ℕ)
    → short_string len l ≡ ok (item, n)
    → (length item < length l) × (n ≤ length l)
unfolding short_string
short_string-bound len l item n h = ground (arith, h, length-take len (drop 1 l))

long_string-bound :
    (k : ℕ) (l item : Bytes) (n : ℕ)
    → long_string k l ≡ ok (item, n)
    → (length item < length l) × (n ≤ length l)
unfolding long_string long_end
long_string-bound k l item n h =
    let end = wrapping_add (1 + k) (be_loop 0 (take k (drop 1 l))) in
    ground (arith, h, length-take (end - (1 + k)) (drop (1 + k) l))

list_item-bound :
    (first : ℕ) (l item : Bytes) (n : ℕ)
    → list_item first l ≡ ok (item, n)
    → (length item ≤ length l) × (n ≤ length l)
unfolding list_item list_end long_end
list_item-bound first l item n h = elim (Result-cases (list_end first l)) [
  | inl (m, e) ↦ let h' = rw (e, list_item) at h in ground (arith, h', length-take m l)
  | inr (x, e) ↦ let h' = rw (e, list_item) at h in ground (arith, h')
]

pub rlp_decode_item-bound :
    (l item : Bytes) (n : ℕ)
    → rlp_decode_item l ≡ ok (item, n)
    → (length item ≤ length l) × (n ≤ length l)
unfolding rlp_decode_item
rlp_decode_item-bound [] item n h = ground (arith, h)
rlp_decode_item-bound (b ∷ l) item n h = elim (Bool-cases (leb b 0x7f)) [
  | inl single ↦ ground (arith, h, single)
  | inr r0 ↦ elim (Bool-cases (leb b 0xb7)) [
    | inl short ↦
        let h' : short_string (b - 0x80) (b ∷ l) ≡ ok (item, n) = rw (r0, short) at h in
        let (p, q) = short_string-bound (b - 0x80) (b ∷ l) item n h' in (omega arith, q)
    | inr r1 ↦ elim (Bool-cases (leb b 0xbf)) [
      | inl long ↦
          let h' : long_string (b - 0xb7) (b ∷ l) ≡ ok (item, n) = rw (r0, r1, long) at h in
          let (p, q) = long_string-bound (b - 0xb7) (b ∷ l) item n h' in (omega arith, q)
      | inr r2 ↦ list_item-bound b (b ∷ l) item n (rw (r0, r1, r2) at h)
    ]
  ]
]

pub bind_ok {ℓ κ μ} :
    {E : Type κ} {A : Type ℓ} {B : Type μ} (r : Result E A) (f : A → Result E B) (b : B)
    → r >>= f ≡ ok b
    → (a : A) × (r ≡ ok a) × (f a ≡ ok b)
bind_ok (ok a) f b h = (a, refl, h)
bind_ok (err e) f b h = absurd (ground (arith, h))

-- What a run of the loop that succeeds has read first.
pub items_loop_inv :
    (fuel b : ℕ) (l : Bytes) (items : List Bytes)
    → items_loop (suc fuel) (b ∷ l) ≡ ok items
    → (item : Bytes) × (n : ℕ) × (rest : List Bytes) × (rlp_decode_item (b ∷ l) ≡ ok (item, n))
      × (items_loop fuel (drop n (b ∷ l)) ≡ ok rest)
      × (items ≡ item ∷ rest)
unfolding items_loop
items_loop_inv fuel b l items h =
    let ((item, n), e, h') = bind_ok (rlp_decode_item (b ∷ l)) _ items h in
    let (rest, e', same) = bind_ok (items_loop fuel (drop n (b ∷ l))) _ items h' in
    (item, n, rest, e, e', ground (arith, same))

-- No item is longer than what the loop reads.
items_loop-bound :
    (fuel : ℕ) (l : Bytes) (items : List Bytes) (i : ℕ)
    → items_loop fuel l ≡ ok items
    → length (get_or items i []) ≤ length l
unfolding items_loop
items_loop-bound fuel [] items i h = ground (arith, h)
items_loop-bound zero (b ∷ l) items i h = ground (arith, h)
items_loop-bound (suc fuel) (b ∷ l) items zero h =
    let (item, n, rest, e, e', same) = items_loop_inv fuel b l items h in
    ground (arith, same, rlp_decode_item-bound (b ∷ l) item n e)
items_loop-bound (suc fuel) (b ∷ l) items (suc j) h =
    let (item, n, rest, e, e', same) = items_loop_inv fuel b l items h in
    let here : get_or items (suc j) [] ≡ get_or rest j [] = ap (λ m. get_or m (suc j) []) same in
    omega (
      arith,
      ap length here,
      length-drop n (b ∷ l),
      items_loop-bound fuel (drop n (b ∷ l)) rest j e',
    )

list_payload-bound :
    (node payload : Bytes) → list_payload node ≡ ok payload → length payload < length node
unfolding list_payload
list_payload-bound [] payload h = absurd (ground (arith, h))
list_payload-bound (b ∷ l) payload h = elim (Bool-cases (ltb b 0xc0)) [
  | inl low ↦ absurd (ground (arith, h, low))
  | inr r0 ↦ elim (Bool-cases (leb b 0xf7)) [
    | inl short ↦
        let ((p, n), e, same) =
          bind_ok (short_string (b - 0xc0) (b ∷ l)) _ payload (rw (r0, short) at h) in
        ground (arith, same, short_string-bound (b - 0xc0) (b ∷ l) p n e)
    | inr r1 ↦
        let ((p, n), e, same) =
          bind_ok (long_string (b - 0xf7) (b ∷ l)) _ payload (rw (r0, r1) at h) in
        ground (arith, same, long_string-bound (b - 0xf7) (b ∷ l) p n e)
  ]
]

-- Every item of a list is shorter than the list's encoding.
pub rlp_decode_list-bound :
    (node : Bytes) (items : List Bytes) (i : ℕ)
    → rlp_decode_list node ≡ ok items
    → length (get_or items i []) < length node
unfolding rlp_decode_list
rlp_decode_list-bound node items i h =
    let (payload, e, h') = bind_ok (list_payload node) _ items h in
    omega (
      arith,
      list_payload-bound node payload e,
      items_loop-bound (length payload) payload items i h',
    )
