-- ===== src/Mpt/Ends.antt =====
-- When the loop over the items of a list ends.
use obscura_network.Prelude.{
  ℕ, zero, suc, ◌+◌, ◌-◌, ◌≤◌, ◌≡◌, ◌≢◌, ◌⊎◌, refl, sym, ap, ◌∙◌, inl, inr, true, [], ◌∷◌, ◌++◌,
  Bytes, length, drop, leb, arith, Bool-cases, ok, err, Result-cases,
}
use obscura_network.Mpt.Rlp.{
  malformed, slice_panic, out_of_fuel, be_loop, long_end, list_end, short_string, long_string,
  list_item, rlp_decode_item, items_loop,
}
use obscura_network.Mpt.Items.{length-drop}

long_end_fuel : (k : ℕ) (l : Bytes) → long_end k l ≢ err out_of_fuel
unfolding long_end
long_end_fuel k l h = ground (arith, h)

long_string_fuel : (k : ℕ) (l : Bytes) → long_string k l ≢ err out_of_fuel
unfolding long_string
long_string_fuel k l h = elim (Result-cases (long_end k l)) [
  | inl (m, e) ↦ let h' = rw (e, long_string) at h in ground (arith, h')
  | inr (x, e) ↦ long_end_fuel k l (e ∙ ground (arith, rw (e, long_string) at h))
]

short_string_fuel : (k : ℕ) (l : Bytes) → short_string k l ≢ err out_of_fuel
unfolding short_string
short_string_fuel k l h = ground (arith, h)

list_end_fuel : (b : ℕ) (l : Bytes) → list_end b l ≢ err out_of_fuel
unfolding list_end
list_end_fuel b l h = elim (Bool-cases (leb b 0xf7)) [
  | inl short ↦ ground (arith, h, short)
  | inr long ↦ long_end_fuel (b - 0xf7) l (rw (long, list_end) at h)
]

list_item_fuel : (b : ℕ) (l : Bytes) → list_item b l ≢ err out_of_fuel
unfolding list_item
list_item_fuel b l h = elim (Result-cases (list_end b l)) [
  | inl (m, e) ↦ let h' = rw (e, list_item) at h in ground (arith, h')
  | inr (x, e) ↦ list_end_fuel b l (e ∙ ground (arith, rw (e, list_item) at h))
]

rlp_decode_item_fuel : (l : Bytes) → rlp_decode_item l ≢ err out_of_fuel
unfolding rlp_decode_item
rlp_decode_item_fuel [] h = ground (arith, h)
rlp_decode_item_fuel (b ∷ l) h = elim (Bool-cases (leb b 0x7f)) [
  | inl single ↦ ground (arith, h, single)
  | inr r0 ↦ elim (Bool-cases (leb b 0xb7)) [
    | inl short ↦ short_string_fuel (b - 0x80) (b ∷ l) (rw (r0, short) at h)
    | inr r1 ↦ elim (Bool-cases (leb b 0xbf)) [
      | inl long ↦ long_string_fuel (b - 0xb7) (b ∷ l) (rw (r0, r1, long) at h)
      | inr r2 ↦ list_item_fuel b (b ∷ l) (rw (r0, r1, r2) at h)
    ]
  ]
]

-- A payload of which an item, at some place that the loop comes to, takes no byte.
abbrev pub StuckAt : Bytes → ℕ → Type 0
StuckAt payload k = (item : Bytes) × (rlp_decode_item (drop k payload) ≡ ok (item, 0))

stays :
    (b : ℕ) (l item : Bytes)
    → rlp_decode_item (b ∷ l) ≡ ok (item, 0)
    → (fuel : ℕ) → items_loop fuel (b ∷ l) ≡ err out_of_fuel
unfolding items_loop
stays b l item e zero = refl
stays b l item e (suc fuel) = rw (e, stays b l item e fuel) refl

goes_on :
    (b n : ℕ) (l item : Bytes)
    → rlp_decode_item (b ∷ l) ≡ ok (item, n)
    → ((fuel : ℕ) → items_loop fuel (drop n (b ∷ l)) ≡ err out_of_fuel)
    → (fuel : ℕ) → items_loop fuel (b ∷ l) ≡ err out_of_fuel
unfolding items_loop
goes_on b n l item e rec zero = refl
goes_on b n l item e rec (suc fuel) = rw (e, rec fuel) refl

drop_nil : (n : ℕ) → drop {A = ℕ} n [] ≡ []
drop_nil zero = refl
drop_nil (suc n) = refl

drop-drop : (n k : ℕ) (l : Bytes) → drop k (drop n l) ≡ drop (n + k) l
drop-drop zero k l = ap (λ m. drop m l) {x = k} {y = 0 + k} (omega arith)
drop-drop (suc n) k [] = drop_nil k ∙ sym (drop_nil (suc n + k))
drop-drop (suc n) k (x ∷ l) =
    drop-drop n k l ∙ ap (λ m. drop m (x ∷ l)) {x = suc (n + k)} {y = suc n + k} (omega arith)

rest_fuel :
    (fuel b n : ℕ) (l item : Bytes)
    → rlp_decode_item (b ∷ l) ≡ ok (item, n)
    → items_loop (suc fuel) (b ∷ l) ≡ err out_of_fuel
    → items_loop fuel (drop n (b ∷ l)) ≡ err out_of_fuel
unfolding items_loop
rest_fuel fuel b n l item d e = elim (Result-cases (items_loop fuel (drop n (b ∷ l)))) [
  | inl (items, r) ↦ absurd (ground (arith, rw (d, r, items_loop) at e))
  | inr (x, r) ↦ r ∙ ground (arith, rw (d, r, items_loop) at e)
]

-- An item that the loop comes to takes no byte, and it is read again and again.
abbrev pub NeverEnds : Bytes → Type 0
NeverEnds payload =
    ((k : ℕ) × StuckAt payload k) × ((fuel : ℕ) → items_loop fuel payload ≡ err out_of_fuel)

one_round :
    (b n : ℕ) (l item : Bytes)
    → rlp_decode_item (b ∷ l) ≡ ok (item, n)
    → ((m : ℕ) → rlp_decode_item (b ∷ l) ≡ ok (item, suc m) → NeverEnds (drop (suc m) (b ∷ l)))
    → NeverEnds (b ∷ l)
one_round b zero l item d rec = ((0, (item, d)), stays b l item d)
one_round b (suc n) l item d rec =
    let ((k, (item', d')), all) = rec n d in
    (
      (suc n + k, (item', ap rlp_decode_item (sym (drop-drop (suc n) k (b ∷ l))) ∙ d')),
      goes_on b (suc n) l item d all,
    )

-- As many rounds as the payload has bytes are enough, or no number of them is.
pub items_loop_ends :
    (fuel : ℕ) (payload : Bytes)
    → length payload ≤ fuel
    → items_loop fuel payload ≡ err out_of_fuel
    → NeverEnds payload
unfolding items_loop
items_loop_ends fuel [] h e = absurd (ground (arith, e))
items_loop_ends zero (b ∷ l) h e = absurd (omega arith)
items_loop_ends (suc fuel) (b ∷ l) h e = elim (Result-cases (rlp_decode_item (b ∷ l))) [
  | inr (x, d) ↦ absurd (rlp_decode_item_fuel (b ∷ l) (d ∙ ground (arith, rw (d, items_loop) at e)))
  | inl ((item, n), d) ↦ one_round b n l item d (λ m d'.
      items_loop_ends fuel (drop (suc m) (b ∷ l)) (omega (arith, length-drop (suc m) (b ∷ l)))
        (rest_fuel fuel b (suc m) l item d' e))
]

-- Nine bytes of which the decoder takes none: a list whose length, by the eight after 0xff, is
-- 2^64 - 9, so that the sum of the lengths wraps to zero.
abbrev pub stuck_item : Bytes
stuck_item = 0xff ∷ 0xff ∷ 0xff ∷ 0xff ∷ 0xff ∷ 0xff ∷ 0xff ∷ 0xff ∷ 0xf7 ∷ []

stuck_item_lem : (rest : Bytes) → rlp_decode_item (stuck_item ++ rest) ≡ ok ([], 0)
unfolding rlp_decode_item list_item list_end long_end be_loop
stuck_item_lem rest =
    let fits : leb (1 + (0xff - 0xf7)) (length (stuck_item ++ rest)) ≡ true = ground arith in
    let none : leb 0 (length (stuck_item ++ rest)) ≡ true = ground arith in rw (fits, none) refl

stuck_item-NeverEnds : (rest : Bytes) → NeverEnds (stuck_item ++ rest)
stuck_item-NeverEnds rest = ((0, ([], stuck_item_lem rest)), stays _ _ [] (stuck_item_lem rest))

-- The loop over the items of a payload, which is given as many rounds as the payload has bytes, sees
-- its end within them, or some item that it comes to takes no byte and no number of rounds is enough.
pub rlp_rounds_enough :
    (payload : Bytes) → (items_loop (length payload) payload ≢ err out_of_fuel) ⊎ NeverEnds payload
rlp_rounds_enough payload = elim (Result-cases (items_loop (length payload) payload)) [
  | inl (items, e) ↦ inl (λ h. ground (arith, e, h))
  | inr (malformed, e) ↦ inl (λ h. ground (arith, e, h))
  | inr (slice_panic, e) ↦ inl (λ h. ground (arith, e, h))
  | inr (out_of_fuel, e) ↦ inr (items_loop_ends (length payload) payload (omega arith) e)
]
