-- ===== src/Sanctions/Extract.antt =====
-- The rounds of the loop over the text of the SDN list, and the number of addresses that it
-- finds.
use native.Mathlib.Nat.{zero-add, suc-add}
use obscura_network.Prelude.{
  ℕ, zero, suc, ◌+◌, ◌-◌, ◌*◌, ◌≤◌, ◌≡◌, refl, inl, inr, true, Option, none, some, List, [], ◌∷◌,
  Bytes, length, take, drop, min, Result, ok, arith, Ensures, returns, Ensures-bind, Ensures-guard,
  Ensures-use, Option-cases, Bool-cases,
}
use obscura_network.Bridge.Verifier.{starts_with}
use obscura_network.Sanctions.Feed.{
  feature_tag, find, address_in, FeedError, cut_character, push_some, extract_round, extract_loop,
  extract_eth_addresses_from_xml, parse_eth_address, parse_eth_addresses,
}

starts_with-length : (l p : Bytes) → starts_with l p ≡ true → length p ≤ length l
unfolding starts_with
starts_with-length l [] h = omega arith
starts_with-length [] (x ∷ p) h = cc
starts_with-length (a ∷ l) (x ∷ p) h = ground (arith, starts_with-length l p)

-- What is found stands within the text.
find-length : (l p : Bytes) (i : ℕ) → find l p ≡ some i → i + length p ≤ length l
unfolding find
find-length [] p i h = ground (arith, starts_with-length [] p)
find-length (a ∷ l) p i h = elim (Bool-cases (starts_with (a ∷ l) p)) [
  | inl q ↦ ground (arith, q, starts_with-length (a ∷ l) p)
  | inr q ↦ elim (Option-cases (find l p)) [
    | inl r ↦ absurd (cc (rw (q, r) at h))
    | inr (j, r) ↦ ground (arith, q, r, find-length l p j r)
  ]
]

pub length-drop : (n : ℕ) (l : Bytes) → length (drop n l) ≡ length l - n
length-drop zero l = omega arith
length-drop (suc n) [] = omega arith
length-drop (suc n) (x ∷ l) = omega (arith, length-drop n l)

-- A round takes the tag away, which has 19 bytes.
round_shorter :
    (text : Bytes) (pos : ℕ)
    → find text feature_tag ≡ some pos
    → length (drop (pos + 19) text) + 19 ≤ length text
round_shorter text pos h =
    omega (arith, find-length text feature_tag pos h, length-drop (pos + 19) text)

-- As much fuel as the text has bytes is enough: with more the loop returns the same.
pub extract_loop-enough :
    (fuel more : ℕ) (text : Bytes)
    → length text ≤ fuel
    → extract_loop (fuel + more) text ≡ extract_loop fuel text
unfolding extract_loop extract_round find starts_with
extract_loop-enough zero zero text h = refl
extract_loop-enough zero (suc more) [] h = simp zero-add refl
extract_loop-enough zero (suc more) (x ∷ text) h = absurd (omega arith)
extract_loop-enough (suc fuel) more text h = elim (Option-cases (find text feature_tag)) [
  | inl q ↦ simp suc-add (rw q refl)
  | inr (pos, q) ↦ simp suc-add (
      rw
        (
          q,
          extract_loop-enough fuel more (drop (pos + 19) text)
              (omega (arith, round_shorter text pos q)),
        )
        refl)
]

length-push_some : (a : Option Bytes) (l : List Bytes) → length (push_some a l) ≤ suc (length l)
length-push_some none l = omega arith
length-push_some (some a) l = omega arith

extract_round-Ensures :
    (next : Bytes → Result FeedError (List Bytes)) (place : Option ℕ) (text : Bytes)
    → find text feature_tag ≡ place
    → ((after : Bytes) → Ensures (λ l. length l * 19 ≤ length after) (next after))
    → Ensures (λ l. length l * 19 ≤ length text) (extract_round next place text)
unfolding extract_round
extract_round-Ensures next none text q h = returns [] (omega arith)
extract_round-Ensures next (some pos) text q h =
    let after = drop (pos + 19) text in
    let found = address_in (take (min (length after) 500) after) in
    Ensures-guard _ cut_character _ λ _. Ensures-bind (next after) _ λ l e.
      returns (push_some found l) (
        omega
          (arith, Ensures-use l (h after) e, round_shorter text pos q, length-push_some found l))

extract_loop-Ensures :
    (fuel : ℕ) (text : Bytes) → Ensures (λ l. length l * 19 ≤ length text) (extract_loop fuel text)
unfolding extract_loop
extract_loop-Ensures zero text = returns [] (omega arith)
extract_loop-Ensures (suc fuel) text =
    extract_round-Ensures (extract_loop fuel) (find text feature_tag) text refl
      (extract_loop-Ensures fuel)

length-parse_eth_addresses :
    (decode_to_slice : Bytes → Option Bytes) (raw : List Bytes)
    → length (parse_eth_addresses decode_to_slice raw) ≤ length raw
unfolding parse_eth_addresses
length-parse_eth_addresses decode_to_slice [] = omega arith
length-parse_eth_addresses decode_to_slice (s ∷ raw) = omega (
  arith,
  length-parse_eth_addresses decode_to_slice raw,
  length-push_some (parse_eth_address decode_to_slice s) (parse_eth_addresses decode_to_slice raw),
)

-- A text of the SDN list gives one address for each 19 of its bytes at most.
pub addresses_bound :
    (decode_to_slice : Bytes → Option Bytes) (xml : Bytes) (raw : List Bytes)
    → extract_eth_addresses_from_xml xml ≡ ok raw
    → length (parse_eth_addresses decode_to_slice raw) * 19 ≤ length xml
unfolding extract_eth_addresses_from_xml
addresses_bound decode_to_slice xml raw e = omega (
  arith,
  Ensures-use raw (extract_loop-Ensures (length xml) xml) e,
  length-parse_eth_addresses decode_to_slice raw,
)
