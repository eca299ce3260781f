-- ===== src/Text.antt =====
-- What crates/zk-bridge takes of the standard library's `str`: prefixes, `parse` and
-- `from_str_radix`. A text is its bytes.
use obscura_network.Prelude.{
  ℕ, ◌+◌, ◌-◌, ◌*◌, ◌^◌, ◌<◌, ◌≡◌, inl, inr, arith, Option-cases, Bool-cases, ◌&&◌, Option, none,
  some, [], ◌∷◌, Bytes, nat_eq, leb, ltb, if◌then◌else◌,
}

-- `trim_start_matches` for a pattern of two bytes: as often as it is there.
unfoldable pub trim_start_matches : ℕ → ℕ → Bytes → Bytes
trim_start_matches a b [] = []
trim_start_matches a b (x ∷ []) = x ∷ []
trim_start_matches a b (x ∷ y ∷ l) =
    if nat_eq x a && nat_eq y b then trim_start_matches a b l else x ∷ y ∷ l

-- `char::to_digit`, for a radix of at most 36.
unfoldable pub to_digit : ℕ → ℕ → Option ℕ
to_digit radix c =
    let value =
      if leb b'0' c && leb c b'9'
      then c - b'0'
      else (if leb b'a' c && leb c b'z'
          then c - b'a' + 10
          else (if leb b'A' c && leb c b'Z' then c - b'A' + 10 else 36)) in
    if ltb value radix then some value else none

abbrev and_then : Option ℕ → (ℕ → Option ℕ) → Option ℕ
and_then none f = none
and_then (some n) f = f n

-- The digits after those with value `n`: a digit that is none, or a value that is not below the
-- bound, ends in an error.
unfoldable pub read_radix : ℕ → ℕ → ℕ → Bytes → Option ℕ
read_radix radix bound n [] = some n
read_radix radix bound n (c ∷ l) = and_then (to_digit radix c) λ d.
    let value = n * radix + d in
    let rest = read_radix radix bound value l in if ltb value bound then rest else none

-- `from_str_radix` of an unsigned type: one sign `+` may stand before the digits, of which there
-- is at least one.
unfoldable pub from_str_radix : ℕ → ℕ → Bytes → Option ℕ
from_str_radix radix bound [] = none
from_str_radix radix bound (c ∷ []) = read_radix radix bound 0 (c ∷ [])
from_str_radix radix bound (c ∷ d ∷ l) =
    if nat_eq c b'+' then read_radix radix bound 0 (d ∷ l) else read_radix radix bound 0 (c ∷ d ∷ l)

-- `parse::<u64>()` and `parse::<u128>()`
unfoldable pub parse_u64 : Bytes → Option ℕ
parse_u64 s = from_str_radix 10 (2 ^ 64) s

unfoldable pub parse_u128 : Bytes → Option ℕ
parse_u128 s = from_str_radix 10 (2 ^ 128) s

read_radix-lt :
    (radix bound n : ℕ) (l : Bytes) (v : ℕ)
    → n < bound
    → read_radix radix bound n l ≡ some v
    → v < bound
unfolding read_radix
read_radix-lt radix bound n [] v h e = ground arith
read_radix-lt radix bound n (c ∷ l) v h e = elim (Option-cases (to_digit radix c)) [
  | inl q ↦ absurd (cc (rw q at e))
  | inr (d, q) ↦ ground (arith, q, read_radix-lt radix bound (n * radix + d) l v)
]

-- What is read is below the bound.
from_str_radix-lt :
    (radix bound : ℕ) (s : Bytes) (v : ℕ)
    → 0 < bound
    → from_str_radix radix bound s ≡ some v
    → v < bound
unfolding from_str_radix
from_str_radix-lt radix bound [] v h e = absurd (cc)
from_str_radix-lt radix bound (c ∷ []) v h e = read_radix-lt radix bound 0 (c ∷ []) v h e
from_str_radix-lt radix bound (c ∷ d ∷ l) v h e = elim (Bool-cases (nat_eq c b'+')) [
  | inl q ↦ read_radix-lt radix bound 0 (d ∷ l) v h (rw q at e)
  | inr q ↦ read_radix-lt radix bound 0 (c ∷ d ∷ l) v h (rw q at e)
]

pub parse_u64-lt : (s : Bytes) (v : ℕ) → parse_u64 s ≡ some v → v < 2 ^ 64
unfolding parse_u64
parse_u64-lt s v e = from_str_radix-lt 10 (2 ^ 64) s v (omega arith) e
