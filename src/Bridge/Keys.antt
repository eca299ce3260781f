-- ===== src/Bridge/Keys.antt =====
-- crates/zk-bridge/src/module.rs: the keys of its maps, and the parsing of the contract's address.
-- Texts are their bytes; white space is the ASCII white space.
use native.Mathlib.Nat.{pow-suc}
use obscura_network.Prelude.{
  ℕ, zero, suc, ◌+◌, ◌-◌, ◌*◌, ◌/◌, ◌%◌, ◌^◌, ◌<◌, ◌≡◌, sym, ap, ◌∙◌, inl, inr, Bool, ◌&&◌, ◌||◌,
  none, some, [], ◌∷◌, ◌++◌, Bytes, length, nat_eq, leb, Bool-cases, arith, Result, ok, err,
  if◌then◌else◌,
}
use mathlib.Core.List.{reverse}
use obscura_network.Bridge.Types.{Env, Error, invalid_address_length, invalid_address_hex}

-- The digits of a number below 10^fuel, before those in `acc`.
digits_loop : ℕ → ℕ → Bytes → Bytes
digits_loop zero n acc = acc
digits_loop (suc fuel) n acc =
    let digit = b'0' + n % 10 in
    let rest = digits_loop fuel (n / 10) (digit ∷ acc) in
    if nat_eq (n / 10) 0 then digit ∷ acc else rest

-- A u64 as `{}` prints it: it has at most 20 digits.
unfoldable pub decimal : ℕ → Bytes
unfolding digits_loop
decimal n = digits_loop 20 n []

unfoldable pub make_deposit_key_str : Env → Bytes → ℕ → Bytes
make_deposit_key_str env contract deposit_id =
    b'0' ∷ b'x' ∷ (env.hex_encode contract ++ b'_' ∷ decimal deposit_id)

-- `format!("wd_{}", msg.deposit_id)`
unfoldable pub withdrawal_key : ℕ → Bytes
withdrawal_key deposit_id = b'w' ∷ b'd' ∷ b'_' ∷ decimal deposit_id

-- `format!("0x{}", hex::encode(block_hash))`
unfoldable pub block_key : Env → Bytes → Bytes
block_key env block_hash = b'0' ∷ b'x' ∷ env.hex_encode block_hash

is_whitespace : ℕ → Bool
is_whitespace c = nat_eq c 32 || (leb 9 c && leb c 13)

trim_start : Bytes → Bytes
unfolding is_whitespace
trim_start [] = []
trim_start (c ∷ l) = if is_whitespace c then trim_start l else c ∷ l

unfoldable pub trim : Bytes → Bytes
unfolding trim_start
trim l = reverse (trim_start (reverse (trim_start l)))

-- `strip_prefix("0x").unwrap_or(..)`
unfoldable pub strip_0x : Bytes → Bytes
strip_0x [] = []
strip_0x (a ∷ []) = a ∷ []
strip_0x (a ∷ b ∷ l) = if nat_eq a b'0' && nat_eq b b'x' then l else a ∷ b ∷ l

unfoldable pub parse_contract_address : Env → Bytes → Result Error Bytes
unfolding trim strip_0x
parse_contract_address env addr =
    let s = strip_0x (trim addr) in
    if nat_eq (length s) 40
    then (elim (env.hex_decode s) [ none ↦ err invalid_address_hex | some bytes ↦ ok bytes ])
    else err invalid_address_length

-- Reading digits back.
read_digits : ℕ → Bytes → ℕ
read_digits v [] = v
read_digits v (d ∷ l) = read_digits (v * 10 + (d - b'0')) l

read-digits_loop :
    (fuel n : ℕ) (acc : Bytes)
    → n < 10 ^ fuel
    → read_digits 0 (digits_loop fuel n acc) ≡ read_digits n acc
unfolding read_digits digits_loop
read-digits_loop zero n acc h = ap (λ v. read_digits v acc) (omega arith)
read-digits_loop (suc fuel) n acc h = elim (Bool-cases (nat_eq (n / 10) 0)) [
  | inl last ↦ rw last (ap (λ v. read_digits v acc) (ground arith))
  | inr more ↦ rw more (
      read-digits_loop fuel (n / 10) _ (omega (arith, pow-suc 10 fuel))
      ∙ ap (λ v. read_digits v acc) (omega arith))
]

pub decimal-injective : (a b : ℕ) → a < 2 ^ 64 → b < 2 ^ 64 → decimal a ≡ decimal b → a ≡ b
unfolding decimal read_digits
decimal-injective a b p q h =
    sym (read-digits_loop 20 a [] (omega arith))
    ∙ (ap (read_digits 0) h ∙ read-digits_loop 20 b [] (omega arith))
