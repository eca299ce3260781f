-- ===== src/Sanctions/Power.antt =====
-- `next_power_of_two` and `trailing_zeros` of the machine's integers.
use native.Mathlib.Nat.{pow-suc}
use obscura_network.Prelude.{
  ℕ, zero, suc, ◌+◌, ◌*◌, ◌/◌, ◌%◌, ◌^◌, ◌≤◌, ◌≡◌, refl, sym, ap, ◌∙◌, subst, true, nat_eq, leb,
  arith, Bool-cases, if◌then◌else◌, inl, inr,
}

-- The first of `p`, `2 p`, `4 p`, .. that is at least `n`.
power_loop : ℕ → ℕ → ℕ → ℕ
power_loop zero n p = p
power_loop (suc fuel) n p = let rest = power_loop fuel n (p * 2) in if leb n p then p else rest

unfoldable pub next_power_of_two : ℕ → ℕ
unfolding power_loop
next_power_of_two n = power_loop 63 n 1

zeros_loop : ℕ → ℕ → ℕ
zeros_loop zero n = 0
zeros_loop (suc fuel) n =
    let rest = zeros_loop fuel (n / 2) in if nat_eq (n % 2) 0 then suc rest else 0

unfoldable pub trailing_zeros : ℕ → ℕ
unfolding zeros_loop
trailing_zeros n = zeros_loop 64 n

power_loop_lem :
    (fuel n k : ℕ)
    → n ≤ 2 ^ (k + fuel)
    → (d : ℕ) × (d ≤ k + fuel) × (n ≤ 2 ^ d) × (power_loop fuel n (2 ^ k) ≡ 2 ^ d)
unfolding power_loop
power_loop_lem zero n k h =
    (k, omega arith, subst (λ i. n ≤ 2 ^ i) {x = k + 0} {y = k} (omega arith) h, refl)
power_loop_lem (suc fuel) n k h = elim (Bool-cases (leb n (2 ^ k))) [
  | inl enough ↦ (k, omega arith, ground arith, rw enough refl)
  | inr small ↦
      let (d, le, up, e) =
        power_loop_lem fuel n (suc k)
          (subst (λ i. n ≤ 2 ^ i) {x = k + suc fuel} {y = suc k + fuel} (omega arith) h) in
      (d, omega arith, up, rw small (ap (power_loop fuel n) (sym (pow-suc 2 k)) ∙ e))
]

-- With fuel for the bits of a word, the result is a power of two that is at least the argument.
pub next_power_of_two_lem :
    (n : ℕ) → n ≤ 2 ^ 63 → (d : ℕ) × (d ≤ 63) × (n ≤ 2 ^ d) × (next_power_of_two n ≡ 2 ^ d)
unfolding next_power_of_two
next_power_of_two_lem n h = power_loop_lem 63 n 0 h

zeros_loop-power : (fuel d : ℕ) → d ≤ fuel → zeros_loop fuel (2 ^ d) ≡ d
unfolding zeros_loop
zeros_loop-power zero d h = omega arith
zeros_loop-power (suc fuel) zero h = refl
zeros_loop-power (suc fuel) (suc d) h =
    let even : nat_eq (2 ^ suc d % 2) 0 ≡ true = ground (arith, pow-suc 2 d) in
    let half : 2 ^ suc d / 2 ≡ 2 ^ d = omega (arith, pow-suc 2 d) in
    rw even (ap suc (ap (zeros_loop fuel) half ∙ zeros_loop-power fuel d (omega arith)))

pub trailing_zeros-power : (d : ℕ) → d ≤ 64 → trailing_zeros (2 ^ d) ≡ d
unfolding trailing_zeros
trailing_zeros-power d h = zeros_loop-power 64 d h
