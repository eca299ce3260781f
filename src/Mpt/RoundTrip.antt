-- ===== src/Mpt/RoundTrip.antt =====
-- The decoder of mpt.rs, on what the encoder of bin/eth_deposit.rs writes.
use native.Mathlib.Nat.{pow-suc}
use obscura_network.Prelude.{
  ℕ, zero, suc, ◌+◌, ◌-◌, ◌*◌, ◌/◌, ◌%◌, ◌^◌, ◌≤◌, ◌<◌, ◌≡◌, refl, ap, ◌∙◌, inl, inr, true, ◌&&◌,
  [], ◌∷◌, ◌++◌, Bytes, length, length-append, take, drop, nat_eq, leb, arith, Bool-cases, u64_mod,
  ok,
}
use obscura_network.Mpt.Rlp.{slice, be_loop, long_end, short_string, long_string}
use obscura_network.Mpt.Encode.{be_bytes, to_be_bytes, skip_zeros}

pub take-length : (l m : Bytes) → take (length l) (l ++ m) ≡ l
take-length [] m = refl
take-length (x ∷ l) m = ap (λ k. x ∷ k) (take-length l m)

pub drop-length : (l m : Bytes) → drop (length l) (l ++ m) ≡ m
drop-length [] m = refl
drop-length (x ∷ l) m = drop-length l m

pub be_loop-be_bytes :
    (n x : ℕ) (acc : Bytes)
    → x < 256 ^ n
    → x < 2 ^ 64
    → be_loop 0 (be_bytes n x acc) ≡ be_loop x acc
unfolding be_loop be_bytes
be_loop-be_bytes zero x acc h k = ap (λ y. be_loop y acc) {x = 0} {y = x} (omega arith)
be_loop-be_bytes (suc n) x acc h k =
    be_loop-be_bytes n (x / 256) ((x % 256) ∷ acc) (omega (arith, pow-suc 256 n)) (omega arith)
    ∙ ap (λ y. be_loop y acc) (omega arith)

be_loop-skip_zeros : (l : Bytes) → be_loop 0 (skip_zeros l) ≡ be_loop 0 l
unfolding be_loop skip_zeros
be_loop-skip_zeros [] = refl
be_loop-skip_zeros (b ∷ []) = refl
be_loop-skip_zeros (b ∷ c ∷ l) = elim (Bool-cases (nat_eq b 0)) [
  | inl none ↦
      rw (none, skip_zeros)
        (be_loop-skip_zeros (c ∷ l)
          ∙ ap (λ k. be_loop k (c ∷ l)) {x = 0} {y = 0 * 256 % u64_mod + b} (ground (arith, none)))
  | inr some ↦ rw (some, skip_zeros) refl
]

length-be_bytes : (n x : ℕ) (acc : Bytes) → length (be_bytes n x acc) ≡ n + length acc
unfolding be_bytes
length-be_bytes zero x acc = omega arith
length-be_bytes (suc n) x acc = omega (arith, length-be_bytes n (x / 256) ((x % 256) ∷ acc))

pub length-to_be_bytes : (n x : ℕ) → length (to_be_bytes n x) ≡ n
unfolding to_be_bytes
length-to_be_bytes n x = omega (arith, length-be_bytes n x [])

length-skip_zeros :
    (b : ℕ) (l : Bytes)
    → (1 ≤ length (skip_zeros (b ∷ l))) × (length (skip_zeros (b ∷ l)) ≤ suc (length l))
unfolding skip_zeros
length-skip_zeros b [] = (omega arith, omega arith)
length-skip_zeros b (c ∷ l) = elim (Bool-cases (nat_eq b 0)) [
  | inl none ↦ let (p, q) = length-skip_zeros c l in rw (none, skip_zeros) (p, omega (arith, q))
  | inr some ↦ rw (some, skip_zeros) (omega arith, omega arith)
]

-- The bytes of a length, without zeros before them, count from one to eight and give it back.
abbrev pub trimmed : ℕ → Bytes
trimmed len = skip_zeros (to_be_bytes 8 len)

pub length-trimmed : (len : ℕ) → (1 ≤ length (trimmed len)) × (length (trimmed len) ≤ 8)
unfolding to_be_bytes be_bytes
length-trimmed len = length-skip_zeros _ _

pub decode-trimmed : (len : ℕ) → len < 2 ^ 64 → be_loop 0 (trimmed len) ≡ len
unfolding to_be_bytes be_loop
decode-trimmed len h = be_loop-skip_zeros (be_bytes 8 len []) ∙ be_loop-be_bytes 8 len [] h h

pub short_string-append :
    (first : ℕ) (payload rest : Bytes)
    → short_string (length payload) (first ∷ (payload ++ rest)) ≡ ok (payload, 1 + length payload)
unfolding short_string
short_string-append first payload rest =
    let fits : leb (1 + length payload) (suc (length (payload ++ rest))) ≡ true =
      ground (arith, length-append payload rest) in
    rw (fits, take-length payload rest) refl

long_end-append :
    (first : ℕ) (len payload rest : Bytes)
    → be_loop 0 len ≡ length payload
    → 1 + length len + length payload < 2 ^ 64
    → long_end (length len) (first ∷ (len ++ (payload ++ rest)))
      ≡ ok (1 + length len + length payload)
unfolding long_end
long_end-append first len payload rest e small =
    let fits : leb (1 + length len) (suc (length (len ++ (payload ++ rest)))) ≡ true =
      ground (arith, length-append len (payload ++ rest)) in
    rw (fits, take-length len (payload ++ rest), e) (ap ok (omega arith))

slice-append :
    (first : ℕ) (len payload rest : Bytes)
    → slice (1 + length len) (1 + length len + length payload) (first ∷ (len ++ (payload ++ rest)))
      ≡ ok payload
slice-append first len payload rest =
    let fits : (leb (1 + length len) (1 + length len + length payload)
          && leb (1 + length len + length payload) (suc (length (len ++ (payload ++ rest)))))
        ≡ true =
      ground (arith, length-append len (payload ++ rest), length-append payload rest) in
    rw fits (
      ap ok (
        ap (λ n. take n (drop (1 + length len) (first ∷ (len ++ (payload ++ rest)))))
          {x = 1 + length len + length payload - (1 + length len)} {y = length payload}
          (omega arith)
        ∙ ap (λ k. take (length payload) (drop k (first ∷ (len ++ (payload ++ rest)))))
            {x = 1 + length len} {y = suc (length len)} (omega arith)
        ∙ (ap (take (length payload)) (drop-length len (payload ++ rest))
            ∙ take-length payload rest)))

pub long_string-append :
    (first : ℕ) (len payload rest : Bytes)
    → be_loop 0 len ≡ length payload
    → 1 + length len + length payload < 2 ^ 64
    → long_string (length len) (first ∷ (len ++ (payload ++ rest)))
      ≡ ok (payload, 1 + length len + length payload)
unfolding long_string
long_string-append first len payload rest e small =
    let fits : leb (1 + length len + length payload) (suc (length (len ++ (payload ++ rest))))
        ≡ true =
      ground (arith, length-append len (payload ++ rest), length-append payload rest) in
    rw (long_end-append first len payload rest e small, slice-append first len payload rest, fits)
      refl
