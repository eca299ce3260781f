-- ===== src/Circuits/Compliance.antt =====
-- crates/provers/sp1/guest-privacy/src/bin/compliance.rs.
use obscura_network.Prelude.{
  ℕ, ◌+◌, ◌%◌, ◌^◌, ◌<◌, ◌≡◌, ◌↔◌, sym, ap, ◌∙◌, List, [], ◌∷◌, length, ltb, leb, u64_mod, arith,
  Bool-cases, inl, inr, Result, Result-cases, ok, err, ◌>>=◌, if◌then◌else◌, lt→ltb,
}
use obscura_network.Circuits.Types.{
  ComplianceWitness, CompliancePublicOutputs, Panic, volume_overflow,
}

-- The fold of `checked_add`.
unfoldable pub volume_loop : ℕ → List ℕ → Result Panic ℕ
volume_loop acc [] = ok acc
volume_loop acc (a ∷ amounts) =
    let rest = volume_loop (acc + a) amounts in
    if ltb (acc + a) u64_mod then rest else err volume_overflow

unfoldable pub compliance_circuit : ComplianceWitness → Result Panic CompliancePublicOutputs
unfolding volume_loop
compliance_circuit witness = do
  total_volume ← volume_loop 0 witness.amounts
  ok (record {
    total_volume = total_volume;
    regulatory_limit = witness.regulatory_limit;
    within_limit = leb total_volume witness.regulatory_limit;
    tx_count = length witness.amounts % 2 ^ 32;
  })

-- The sum, without bound.
unfoldable pub volume : List ℕ → ℕ
volume [] = 0
volume (a ∷ amounts) = a + volume amounts

volume_loop-ok :
    (acc : ℕ) (amounts : List ℕ)
    → acc + volume amounts < u64_mod
    → volume_loop acc amounts ≡ ok (acc + volume amounts)
unfolding volume_loop volume
volume_loop-ok acc [] h = ap ok (omega arith)
volume_loop-ok acc (a ∷ amounts) h =
    rw (lt→ltb (acc + a) u64_mod (omega arith))
      (volume_loop-ok (acc + a) amounts (omega arith) ∙ ap ok (omega arith))

volume_loop-bound :
    (acc : ℕ) (amounts : List ℕ) (s : ℕ)
    → acc < u64_mod
    → volume_loop acc amounts ≡ ok s
    → acc + volume amounts < u64_mod
unfolding volume_loop volume
volume_loop-bound acc [] s b h = omega arith
volume_loop-bound acc (a ∷ amounts) s b h = elim (Bool-cases (ltb (acc + a) u64_mod)) [
  | inl fits ↦
      let c = volume_loop-bound (acc + a) amounts s (ground arith) (rw fits at h) in
      omega (arith, c)
  | inr over ↦ absurd (ground arith)
]

volume_loop-fits :
    (amounts : List ℕ) → volume amounts < u64_mod → volume_loop 0 amounts ≡ ok (volume amounts)
volume_loop-fits amounts h = volume_loop-ok 0 amounts (omega arith) ∙ ap ok (omega arith)

-- The compliance program accepts a witness exactly when the sum of the amounts is below 2^64. The
-- public values are then the sum, the limit of the witness, whether the sum is within it, and the
-- number of amounts modulo 2^32; a sum beyond the limit is accepted too.
pub compliance_circuit_iff :
    (witness : ComplianceWitness) (out : CompliancePublicOutputs)
    → (compliance_circuit witness ≡ ok out) ↔ (
        (volume witness.amounts < u64_mod)
        × (out ≡ record {
          total_volume = volume witness.amounts;
          regulatory_limit = witness.regulatory_limit;
          within_limit = leb (volume witness.amounts) witness.regulatory_limit;
          tx_count = length witness.amounts % 2 ^ 32;
        }))
unfolding compliance_circuit
compliance_circuit_iff witness out = (accepted, accepts)
  where
    values : CompliancePublicOutputs
    values = record {
      total_volume = volume witness.amounts;
      regulatory_limit = witness.regulatory_limit;
      within_limit = leb (volume witness.amounts) witness.regulatory_limit;
      tx_count = length witness.amounts % 2 ^ 32;
    }

    accepts :
        (volume witness.amounts < u64_mod) × (out ≡ values) → compliance_circuit witness ≡ ok out
    accepts (below, e) = let sum = volume_loop-fits witness.amounts below in rw sum (ap ok (sym e))

    fits : compliance_circuit witness ≡ ok out → volume witness.amounts < u64_mod
    fits h = elim (Result-cases (volume_loop 0 witness.amounts)) [
      | inl (s, e) ↦ omega (arith, volume_loop-bound 0 witness.amounts s (omega arith) e)
      | inr (x, e) ↦ absurd (ground arith)
    ]

    accepted :
        compliance_circuit witness ≡ ok out → (volume witness.amounts < u64_mod) × (out ≡ values)
    accepted h =
        let sum = volume_loop-fits witness.amounts (fits h) in (fits h, ground (arith, sum))
