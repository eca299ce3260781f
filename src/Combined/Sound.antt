-- ===== src/Combined/Sound.antt =====
-- The combined proof, and the runs of the two programs behind it.
use obscura_network.Prelude.{
  ℕ, ◌+◌, ◌^◌, ◌≤◌, ◌<◌, ◌≡◌, ◌⊎◌, sym, ap, ◌∙◌, inl, inr, true, false, Option, some, List, Bytes,
  bytes_eq, bytes_eq_sound, bytes_eq_ne, length, some_cancel, arith, Bool-cases, ok,
}
use obscura_network.Merkle.Inclusion.{Collision, All32}
use obscura_network.Merkle.Binding.{unless_collides}
use obscura_network.Circuits.Types.{TransferWitness, TransferPublicOutputs}
use obscura_network.Circuits.Transfer.{transfer_circuit}
use obscura_network.Circuits.Balance.{total, transfer_circuit_balanced}
use obscura_network.Sanctions.Order.{IsArray}
use obscura_network.Sanctions.Sort.{contains}
use obscura_network.Sanctions.Oracle.{SanctionsMerkleTree, build, root}
use obscura_network.Sanctions.Circuit.{
  SanctionsWitness, SanctionsPublicOutputs, sanctions_circuit, sanctions_circuit-assertions,
  recipient_commitment, clean_outputs,
}
use obscura_network.Sanctions.Sound.{sanctions_circuit_sound}
use obscura_network.Combined.{CombinedPublicOutputs, CombinedInput, Sp1, combined_circuit}

-- The widths of the fields of a witness of the sanctions program.
pub record IsWitness (w : SanctionsWitness) : Type 0 where
  pub left_proof : All32 w.left_proof
  pub right_proof : All32 w.right_proof
  pub left_index : w.left_index < 2 ^ 64

-- What the verifier is documented to ensure for the keys of the two programs: a proof that it
-- accepts for a digest was made by a run of the program, and the digest is that of what the run made
-- public, which decodes to its outputs.
pub record IsSp1 (sha256 : Bytes → Bytes) (sp1 : Sp1) (transfer_vk sanctions_vk : List ℕ)
    : Type 0 where
  pub transfer :
      (digest : Bytes)
      → sp1.verify_sp1_proof transfer_vk digest ≡ true
      → (w : TransferWitness) × (out : TransferPublicOutputs) × (pv : Bytes) × (transfer_circuit
            sha256 w
          ≡ ok out)
        × (sp1.decode_transfer pv ≡ some out)
        × (sha256 pv ≡ digest)
  pub sanctions :
      (digest : Bytes)
      → sp1.verify_sp1_proof sanctions_vk digest ≡ true
      → (w : SanctionsWitness) × (out : SanctionsPublicOutputs) × (pv : Bytes) × IsWitness w
        × (sanctions_circuit sha256 w ≡ ok out)
        × (sp1.decode_sanctions pv ≡ some out)
        × (sha256 pv ≡ digest)

-- The two parts of what is made public.
abbrev pub transfer_part : CombinedPublicOutputs → TransferPublicOutputs
transfer_part out = record {
  nullifiers = out.nullifiers;
  output_commitments = out.output_commitments;
  transfer_amount = out.transfer_amount;
  asset_id = out.asset_id;
  merkle_root = out.merkle_root;
}

abbrev pub sanctions_part : CombinedPublicOutputs → SanctionsPublicOutputs
sanctions_part out = record {
  recipient_commitment = out.recipient_commitment;
  sanctions_root = out.sanctions_root;
  is_clean = true;
  proof_timestamp = out.proof_timestamp;
}

-- What an accepted input was checked for.
combined_circuit-ok :
    (sha256 : Bytes → Bytes) (sp1 : Sp1) (input : CombinedInput) (out : CombinedPublicOutputs)
    → combined_circuit sha256 sp1 input ≡ ok out
    → (sp1.verify_sp1_proof out.transfer_vk_hash (sha256 input.transfer_pv_bytes) ≡ true)
      × (sp1.verify_sp1_proof out.sanctions_vk_hash (sha256 input.sanctions_pv_bytes) ≡ true)
      × (sp1.decode_transfer input.transfer_pv_bytes ≡ some (transfer_part out))
      × (sp1.decode_sanctions input.sanctions_pv_bytes ≡ some (sanctions_part out))
unfolding combined_circuit
combined_circuit-ok sha256 sp1 input out h = ground arith

-- Two encodings of one digest decode to one value, or the hash has a collision.
decodes_alike {ℓ} :
    {A : Type ℓ} (sha256 : Bytes → Bytes) (decode : Bytes → Option A) (x y : Bytes) (a b : A)
    → decode x ≡ some a
    → decode y ≡ some b
    → sha256 x ≡ sha256 y
    → (a ≡ b) ⊎ Collision sha256
decodes_alike sha256 decode x y a b p q e = elim (Bool-cases (bytes_eq x y)) [
  | inl same ↦ inl (some_cancel (sym p ∙ (ap decode (bytes_eq_sound x y same) ∙ q)))
  | inr differ ↦ inr (x, y, bytes_eq_ne x y differ, e)
]

-- For a verifier that ensures what it is documented to ensure, a hash of 32 bytes and a tree that
-- the oracle built: if the combined program accepts, for the keys of the two programs and the root
-- of the tree, the public values of the transfer are those of a run of the transfer program, whose
-- outputs have the total of its inputs, which is the amount made public, and the recipient that is committed to was checked by a run of the sanctions program and is not among
-- the addresses of the tree, or the hash has a collision.
pub combined_circuit_sound :
    (sha256 : Bytes → Bytes) (hash_array : (x : Bytes) → IsArray 32 (sha256 x)) (sp1 : Sp1)
    (transfer_vk sanctions_vk : List ℕ)
    → IsSp1 sha256 sp1 transfer_vk sanctions_vk
    → (addresses : List Bytes) (tree : SanctionsMerkleTree) (input : CombinedInput)
      (out : CombinedPublicOutputs)
    → length addresses + 2 ≤ 2 ^ 63
    → build sha256 addresses ≡ ok tree
    → out.transfer_vk_hash ≡ transfer_vk
    → out.sanctions_vk_hash ≡ sanctions_vk
    → root tree ≡ ok out.sanctions_root
    → combined_circuit sha256 sp1 input ≡ ok out
    → (((w : TransferWitness) × (transfer_circuit sha256 w ≡ ok (transfer_part out))
          × (total w.outputs ≡ total w.inputs)
          × (out.transfer_amount ≡ total w.inputs))
        × ((recipient : Bytes) × (recipient_commitment sha256 recipient ≡ out.recipient_commitment)
            × (contains recipient addresses ≡ false)))
      ⊎ Collision sha256
combined_circuit_sound sha256 hash_array sp1 transfer_vk sanctions_vk is_sp1 addresses tree input
      out bound built k k' at_root h =
    let (v, v', d, d') = combined_circuit-ok sha256 sp1 input out h in
    let (w, t, pv, ran, decoded, digest) =
      is_sp1.transfer (sha256 input.transfer_pv_bytes)
        (ap (λ vk. sp1.verify_sp1_proof vk (sha256 input.transfer_pv_bytes)) (sym k) ∙ v) in
    let (s, u, pv', widths, ran', decoded', digest') =
      is_sp1.sanctions (sha256 input.sanctions_pv_bytes)
        (ap (λ vk. sp1.verify_sp1_proof vk (sha256 input.sanctions_pv_bytes)) (sym k') ∙ v') in
    unless_collides
      (decodes_alike sha256 sp1.decode_transfer pv input.transfer_pv_bytes t (transfer_part out)
        decoded d digest)
      λ same.
        unless_collides
          (decodes_alike sha256 sp1.decode_sanctions pv' input.sanctions_pv_bytes u
            (sanctions_part out) decoded' d' digest')
          λ same'.
            let (_, _, _, _, _, made) = (sanctions_circuit-assertions sha256 s u).0 ran' in
            let (balanced, amount, _, _, _, _) =
              transfer_circuit_balanced sha256 w (transfer_part out) (ran ∙ ap ok same) in
            let outputs : sanctions_part out ≡ clean_outputs sha256 s = sym same' ∙ made in
            unless_collides
              (sanctions_circuit_sound sha256 hash_array addresses tree s u bound built
                widths.left_proof widths.right_proof widths.left_index
                (at_root ∙ ap (λ o. ok (o.sanctions_root)) outputs) ran')
              λ (_, clean). inl (
                (w, ran ∙ ap ok same, balanced, amount),
                (s.recipient, ap (λ o. o.recipient_commitment) (sym outputs), clean),
              )

-- The halves of two accepted inputs make an accepted input: the program does not ask that the
-- recipient who was checked has anything to do with the transfer.
pub combined_circuit_mix :
    (sha256 : Bytes → Bytes) (sp1 : Sp1) (i j : CombinedInput) (out out' : CombinedPublicOutputs)
    → combined_circuit sha256 sp1 i ≡ ok out
    → combined_circuit sha256 sp1 j ≡ ok out'
    → combined_circuit sha256 sp1 (record i {
      sanctions_pv_bytes = j.sanctions_pv_bytes;
      sanctions_vk_hash = j.sanctions_vk_hash;
    })
      ≡ ok (record out {
        recipient_commitment = out'.recipient_commitment;
        sanctions_root = out'.sanctions_root;
        proof_timestamp = out'.proof_timestamp;
        sanctions_vk_hash = out'.sanctions_vk_hash;
      })
unfolding combined_circuit
combined_circuit_mix sha256 sp1 i j out out' h h' = ground arith
