-- ===== src/Helios/Binding.antt =====
-- A state root of the beacon chain, and the steps that the program accepts.
use obscura_network.Prelude.{
  ℕ, ◌^◌, ◌<◌, ◌≡◌, ◌⊎◌, sym, ◌∙◌, inl, true, List, ◌++◌, Bytes, Bytes_Eq, length, length-append,
  length-replicate, replicate, arith, ok,
}
use obscura_network.Merkle.{hash_pair}
use obscura_network.Merkle.Inclusion.{Collision, All32, append-injective, hash_pair-injective}
use obscura_network.Merkle.Binding.{unless_collides, climb-injective}
use obscura_network.Privacy.Types.{to_le_bytes}
use obscura_network.Privacy.Notes.{length-to_le_bytes, to_le_bytes-injective}
use obscura_network.Helios.Ssz.{
  BeaconBlockHeader, uint64_leaf, sha256_pair, hash_tree_root_beacon_header, verify_merkle_branch,
}
use obscura_network.Helios.Step.{
  HeliosWitness, HeliosPublicOutputs, helios_step, finalized_root_depth, finalized_root_leaf_index,
  body_to_exec_depth, body_to_exec_leaf_index, exec_to_hash_depth, exec_to_hash_leaf_index,
}
use obscura_network.Helios.Branch.{verify_merkle_branch_iff}

uint64_leaf-injective : (a b : ℕ) → a < 2 ^ 64 → b < 2 ^ 64 → uint64_leaf a ≡ uint64_leaf b → a ≡ b
unfolding uint64_leaf
uint64_leaf-injective a b p q h =
    to_le_bytes-injective 8 a b p q
      (append-injective (to_le_bytes 8 a) (to_le_bytes 8 b) (replicate 24 0) (replicate 24 0)
        (length-to_le_bytes 8 a ∙ sym (length-to_le_bytes 8 b)) h).0

length-uint64_leaf : (a : ℕ) → length (uint64_leaf a) ≡ 32
unfolding uint64_leaf
length-uint64_leaf a = omega (
  arith,
  length-append (to_le_bytes 8 a) (replicate 24 0),
  length-to_le_bytes 8 a,
  length-replicate {A = ℕ} 24 0,
)

-- The widths of the fields that the statements below are about.
pub record IsHeader (h : BeaconBlockHeader) : Type 0 where
  pub slot : h.slot < 2 ^ 64
  pub body_root : length h.body_root ≡ 32

pub record IsWitness (w : HeliosWitness) : Type 0 where
  pub finalized : IsHeader w.finalized_header
  pub payload_root : length w.execution_payload_root ≡ 32
  pub block_hash : length w.execution_block_hash ≡ 32
  pub finality : All32 w.finality_branch
  pub body_to_exec : All32 w.body_to_exec_branch
  pub exec_to_hash : All32 w.exec_to_hash_branch

module _ (sha256 : Bytes → Bytes) (sized : (x : Bytes) → length (sha256 x) ≡ 32) where
  pub pair-injective :
      (a b c d : Bytes)
      → length a ≡ length b
      → sha256_pair sha256 a c ≡ sha256_pair sha256 b d
      → ((a ≡ b) × (c ≡ d)) ⊎ Collision sha256
  unfolding sha256_pair hash_pair
  pair-injective a b c d k h = hash_pair-injective sha256 a b c d k h

  pub length-sha256_pair : (a b : Bytes) → length (sha256_pair sha256 a b) ≡ 32
  unfolding sha256_pair
  length-sha256_pair a b = sized (a ++ b)

  pub same_length :
      (a b c d : Bytes) → length (sha256_pair sha256 a b) ≡ length (sha256_pair sha256 c d)
  same_length a b c d = length-sha256_pair a b ∙ sym (length-sha256_pair c d)

  length-header_root : (h : BeaconBlockHeader) → length (hash_tree_root_beacon_header sha256 h) ≡ 32
  unfolding hash_tree_root_beacon_header
  length-header_root h = length-sha256_pair _ _

  -- A header's root determines its slot and its body's root.
  header_root-injective :
      (g h : BeaconBlockHeader)
      → IsHeader g
      → IsHeader h
      → hash_tree_root_beacon_header sha256 g ≡ hash_tree_root_beacon_header sha256 h
      → ((g.slot ≡ h.slot) × (g.body_root ≡ h.body_root)) ⊎ Collision sha256
  unfolding hash_tree_root_beacon_header
  header_root-injective g h p q e =
      unless_collides (pair-injective _ _ _ _ (same_length _ _ _ _) e) λ (m0, m1).
        unless_collides (pair-injective _ _ _ _ (same_length _ _ _ _) m0) λ (n0, _).
          unless_collides (pair-injective _ _ _ _ (same_length _ _ _ _) m1) λ (n2, _).
            unless_collides
              (pair-injective _ _ _ _ (length-uint64_leaf g.slot ∙ sym (length-uint64_leaf h.slot))
                n0)
              λ (slots, _).
                unless_collides (pair-injective _ _ _ _ (p.body_root ∙ sym q.body_root) n2)
                  λ (bodies, _).
                    inl (uint64_leaf-injective g.slot h.slot p.slot q.slot slots, bodies)

  -- Two branches that are accepted for one root at one place are for one leaf.
  branch-injective :
      (a b : Bytes) (xs ys : List Bytes) (depth index : ℕ) (root root' : Bytes)
      → length a ≡ length b
      → All32 xs
      → All32 ys
      → verify_merkle_branch sha256 a xs depth index root ≡ true
      → verify_merkle_branch sha256 b ys depth index root' ≡ true
      → root ≡ root'
      → (a ≡ b) ⊎ Collision sha256
  branch-injective a b xs ys depth index root root' k p q h h' e =
      let (n, c) = (verify_merkle_branch_iff sha256 a xs depth index root).0 h in
      let (n', c') = (verify_merkle_branch_iff sha256 b ys depth index root').0 h' in
      climb-injective sha256 sized index a b xs ys (n ∙ sym n') k p q (c ∙ (e ∙ sym c'))

-- What the assertions that hold say.
pub helios_step-ok :
    (sha256 : Bytes → Bytes) (w : HeliosWitness) (out : HeliosPublicOutputs)
    → helios_step sha256 w ≡ ok out
    → (verify_merkle_branch sha256
          (hash_tree_root_beacon_header sha256 w.finalized_header)
          w.finality_branch
          finalized_root_depth
          finalized_root_leaf_index
          w.attested_header.state_root
        ≡ true)
      × (verify_merkle_branch sha256 w.execution_payload_root w.body_to_exec_branch
            body_to_exec_depth body_to_exec_leaf_index w.finalized_header.body_root
          ≡ true)
      × (verify_merkle_branch sha256 w.execution_block_hash w.exec_to_hash_branch exec_to_hash_depth
            exec_to_hash_leaf_index w.execution_payload_root
          ≡ true)
      × (out ≡ record {
        prev_trusted_root = w.prev_trusted_root;
        new_beacon_root = hash_tree_root_beacon_header sha256 w.finalized_header;
        new_slot = w.finalized_header.slot;
        execution_block_hash = w.execution_block_hash;
      })
unfolding helios_step
helios_step-ok sha256 w out h = ground arith

-- For a hash of 32 bytes and fields of the widths of the program, two witnesses that the program
-- accepts and whose attested headers have one state root give one new beacon root, one new slot and
-- one execution block hash, or the hash has a collision.
pub helios_step_binding :
    (sha256 : Bytes → Bytes) (sized : (x : Bytes) → length (sha256 x) ≡ 32) (w w' : HeliosWitness)
    (out out' : HeliosPublicOutputs)
    → IsWitness w
    → IsWitness w'
    → w.attested_header.state_root ≡ w'.attested_header.state_root
    → helios_step sha256 w ≡ ok out
    → helios_step sha256 w' ≡ ok out'
    → ((out.new_beacon_root ≡ out'.new_beacon_root)
        × (out.new_slot ≡ out'.new_slot)
        × (out.execution_block_hash ≡ out'.execution_block_hash))
      ⊎ Collision sha256
helios_step_binding sha256 sized w w' out out' i i' same h h' =
    let (fin, body, exec, e) = helios_step-ok sha256 w out h in
    let (fin', body', exec', e') = helios_step-ok sha256 w' out' h' in
    unless_collides
      (branch-injective sha256 sized _ _ _ _ _ _ _ _
        (length-header_root sha256 sized _ ∙ sym (length-header_root sha256 sized _)) i.finality
        i'.finality fin fin' same)
      λ roots.
        unless_collides
          (header_root-injective sha256 sized w.finalized_header w'.finalized_header i.finalized
            i'.finalized roots)
          λ (slots, bodies).
            unless_collides
              (branch-injective sha256 sized _ _ _ _ _ _ _ _ (i.payload_root ∙ sym i'.payload_root)
                i.body_to_exec i'.body_to_exec body body' bodies)
              λ payloads.
                unless_collides
                  (branch-injective sha256 sized _ _ _ _ _ _ _ _ (i.block_hash ∙ sym i'.block_hash)
                    i.exec_to_hash i'.exec_to_hash exec exec' payloads)
                  λ blocks. inl (ground (arith, roots, slots, blocks))
