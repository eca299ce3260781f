-- ===== src/Relayer/Heads.antt =====
-- The heads that the relayer sends: what the light client's program makes of the witness, and what
-- the bridge's check makes of the public inputs beside it.
use obscura_network.Prelude.{
  ℕ, zero, suc, ◌+◌, ◌≡◌, ◌≢◌, refl, sym, ap, ◌∙◌, ◌⊎◌, inl, Option, List, [], ◌∷◌, ◌++◌, Bytes,
  bytes_eq_iff, Bytes_Eq, length, get_or, drop, replicate, ok, err, arith,
}
use obscura_network.Merkle.{zero_bytes, hash_pair}
use obscura_network.Merkle.Tree.{node, leaves_of}
use obscura_network.Merkle.Inclusion.{Collision}
use obscura_network.Merkle.Binding.{unless_collides}
use obscura_network.Bridge.Types.{Committed, HeliosPublicInputs}
use obscura_network.Bridge.Verifier.{check_committed}
use obscura_network.Helios.Ssz.{
  BeaconBlockHeader, sha256_pair, merkle_root_8, hash_tree_root_beacon_header,
}
use obscura_network.Helios.Step.{HeliosWitness, HeliosPublicOutputs, helios_step, not_in_payload}
use obscura_network.Helios.Binding.{IsWitness, pair-injective, length-sha256_pair, helios_step-ok}
use obscura_network.Beacon.Types.{LightClientFinalityUpdateJson, GenesisConfigJson}
use obscura_network.Beacon.Witness.{build_helios_witness}
use obscura_network.Beacon.Levels.{length-node_above}
use obscura_network.Beacon.Built.{IsBuilt, build_helios_witness-IsBuilt}
use obscura_network.Relayer.Loop.{helios_inputs}

get_or-drop :
    (l : List Bytes) (n k i : ℕ) (d : Bytes) → i ≡ n + k → get_or l i d ≡ get_or (drop n l) k d
get_or-drop l zero k i d e = ap (λ j. get_or l j d) {x = i} {y = k} (omega arith)
get_or-drop [] (suc n) k i d e = refl
get_or-drop (x ∷ l) (suc n) k zero d e = absurd (omega arith)
get_or-drop (x ∷ l) (suc n) k (suc i) d e = get_or-drop l n k i d (omega arith)

-- The hash over four leaves of zeros.
abbrev pub zeros_4 : (Bytes → Bytes) → Bytes
zeros_4 sha256 = sha256 (sha256 (zero_bytes ++ zero_bytes) ++ sha256 (zero_bytes ++ zero_bytes))

-- What the program commits to.
abbrev pub committed_by : HeliosPublicOutputs → Committed
committed_by out = record {
  prev_root = out.prev_trusted_root;
  new_root = out.new_beacon_root;
  slot = out.new_slot;
  block_hash = out.execution_block_hash;
}

module _ (sha256 : Bytes → Bytes) (sized : (x : Bytes) → length (sha256 x) ≡ 32) where
  abbrev pair : Bytes → Bytes → Bytes
  pair a b = sha256_pair sha256 a b

  module _ (leaves : ℕ → Bytes) where
    abbrev at : ℕ → ℕ → Bytes
    at level i = node sha256 leaves level i

    payload_right :
        node sha256 leaves 5 0
        ≡ pair (at 4 0) (
            pair
              (at 3 2)
              (pair (at 2 6) (pair (pair (leaves 28) (leaves 29)) (pair (leaves 30) (leaves 31)))))
    unfolding node hash_pair sha256_pair
    payload_right = refl

  zero_pairs :
      (a b c d : Bytes)
      → a ≡ zero_bytes
      → b ≡ zero_bytes
      → c ≡ zero_bytes
      → d ≡ zero_bytes
      → pair (pair a b) (pair c d) ≡ zeros_4 sha256
  unfolding sha256_pair
  zero_pairs a b c d p q r s = rw (p, q, r, s) refl

  -- A header's root is no payload's root: leaf 7 of the header's tree is zeros, and in the payload's
  -- tree the node at its place is over four leaves of zeros.
  roots_differ :
      (h : BeaconBlockHeader) (leaves : ℕ → Bytes)
      → leaves 28 ≡ zero_bytes
      → leaves 29 ≡ zero_bytes
      → leaves 30 ≡ zero_bytes
      → leaves 31 ≡ zero_bytes
      → hash_tree_root_beacon_header sha256 h ≡ node sha256 leaves 5 0
      → (zeros_4 sha256 ≡ zero_bytes) ⊎ Collision sha256
  unfolding hash_tree_root_beacon_header merkle_root_8
  roots_differ h leaves z28 z29 z30 z31 e =
      unless_collides
        (pair-injective sha256 sized _ _ _ _
          (length-sha256_pair sha256 sized _ _ ∙ sym (length-node_above sha256 sized leaves 3 0))
          (e ∙ payload_right leaves))
        λ (_, e1).
          unless_collides
            (pair-injective sha256 sized _ _ _ _
              (length-sha256_pair sha256 sized _ _
                ∙ sym (length-node_above sha256 sized leaves 2 2))
              e1)
            λ (_, e2).
              unless_collides
                (pair-injective sha256 sized _ _ _ _
                  (sym (length-node_above sha256 sized leaves 1 6)) e2)
                λ (_, e3). inl (sym (e3 ∙ zero_pairs _ _ _ _ z28 z29 z30 z31))

  -- A leaf of a payload that was built, behind its fields.
  padded :
      (leaves : List Bytes) (k i : ℕ)
      → drop 17 leaves ≡ replicate 15 zero_bytes
      → i ≡ 17 + k
      → leaves_of leaves i ≡ get_or (replicate 15 zero_bytes) k zero_bytes
  padded leaves k i p e = get_or-drop leaves 17 k i zero_bytes e ∙ ap (λ l. get_or l k zero_bytes) p

  check_committed-new_root :
      (c : Committed) (i : HeliosPublicInputs)
      → check_committed c i ≡ ok tt
      → c.new_root ≡ i.new_beacon_root
  unfolding check_committed
  check_committed-new_root c i h = ground (arith, bytes_eq_iff c.new_root i.new_beacon_root)

  -- For a hash of 32 bytes: the program accepts the last of its checks for each witness that the
  -- relayer builds, whose fields have the widths of the program.
  pub built-provable :
      (hex : Bytes → Option Bytes) (update : LightClientFinalityUpdateJson)
      (genesis : GenesisConfigJson) (pubkey prev : Bytes) (w : HeliosWitness)
      → build_helios_witness sha256 hex update genesis pubkey prev ≡ ok w
      → IsWitness w × (helios_step sha256 w ≢ err not_in_payload)
  unfolding helios_step
  built-provable hex update genesis pubkey prev w h =
      let built : IsBuilt sha256 hex sized w =
        build_helios_witness-IsBuilt sha256 hex sized update genesis pubkey prev w h in
      (built.witness, λ e. ground (arith, built.in_payload))

  -- For a hash of 32 bytes: if the bridge's check passes what the program commits to for a witness
  -- that the relayer builds, beside the public inputs that the relayer sends with it, then the hash
  -- takes two pairs of pairs of zeros to zeros, or it has a collision.
  pub relayed_head_rejected :
      (hex : Bytes → Option Bytes) (update : LightClientFinalityUpdateJson)
      (genesis : GenesisConfigJson) (pubkey prev root : Bytes) (slot : ℕ) (w : HeliosWitness)
      (out : HeliosPublicOutputs)
      → build_helios_witness sha256 hex update genesis pubkey prev ≡ ok w
      → helios_step sha256 w ≡ ok out
      → check_committed (committed_by out) (helios_inputs root slot w) ≡ ok tt
      → (zeros_4 sha256 ≡ zero_bytes) ⊎ Collision sha256
  unfolding helios_inputs
  relayed_head_rejected hex update genesis pubkey prev root slot w out h step check =
      let built : IsBuilt sha256 hex sized w =
        build_helios_witness-IsBuilt sha256 hex sized update genesis pubkey prev w h in
      let (_, _, _, e) = helios_step-ok sha256 w out step in
      let zeros : drop 17 built.leaves ≡ replicate 15 zero_bytes = built.padding in
      roots_differ w.finalized_header (leaves_of built.leaves)
        (padded built.leaves 11 28 zeros refl) (padded built.leaves 12 29 zeros refl)
        (padded built.leaves 13 30 zeros refl) (padded built.leaves 14 31 zeros refl)
        (sym (ap (λ (t : HeliosPublicOutputs). t.new_beacon_root) e)
          ∙ (check_committed-new_root (committed_by out) (helios_inputs root slot w) check
              ∙ built.root))
