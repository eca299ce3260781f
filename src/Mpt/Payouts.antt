-- ===== src/Mpt/Payouts.antt =====
-- Accepted deposits, the state root, and the public values beside it.
use obscura_network.Prelude.{
  ℕ, ◌^◌, ◌≤◌, ◌<◌, ◌≡◌, ◌⊎◌, refl, sym, ap, ◌∙◌, inl, true, false, List, [], ◌∷◌, ◌++◌, Bytes,
  ◌==◌, Bytes_Eq, length, length-append, replicate, drop, arith, ok,
}
use obscura_network.Merkle.{zero_bytes}
use obscura_network.Merkle.Inclusion.{Collision, append-injective}
use obscura_network.Merkle.Binding.{unless_collides}
use obscura_network.Mpt.Rlp.{be_loop}
use obscura_network.Mpt.Encode.{
  be_bytes, skip_zeros, to_be_bytes, rlp_encode_bytes, rlp_encode_uint, rlp_encode_list, concat,
  rlp_header,
}
use obscura_network.Mpt.Trie.{verify_mpt_proof}
use obscura_network.Mpt.RoundTrip.{be_loop-be_bytes, length-to_be_bytes}
use obscura_network.Mpt.Binding.{verify_mpt_proof_binding}
use obscura_network.Mpt.Deposit.{
  DepositData, BridgeDepositWitness, BridgePublicOutputs, deposit_storage_slot, encode_account_rlp,
  encode_deposit_storage_value, assert_proof, eth_deposit,
}

-- The encoding of 32 bytes.
encode_32 : (r : Bytes) → length r ≡ 32 → rlp_encode_bytes r ≡ 0xa0 ∷ r
unfolding rlp_encode_bytes rlp_header
encode_32 r p = rw p refl

account_tail : Bytes
account_tail = 0xa0 ∷ replicate 32 0

-- The encoding of an account whose numbers are zero.
account_32 :
    (r : Bytes)
    → length r ≡ 32
    → encode_account_rlp 0 0 r (replicate 32 0)
      ≡ 0xf8 ∷ (68 ∷ (0x80 ∷ (0x80 ∷ (0xa0 ∷ (r ++ account_tail)))))
unfolding encode_account_rlp rlp_encode_list rlp_encode_uint concat rlp_header account_tail
    skip_zeros to_be_bytes be_bytes
account_32 r p =
    let total : length (r ++ (0xa0 ∷ replicate 32 0)) ≡ 65 =
      omega (arith, length-append r (0xa0 ∷ replicate 32 0)) in
    rw (encode_32 r p, encode_32 (replicate 32 0) refl, total) refl

length-account :
    (r : Bytes) → length r ≡ 32 → 32 ≤ length (encode_account_rlp 0 0 r (replicate 32 0))
length-account r p = omega (arith, ap length (account_32 r p), length-append r account_tail)

length-slot : (x : ℕ) → length (replicate 24 0 ++ to_be_bytes 8 x) ≡ 32
length-slot x = omega (arith, length-to_be_bytes 8 x)

storage_32 :
    (d : DepositData)
    → encode_deposit_storage_value d ≡ 0xa0 ∷ (replicate 24 0 ++ to_be_bytes 8 d.amount)
unfolding encode_deposit_storage_value
storage_32 d = encode_32 _ (length-slot d.amount)

length-storage : (d : DepositData) → 32 ≤ length (encode_deposit_storage_value d)
length-storage d = omega (arith, ap length (storage_32 d), length-slot d.amount)

storage-injective :
    (a b : DepositData)
    → a.amount < 2 ^ 64
    → b.amount < 2 ^ 64
    → encode_deposit_storage_value a ≡ encode_deposit_storage_value b
    → a.amount ≡ b.amount
unfolding to_be_bytes be_loop
storage-injective a b p q e =
    let same = sym (storage_32 a) ∙ (e ∙ storage_32 b) in
    let bytes : to_be_bytes 8 a.amount ≡ to_be_bytes 8 b.amount = ap (drop 25) same in
    sym (be_loop-be_bytes 8 a.amount [] p p)
    ∙ (ap (be_loop 0) bytes ∙ be_loop-be_bytes 8 b.amount [] q q)

account-injective :
    (r s : Bytes)
    → length r ≡ 32
    → length s ≡ 32
    → encode_account_rlp 0 0 r (replicate 32 0) ≡ encode_account_rlp 0 0 s (replicate 32 0)
    → r ≡ s
account-injective r s p q e =
    (append-injective r s account_tail account_tail (p ∙ sym q)
      (ap (drop 5) (sym (account_32 r p) ∙ (e ∙ account_32 s q)))).0

-- What the assertions that hold say.
eth_deposit-ok :
    (keccak256 : Bytes → Bytes) (w : BridgeDepositWitness) (out : BridgePublicOutputs)
    → eth_deposit keccak256 w ≡ ok out
    → (verify_mpt_proof keccak256 w.eth_block.state_root
          (keccak256 w.bridge_contract)
          w.account_proof
          (encode_account_rlp 0 0 w.storage_root (replicate 32 0))
        ≡ ok true)
      × (verify_mpt_proof keccak256 w.storage_root
            (keccak256 (deposit_storage_slot keccak256 w.deposit_id))
            w.storage_proof
            (encode_deposit_storage_value w.deposit_data)
          ≡ ok true)
      × ((out.amount ≡ w.deposit_data.amount) × (0 < out.amount))
unfolding eth_deposit assert_proof
eth_deposit-ok keccak256 w out h = ground arith

proofs_agree :
    (keccak256 : Bytes → Bytes) (xs ys : List Bytes) {root root' key key' v w : Bytes}
    → root ≡ root'
    → key ≡ key'
    → 32 ≤ length v
    → 32 ≤ length w
    → verify_mpt_proof keccak256 root key xs v ≡ ok true
    → verify_mpt_proof keccak256 root' key' ys w ≡ ok true
    → (v ≡ w) ⊎ Collision keccak256
proofs_agree keccak256 xs ys {root} {root'} {key} {key'} {v} {w} r k long_v long_w h h' =
    let moved : verify_mpt_proof keccak256 root key ys w ≡ ok true = cc (r, k, h') in
    verify_mpt_proof_binding keccak256 root key xs ys v w long_v long_w h moved

-- For fields of the widths of the program, two accepted witnesses for one state root, one bridge
-- contract and one deposit id have one storage root and make one amount public, or the hash has a
-- collision.
pub eth_deposit_binding :
    (keccak256 : Bytes → Bytes) (w w' : BridgeDepositWitness) (out out' : BridgePublicOutputs)
    → (length w.storage_root ≡ 32) × (length w'.storage_root ≡ 32)
    → (w.deposit_data.amount < 2 ^ 64) × (w'.deposit_data.amount < 2 ^ 64)
    → w.eth_block.state_root ≡ w'.eth_block.state_root
    → w.bridge_contract ≡ w'.bridge_contract
    → w.deposit_id ≡ w'.deposit_id
    → eth_deposit keccak256 w ≡ ok out
    → eth_deposit keccak256 w' ≡ ok out'
    → ((w.storage_root ≡ w'.storage_root) × (out.amount ≡ out'.amount)) ⊎ Collision keccak256
eth_deposit_binding keccak256 w w' out out' (p, p') (q, q') same_state same_contract same_id h h' =
    let (account, storage, (paid, _)) = eth_deposit-ok keccak256 w out h in
    let (account', storage', (paid', _)) = eth_deposit-ok keccak256 w' out' h' in
    unless_collides
      (proofs_agree keccak256 w.account_proof w'.account_proof same_state
        (ap keccak256 same_contract) (length-account w.storage_root p)
        (length-account w'.storage_root p') account account')
      λ accounts.
        let roots = account-injective w.storage_root w'.storage_root p p' accounts in
        unless_collides
          (proofs_agree keccak256 w.storage_proof w'.storage_proof roots
            (ap (λ id. keccak256 (deposit_storage_slot keccak256 id)) same_id)
            (length-storage w.deposit_data) (length-storage w'.deposit_data) storage storage')
          λ slots. inl (
            roots,
            paid ∙ (storage-injective w.deposit_data w'.deposit_data q q' slots ∙ sym paid'),
          )

-- A witness that the program accepts is also accepted with any other recipient that is not zero, any
-- other header, beacon root, sender and time, none of which the proofs speak of.
pub eth_deposit_any_recipient :
    (keccak256 : Bytes → Bytes) (w : BridgeDepositWitness) (out : BridgePublicOutputs)
    (recipient header beacon sender : Bytes) (time : ℕ)
    → (recipient == zero_bytes) ≡ false
    → eth_deposit keccak256 w ≡ ok out
    → eth_deposit keccak256 (record w {
      eth_block = record (w.eth_block) { rlp_encoded = header };
      beacon_block_root = beacon;
      deposit_data = record (w.deposit_data) {
        obscura_recipient = recipient;
        sender = sender;
        timestamp = time;
      };
    })
      ≡ ok (record out {
        eth_block_hash = keccak256 header;
        beacon_block_root = beacon;
        obscura_recipient = recipient;
      })
unfolding eth_deposit assert_proof encode_deposit_storage_value
eth_deposit_any_recipient keccak256 w out recipient header beacon sender time z h = ground arith
