-- ===== src/Tests/Data.antt =====
-- A small world: a hash that keeps the first 32 bytes, names of accounts, notes and messages.
use obscura_network.Prelude.{
  ℕ, zero, suc, ◌%◌, arith, ◌≡◌, refl, ap, none, some, [], ◌∷◌, ◌++◌, Bytes, length, replicate,
}
use obscura_network.Merkle.{zero_bytes}
use obscura_network.Sanctions.Order.{IsArray}
use obscura_network.Privacy.Types as PrivacyTypes
use obscura_network.Privacy.Types.{Note, TransferMessage, UnshieldMessage, ShieldMessage}
use obscura_network.Privacy.State as PrivacyState
use obscura_network.Privacy.Handlers.{Context}
use obscura_network.Privacy.Zk.{mock_header}
use obscura_network.Bridge.Types.{
  Env, BridgeConfig, default_helios, ClaimDeposit, UpdateHeliosHead, WithdrawBridge,
}
use obscura_network.Bridge.Verifier.{mock_proof_prefix, mock_helios_prefix}

-- The first `n` numbers as bytes, with zeros if there are fewer.
abbrev pub fit : ℕ → Bytes → Bytes
fit zero l = []
fit (suc n) [] = 0 ∷ fit n []
fit (suc n) (x ∷ l) = (x % 256) ∷ fit n l

pub length-fit : (n : ℕ) (l : Bytes) → length (fit n l) ≡ n
length-fit zero l = refl
length-fit (suc n) [] = ap suc (length-fit n [])
length-fit (suc n) (x ∷ l) = ap suc (length-fit n l)

abbrev pub toy_hash : Bytes → Bytes
toy_hash l = fit 32 l

fit-IsArray : (n : ℕ) (l : Bytes) → IsArray n (fit n l)
fit-IsArray zero l = refl
fit-IsArray (suc n) [] = (omega arith, fit-IsArray n [])
fit-IsArray (suc n) (x ∷ l) = (omega arith, fit-IsArray n l)

pub toy_hash-IsArray : (l : Bytes) → IsArray 32 (toy_hash l)
toy_hash-IsArray l = fit-IsArray 32 l

abbrev pub pool_env : PrivacyTypes.Env
pool_env = record { sha256 = toy_hash; hex_encode = λ b. b; groth16 = none }

abbrev pub env : Env
env = record { privacy = pool_env; hex_decode = λ b. some (fit 20 b); native = none }

abbrev pub alice : Context
alice = record { sender = b'a' ∷ []; now_secs = 1000 }

abbrev pub bob : Context
bob = record { sender = b'b' ∷ []; now_secs = 2000 }

abbrev pub dollar : Bytes
dollar = replicate 32 7

abbrev pub note : Note
note = record {
  amount = 50;
  asset_id = dollar;
  owner_pubkey = replicate 32 1;
  salt = replicate 32 2;
}

abbrev pub salted_note : Note
salted_note = record {
  amount = 50;
  asset_id = dollar;
  owner_pubkey = replicate 32 1;
  salt = replicate 32 3;
}

abbrev pub note_commitment : Bytes
note_commitment = 50 ∷ replicate 7 0 ++ replicate 24 7

abbrev pub commitment : Bytes
commitment = replicate 32 4

abbrev pub nullifier : Bytes
nullifier = replicate 32 9

abbrev pub shield_note : ShieldMessage
shield_note = record { note = note; encrypted_note = 5 ∷ [] }

abbrev pub unshield_30 : UnshieldMessage
unshield_30 = record {
  proof = mock_header;
  public_inputs = record { amount = 30; asset_id = dollar };
  nullifier = nullifier;
  recipient = [];
}

abbrev pub transfer_20 : TransferMessage
transfer_20 = record {
  proof = mock_header;
  public_inputs = record { transfer_amount = 20; asset_id = dollar; merkle_root = zero_bytes };
  nullifiers = nullifier ∷ [];
  output_commitments = [];
  sanctions_proof = mock_header;
  sanctions_public_inputs = record {
    recipient_commitment = commitment;
    sanctions_root = zero_bytes;
    proof_timestamp = 900;
  };
  encrypted_outputs = [];
}

abbrev pub pool : PrivacyState.State
pool = PrivacyState.genesis pool_env PrivacyState.blank

abbrev pub config : BridgeConfig
config = record {
  bridge_contract_address = b'0' ∷ b'x' ∷ replicate 40 b'a';
  vk_hash = zero_bytes;
  max_proof_age_secs = 604800;
  admin = [];
  helios = default_helios;
}

abbrev pub eth_block : Bytes
eth_block = replicate 32 6

abbrev pub claim_100 : ClaimDeposit
claim_100 = record {
  proof = mock_proof_prefix;
  public_inputs = record {
    eth_block_hash = eth_block;
    beacon_block_root = zero_bytes;
    deposit_id = 12;
    obscura_recipient = commitment;
    amount = 100;
    bridge_contract = replicate 20 b'a';
  };
}

abbrev pub withdraw_12 : WithdrawBridge
withdraw_12 = record { deposit_id = 12; eth_recipient = replicate 20 8 }

abbrev pub head_64 : UpdateHeliosHead
head_64 = record {
  proof = mock_helios_prefix;
  public_inputs = record {
    prev_trusted_root = zero_bytes;
    new_beacon_root = replicate 32 3;
    new_slot = 64;
    execution_block_hash = eth_block;
  };
}
