-- ===== src/Encryption.antt =====
-- crates/privacy/src/encryption.rs and the derivation of viewing keys of keys.rs. `X25519` stands
-- for the x25519-dalek crate and `sha256` for sha2; a random secret is an argument.
pub mod Xor
pub mod Content
pub mod RoundTrip
use obscura_network.Prelude.{
  ℕ, zero, suc, ◌+◌, ◌*◌, ◌/◌, ◌%◌, Bool, true, false, not, List, [], ◌∷◌, ◌++◌, Bytes, ◌==◌,
  Bytes_Eq, length, take, drop, nat_eq, ltb, leb, if◌then◌else◌, Option, some, none, Result, ok,
  err, ◌>>=◌, ◌>>◌, guard,
}
use obscura_network.Privacy.Types.{to_le_bytes}

pub record X25519 : Type 0 where
  pub public_key : Bytes → Bytes
  pub diffie_hellman : Bytes → Bytes → Bytes

pub data DecryptError : Type 0 where
  too_short mac_mismatch content_too_short note_too_short : DecryptError
  truncated_recipient truncated_compliance : DecryptError

abbrev pub encryption_overhead : ℕ
encryption_overhead = 64

-- `a ^ b` on numbers of `bits` bits.
unfoldable pub xor : ℕ → ℕ → ℕ → ℕ
xor zero a b = 0
xor (suc bits) a b = (a % 2 + b % 2) % 2 + 2 * xor bits (a / 2) (b / 2)

-- `data[offset + i] ^ block[i]`, where the block is at least as long as the data.
unfoldable pub xor_block : Bytes → Bytes → Bytes
xor_block [] block = []
xor_block (x ∷ bytes) [] = x ∷ xor_block bytes []
xor_block (x ∷ bytes) (k ∷ block) = xor 8 x k ∷ xor_block bytes block

module _ (sha256 : Bytes → Bytes) where
  -- b"obscura-enc-v1"
  unfoldable pub derive_key : Bytes → Bytes → Bytes
  derive_key dh_bytes eph_pk = sha256 (
      b'o'
      ∷ b'b'
      ∷ b's'
      ∷ b'c'
      ∷ b'u'
      ∷ b'r'
      ∷ b'a'
      ∷ b'-'
      ∷ b'e'
      ∷ b'n'
      ∷ b'c'
      ∷ b'-'
      ∷ b'v'
      ∷ b'1'
      ∷ (dh_bytes ++ eph_pk))

  -- b"mac"
  unfoldable pub compute_mac : Bytes → Bytes → Bytes
  compute_mac key ciphertext = sha256 (b'm' ∷ b'a' ∷ b'c' ∷ (key ++ ciphertext))

  -- `while remaining > 0`, on what is left of the data: at most 32 bytes in each round.
  unfoldable pub stream_loop : ℕ → ℕ → Bytes → Bytes → Bytes
  stream_loop fuel block_idx [] key = []
  stream_loop zero block_idx (x ∷ bytes) key = []
  stream_loop (suc fuel) block_idx (x ∷ bytes) key =
      xor_block (take 32 (x ∷ bytes)) (sha256 (b'k' ∷ b's' ∷ (key ++ (block_idx ∷ []))))
      ++ stream_loop fuel ((block_idx + 1) % 256) (drop 32 (x ∷ bytes)) key

  unfoldable pub stream_xor : Bytes → Bytes → Bytes
  stream_xor bytes key = stream_loop (length bytes) 0 bytes key

  unfoldable pub encrypt_note : X25519 → Bytes → Bytes → Bytes → Bytes
  encrypt_note curve eph_sk plaintext recipient_pk =
      let eph_pk = curve.public_key eph_sk in
      let key = derive_key (curve.diffie_hellman eph_sk recipient_pk) eph_pk in
      let ciphertext = stream_xor plaintext key in
      eph_pk ++ (compute_mac key ciphertext ++ ciphertext)

  unfoldable pub decrypt_note : X25519 → Bytes → Bytes → Result DecryptError Bytes
  decrypt_note curve blob my_sk = do
    guard (leb encryption_overhead (length blob)) too_short
    let eph_pk_bytes = take 32 blob
    let expected_mac = take 32 (drop 32 blob)
    let ciphertext = drop 64 blob
    let key = derive_key (curve.diffie_hellman my_sk eph_pk_bytes) eph_pk_bytes
    guard (compute_mac key ciphertext == expected_mac) mac_mismatch
    ok (stream_xor ciphertext key)

-- `from_le_bytes`
unfoldable pub from_le_bytes : Bytes → ℕ
from_le_bytes [] = 0
from_le_bytes (b ∷ bytes) = b + 256 * from_le_bytes bytes

pub record NoteContent : Type 0 where
  pub amount : ℕ
  pub asset_id : Bytes
  pub salt : Bytes
  pub memo : Bytes

unfoldable pub content_to_bytes : NoteContent → Bytes
content_to_bytes content =
    to_le_bytes 8 content.amount ++ (content.asset_id ++ (content.salt ++ content.memo))

unfoldable pub content_from_bytes : Bytes → Result DecryptError NoteContent
content_from_bytes bytes = do
  guard (leb 136 (length bytes)) content_too_short
  ok (record {
    amount = from_le_bytes (take 8 bytes);
    asset_id = take 32 (drop 8 bytes);
    salt = take 32 (drop 40 bytes);
    memo = take 64 (drop 72 bytes);
  })

pub record EncryptedNote : Type 0 where
  pub enc_for_recipient : Bytes
  pub enc_for_compliance : Bytes

module _ (sha256 : Bytes → Bytes) (curve : X25519) where
  -- With the two random secrets that it draws.
  unfoldable pub create : Bytes → Bytes → NoteContent → Bytes → Bytes → EncryptedNote
  create first_sk second_sk content recipient_pk oracle_pk =
      let plaintext = content_to_bytes content in
      record {
        enc_for_recipient = encrypt_note sha256 curve first_sk plaintext recipient_pk;
        enc_for_compliance = encrypt_note sha256 curve second_sk plaintext oracle_pk;
      }

  unfoldable pub decrypt_as_recipient : EncryptedNote → Bytes → Result DecryptError NoteContent
  decrypt_as_recipient note viewing_sk =
      decrypt_note sha256 curve note.enc_for_recipient viewing_sk >>= content_from_bytes

  unfoldable pub decrypt_as_oracle : EncryptedNote → Bytes → Result DecryptError NoteContent
  decrypt_as_oracle note oracle_sk =
      decrypt_note sha256 curve note.enc_for_compliance oracle_sk >>= content_from_bytes

abbrev to_option : Result DecryptError NoteContent → Option NoteContent
to_option (ok content) = some content
to_option (err e) = none

abbrev or_else : Option NoteContent → Option NoteContent → Option NoteContent
or_else none second = second
or_else (some content) second = some content

unfoldable pub try_decrypt : (Bytes → Bytes) → X25519 → EncryptedNote → Bytes → Option NoteContent
try_decrypt sha256 curve note viewing_sk =
    or_else (to_option (decrypt_as_recipient sha256 curve note viewing_sk))
      (to_option (decrypt_as_oracle sha256 curve note viewing_sk))

pub record ViewingKeypair : Type 0 where
  pub secret : Bytes
  pub public : Bytes

-- b"obscura-viewing-key-v1"
unfoldable pub from_spending_key : (Bytes → Bytes) → X25519 → Bytes → ViewingKeypair
from_spending_key sha256 curve spending_key =
    let viewing_sk_bytes = sha256 (
      b'o' ∷ b'b' ∷ b's' ∷ b'c' ∷ b'u' ∷ b'r' ∷ b'a' ∷ b'-' ∷ b'v' ∷ b'i' ∷ b'e' ∷ b'w' ∷ b'i'
      ∷ b'n' ∷ b'g' ∷ b'-' ∷ b'k' ∷ b'e' ∷ b'y' ∷ b'-' ∷ b'v' ∷ b'1' ∷ spending_key) in
    record { secret = viewing_sk_bytes; public = curve.public_key viewing_sk_bytes }

-- A length as a u16, and the bytes.
unfoldable pub with_length : Bytes → Bytes
with_length bytes = to_le_bytes 2 (length bytes) ++ bytes

unfoldable pub note_to_bytes : EncryptedNote → Bytes
note_to_bytes note = with_length note.enc_for_recipient ++ with_length note.enc_for_compliance

unfoldable pub note_from_bytes : Bytes → Result DecryptError EncryptedNote
note_from_bytes bytes = do
  guard (leb 4 (length bytes)) note_too_short
  let r_len = from_le_bytes (take 2 bytes)
  guard (leb (2 + r_len + 2) (length bytes)) truncated_recipient
  let enc_for_recipient = take r_len (drop 2 bytes)
  let rest = drop r_len (drop 2 bytes)
  let c_len = from_le_bytes (take 2 rest)
  guard (leb (2 + c_len) (length rest)) truncated_compliance
  ok (record {
    enc_for_recipient = enc_for_recipient;
    enc_for_compliance = take c_len (drop 2 rest);
  })
