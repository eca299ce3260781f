-- ===== src/Privacy/Notes.antt =====
-- Commitments, and the notes that they are made of.
use native.Mathlib.Nat.{pow-suc}
use obscura_network.Prelude.{
  ℕ, zero, suc, ◌/◌, ◌%◌, ◌^◌, ◌<◌, ◌≡◌, refl, sym, ap, ◌∙◌, ◌⊎◌, inl, inr, Bytes, bytes_eq,
  bytes_eq_sound, bytes_eq_ne, length, Bool-cases, arith, ok,
}
use obscura_network.Merkle.Inclusion.{Collision, append-injective}
use obscura_network.Privacy.Types.{Env, Note, to_le_bytes, note_bytes, from_note}

pub length-to_le_bytes : (n x : ℕ) → length (to_le_bytes n x) ≡ n
unfolding to_le_bytes
length-to_le_bytes zero x = refl
length-to_le_bytes (suc n) x = ap suc (length-to_le_bytes n (x / 256))

pub to_le_bytes-injective :
    (n x y : ℕ) → x < 256 ^ n → y < 256 ^ n → to_le_bytes n x ≡ to_le_bytes n y → x ≡ y
unfolding to_le_bytes
to_le_bytes-injective zero x y p q h = omega arith
to_le_bytes-injective (suc n) x y p q h =
    let rest : x / 256 ≡ y / 256 =
      to_le_bytes-injective n (x / 256) (y / 256) (omega (arith, pow-suc 256 n))
        (omega (arith, pow-suc 256 n)) (ground arith) in
    let low : x % 256 ≡ y % 256 = ground arith in omega arith

-- The widths of the fields of a note: a u64, and two arrays of 32 bytes.
pub record IsSized (note : Note) : Type 0 where
  pub amount : note.amount < 2 ^ 64
  pub asset_id : length note.asset_id ≡ 32
  pub salt : length note.salt ≡ 32

-- Lists that are equal piece by piece.
note_bytes-injective :
    (a b : Note)
    → IsSized a
    → IsSized b
    → length a.owner_pubkey ≡ length b.owner_pubkey
    → note_bytes a ≡ note_bytes b
    → a ≡ b
unfolding note_bytes
note_bytes-injective a b sa sb k h =
    let (amounts, rest) =
      append-injective _ _ _ _ (length-to_le_bytes 8 a.amount ∙ sym (length-to_le_bytes 8 b.amount))
        h in
    let (assets, rest') = append-injective _ _ _ _ (sa.asset_id ∙ sym sb.asset_id) rest in
    let (owners, salts) = append-injective _ _ _ _ k rest' in
    let same_amount : a.amount ≡ b.amount =
      to_le_bytes-injective 8 a.amount b.amount sa.amount sb.amount amounts in
    λ i. record {
      amount = same_amount i;
      asset_id = assets i;
      owner_pubkey = owners i;
      salt = salts i;
    }

pub from_note-length :
    (env : Env) (a : Note) (c : Bytes)
    → from_note env a ≡ ok c
    → (length a.owner_pubkey ≡ 32) × (0 < a.amount) × (c ≡ env.sha256 (note_bytes a))
unfolding from_note
from_note-length env a c h = ground arith

-- Two notes with fields of the widths of the program that have one commitment are one note, or the
-- hash has a collision.
pub from_note-injective :
    (env : Env) (a b : Note) (c : Bytes)
    → IsSized a
    → IsSized b
    → from_note env a ≡ ok c
    → from_note env b ≡ ok c
    → (a ≡ b) ⊎ Collision env.sha256
from_note-injective env a b c sa sb ha hb =
    let (la, _, ea) = from_note-length env a c ha in
    let (lb, _, eb) = from_note-length env b c hb in
    elim (Bool-cases (bytes_eq (note_bytes a) (note_bytes b))) [
      | inl same ↦ inl (note_bytes-injective a b sa sb (la ∙ sym lb) (bytes_eq_sound _ _ same))
      | inr differ ↦ inr (note_bytes a, note_bytes b, bytes_eq_ne _ _ differ, sym ea ∙ eb)
    ]
