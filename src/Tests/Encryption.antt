-- ===== src/Tests/Encryption.antt =====
-- A note's content, encrypted and read.
use obscura_network.Prelude.{
  ◌+◌, ◌≡◌, refl, ap, Bool, true, ◌&&◌, [], ◌∷◌, Bytes, replicate, get_or, ltb, arith, ok, some,
}
use obscura_network.Privacy.Types.{to_le_bytes}
use obscura_network.Encryption.{
  X25519, NoteContent, EncryptedNote, content_to_bytes, create, decrypt_as_recipient,
  decrypt_as_oracle, try_decrypt, from_spending_key, note_to_bytes, note_from_bytes,
}
use obscura_network.Encryption.Xor.{AreBytes}
use obscura_network.Encryption.Content.{IsContent}
use obscura_network.Encryption.RoundTrip.{IsX25519, encrypted_note_roundtrip}
use obscura_network.Tests.Data.{fit, length-fit, toy_hash}

-- The first bytes of two keys, added.
abbrev curve : X25519
curve = record {
  public_key = λ sk. fit 32 sk;
  diffie_hellman = λ sk pk. (get_or (fit 32 sk) 0 0 + get_or pk 0 0) ∷ [];
}

curve-IsX25519 : IsX25519 curve
curve-IsX25519 = record {
  public_length = λ sk. length-fit 32 sk;
  agreement = λ a b. ap (λ x. x ∷ []) (omega arith);
}

abbrev content : NoteContent
content = record {
  amount = 700;
  asset_id = replicate 32 171;
  salt = replicate 32 205;
  memo = replicate 64 0;
}

all_bytes : Bytes → Bool
all_bytes [] = true
all_bytes (x ∷ l) = ltb x 256 && all_bytes l

all_bytes-AreBytes : (l : Bytes) → all_bytes l ≡ true → AreBytes l
unfolding all_bytes
all_bytes-AreBytes [] h = tt
all_bytes-AreBytes (x ∷ l) h = (ground (arith, h), all_bytes-AreBytes l (ground (arith, h)))

content-all_bytes : all_bytes (content_to_bytes content) ≡ true
unfolding all_bytes content_to_bytes to_le_bytes
content-all_bytes = refl

content-IsContent : IsContent content
content-IsContent = record {
  amount = omega arith;
  asset_id = refl;
  salt = refl;
  memo = refl;
  bytes = all_bytes-AreBytes (content_to_bytes content) content-all_bytes;
}

encrypted_note_roundtrip_example :
    (note : EncryptedNote) × (note_from_bytes (
        note_to_bytes (
          create toy_hash curve
            (replicate 32 3)
            (replicate 32 4)
            content
            (from_spending_key toy_hash curve (replicate 32 5)).public
            (curve.public_key (replicate 32 6))))
      ≡ ok note)
    × (decrypt_as_recipient toy_hash curve note
          (from_spending_key toy_hash curve (replicate 32 5)).secret
        ≡ ok content)
    × (try_decrypt toy_hash curve note (from_spending_key toy_hash curve (replicate 32 5)).secret
        ≡ some content)
    × (decrypt_as_oracle toy_hash curve note (replicate 32 6) ≡ ok content)
encrypted_note_roundtrip_example =
    encrypted_note_roundtrip toy_hash (length-fit 32) curve curve-IsX25519 (replicate 32 3)
      (replicate 32 4) (replicate 32 5) (replicate 32 6) content content-IsContent
