-- ===== src/Encryption/RoundTrip.antt =====
-- Encryption, and decryption with the keys that fit.
use obscura_network.Prelude.{
  ◌+◌, ◌≡◌, refl, ap, ◌∙◌, true, ◌++◌, Bytes, bytes_eq_self, Bytes_Eq, some, length, length-append,
  take, leb, arith, ok, ◌>>=◌,
}
use obscura_network.Encryption.{
  X25519, encryption_overhead, derive_key, compute_mac, stream_xor, encrypt_note, decrypt_note,
  NoteContent, content_to_bytes, content_from_bytes, EncryptedNote, create, decrypt_as_recipient,
  decrypt_as_oracle, note_to_bytes, note_from_bytes, try_decrypt, from_spending_key,
}
use obscura_network.Encryption.Xor.{AreBytes, length-stream_xor, stream_xor-stream_xor}
use obscura_network.Encryption.Content.{
  take_exact, drop_exact, drop_more, IsContent, length-content, content_from-content_to,
  note_from-note_to,
}

-- What the curve is documented to do: public keys have 32 bytes, and each side of an exchange
-- computes the same secret from its own secret and the other's public key.
pub record IsX25519 (curve : X25519) : Type 0 where
  pub public_length : (sk : Bytes) → length (curve.public_key sk) ≡ 32
  pub agreement :
      (a b : Bytes)
      → curve.diffie_hellman a (curve.public_key b) ≡ curve.diffie_hellman b (curve.public_key a)

module _ (sha256 : Bytes → Bytes) (sized : (x : Bytes) → length (sha256 x) ≡ 32) (curve : X25519)
    (is_curve : IsX25519 curve) where
  length-mac : (key c : Bytes) → length (compute_mac sha256 key c) ≡ 32
  unfolding compute_mac
  length-mac key c = sized _

  length-encrypt_note :
      (eph plaintext pk : Bytes)
      → length (encrypt_note sha256 curve eph plaintext pk) ≡ 64 + length plaintext
  unfolding encrypt_note
  length-encrypt_note eph plaintext pk =
      let e = curve.public_key eph in
      let key = derive_key sha256 (curve.diffie_hellman eph pk) e in
      let c = stream_xor sha256 plaintext key in
      let m = compute_mac sha256 key c in
      omega (
        arith,
        length-append e (m ++ c),
        length-append m c,
        is_curve.public_length eph,
        length-mac key c,
        length-stream_xor sha256 plaintext key,
      )

  -- The three parts of an encryption, read with the key that they were made with.
  decrypt_parts :
      (sk e m c : Bytes)
      → length e ≡ 32
      → length m ≡ 32
      → compute_mac sha256 (derive_key sha256 (curve.diffie_hellman sk e) e) c ≡ m
      → decrypt_note sha256 curve (e ++ (m ++ c)) sk
        ≡ ok (stream_xor sha256 c (derive_key sha256 (curve.diffie_hellman sk e) e))
  unfolding decrypt_note
  decrypt_parts sk e m c p q h =
      let fits : leb encryption_overhead (length (e ++ (m ++ c))) ≡ true =
        ground (arith, length-append e (m ++ c), length-append m c) in
      let mac = ap (take 32) (drop_exact 32 e (m ++ c) p) ∙ take_exact 32 m c q in
      let rest = drop_more 64 32 32 e (m ++ c) p refl ∙ drop_exact 32 m c q in
      rw (fits, take_exact 32 e (m ++ c) p, mac, rest, h, bytes_eq_self m) refl

  decrypt-encrypt_note :
      (eph sk plaintext : Bytes)
      → AreBytes plaintext
      → decrypt_note sha256 curve (encrypt_note sha256 curve eph plaintext (curve.public_key sk)) sk
        ≡ ok plaintext
  unfolding encrypt_note
  decrypt-encrypt_note eph sk plaintext b =
      let e = curve.public_key eph in
      let key = derive_key sha256 (curve.diffie_hellman eph (curve.public_key sk)) e in
      let c = stream_xor sha256 plaintext key in
      let same : derive_key sha256 (curve.diffie_hellman sk e) e ≡ key =
        ap (λ d. derive_key sha256 d e) (is_curve.agreement sk eph) in
      decrypt_parts sk e (compute_mac sha256 key c) c (is_curve.public_length eph)
        (length-mac key c) (ap (λ k. compute_mac sha256 k c) same)
      ∙ (ap (λ k. ok (stream_xor sha256 c k)) same
          ∙ ap ok (stream_xor-stream_xor sha256 plaintext key b))

  decrypted :
      (eph sk : Bytes) (content : NoteContent)
      → IsContent content
      → decrypt_note sha256 curve
            (encrypt_note sha256 curve eph (content_to_bytes content) (curve.public_key sk))
            sk
          >>= content_from_bytes
        ≡ ok content
  decrypted eph sk content is_content =
      ap (λ r. r >>= content_from_bytes)
        (decrypt-encrypt_note eph sk (content_to_bytes content) is_content.bytes)
      ∙ content_from-content_to content is_content

-- For a hash of 32 bytes and a curve that does what it is documented to do: a note's content, with
-- fields of the widths of the program, that is encrypted for the viewing key of a spending key
-- and for the compliance oracle, written out as bytes and read back, is what the recipient decrypts
-- and finds when scanning, with that viewing key, and what the oracle decrypts with its own, whatever
-- the two random secrets are.
pub encrypted_note_roundtrip :
    (sha256 : Bytes → Bytes) (sized : (x : Bytes) → length (sha256 x) ≡ 32) (curve : X25519)
    (is_curve : IsX25519 curve) (first_sk second_sk spending_key oracle_sk : Bytes)
    (content : NoteContent) (is_content : IsContent content)
    → let keys = from_spending_key sha256 curve spending_key in
      (note : EncryptedNote) × (note_from_bytes (
          note_to_bytes (
            create sha256 curve first_sk second_sk content keys.public
              (curve.public_key oracle_sk)))
        ≡ ok note)
      × (decrypt_as_recipient sha256 curve note keys.secret ≡ ok content)
      × (try_decrypt sha256 curve note keys.secret ≡ some content)
      × (decrypt_as_oracle sha256 curve note oracle_sk ≡ ok content)
unfolding create decrypt_as_recipient decrypt_as_oracle try_decrypt from_spending_key
encrypted_note_roundtrip sha256 sized curve is_curve first_sk second_sk spending_key oracle_sk
      content is_content =
    let plaintext = content_to_bytes content in
    let keys = from_spending_key sha256 curve spending_key in
    let oracle_pk = curve.public_key oracle_sk in
    let note = create sha256 curve first_sk second_sk content keys.public oracle_pk in
    let n = length-content content is_content in
    let size =
      λ (eph pk : Bytes). length-encrypt_note sha256 sized curve is_curve eph plaintext pk in
    let read = decrypted sha256 sized curve is_curve in
    let as_recipient = read first_sk keys.secret content is_content in
    (
      note,
      note_from-note_to note (omega (arith, n, size first_sk keys.public))
          (omega (arith, n, size second_sk oracle_pk)),
      as_recipient,
      rw as_recipient refl,
      read second_sk oracle_sk content is_content,
    )
