-- ===== src/Encryption/Content.antt =====
-- The encodings of a note's content and of the pair of its two encryptions.
use native.Mathlib.Nat.{pow-suc}
use obscura_network.Prelude.{
  ℕ, zero, suc, ◌+◌, ◌/◌, ◌^◌, ◌<◌, ◌≡◌, refl, sym, ap, ◌∙◌, true, [], ◌∷◌, ◌++◌, Bytes, length,
  length-append, take, take_all, drop, leb, arith, ok,
}
use obscura_network.Privacy.Types.{to_le_bytes}
use obscura_network.Privacy.Notes.{length-to_le_bytes}
use obscura_network.Mpt.RoundTrip.{take-length, drop-length}
use obscura_network.Mpt.Lists.{append_assoc, append_nil}
use obscura_network.Encryption.{
  from_le_bytes, NoteContent, content_to_bytes, content_from_bytes, EncryptedNote, with_length,
  note_to_bytes, note_from_bytes,
}
use obscura_network.Encryption.Xor.{AreBytes}

pub take_exact : (n : ℕ) (a b : Bytes) → length a ≡ n → take n (a ++ b) ≡ a
take_exact n a b e = ap (λ k. take k (a ++ b)) (sym e) ∙ take-length a b

pub drop_exact : (n : ℕ) (a b : Bytes) → length a ≡ n → drop n (a ++ b) ≡ b
drop_exact n a b e = ap (λ k. drop k (a ++ b)) (sym e) ∙ drop-length a b

drop-append : (m : ℕ) (a b : Bytes) → drop (length a + m) (a ++ b) ≡ drop m b
drop-append m [] b = ap (λ k. drop k b) {x = 0 + m} {y = m} (omega arith)
drop-append m (x ∷ a) b =
    ap (λ k. drop k (x ∷ (a ++ b))) {x = suc (length a) + m} {y = suc (length a + m)} (omega arith)
    ∙ drop-append m a b

pub drop_more : (k n m : ℕ) (a b : Bytes) → length a ≡ n → k ≡ n + m → drop k (a ++ b) ≡ drop m b
drop_more k n m a b e h =
    ap (λ i. drop i (a ++ b)) {x = k} {y = length a + m} (omega arith) ∙ drop-append m a b

from-to_le_bytes : (n x : ℕ) → x < 256 ^ n → from_le_bytes (to_le_bytes n x) ≡ x
unfolding from_le_bytes to_le_bytes
from-to_le_bytes zero x h = omega arith
from-to_le_bytes (suc n) x h =
    omega (arith, from-to_le_bytes n (x / 256) (omega (arith, pow-suc 256 n)))

-- The widths of the fields of a content, and that they are bytes.
pub record IsContent (c : NoteContent) : Type 0 where
  pub amount : c.amount < 2 ^ 64
  pub asset_id : length c.asset_id ≡ 32
  pub salt : length c.salt ≡ 32
  pub memo : length c.memo ≡ 64
  pub bytes : AreBytes (content_to_bytes c)

pub length-content : (c : NoteContent) → IsContent c → length (content_to_bytes c) ≡ 136
unfolding content_to_bytes
length-content c i = omega (
  arith,
  length-append (to_le_bytes 8 c.amount) (c.asset_id ++ (c.salt ++ c.memo)),
  length-append c.asset_id (c.salt ++ c.memo),
  length-append c.salt c.memo,
  length-to_le_bytes 8 c.amount,
  i.asset_id,
  i.salt,
  i.memo,
)

pub content_from-content_to :
    (c : NoteContent) → IsContent c → content_from_bytes (content_to_bytes c) ≡ ok c
unfolding content_from_bytes content_to_bytes
content_from-content_to c i =
    let n = length-to_le_bytes 8 c.amount in
    let b = to_le_bytes 8 c.amount in
    let enough : leb 136 (length (b ++ (c.asset_id ++ (c.salt ++ c.memo)))) ≡ true =
      ground (arith, length-content c i) in
    let asset =
      ap (take 32) (drop_exact 8 b (c.asset_id ++ (c.salt ++ c.memo)) n)
      ∙ take_exact 32 c.asset_id (c.salt ++ c.memo) i.asset_id in
    let amount =
      ap from_le_bytes (take_exact 8 b (c.asset_id ++ (c.salt ++ c.memo)) n)
      ∙ from-to_le_bytes 8 c.amount i.amount in
    let salt =
      ap (take 32) (
        drop_more 40 8 32 b (c.asset_id ++ (c.salt ++ c.memo)) n refl
        ∙ drop_exact 32 c.asset_id (c.salt ++ c.memo) i.asset_id)
      ∙ take_exact 32 c.salt c.memo i.salt in
    let memo =
      ap (take 64) (
        drop_more 72 8 64 b (c.asset_id ++ (c.salt ++ c.memo)) n refl
        ∙ (drop_more 64 32 32 c.asset_id (c.salt ++ c.memo) i.asset_id refl
            ∙ drop_exact 32 c.salt c.memo i.salt))
      ∙ take_all 64 c.memo (omega (arith, i.memo)) in
    rw (enough, amount, asset, salt, memo) refl

length-with_length : (l : Bytes) → length (with_length l) ≡ 2 + length l
unfolding with_length
length-with_length l =
    omega (arith, length-append (to_le_bytes 2 (length l)) l, length-to_le_bytes 2 (length l))

-- The length and what follows it.
read_length :
    (x rest : Bytes) → length x < 2 ^ 16 → from_le_bytes (take 2 (with_length x ++ rest)) ≡ length x
unfolding with_length
read_length x rest h =
    let n = to_le_bytes 2 (length x) in
    ap from_le_bytes (
      ap (take 2) (append_assoc n x rest)
      ∙ take_exact 2 n (x ++ rest) (length-to_le_bytes 2 (length x)))
    ∙ from-to_le_bytes 2 (length x) h

read_body : (x rest : Bytes) → drop 2 (with_length x ++ rest) ≡ x ++ rest
unfolding with_length
read_body x rest =
    let n = to_le_bytes 2 (length x) in
    ap (drop 2) (append_assoc n x rest)
    ∙ drop_exact 2 n (x ++ rest) (length-to_le_bytes 2 (length x))

-- Two encryptions whose lengths fit in a u16 come back from their encoding.
pub note_from-note_to :
    (note : EncryptedNote)
    → length note.enc_for_recipient < 2 ^ 16
    → length note.enc_for_compliance < 2 ^ 16
    → note_from_bytes (note_to_bytes note) ≡ ok note
unfolding note_from_bytes note_to_bytes
note_from-note_to note p q =
    let r = note.enc_for_recipient in
    let c = note.enc_for_compliance in
    let last = with_length c in
    let sum = length-append (with_length r) last in
    let lr = length-with_length r in
    let lc = length-with_length c in
    let fits : leb 4 (length (with_length r ++ last)) ≡ true = ground (arith, sum, lr, lc) in
    let fits_r : leb (2 + length r + 2) (length (with_length r ++ last)) ≡ true =
      ground (arith, sum, lr, lc) in
    let fits_c : leb (2 + length c) (length last) ≡ true = ground (arith, lc) in
    let read_c : from_le_bytes (take 2 last) ≡ length c =
      ap (λ l. from_le_bytes (take 2 l)) (sym (append_nil last)) ∙ read_length c [] q in
    let body_c : drop 2 last ≡ c =
      ap (drop 2) (sym (append_nil last)) ∙ (read_body c [] ∙ append_nil c) in
    let whole_c : take (length c) c ≡ c = take_all (length c) c (omega arith) in
    rw
      (
        fits,
        read_length r last p,
        fits_r,
        read_body r last,
        take-length r last,
        drop-length r last,
        read_c,
        fits_c,
        body_c,
        whole_c,
      )
      refl
