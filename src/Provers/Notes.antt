-- ===== src/Provers/Notes.antt =====
-- The notes that the host hands to the programs, and their commitments.
use obscura_network.Prelude.{
  ℕ, ◌+◌, ◌-◌, ◌<◌, ◌≡◌, refl, sym, ap, ap₂, ◌∙◌, subst, true, List, [], ◌∷◌, ◌++◌, Bytes, map,
  length, take, take_all, replicate, Bytes_Eq, bytes_eq_self, bytes_eq, lt→ltb, u64_mod, arith, ok,
}
use obscura_network.Privacy.Types.{Env, Note, note_bytes, from_note, to_le_bytes, compute}
use obscura_network.Privacy.Notes.{from_note-length}
use obscura_network.Circuits.Types.{NoteData, Panic, hash_note, hash_nullifier}
use obscura_network.Circuits.Transfer.{same_asset, sum_loop, commit_outputs, nullifiers_of}
use obscura_network.Circuits.Balance.{total}
use obscura_network.Provers.{note_to_data}

append-empty : (l : Bytes) → l ++ [] ≡ l
append-empty [] = refl
append-empty (x ∷ l) = ap (λ m. x ∷ m) (append-empty l)

-- A key of 32 bytes is handed over as it is.
same_pubkey :
    (note : Note)
    → length note.owner_pubkey ≡ 32
    → (note_to_data note).owner_pubkey ≡ note.owner_pubkey
unfolding note_to_data
same_pubkey note h =
    ap (λ n. take 32 note.owner_pubkey ++ replicate n 0) {x = 32 - length note.owner_pubkey} {y = 0}
      (omega arith)
    ∙ (append-empty (take 32 note.owner_pubkey) ∙ take_all 32 note.owner_pubkey (omega arith))

-- The notes have the asset and the commitments that are given.
pub data AreNotes (env : Env) (asset_id : Bytes) : List Note → List Bytes → Type 0 where
  no_notes : AreNotes env asset_id [] []
  one_note :
      (note : Note) (c : Bytes) (notes : List Note) (commitments : List Bytes)
      → note.asset_id ≡ asset_id
      → from_note env note ≡ ok c
      → AreNotes env asset_id notes commitments
      → AreNotes env asset_id (note ∷ notes) (c ∷ commitments)

-- `Nullifier::compute` on each key and its commitment.
unfoldable pub nullifiers : Env → List Bytes → List Bytes → List Bytes
nullifiers env [] commitments = []
nullifiers env (key ∷ keys) [] = []
nullifiers env (key ∷ keys) (c ∷ commitments) = compute env key c ∷ nullifiers env keys commitments

-- The program computes the commitment that `from_note` gives.
pub note_to_data-commitment :
    (env : Env) (note : Note) (c : Bytes)
    → from_note env note ≡ ok c
    → hash_note env.sha256 (note_to_data note) ≡ c
unfolding hash_note note_to_data note_bytes
note_to_data-commitment env note c h =
    let (full, _, made) = from_note-length env note c h in
    ap (λ pk. env.sha256 (to_le_bytes 8 note.amount ++ (note.asset_id ++ (pk ++ note.salt))))
      (same_pubkey note full)
    ∙ sym made

pub note_pubkey :
    (env : Env) (note : Note) (c : Bytes)
    → from_note env note ≡ ok c
    → length (note_to_data note).owner_pubkey ≡ 32
note_pubkey env note c h =
    let (full, _, _) = from_note-length env note c h in ap length (same_pubkey note full) ∙ full

pub note_amount :
    (env : Env) (note : Note) (c : Bytes)
    → from_note env note ≡ ok c
    → 0 < (note_to_data note).amount
unfolding note_to_data
note_amount env note c h = (from_note-length env note c h).1

pub same_asset-notes :
    (env : Env) (asset_id : Bytes) (notes : List Note) (commitments : List Bytes)
    → AreNotes env asset_id notes commitments
    → same_asset asset_id (map note_to_data notes) ≡ true
unfolding same_asset note_to_data
same_asset-notes env asset_id notes commitments no_notes = refl
same_asset-notes env asset_id notes commitments (one_note note c rest cs same made more) = ground (
  arith,
  subst (λ a. bytes_eq note.asset_id a ≡ true) same (bytes_eq_self note.asset_id),
  same_asset-notes env asset_id rest cs more,
)

sum_loop-total :
    (overflow : Panic) (acc : ℕ) (notes : List NoteData)
    → acc + total notes < u64_mod
    → sum_loop overflow acc notes ≡ ok (acc + total notes)
unfolding sum_loop total
sum_loop-total overflow acc [] h = ap ok (omega arith)
sum_loop-total overflow acc (note ∷ notes) h =
    rw (lt→ltb (acc + note.amount) u64_mod (omega arith))
      (sum_loop-total overflow (acc + note.amount) notes (omega arith) ∙ ap ok (omega arith))

pub sum_loop-from_0 :
    (overflow : Panic) (notes : List NoteData)
    → total notes < u64_mod
    → sum_loop overflow 0 notes ≡ ok (total notes)
sum_loop-from_0 overflow notes h =
    sum_loop-total overflow 0 notes (omega arith) ∙ ap ok (omega arith)

pub commit_outputs-notes :
    (env : Env) (asset_id : Bytes) (notes : List Note) (commitments : List Bytes)
    → AreNotes env asset_id notes commitments
    → commit_outputs env.sha256 (map note_to_data notes) ≡ ok commitments
unfolding commit_outputs
commit_outputs-notes env asset_id notes commitments no_notes = refl
commit_outputs-notes env asset_id notes commitments (one_note note c rest cs same made more) =
    simp
      (
        lt→ltb 0 (note_to_data note).amount (note_amount env note c made),
        commit_outputs-notes env asset_id rest cs more,
        note_to_data-commitment env note c made,
      )
      refl

pub nullifiers_of-notes :
    (env : Env) (asset_id : Bytes) (notes : List Note) (commitments keys : List Bytes)
    → AreNotes env asset_id notes commitments
    → nullifiers_of env.sha256 (map note_to_data notes) keys ≡ nullifiers env keys commitments
unfolding nullifiers_of nullifiers compute hash_nullifier
nullifiers_of-notes env asset_id notes commitments [] no_notes = refl
nullifiers_of-notes env asset_id notes commitments (key ∷ keys) no_notes = refl
nullifiers_of-notes env asset_id notes commitments [] (one_note note c rest cs same made more) =
    refl
nullifiers_of-notes env asset_id notes commitments (key ∷ keys)
      (one_note note c rest cs same made more) =
    ap₂ (λ (x : Bytes) (xs : List Bytes). x ∷ xs)
      (ap (λ d. env.sha256 (key ++ d)) (note_to_data-commitment env note c made))
      (nullifiers_of-notes env asset_id rest cs keys more)
