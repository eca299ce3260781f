-- ===== src/Privacy/Effects.antt =====
-- What the calls do to the list of commitments, the supply and the counters.
use obscura_network.Prelude.{
  ℕ, ◌+◌, ◌≡◌, refl, sym, ap, ap₂, ◌∙◌, inl, inr, Option, none, some, List, [], ◌∷◌, ◌++◌, Bytes,
  StateMap, ◌==◌, Bytes_Eq, bytes_eq, bytes_eq_sound, unwrap_or, get_elem?, wrapping_add,
  saturating_sub, Bool-cases, arith, Result, ok, if◌then◌else◌,
}
use mathlib.Core.List.{append_assoc, append-nil}
use obscura_network.Privacy.Types.{
  Env, Error, CallMessage, shield, transfer, unshield, update_sanctions_root, PrivacyEvent,
  from_note,
}
use obscura_network.Privacy.State.{State, inserted}
use obscura_network.Privacy.Handlers.{
  Context, push_commitment, store_note, store_output, add_supply, remove_supply, mark_spent,
  mark_all, add_outputs, count_transfer, call,
}
use obscura_network.Privacy.Success.{
  with_leaf, handle_shield-ok, handle_transfer-ok, handle_unshield-ok,
  handle_update_sanctions_root-ok,
}
use obscura_network.Privacy.Keeps.{add_outputs-kept, add_outputs-step}

pub supply : Bytes → State → ℕ
supply asset s = unwrap_or (s.shielded_supply asset) 0

-- The commitments that a call adds.
pub Adds : Env → CallMessage → List Bytes → Type 0
Adds env (shield msg) l = (c : Bytes) × (from_note env msg.note ≡ ok c) × (l ≡ c ∷ [])
Adds env (transfer msg) l = l ≡ msg.output_commitments
Adds env (unshield msg) l = l ≡ []
Adds env (update_sanctions_root msg) l = l ≡ []

-- The supply of an asset after a call.
pub supply_after : Bytes → CallMessage → ℕ → ℕ
supply_after asset (shield msg) n =
    if msg.note.asset_id == asset then wrapping_add n msg.note.amount else n
supply_after asset (transfer msg) n = n
supply_after asset (unshield msg) n =
    if msg.public_inputs.asset_id == asset then saturating_sub n msg.public_inputs.amount else n
supply_after asset (update_sanctions_root msg) n = n

-- The counters after a call.
pub counters_after : CallMessage → ℕ × ℕ → ℕ × ℕ
counters_after (transfer msg) (count, total) =
    (wrapping_add count 1, wrapping_add total msg.public_inputs.transfer_amount)
counters_after _ p = p

store_note-commitments :
    (env : Env) (c e : Bytes) (s : State) → (store_note env c e s).commitments ≡ s.commitments
unfolding store_note
store_note-commitments env c e s = ground arith

store_note-supply :
    (env : Env) (c e : Bytes) (s : State) (a : Bytes) → supply a (store_note env c e s) ≡ supply a s
unfolding store_note supply
store_note-supply env c e s a = ground arith

add_supply-supply :
    (a asset : Bytes) (n : ℕ) (s : State)
    → supply asset (add_supply a n s)
      ≡ (if bytes_eq a asset then wrapping_add (supply asset s) n else supply asset s)
unfolding supply add_supply
add_supply-supply a asset n s = elim (Bool-cases (bytes_eq a asset)) [
  | inl same ↦
      rw same
        (ap (λ x. wrapping_add (unwrap_or (s.shielded_supply x) 0) n) (bytes_eq_sound a asset same))
  | inr other ↦ rw other
]

remove_supply-supply :
    (a asset : Bytes) (n : ℕ) (s : State)
    → supply asset (remove_supply a n s)
      ≡ (if bytes_eq a asset then saturating_sub (supply asset s) n else supply asset s)
unfolding supply remove_supply
remove_supply-supply a asset n s = elim (Bool-cases (bytes_eq a asset)) [
  | inl same ↦
      rw same (
        ap (λ x. saturating_sub (unwrap_or (s.shielded_supply x) 0) n)
          (bytes_eq_sound a asset same))
  | inr other ↦ rw other
]

store_output-commitments :
    (env : Env) (c : Bytes) (o : Option Bytes) (s : State)
    → (store_output env c o s).commitments ≡ s.commitments
unfolding store_output
store_output-commitments env c none s = refl
store_output-commitments env c (some e) s = store_note-commitments env c e s

mark_all-same :
    (l : List Bytes) (s : State)
    → ((mark_all l s).commitments ≡ s.commitments)
      × ((mark_all l s).shielded_supply ≡ s.shielded_supply)
      × ((mark_all l s).compliance_tx_count ≡ s.compliance_tx_count)
      × ((mark_all l s).compliance_total_volume ≡ s.compliance_total_volume)
unfolding mark_all mark_spent
mark_all-same [] s = (refl, refl, refl, refl)
mark_all-same (n ∷ l) s = mark_all-same l (mark_spent n s)

with_leaf-commitments :
    (env : Env) (c : Bytes) (s : State) → (with_leaf env c s).commitments ≡ s.commitments ++ c ∷ []
unfolding with_leaf inserted push_commitment
with_leaf-commitments env c s = refl

with_leaf-supply :
    (env : Env) (c : Bytes) (s : State) (a : Bytes) → supply a (with_leaf env c s) ≡ supply a s
unfolding with_leaf inserted push_commitment supply
with_leaf-supply env c s a = refl

add_outputs-commitments :
    (env : Env) (encrypted : List Bytes) (i : ℕ) (l : List Bytes) (s t : State)
    → add_outputs env encrypted i l s ≡ (ok tt, t)
    → t.commitments ≡ s.commitments ++ l
unfolding add_outputs
add_outputs-commitments env encrypted i [] s t h =
    ap (λ (r : Result Error (Unit {0}) × State). (r.1).commitments) (sym h)
    ∙ sym (append-nil s.commitments)
add_outputs-commitments env encrypted i (c ∷ l) s t h =
    let (room, next) = add_outputs-step env encrypted i c l s t h in
    add_outputs-commitments env encrypted (i + 1) l _ t next
    ∙ (ap (λ x. x ++ l)
          (store_output-commitments env c (get_elem? encrypted i) (with_leaf env c s)
            ∙ with_leaf-commitments env c s)
        ∙ append_assoc s.commitments (c ∷ []) l)

-- A call that succeeds appends to the list of commitments that of the note, for a shield, and the
-- outputs in their order, for a transfer; nothing, for the others.
pub call-commitments :
    (env : Env) (context : Context) (msg : CallMessage) (event : PrivacyEvent) (s s' : State)
    → call env context msg s ≡ (ok event, s')
    → (l : List Bytes) × Adds env msg l × (s'.commitments ≡ s.commitments ++ l)
unfolding call Adds add_supply remove_supply count_transfer mark_spent
call-commitments env context (shield msg) event s s' h =
    let (c, valid, _, _, e) = handle_shield-ok env s s' event msg h in
    (
      c ∷ [],
      (c, valid, refl),
      ap (λ (t : State). t.commitments) e
          ∙ (store_note-commitments env c msg.encrypted_note (with_leaf env c s)
              ∙ with_leaf-commitments env c s),
    )
call-commitments env context (transfer msg) event s s' h =
    let (_, _, _, _, _, _, (t, added, e)) = handle_transfer-ok env s s' event context msg h in
    (
      msg.output_commitments,
      refl,
      ap (λ (t : State). t.commitments) e
          ∙ (add_outputs-commitments env msg.encrypted_outputs 0 msg.output_commitments _ t added
              ∙ ap (λ x. x ++ msg.output_commitments) (mark_all-same msg.nullifiers s).0),
    )
call-commitments env context (unshield msg) event s s' h =
    let (_, _, _, e) = handle_unshield-ok env s s' event msg h in
    ([], refl, ap (λ (t : State). t.commitments) e ∙ sym (append-nil s.commitments))
call-commitments env context (update_sanctions_root msg) event s s' h =
    let (_, _, e) = handle_update_sanctions_root-ok env s s' event context msg h in
    ([], refl, ap (λ (t : State). t.commitments) e ∙ sym (append-nil s.commitments))

-- A call that succeeds changes the supply of an asset as follows: a shield of the asset adds the
-- note's amount, modulo 2^64; an unshield of it takes the amount off, down to 0; all else leaves it.
pub call-supply :
    (env : Env) (context : Context) (msg : CallMessage) (event : PrivacyEvent) (s s' : State)
    (asset : Bytes)
    → call env context msg s ≡ (ok event, s')
    → supply asset s' ≡ supply_after asset msg (supply asset s)
unfolding call supply_after supply with_leaf inserted push_commitment count_transfer mark_spent
call-supply env context (shield msg) event s s' asset h =
    let (c, _, _, _, e) = handle_shield-ok env s s' event msg h in
    ap (supply asset) e
    ∙ (add_supply-supply msg.note.asset_id asset msg.note.amount
          (store_note env c msg.encrypted_note (with_leaf env c s))
        ∙ ap (λ n. if bytes_eq msg.note.asset_id asset then wrapping_add n msg.note.amount else n)
            (store_note-supply env c msg.encrypted_note (with_leaf env c s) asset
              ∙ with_leaf-supply env c s asset))
call-supply env context (transfer msg) event s s' asset h =
    let (_, _, _, _, _, _, (t, added, e)) = handle_transfer-ok env s s' event context msg h in
    ap (supply asset) e
    ∙ (add_outputs-kept env (λ u. supply asset u ≡ supply asset s) (λ c u room f. f)
        (λ c k u f. store_note-supply env c k u asset ∙ f) msg.encrypted_outputs 0
        msg.output_commitments _ t added
        (ap (λ (m : StateMap Bytes ℕ). unwrap_or (m asset) 0) (mark_all-same msg.nullifiers s).1))
call-supply env context (unshield msg) event s s' asset h =
    let (_, _, _, e) = handle_unshield-ok env s s' event msg h in
    ap (supply asset) e
    ∙ remove_supply-supply msg.public_inputs.asset_id asset msg.public_inputs.amount
        (mark_spent msg.nullifier s)
call-supply env context (update_sanctions_root msg) event s s' asset h =
    let (_, _, e) = handle_update_sanctions_root-ok env s s' event context msg h in
    ap (supply asset) e

-- The two counters, as a pair.
pub counters : State → ℕ × ℕ
counters s = (unwrap_or s.compliance_tx_count 0, unwrap_or s.compliance_total_volume 0)

store_note-counters :
    (env : Env) (c e : Bytes) (s : State) → counters (store_note env c e s) ≡ counters s
unfolding store_note counters
store_note-counters env c e s = ground arith

-- A call that succeeds changes the compliance counters only if it is a transfer: then it counts one
-- more transaction and adds the amount that the transfer states, both modulo 2^64.
pub call-counters :
    (env : Env) (context : Context) (msg : CallMessage) (event : PrivacyEvent) (s s' : State)
    → call env context msg s ≡ (ok event, s')
    → counters s' ≡ counters_after msg (counters s)
unfolding call counters_after counters with_leaf inserted push_commitment add_supply remove_supply
    count_transfer mark_spent
call-counters env context (shield msg) event s s' h =
    let (c, _, _, _, e) = handle_shield-ok env s s' event msg h in
    ap counters e ∙ store_note-counters env c msg.encrypted_note (with_leaf env c s)
call-counters env context (transfer msg) event s s' h =
    let (_, _, _, _, _, _, (t, added, e)) = handle_transfer-ok env s s' event context msg h in
    ap counters e
    ∙ ap (counters_after (transfer msg)) (
        add_outputs-kept env (λ u. counters u ≡ counters s) (λ c u room f. f)
          (λ c k u f. store_note-counters env c k u ∙ f) msg.encrypted_outputs 0
          msg.output_commitments _ t added
          (ap₂ (λ (a b : Option ℕ). (unwrap_or a 0, unwrap_or b 0))
            (mark_all-same msg.nullifiers s).2 (mark_all-same msg.nullifiers s).3))
call-counters env context (unshield msg) event s s' h =
    let (_, _, _, e) = handle_unshield-ok env s s' event msg h in ap counters e
call-counters env context (update_sanctions_root msg) event s s' h =
    let (_, _, e) = handle_update_sanctions_root-ok env s s' event context msg h in ap counters e
