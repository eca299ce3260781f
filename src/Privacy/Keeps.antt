-- ===== src/Privacy/Keeps.antt =====
-- What the steps of the handlers keep: one lemma to carry a predicate through a whole call.
use obscura_network.Prelude.{
  ℕ, ◌+◌, ◌≡◌, sym, ap, subst, true, Option, none, some, List, [], ◌∷◌, Bytes, get_elem?, arith,
  Result, ok,
}
use obscura_network.Privacy.Types.{
  Env, CallMessage, shield, transfer, unshield, update_sanctions_root, PrivacyEvent,
}
use obscura_network.Privacy.State.{State, insert_commitment, has_room}
use obscura_network.Privacy.Handlers.{
  Context, push_commitment, store_note, store_output, add_supply, remove_supply, mark_spent,
  mark_all, add_outputs, count_transfer, call,
}
use obscura_network.Privacy.Success.{
  with_leaf, handle_shield-ok, handle_transfer-ok, handle_unshield-ok,
  handle_update_sanctions_root-ok,
}

-- A predicate that every write of the module keeps.
pub record IsKept (env : Env) (P : State → Type 0) : Type 0 where
  pub by_leaf : (c : Bytes) (s : State) → has_room s ≡ true → P s → P (with_leaf env c s)
  pub by_note : (c e : Bytes) (s : State) → P s → P (store_note env c e s)
  pub by_add : (a : Bytes) (n : ℕ) (s : State) → P s → P (add_supply a n s)
  pub by_remove : (a : Bytes) (n : ℕ) (s : State) → P s → P (remove_supply a n s)
  pub by_mark : (n : Bytes) (s : State) → P s → P (mark_spent n s)
  pub by_count : (n : ℕ) (s : State) → P s → P (count_transfer n s)
  pub by_root : (r : Bytes) (s : State) → P s → P (record s { sanctions_root = some r })

module _ (env : Env) where
  pub add_outputs-step :
      (encrypted : List Bytes) (i : ℕ) (c : Bytes) (rest : List Bytes) (s t : State)
      → add_outputs env encrypted i (c ∷ rest) s ≡ (ok tt, t)
      → (has_room s ≡ true)
        × (add_outputs env encrypted
              (i + 1)
              rest
              (store_output env c (get_elem? encrypted i) (with_leaf env c s))
            ≡ (ok tt, t))
  unfolding add_outputs insert_commitment with_leaf push_commitment has_room
  add_outputs-step encrypted i c rest s t h = (ground arith, ground arith)

-- What every output of a transfer keeps, the whole loop keeps.
module _ (env : Env) (P : State → Type 0)
    (by_leaf : (c : Bytes) (s : State) → has_room s ≡ true → P s → P (with_leaf env c s))
    (by_note : (c e : Bytes) (s : State) → P s → P (store_note env c e s)) where
  store_output-kept : (c : Bytes) (o : Option Bytes) (s : State) → P s → P (store_output env c o s)
  unfolding store_output
  store_output-kept c none s p = p
  store_output-kept c (some e) s p = by_note c e s p

  pub add_outputs-kept :
      (encrypted : List Bytes) (i : ℕ) (l : List Bytes) (s t : State)
      → add_outputs env encrypted i l s ≡ (ok tt, t)
      → P s
      → P t
  unfolding add_outputs
  add_outputs-kept encrypted i [] s t h p =
      subst P (ap (λ (r : Result _ (Unit {0}) × State). r.1) h) p
  add_outputs-kept encrypted i (c ∷ l) s t h p =
      let (room, next) = add_outputs-step env encrypted i c l s t h in
      add_outputs-kept encrypted (i + 1) l _ t next
        (store_output-kept c (get_elem? encrypted i) _ (by_leaf c s room p))

module _ (env : Env) (P : State → Type 0) (k : IsKept env P) where
  mark_all-kept : (l : List Bytes) (s : State) → P s → P (mark_all l s)
  unfolding mark_all
  mark_all-kept [] s p = p
  mark_all-kept (n ∷ l) s p = mark_all-kept l (mark_spent n s) (k.by_mark n s p)

  -- A call that succeeds keeps the predicate.
  pub call-kept :
      (context : Context) (msg : CallMessage) (event : PrivacyEvent) (s s' : State)
      → call env context msg s ≡ (ok event, s')
      → P s
      → P s'
  unfolding call
  call-kept context (shield msg) event s s' h p =
      let (c, _, room, _, e) = handle_shield-ok env s s' event msg h in
      subst P (sym e) (k.by_add _ _ _ (k.by_note c _ _ (k.by_leaf c s room p)))
  call-kept context (transfer msg) event s s' h p =
      let (_, _, _, _, _, _, (t, added, e)) = handle_transfer-ok env s s' event context msg h in
      subst P (sym e) (
        k.by_count _ t (
          add_outputs-kept env P k.by_leaf k.by_note msg.encrypted_outputs 0 msg.output_commitments
            _ t added (mark_all-kept msg.nullifiers s p)))
  call-kept context (unshield msg) event s s' h p =
      let (_, _, _, e) = handle_unshield-ok env s s' event msg h in
      subst P (sym e) (k.by_remove _ _ _ (k.by_mark _ s p))
  call-kept context (update_sanctions_root msg) event s s' h p =
      let (_, _, e) = handle_update_sanctions_root-ok env s s' event context msg h in
      subst P (sym e) (k.by_root _ s p)

-- Any number of calls that succeed, one after another.
pub data Later (env : Env) (s : State) : State → Type 0 where
  now : Later env s s
  next :
      {t u : State} (context : Context) (msg : CallMessage) (event : PrivacyEvent)
      → Later env s t
      → call env context msg t ≡ (ok event, u)
      → Later env s u

pub Later-kept :
    (env : Env) (P : State → Type 0) (k : IsKept env P) {s t : State} → Later env s t → P s → P t
Later-kept env P k now p = p
Later-kept env P k (next context msg event r h) p =
    call-kept env P k context msg event _ _ h (Later-kept env P k r p)
