-- ===== src/Privacy/Spend.antt =====
-- The nullifiers that a call marks as spent.
use mathlib.Core.List.{Memᴰ}
use obscura_network.Prelude.{
  ◌≡◌, ◌≢◌, sym, subst, ◌⊎◌, ◌↔◌, inl, inr, true, List, [], ◌∷◌, Bytes, Bytes_Eq, bytes_eq,
  bytes_eq_self, bytes_eq_sound, Bool-cases, arith, ok,
}
use obscura_network.Privacy.Types.{
  Env, CallMessage, shield, transfer, unshield, update_sanctions_root, PrivacyEvent,
}
use obscura_network.Privacy.Zk.{is_empty}
use obscura_network.Privacy.State.{State, inserted}
use obscura_network.Privacy.Handlers.{
  Context, push_commitment, store_note, add_supply, remove_supply, is_spent, any_spent, mark_spent,
  mark_all, count_transfer, call,
}
use obscura_network.Privacy.Success.{
  with_leaf, handle_shield-ok, handle_transfer-ok, handle_unshield-ok,
  handle_update_sanctions_root-ok,
}
use obscura_network.Privacy.Keeps.{IsKept, add_outputs-kept, call-kept}

abbrev pub Spent : Bytes → State → Type 0
Spent n s = is_spent n s ≡ true

module _ (n : Bytes) where
  mark_spent-Spent : (m : Bytes) (s : State) → Spent n s → Spent n (mark_spent m s)
  unfolding mark_spent is_spent
  mark_spent-Spent m s p = elim (Bool-cases (bytes_eq m n)) [
    | inl same ↦ rw same
    | inr other ↦ rw other p
  ]

  store_note-Spent :
      (env : Env) (c e : Bytes) (s : State) → Spent n s → Spent n (store_note env c e s)
  unfolding store_note is_spent
  store_note-Spent env c e s p = elim (Bool-cases (is_empty e)) [
    | inl b ↦ rw (b, store_note) p
    | inr b ↦ rw (b, store_note) p
  ]

  Spent-store_note :
      (env : Env) (c e : Bytes) (s : State) → Spent n (store_note env c e s) → Spent n s
  unfolding store_note is_spent
  Spent-store_note env c e s p = elim (Bool-cases (is_empty e)) [
    | inl b ↦ rw (b, store_note) at p
    | inr b ↦ rw (b, store_note) at p
  ]

  pub Spent-kept : (env : Env) → IsKept env (Spent n)
  unfolding with_leaf inserted push_commitment add_supply remove_supply count_transfer is_spent
  Spent-kept env = record {
    by_leaf = λ c s room p. p;
    by_note = store_note-Spent env;
    by_add = λ a k s p. p;
    by_remove = λ a k s p. p;
    by_mark = mark_spent-Spent;
    by_count = λ k s p. p;
    by_root = λ r s p. p;
  }

  mark_all-Spent : (l : List Bytes) (s : State) → Spent n s → Spent n (mark_all l s)
  unfolding mark_all
  mark_all-Spent [] s p = p
  mark_all-Spent (m ∷ l) s p = mark_all-Spent l (mark_spent m s) (mark_spent-Spent m s p)

  mark_spent_self : (s : State) → Spent n (mark_spent n s)
  unfolding mark_spent is_spent
  mark_spent_self s = rw (bytes_eq_self n)

  mark_all-marks : (l : List Bytes) (s : State) → Memᴰ n l → Spent n (mark_all l s)
  unfolding mark_all
  mark_all-marks [] s h = elim h [ ]
  mark_all-marks (m ∷ l) s (Memᴰ.head e) =
      mark_all-Spent l (mark_spent m s)
        (subst (λ k. Spent n (mark_spent k s)) e (mark_spent_self s))
  mark_all-marks (m ∷ l) s (Memᴰ.tail h) = mark_all-marks l (mark_spent m s) h

  any_spent-true : (l : List Bytes) (s : State) → Memᴰ n l → Spent n s → any_spent l s ≡ true
  unfolding any_spent
  any_spent-true [] s h p = elim h [ ]
  any_spent-true (m ∷ l) s (Memᴰ.head e) p = rw (subst (λ k. Spent k s) e p)
  any_spent-true (m ∷ l) s (Memᴰ.tail h) p = ground (arith, any_spent-true l s h p)

  -- Marking other nullifiers.
  Spent-mark_spent :
      (m : Bytes) (s : State) → is_spent n (mark_spent m s) ≡ true → (n ≡ m) ⊎ Spent n s
  unfolding mark_spent is_spent
  Spent-mark_spent m s h = elim (Bool-cases (bytes_eq m n)) [
    | inl same ↦ inl (sym (bytes_eq_sound m n same))
    | inr other ↦ inr (rw other at h)
  ]

  Spent-mark_all : (l : List Bytes) (s : State) → Spent n (mark_all l s) → Memᴰ n l ⊎ Spent n s
  unfolding mark_all
  Spent-mark_all [] s h = inr h
  Spent-mark_all (m ∷ l) s h = elim (Spent-mark_all l (mark_spent m s) h) [
    | inl later ↦ inl (Memᴰ.tail later)
    | inr p ↦ elim (Spent-mark_spent m s p) [ inl e ↦ inl (Memᴰ.head e) | inr old ↦ inr old ]
  ]

-- The nullifiers that a call spends.
abbrev pub Spends : CallMessage → Bytes → Type 0
Spends (shield msg) n = ⊥
Spends (transfer msg) n = Memᴰ n msg.nullifiers
Spends (unshield msg) n = n ≡ msg.nullifier
Spends (update_sanctions_root msg) n = ⊥

module _ (env : Env) (context : Context) (event : PrivacyEvent) (s s' : State) (n : Bytes) where
  -- After a call that succeeds, the nullifiers that it spends are spent.
  pub call-Spends :
      (msg : CallMessage) → call env context msg s ≡ (ok event, s') → Spends msg n → Spent n s'
  unfolding call
  call-Spends (shield msg) h m = absurd m
  call-Spends (transfer msg) h m =
      let (_, _, _, _, _, _, (t, added, e)) = handle_transfer-ok env s s' event context msg h in
      let k = Spent-kept n env in
      subst (Spent n) (sym e) (
        k.by_count _ t (
          add_outputs-kept env (Spent n) k.by_leaf k.by_note msg.encrypted_outputs 0
            msg.output_commitments _ t added (mark_all-marks n msg.nullifiers s m)))
  call-Spends (unshield msg) h m =
      let (_, _, _, e) = handle_unshield-ok env s s' event msg h in
      let k = Spent-kept n env in
      subst (Spent n) (sym e)
        (k.by_remove _ _ _ (subst (λ x. Spent n (mark_spent x s)) m (mark_spent_self n s)))
  call-Spends (update_sanctions_root msg) h m = absurd m

  -- A call that spends a spent nullifier does not succeed.
  pub Spent-refused :
      (msg : CallMessage) → Spends msg n → Spent n s → call env context msg s ≢ (ok event, s')
  unfolding call
  Spent-refused (shield msg) m p h = absurd m
  Spent-refused (transfer msg) m p h =
      let (_, _, _, _, _, fresh, _) = handle_transfer-ok env s s' event context msg h in
      cc (fresh, any_spent-true n msg.nullifiers s m p)
  Spent-refused (unshield msg) m p h =
      let (_, fresh, _, _) = handle_unshield-ok env s s' event msg h in
      cc (fresh, subst (λ x. Spent x s) m p)
  Spent-refused (update_sanctions_root msg) m p h = absurd m

  -- And no other nullifier becomes spent.
  Spent-call :
      (msg : CallMessage)
      → call env context msg s ≡ (ok event, s')
      → Spent n s'
      → Spends msg n ⊎ Spent n s
  unfolding call with_leaf inserted push_commitment add_supply remove_supply count_transfer is_spent
  Spent-call (shield msg) h p =
      let (c, _, _, _, e) = handle_shield-ok env s s' event msg h in
      inr (Spent-store_note n env c msg.encrypted_note (with_leaf env c s) (subst (Spent n) e p))
  Spent-call (transfer msg) h p =
      let (_, _, _, _, _, _, (t, added, e)) = handle_transfer-ok env s s' event context msg h in
      Spent-mark_all n msg.nullifiers s (
        add_outputs-kept env (λ u. Spent n u → Spent n (mark_all msg.nullifiers s))
          (λ c u room f. f) (λ c e u f q. f (Spent-store_note n env c e u q)) msg.encrypted_outputs
          0 msg.output_commitments _ t added (λ q. q) (subst (Spent n) e p))
  Spent-call (unshield msg) h p =
      let (_, _, _, e) = handle_unshield-ok env s s' event msg h in
      Spent-mark_spent n msg.nullifier s (subst (Spent n) e p)
  Spent-call (update_sanctions_root msg) h p =
      let (_, _, e) = handle_update_sanctions_root-ok env s s' event context msg h in
      inr (subst (Spent n) e p)

-- After a call that succeeds, the spent nullifiers are those that were spent before and those that the
-- call spends.
pub call-is_spent_iff :
    (env : Env) (context : Context) (msg : CallMessage) (event : PrivacyEvent) (s s' : State)
    (n : Bytes)
    → call env context msg s ≡ (ok event, s')
    → (is_spent n s' ≡ true) ↔ (Spends msg n ⊎ (is_spent n s ≡ true))
call-is_spent_iff env context msg event s s' n h = (
  Spent-call env context event s s' n msg h,
  elim [
    | inl m ↦ call-Spends env context event s s' n msg h m
    | inr p ↦ call-kept env (Spent n) (Spent-kept n env) context msg event s s' h p
  ],
)
