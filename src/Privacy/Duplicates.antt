-- ===== src/Privacy/Duplicates.antt =====
-- One transfer that lists a nullifier twice: the check runs before any of them is marked.
use obscura_network.Prelude.{
  ◌%◌, ◌^◌, ◌≡◌, ap, fun_ext, inl, inr, Bool, true, List, ◌∷◌, Bytes, StateMap, insert, Bytes_Eq,
  bytes_eq, length, Bool-cases, arith, ok,
}
use obscura_network.Privacy.Types.{Env, TransferMessage, PrivacyEvent, private_transfer}
use obscura_network.Privacy.State.{State}
use obscura_network.Privacy.Handlers.{
  Context, any_spent, mark_spent, mark_all, handle_transfer, root_allowed, sanctions_current,
  sanctions_fresh,
}

insert_twice :
    (m : StateMap Bytes Bool) (n : Bytes) (b : Bool) → insert (insert m n b) n b ≡ insert m n b
insert_twice m n b =
    fun_ext λ j. elim (Bool-cases (bytes_eq n j)) [ inl same ↦ rw same | inr other ↦ rw other ]

mark_spent_twice : (n : Bytes) (s : State) → mark_spent n (mark_spent n s) ≡ mark_spent n s
unfolding mark_spent
mark_spent_twice n s =
    ap (λ (m : StateMap Bytes Bool). record s { nullifiers = m }) (insert_twice s.nullifiers n true)

any_spent_twice :
    (n : Bytes) (l : List Bytes) (s : State) → any_spent (n ∷ n ∷ l) s ≡ any_spent (n ∷ l) s
unfolding any_spent
any_spent_twice n l s = ground arith

-- A transfer that spends `n` and the nullifiers of `l`, and is accepted, is also accepted when it
-- lists `n` twice, and leaves the same state.
pub duplicate_accepted :
    (env : Env) (context : Context) (msg : TransferMessage) (s s' : State) (event : PrivacyEvent)
    (n : Bytes) (l : List Bytes)
    → handle_transfer env context (record msg { nullifiers = n ∷ l }) s ≡ (ok event, s')
    → handle_transfer env context (record msg { nullifiers = n ∷ n ∷ l }) s ≡ (
      ok (private_transfer (length (n ∷ n ∷ l) % 2 ^ 32) (length msg.output_commitments % 2 ^ 32)),
      s',
    )
unfolding handle_transfer root_allowed sanctions_current sanctions_fresh mark_all
duplicate_accepted env context msg s s' event n l h =
    ground (arith, any_spent_twice n l s, mark_spent_twice n s)
