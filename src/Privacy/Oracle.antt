-- ===== src/Privacy/Oracle.antt =====
-- Who may set the sanctions root.
use obscura_network.Prelude.{◌≡◌, refl, inl, inr, none, some, Bytes, Bool-cases, arith, ok}
use obscura_network.Privacy.Types.{Env, UpdateSanctionsRootMessage, sanctions_root_updated}
use obscura_network.Privacy.Zk.{is_empty}
use obscura_network.Privacy.State.{State, blank, genesis, inserted}
use obscura_network.Privacy.Handlers.{
  Context, push_commitment, store_note, add_supply, remove_supply, mark_spent, count_transfer,
  may_update_root, handle_update_sanctions_root,
}
use obscura_network.Privacy.Success.{with_leaf}
use obscura_network.Privacy.Keeps.{IsKept, Later, Later-kept}

abbrev NoOracle : State → Type 0
NoOracle s = s.sanctions_oracle ≡ none

NoOracle-store_note :
    (env : Env) (c e : Bytes) (s : State) → NoOracle s → NoOracle (store_note env c e s)
unfolding store_note
NoOracle-store_note env c e s p = elim (Bool-cases (is_empty e)) [
  | inl b ↦ rw (b, store_note) p
  | inr b ↦ rw (b, store_note) p
]

NoOracle-kept : (env : Env) → IsKept env NoOracle
unfolding with_leaf inserted push_commitment add_supply remove_supply mark_spent count_transfer
NoOracle-kept env = record {
  by_leaf = λ c s room p. p;
  by_note = NoOracle-store_note env;
  by_add = λ a k s p. p;
  by_remove = λ a k s p. p;
  by_mark = λ n s p. p;
  by_count = λ k s p. p;
  by_root = λ r s p. p;
}

-- After any successful calls of the pool from its genesis, whoever asks replaces the sanctions root.
pub anyone_updates_root :
    (env : Env) (s : State) (context : Context) (msg : UpdateSanctionsRootMessage)
    → Later env (genesis env blank) s
    → handle_update_sanctions_root context msg s
      ≡ (ok (sanctions_root_updated msg.new_root), record s { sanctions_root = some msg.new_root })
unfolding handle_update_sanctions_root may_update_root genesis
anyone_updates_root env s context msg r =
    let e : s.sanctions_oracle ≡ none = Later-kept env NoOracle (NoOracle-kept env) r refl in
    ground arith
