-- ===== src/Privacy/Accepted.antt =====
-- The checks behind an accepted transfer.
use obscura_network.Prelude.{
  ℕ, ◌+◌, ◌<◌, ◌≤◌, ◌≡◌, ◌≢◌, sym, ap, ◌∙◌, ◌⊎◌, inl, inr, Bool, true, ◌||◌, Option, some, Bytes,
  bytes_eq_iff, Bytes_Eq, unwrap_or, length, take, arith, ok,
}
use obscura_network.Merkle.{zero_bytes, roots_history_size}
use obscura_network.Merkle.Tree.{tree_root}
use obscura_network.Privacy.Types.{Env, TransferMessage, PrivacyEvent, sanctions_proof_max_age_secs}
use obscura_network.Privacy.State.{State}
use obscura_network.Privacy.Pool.{IsPool}
use obscura_network.Privacy.Roots.{is_known_root_iff}
use obscura_network.Privacy.Handlers.{
  Context, root_allowed, sanctions_current, sanctions_fresh, handle_transfer,
}
use obscura_network.Privacy.Success.{handle_transfer-ok}

or_cases : (a b : Bool) → (a || b) ≡ true → (a ≡ true) ⊎ (b ≡ true)
or_cases a b h = ground arith

-- In a pool that holds the tree over its commitments, a transfer that is accepted claims the zero root or one of the last 100
-- roots of the tree; its sanctions proof uses the root that is set, if one other than zero is; and
-- if it has a time stamp other than zero, no more than 24 hours have passed since.
pub accepted-checks :
    (env : Env) (context : Context) (msg : TransferMessage) (event : PrivacyEvent) (s s' : State)
    → IsPool env s
    → handle_transfer env context msg s ≡ (ok event, s')
    → ((msg.public_inputs.merkle_root ≡ zero_bytes)
        ⊎ ((k : ℕ) × (k < length s.commitments)
            × (length s.commitments ≤ k + roots_history_size)
            × (msg.public_inputs.merkle_root ≡ tree_root env.sha256 (take (k + 1) s.commitments))))
      × ((root : Bytes)
          → s.sanctions_root ≡ some root
          → root ≢ zero_bytes
          → msg.sanctions_public_inputs.sanctions_root ≡ root)
      × (0 < msg.sanctions_public_inputs.proof_timestamp
          → context.now_secs
            ≤ msg.sanctions_public_inputs.proof_timestamp + sanctions_proof_max_age_secs)
unfolding root_allowed sanctions_current sanctions_fresh
accepted-checks env context msg event s s' pool h =
    let (root, _, current, fresh, _, _, _) = handle_transfer-ok env s s' event context msg h in
    (
      elim (or_cases _ _ root) [
        | inl zero_root ↦ inl ((bytes_eq_iff _ _).0 zero_root)
        | inr known ↦
            inr ((is_known_root_iff env s.commitments s msg.public_inputs.merkle_root pool).0 known)
      ],
      (λ r e ne.
          let stored : unwrap_or s.sanctions_root zero_bytes ≡ r =
            ap (λ (o : Option Bytes). unwrap_or o zero_bytes) e in
          elim (or_cases _ _ current) [
            | inl unset ↦ absurd (ne (sym stored ∙ (bytes_eq_iff _ _).0 unset))
            | inr same ↦ (bytes_eq_iff _ _).0 same ∙ stored
          ]),
      λ pos. ground arith,
    )
