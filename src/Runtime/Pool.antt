-- ===== src/Runtime/Pool.antt =====
-- The tree of commitments, whichever module inserts into it.
use obscura_network.Prelude.{◌+◌, ◌<◌, ◌≤◌, ◌≡◌, ◌↔◌, ℕ, true, some, Bytes, length, take}
use obscura_network.Merkle.{roots_history_size}
use obscura_network.Merkle.Tree.{tree_root}
use obscura_network.Privacy.State.{is_known_root}
use obscura_network.Privacy.Keeps.{call-kept}
use obscura_network.Privacy.Roots.{is_known_root_iff}
use obscura_network.Privacy.Handlers.{add_supply}
use obscura_network.Privacy.Pool.{IsPool, IsPool-genesis, IsPool-with_leaf, IsPool-kept}
use obscura_network.Bridge.Types.{Env, State, BridgeConfig}
use obscura_network.Bridge.Handlers.{
  record_withdrawal, advance_head, count_claim, mark_claimed, genesis,
}
use obscura_network.Bridge.Success.{claimed}
use obscura_network.Runtime.{start, Reach}
use obscura_network.Runtime.Keeps.{IsKept, Reach-kept}

module _ (env : Env) where
  abbrev HasPool : State → Type 0
  HasPool s = IsPool env.privacy s.obscura_privacy

  HasPool-kept : IsKept env HasPool
  unfolding claimed record_withdrawal advance_head count_claim mark_claimed add_supply
  HasPool-kept = record {
    by_pool = λ context msg event pool s h p.
        call-kept env.privacy (IsPool env.privacy) (IsPool-kept env.privacy) context msg event
          s.obscura_privacy pool h p;
    by_claim = λ claim s config fresh room p.
        IsPool-with_leaf env.privacy claim.public_inputs.obscura_recipient s.obscura_privacy room p;
    by_withdrawal = λ msg n id s p. p;
    by_head = λ update s forward p. p;
  }

  HasPool-start : (config : BridgeConfig) → HasPool (start env config)
  unfolding start genesis
  HasPool-start config = IsPool-genesis env.privacy

-- After any successful calls of either module from genesis, the stored root is that of the tree over the list
-- of commitments, the next index is the length of the list, and a root is known exactly when it is
-- the root after one of the last 100 insertions.
pub Reach-tree :
    (env : Env) (config : BridgeConfig) (s : State)
    → Reach env (start env config) s
    → (s.obscura_privacy.merkle_root ≡ some (tree_root env.sha256 s.obscura_privacy.commitments))
      × (s.obscura_privacy.merkle_next_index ≡ some (length s.obscura_privacy.commitments))
      × ((root : Bytes)
          → (is_known_root root s.obscura_privacy ≡ true) ↔ (
              (k : ℕ) × (k < length s.obscura_privacy.commitments)
              × (length s.obscura_privacy.commitments ≤ k + roots_history_size)
              × (root ≡ tree_root env.sha256 (take (k + 1) s.obscura_privacy.commitments))))
Reach-tree env config s r =
    let p = Reach-kept env (HasPool env) (HasPool-kept env) r (HasPool-start env config) in
    (
      p.root,
      p.next,
      λ root. is_known_root_iff env.privacy s.obscura_privacy.commitments s.obscura_privacy root p,
    )
