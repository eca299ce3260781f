-- ===== src/Runtime/Spending.antt =====
-- A spent nullifier and the calls of the two modules that come later.
use obscura_network.Prelude.{◌≡◌, ◌≢◌, true, Bytes, ok}
use obscura_network.Privacy.Types.{CallMessage, PrivacyEvent}
use obscura_network.Privacy.State as PrivacyState
use obscura_network.Privacy.State.{inserted}
use obscura_network.Privacy.Handlers.{Context, call, is_spent, add_supply, push_commitment}
use obscura_network.Privacy.Success.{with_leaf}
use obscura_network.Privacy.Keeps.{call-kept}
use obscura_network.Privacy.Spend.{Spent-kept, Spends, call-Spends, Spent-refused}
use obscura_network.Bridge.Types.{Env, State}
use obscura_network.Bridge.Handlers.{record_withdrawal, advance_head, count_claim, mark_claimed}
use obscura_network.Bridge.Success.{claimed}
use obscura_network.Runtime.{Reach}
use obscura_network.Runtime.Keeps.{IsKept, Reach-kept}

module _ (env : Env) (n : Bytes) where
  abbrev SpentIn : State → Type 0
  SpentIn s = is_spent n s.obscura_privacy ≡ true

  SpentIn-kept : IsKept env SpentIn
  unfolding claimed record_withdrawal advance_head count_claim mark_claimed add_supply with_leaf
      inserted push_commitment is_spent
  SpentIn-kept = record {
    by_pool = λ context msg event pool s h p.
        call-kept env.privacy _ (Spent-kept n env.privacy) context msg event s.obscura_privacy pool
          h p;
    by_claim = λ claim s config fresh room p. p;
    by_withdrawal = λ msg k id s p. p;
    by_head = λ update s forward p. p;
  }

-- A nullifier that a successful transfer or unshield spends is good for no later transfer or
-- unshield, whatever successful calls of either module come between.
pub no_double_spend :
    (env : Env) (context context' : Context) (msg msg' : CallMessage) (event event' : PrivacyEvent)
    (s t : State) (pool pool' : PrivacyState.State) (n : Bytes)
    → Spends msg n
    → call env.privacy context msg s.obscura_privacy ≡ (ok event, pool)
    → Reach env (record s { obscura_privacy = pool }) t
    → Spends msg' n
    → call env.privacy context' msg' t.obscura_privacy ≢ (ok event', pool')
no_double_spend env context context' msg msg' event event' s t pool pool' n m h later m' =
    Spent-refused env.privacy context' event' t.obscura_privacy pool' n msg' m' (
      Reach-kept env (SpentIn env n) (SpentIn-kept env n) later
        (call-Spends env.privacy context event s.obscura_privacy pool n msg h m))
