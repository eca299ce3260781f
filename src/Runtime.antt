-- ===== src/Runtime.antt =====
-- crates/stf: the runtime dispatches a call to the module that it names. The state here is that of
-- the bridge, which has the pool inside. A call that fails makes no step: the framework drops what
-- a failed transaction wrote.
pub mod Keeps
pub mod Pool
pub mod Spending
pub mod Deposits
pub mod Head
pub mod Finalized
pub mod Payouts
use obscura_network.Prelude.{◌≡◌, Bytes, ok}
use obscura_network.Privacy.Types as PrivacyTypes
use obscura_network.Privacy.State as PrivacyState
use obscura_network.Privacy.Handlers as PrivacyHandlers
use obscura_network.Bridge.Types.{Env, State, BridgeConfig, BridgeCallMessage, BridgeEvent}
use obscura_network.Bridge.Handlers as BridgeHandlers

-- Both modules after genesis.
unfoldable pub start : Env → BridgeConfig → State
start env config =
    BridgeHandlers.genesis config
      (BridgeHandlers.blank (PrivacyState.genesis env.privacy PrivacyState.blank))

-- One call that succeeds.
pub data Step (env : Env) (s s' : State) : Type 0 where
  pool_call :
      (context : PrivacyHandlers.Context) (msg : PrivacyTypes.CallMessage)
      (event : PrivacyTypes.PrivacyEvent) (pool : PrivacyState.State)
      → PrivacyHandlers.call env.privacy context msg s.obscura_privacy ≡ (ok event, pool)
      → s' ≡ record s { obscura_privacy = pool }
      → Step env s s'
  bridge_call :
      (msg : BridgeCallMessage) (event : BridgeEvent)
      → BridgeHandlers.call env msg s ≡ (ok event, s')
      → Step env s s'

-- Any number of them.
pub data Reach (env : Env) (s : State) : State → Type 0 where
  here : Reach env s s
  next : {t u : State} → Reach env s t → Step env t u → Reach env s u
