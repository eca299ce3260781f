-- ===== src/Relayer/Failures.antt =====
-- Rounds in which a relay may fail.
use obscura_network.Prelude.{
  ℕ, ◌≤◌, ◌≡◌, refl, ap, ◌⊎◌, inl, inr, Bool, true, false, List, [], ◌∷◌, ltb, Result, ok, err,
  if◌then◌else◌, arith,
}
use obscura_network.Prelude.Exec.{Exec, continue}
use obscura_network.Beacon.Types.{Failure}
use obscura_network.Relayer.Types.{RelayerConfig, EthLog, Outside, Net}
use obscura_network.Relayer.Decode.{passes}
use obscura_network.Relayer.Clients.{get_latest_block, get_deposit_events}
use obscura_network.Relayer.Loop.{
  BridgeRelayer, attempted, attempt, in_net, relay_deposit, relay_log, relay_logs, update_head,
  submit_helios_update, scan_and_relay, Run, round, after_round, next_block, has_id,
}

-- The step gives such a value, or it panics.
abbrev OrPanics : {A S : Type 0} → (A → Type 0) → Result Failure A × S → Type 0
OrPanics P (ok a, s) = P a
OrPanics P (err e, s) = passes e ≡ false

module _ {A B S : Type 0} (P : B → Type 0) where
  OrPanics-bind :
      (r : Result Failure A × S) (f : A → Exec Failure S B)
      → OrPanics (λ _. Unit {0}) r
      → ((a : A) (s : S) → OrPanics P (f a s))
      → OrPanics P (continue r f)
  OrPanics-bind (ok a, s) f h k = k a s
  OrPanics-bind (err e, s) f h k = h

OrPanics-attempted :
    {A S : Type 0} (r : Result Failure A × S) → OrPanics (λ _. Unit {0}) (attempted r)
OrPanics-attempted (ok a, s) = tt
OrPanics-attempted (err e, s) = caught (passes e) refl
  where
    caught :
        (b : Bool)
        → passes e ≡ b
        → OrPanics (λ _. Unit {0}) (if b then (ok false, s) else (err e, s))
    caught true h = tt
    caught false h = h

OrPanics-if :
    {A S : Type 0} (P : A → Type 0) (b : Bool) (r q : Result Failure A × S)
    → OrPanics P r
    → OrPanics P q
    → OrPanics P (if b then r else q)
OrPanics-if P true r q h k = h
OrPanics-if P false r q h k = k

module _ (o : Outside) (config : RelayerConfig) where
  relay_log-OrPanics :
      (log : EthLog) (s : BridgeRelayer o) → OrPanics (λ _. Unit {0}) (relay_log o config log s)
  unfolding relay_log attempt
  relay_log-OrPanics log s =
      OrPanics-if (λ _. Unit {0}) (has_id log.deposit_id s.processed) (ok tt, s) _ tt
        (OrPanics-bind (λ _. Unit {0}) (attempted (in_net o (relay_deposit o config log) s)) _
          (OrPanics-attempted (in_net o (relay_deposit o config log) s)) λ _ _. tt)

  relay_logs-OrPanics :
      (logs : List EthLog) (s : BridgeRelayer o)
      → OrPanics (λ _. Unit {0}) (relay_logs o config logs s)
  unfolding relay_logs
  relay_logs-OrPanics [] s = tt
  relay_logs-OrPanics (log ∷ logs) s =
      OrPanics-bind (λ _. Unit {0}) (relay_log o config log s) _ (relay_log-OrPanics log s)
        λ _ t. relay_logs-OrPanics logs t

  update_head-OrPanics :
      (latest : ℕ) (logs : List EthLog) (s : BridgeRelayer o)
      → OrPanics (λ _. Unit {0}) (update_head o config latest logs s)
  unfolding update_head attempt
  update_head-OrPanics latest logs s =
      OrPanics-if (λ _. Unit {0}) _ _ (ok tt, s)
        (OrPanics-bind (λ _. Unit {0}) (attempted (in_net o (submit_helios_update o config) s)) _
          (OrPanics-attempted (in_net o (submit_helios_update o config) s)) λ _ _. tt)
        tt

  scan-OrPanics :
      (from_block latest : ℕ) (logs : List EthLog) (s : BridgeRelayer o) (n₁ n₂ : Net o)
      → get_latest_block o config s.net ≡ (ok latest, n₁)
      → ltb latest from_block ≡ false
      → get_deposit_events o config from_block latest n₁ ≡ (ok logs, n₂)
      → OrPanics (λ last. last ≡ latest) (scan_and_relay o config from_block s)
  unfolding scan_and_relay
  scan-OrPanics from_block latest logs s n₁ n₂ e₁ ahead e₂ =
      rw (e₁, ahead, e₂)
        (OrPanics-bind (λ last. last ≡ latest)
          (update_head o config latest logs (record s { net = n₂ })) _
          (update_head-OrPanics latest logs _)
          λ _ t.
            OrPanics-bind (λ last. last ≡ latest) (relay_logs o config logs t) _
              (relay_logs-OrPanics logs t) λ _ _. refl)

  after_round-moves :
      (from_block latest : ℕ) (r : Result Failure ℕ × BridgeRelayer o)
      → OrPanics (λ last. last ≡ latest) r
      → ((after_round o from_block r).from_block ≡ next_block latest)
        ⊎ ((after_round o from_block r).running ≡ false)
  after_round-moves from_block latest (ok last, s) h = inl (ap next_block h)
  after_round-moves from_block latest (err e, s) h = inr h

-- A round that knows the latest block, not below `from_block`, and has the deposits up to it goes on
-- behind that block, whether or not its relays of deposits and heads succeed; or it panics.
pub failures_passed :
    (o : Outside) (config : RelayerConfig) (run : Run o) (latest : ℕ) (logs : List EthLog)
    (n₁ n₂ : Net o)
    → run.running ≡ true
    → get_latest_block o config run.relayer.net ≡ (ok latest, n₁)
    → run.from_block ≤ latest
    → get_deposit_events o config run.from_block latest n₁ ≡ (ok logs, n₂)
    → ((round o config run).from_block ≡ next_block latest) ⊎ ((round o config run).running ≡ false)
unfolding round
failures_passed o config run latest logs n₁ n₂ go e₁ le e₂ = rw go (
    after_round-moves o config run.from_block latest
      (scan_and_relay o config run.from_block run.relayer)
      (scan-OrPanics o config run.from_block latest logs run.relayer n₁ n₂ e₁ (ground arith) e₂))
