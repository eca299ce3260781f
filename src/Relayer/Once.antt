-- ===== src/Relayer/Once.antt =====
-- The claims that the rollup accepted, and the ids in `processed`.
use obscura_network.Prelude.{
  ℕ, zero, suc, Bool, true, false, ◌≡◌, refl, sym, ap, ◌∙◌, Option, none, some, List, [], ◌∷◌, ltb,
  ◌/◌, Bool-cases, inl, inr, Result, ok, err, if◌then◌else◌, arith,
}
use obscura_network.Prelude.Exec.{continue, ◌>>=◌, lift, modify}
use obscura_network.Bridge.Types.{ClaimDeposit}
use obscura_network.Beacon.Types.{Failure, prover_failed}
use obscura_network.Relayer.Types.{
  RelayerConfig, EthLog, Request, post, fetch, no_params, logs_filter, proof_at, block_at,
  helios_update, bridge_claim, Outside, Net, Online, request,
}
use obscura_network.Relayer.Decode.{result_of, parse_address_str}
use obscura_network.Relayer.Clients.{
  call_rpc, submit_claim, get_storage_proof, get_beacon_root, get_latest_block, get_deposit_events,
}
use obscura_network.Relayer.Loop.{
  BridgeRelayer, has_id, attempted, attempt, in_net, relay_deposit, relay_log, relay_logs,
  update_head, submit_helios_update, claim_of, mark_processed, mark_epoch, slots_per_epoch,
  scan_and_relay, Run, round, rounds, after_round,
}
use obscura_network.Relayer.Keeps.{Keeps, Keeps-bind, Keeps-pure, Keeps-if, kept-if}
use obscura_network.Relayer.Moves.{
  Sent, is_claim, IsHistory, Moves, Moves-lift, attempted_keeps, Moves-get_storage_proof,
  Moves-get_beacon_root, Moves-get_latest_block, Moves-get_deposit_events,
  Moves-submit_helios_update,
}

abbrev claim_id : Request → Option ℕ
claim_id (post url method (bridge_claim claim)) = some claim.public_inputs.deposit_id
claim_id (post url method _) = none
claim_id (fetch url endpoint) = none

abbrev add_claim : Option ℕ → Bool → List ℕ → List ℕ
add_claim none accepted ids = ids
add_claim (some id) false ids = ids
add_claim (some id) true ids = id ∷ ids

-- No number stands in the list twice.
abbrev pub Distinct : List ℕ → Type 0
Distinct [] = Unit {0}
Distinct (id ∷ ids) = (has_id id ids ≡ false) × Distinct ids

claim_id-none : (r : Request) → is_claim r ≡ false → claim_id r ≡ none
claim_id-none (post url method no_params) e = refl
claim_id-none (post url method (logs_filter f t a topic)) e = refl
claim_id-none (post url method (proof_at a slot block)) e = refl
claim_id-none (post url method (block_at block)) e = refl
claim_id-none (post url method (helios_update u)) e = refl
claim_id-none (post url method (bridge_claim c)) e = absurd (cc)
claim_id-none (fetch url endpoint) e = refl

module _ (o : Outside) where
  -- The server answered, and not with an error.
  abbrev accepts : Option o.Value → Bool
  accepts none = false
  accepts (some v) = elim (o.get v "error") [ none ↦ true | some _ ↦ false ]

  -- The deposits whose claims were accepted, the last one first.
  unfoldable pub accepted_claims : Sent o → List ℕ
  accepted_claims [] = []
  accepted_claims ((r, a) ∷ l) = add_claim (claim_id r) (accepts a) (accepted_claims l)

  abbrev SameClaims : Sent o → Sent o → Type 0
  SameClaims l m = accepted_claims m ≡ accepted_claims l

  SameClaims-IsHistory : IsHistory o SameClaims
  unfolding accepted_claims
  SameClaims-IsHistory = record {
    same = λ l. refl;
    then_ = λ l m n p q. q ∙ p;
    step = λ r a l e. ap (λ i. add_claim i (accepts a) (accepted_claims l)) (claim_id-none r e);
  }

  abbrev added : {A : Type 0} → Result Failure A → ℕ → List ℕ → List ℕ
  added (ok a) id ids = id ∷ ids
  added (err e) id ids = ids

  -- A success adds the claim of one deposit, a failure none.
  record Adds (id : ℕ) {A : Type 0} (m : Online o A) : Type 0 where
    at : (s : Net o) → accepted_claims (m s).1.sent ≡ added (m s).0 id (accepted_claims s.sent)

  module _ (id : ℕ) {A B : Type 0} where
    Adds-bind :
        (m : Online o A) (f : A → Online o B)
        → Moves o SameClaims m
        → ((a : A) → Adds id (f a))
        → Adds id (m >>= f)
    Adds-bind m f p q = record { at = λ s. go (m s) (accepted_claims s.sent) (p.at s) }
      where
        go :
            (r : Result Failure A × Net o) (ids : List ℕ)
            → accepted_claims r.1.sent ≡ ids
            → accepted_claims (continue r f).1.sent ≡ added (continue r f).0 id ids
        go (ok a, s) ids e = (q a).at s ∙ ap (added (f a s).0 id) e
        go (err x, s) ids e = e

  Adds-submit_claim :
      (config : RelayerConfig) (claim : ClaimDeposit)
      → Adds claim.public_inputs.deposit_id (submit_claim o config claim)
  unfolding submit_claim call_rpc request result_of accepted_claims
  Adds-submit_claim config claim = record { at = λ s. ground (arith) }

  -- The set of processed deposits is that of the claims that were accepted, each of them once.
  pub record IsOnce (s : BridgeRelayer o) : Type 0 where
    pub same : s.processed ≡ accepted_claims s.net.sent
    pub once : Distinct s.processed

  Keeps-in_net : {A : Type 0} (m : Online o A) → Moves o SameClaims m → Keeps o IsOnce (in_net o m)
  Keeps-in_net m p = record {
    at = λ s i. record { same = i.same ∙ sym (p.at s.net); once = i.once };
  }

  Adds-if :
      (id : ℕ) (b : Bool) (m : Online o (Unit {0}))
      → Adds id m
      → Adds id (if b then m else lift (err prover_failed))
  Adds-if id true m p = p
  Adds-if id false m p = record { at = λ s. refl }

  module _ (config : RelayerConfig) where
    Adds-relay_deposit : (log : EthLog) → Adds log.deposit_id (relay_deposit o config log)
    unfolding relay_deposit
    Adds-relay_deposit log =
        Adds-bind _ (get_storage_proof o config log.block_number log.deposit_id) _
          (Moves-get_storage_proof o SameClaims SameClaims-IsHistory config _ _)
          λ storage_proof.
            Adds-bind _ (get_beacon_root o config log.block_number) _
              (Moves-get_beacon_root o SameClaims SameClaims-IsHistory config _)
              λ root.
                Adds-bind _ (lift (parse_address_str o config.bridge_contract)) _
                  (Moves-lift o SameClaims SameClaims-IsHistory _)
                  λ contract.
                    Adds-if _ config.mock_proofs _
                      (Adds-submit_claim config (claim_of o config log root contract))

    relay_log-step :
        (log : EthLog) (s : BridgeRelayer o) (r : Result Failure (Unit {0}) × Net o)
        → IsOnce s
        → has_id log.deposit_id s.processed ≡ false
        → accepted_claims r.1.sent ≡ added r.0 log.deposit_id (accepted_claims s.net.sent)
        → IsOnce
            (continue
              (attempted (r.0, record s { net = r.1 }))
              λ relayed. modify (mark_processed o log.deposit_id relayed)).1
    unfolding mark_processed
    relay_log-step log s (ok u, n) i new e = record {
      same = ap (λ l. log.deposit_id ∷ l) i.same ∙ sym e;
      once = (new, i.once);
    }
    relay_log-step log s (err x, n) i new e =
        let kept : IsOnce (record s { net = n }) = record {
          same = i.same ∙ sym e;
          once = i.once;
        } in
        attempted_keeps {A = Unit {0}} IsOnce (mark_processed o log.deposit_id)
          (err x, record s { net = n }) (λ u q. absurd (cc)) kept kept

    Keeps-relay_log : (log : EthLog) → Keeps o IsOnce (relay_log o config log)
    unfolding relay_log attempt
    Keeps-relay_log log = record {
      at = λ s i. elim (Bool-cases (has_id log.deposit_id s.processed)) [
        | inl old ↦ rw old i
        | inr new ↦ rw new (
            relay_log-step log s (relay_deposit o config log s.net) i new
              ((Adds-relay_deposit log).at s.net))
      ];
    }

    Keeps-relay_logs : (logs : List EthLog) → Keeps o IsOnce (relay_logs o config logs)
    unfolding relay_logs
    Keeps-relay_logs [] = Keeps-pure o IsOnce tt
    Keeps-relay_logs (log ∷ logs) =
        Keeps-bind o IsOnce (relay_log o config log) _ (Keeps-relay_log log)
          λ _. Keeps-relay_logs logs

    Keeps-update_head :
        (latest : ℕ) (logs : List EthLog) → Keeps o IsOnce (update_head o config latest logs)
    unfolding update_head attempt mark_epoch
    Keeps-update_head latest logs = record {
      at = λ s i.
          let kept : IsOnce (in_net o (submit_helios_update o config) s).1 =
            (Keeps-in_net (submit_helios_update o config)
                (Moves-submit_helios_update o SameClaims SameClaims-IsHistory config)).at
              s i in
          kept-if o IsOnce _ _ _ s
            (attempted_keeps IsOnce (mark_epoch o (latest / slots_per_epoch))
              (in_net o (submit_helios_update o config) s)
              (λ u q. record { same = kept.same; once = kept.once }) kept kept)
            i;
    }

    Keeps-scan : (from_block : ℕ) → Keeps o IsOnce (scan_and_relay o config from_block)
    unfolding scan_and_relay
    Keeps-scan from_block =
        Keeps-bind o IsOnce (in_net o (get_latest_block o config)) _
          (Keeps-in_net _ (Moves-get_latest_block o SameClaims SameClaims-IsHistory config))
          λ latest. Keeps-if o IsOnce (ltb latest from_block) _ _ (Keeps-pure o IsOnce latest) (
            Keeps-bind o IsOnce (in_net o (get_deposit_events o config from_block latest)) _
              (Keeps-in_net _
                (Moves-get_deposit_events o SameClaims SameClaims-IsHistory config _ _))
              λ logs.
                Keeps-bind o IsOnce (update_head o config latest logs) _
                  (Keeps-update_head latest logs)
                  λ _.
                    Keeps-bind o IsOnce (relay_logs o config logs) _ (Keeps-relay_logs logs)
                      λ _. Keeps-pure o IsOnce latest)

    IsOnce-after_round :
        (from_block : ℕ) (r : Result Failure ℕ × BridgeRelayer o)
        → IsOnce r.1
        → IsOnce (after_round o from_block r).relayer
    IsOnce-after_round from_block (ok last, s) i = i
    IsOnce-after_round from_block (err e, s) i = i

    IsOnce-round : (run : Run o) → IsOnce run.relayer → IsOnce (round o config run).relayer
    unfolding round
    IsOnce-round run i = elim (Bool-cases run.running) [
      | inl go ↦ rw go (
          IsOnce-after_round run.from_block (scan_and_relay o config run.from_block run.relayer)
            ((Keeps-scan run.from_block).at run.relayer i))
      | inr stopped ↦ rw stopped i
    ]

    -- After any number of rounds from the start, whatever the servers answer: the deposits in
    -- `processed` are those whose claims the rollup accepted, in the order of acceptance, and none
    -- of them was accepted twice.
    pub rounds-IsOnce : (n : ℕ) (world : o.World) → IsOnce (rounds o config n world).relayer
    unfolding rounds accepted_claims
    rounds-IsOnce zero world = record { same = refl; once = tt }
    rounds-IsOnce (suc n) world = IsOnce-round (rounds o config n world) (rounds-IsOnce n world)
