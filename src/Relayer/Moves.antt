-- ===== src/Relayer/Moves.antt =====
-- How the requests of the relayer's clients extend the list of what was sent.
use Prim.Native.String.{String}
use obscura_network.Prelude.{
  ℕ, Bool, true, false, ◌≡◌, refl, sym, subst, none, some, ap, leb, length, nat_eq, guard, Option,
  List, ◌∷◌, Bytes, Result, ok, err, if◌then◌else◌,
}
use obscura_network.Prelude.Exec.{continue, ◌>>=◌, lift, pure, modify}
use obscura_network.Beacon.Types.{
  Failure, bad_json, wrong_length, or_fail, LightClientFinalityUpdateJson,
}
use obscura_network.Beacon.Parse.{parse_number}
use obscura_network.Helios.Step.{HeliosWitness}
use obscura_network.Bridge.Types.{ClaimDeposit, UpdateHeliosHead}
use obscura_network.Relayer.Types.{
  RelayerConfig, EthLog, Request, post, fetch, bridge_claim, Outside, Net, Online, request, Params,
  Endpoint,
}
use obscura_network.Relayer.Decode.{passes, parse_address_str}
use obscura_network.Relayer.Clients.{
  call_rpc, fetch_data, get_latest_block, get_deposit_events, get_block, get_storage_proof,
  get_beacon_root, get_finality_update, get_genesis, get_sync_committee_aggregate_pubkey,
  get_helios_state, read_pubkey,
}
use obscura_network.Relayer.Clients as Clients
use obscura_network.Relayer.Loop.{
  recovered, attempted, recover, run_prover, helios_proof, generate_helios_sp1_proof, advance_head,
  submit_helios_update, relay_deposit,
}

-- After a step whose failure is caught, and what is then written down.
pub attempted_keeps {ℓ} :
    {S A : Type 0} (P : S → Type ℓ) (g : Bool → S → S) (r : Result Failure A × S)
    → ((a : A) → r.0 ≡ ok a → P (g true r.1))
    → P (g false r.1)
    → P r.1
    → P (continue (attempted r) λ b. modify (g b)).1
attempted_keeps P g (ok a, s) p q h = p a refl
attempted_keeps P g (err e, s) p q h = caught (passes e)
  where
    caught : (b : Bool) → P (continue (if b then (ok false, s) else (err e, s)) λ b. modify (g b)).1
    caught true = q
    caught false = h

abbrev pub Sent : Outside → Type 0
Sent o = List (Request × Option o.Value)

abbrev pub is_claim : Request → Bool
is_claim (post url method (bridge_claim claim)) = true
is_claim (post url method _) = false
is_claim (fetch url endpoint) = false

-- A relation that holds between what was sent before and after, for requests that claim nothing.
pub record IsHistory (o : Outside) (R : Sent o → Sent o → Type 0) : Type 0 where
  pub same : (l : Sent o) → R l l
  pub then_ : (l m n : Sent o) → R l m → R m n → R l n
  pub step : (r : Request) (a : Option o.Value) (l : Sent o) → is_claim r ≡ false → R l ((r, a) ∷ l)

-- The relation holds before and after this request.
abbrev pub Extends : (o : Outside) → (Sent o → Sent o → Type 0) → Request → Type 0
Extends o R r = (a : Option o.Value) (l : Sent o) → R l ((r, a) ∷ l)

pub record Moves (o : Outside) (R : Sent o → Sent o → Type 0) {A : Type 0} (m : Online o A)
    : Type 0 where
  pub at : (s : Net o) → R s.sent (m s).1.sent

recovered_if :
    {S A : Type 0} (d : A) (e : Failure) (s : S) (b : Bool) (r : Result Failure A × S)
    → r ≡ (if b then (ok d, s) else (err e, s))
    → r.1 ≡ s
recovered_if d e s true r q = ap (λ t. t.1) q
recovered_if d e s false r q = ap (λ t. t.1) q

recovered_net : {S A : Type 0} (d : A) (r : Result Failure A × S) → (recovered d r).1 ≡ r.1
recovered_net d (ok a, s) = refl
recovered_net d (err e, s) = recovered_if d e s (passes e) _ refl

module _ (o : Outside) (R : Sent o → Sent o → Type 0) (h : IsHistory o R) where
  Moves-request : (r : Request) → Extends o R r → Moves o R (request o r)
  unfolding request
  Moves-request r e = record { at = λ s. e (o.http r s.world).0 s.sent }

  quiet : (r : Request) → is_claim r ≡ false → Extends o R r
  quiet r e a l = h.step r a l e

  module _ {A : Type 0} where
    Moves-pure : (a : A) → Moves o R (pure a)
    Moves-pure a = record { at = λ s. h.same s.sent }

    pub Moves-lift : (r : Result Failure A) → Moves o R (lift r)
    Moves-lift r = record { at = λ s. h.same s.sent }

    Moves-if :
        (b : Bool) (m n : Online o A) → Moves o R m → Moves o R n → Moves o R (if b then m else n)
    Moves-if true m n p q = p
    Moves-if false m n p q = q

  module _ {A B : Type 0} where
    Moves-bind :
        (m : Online o A) (f : A → Online o B)
        → Moves o R m
        → ((a : A) → Moves o R (f a))
        → Moves o R (m >>= f)
    Moves-bind m f p q = record { at = λ s. go (m s) s (p.at s) }
      where
        go :
            (r : Result Failure A × Net o) (s : Net o)
            → R s.sent r.1.sent
            → R s.sent (continue r f).1.sent
        go (ok a, s') s k = h.then_ s.sent s'.sent _ k ((q a).at s')
        go (err e, s') s k = k

  module _ {A B : Type 0} where
    Moves-lift_bind :
        (r : Result Failure A) (f : A → Online o B)
        → ((a : A) → Moves o R (f a))
        → Moves o R (lift r >>= f)
    Moves-lift_bind r f q = Moves-bind (lift r) f (Moves-lift r) q

  module _ {A : Type 0} where
    Moves-recover : (m : Online o A) (d : A) → Moves o R m → Moves o R (recover m d)
    unfolding recover
    Moves-recover m d p = record {
      at = λ s. subst (λ t. R s.sent t.sent) (sym (recovered_net d (m s))) (p.at s);
    }

  pub Moves-call_rpc :
      (url : Bytes) (method : String) (params : Params)
      → Extends o R (post url method params)
      → Moves o R (call_rpc o url method params)
  unfolding call_rpc
  Moves-call_rpc url method params e =
      Moves-bind (request o (post url method params)) _ (Moves-request _ e) λ resp. Moves-lift _

  Moves-fetch : (url : Bytes) (endpoint : Endpoint) → Moves o R (fetch_data o url endpoint)
  unfolding fetch_data
  Moves-fetch url endpoint =
      Moves-bind (request o (fetch url endpoint)) _ (Moves-request _ (quiet _ refl))
        λ body. Moves-pure _

  module _ (config : RelayerConfig) where
    pub Moves-get_latest_block : Moves o R (get_latest_block o config)
    unfolding get_latest_block
    Moves-get_latest_block =
        Moves-bind (call_rpc o _ _ _) _ (Moves-call_rpc _ _ _ (quiet _ refl))
          λ response. Moves-lift _

    pub Moves-get_deposit_events : (f t : ℕ) → Moves o R (get_deposit_events o config f t)
    unfolding get_deposit_events
    Moves-get_deposit_events f t =
        Moves-bind (call_rpc o _ _ _) _ (Moves-call_rpc _ _ _ (quiet _ refl)) λ logs_raw.
          Moves-lift_bind (or_fail (o.as_array logs_raw) bad_json) _ λ logs_arr. Moves-lift _

    Moves-get_block : (n : ℕ) → Moves o R (get_block o config n)
    unfolding get_block
    Moves-get_block n = Moves-call_rpc _ _ _ (quiet _ refl)

    pub Moves-get_storage_proof : (n id : ℕ) → Moves o R (get_storage_proof o config n id)
    unfolding get_storage_proof
    Moves-get_storage_proof n id =
        Moves-bind (call_rpc o _ _ _) _ (Moves-call_rpc _ _ _ (quiet _ refl)) λ proof.
          Moves-bind (lift _) _ (Moves-lift _) λ decoded.
            Moves-bind (get_block o config n) _ (Moves-get_block n)
              λ block. Moves-bind (lift _) _ (Moves-lift _) λ header. Moves-pure _

    pub Moves-get_beacon_root : (n : ℕ) → Moves o R (get_beacon_root o config n)
    unfolding get_beacon_root
    Moves-get_beacon_root n =
        Moves-bind (get_block o config n) _ (Moves-get_block n) λ block. Moves-lift _

    Moves-get_finality_update : Moves o R (get_finality_update o config)
    unfolding get_finality_update
    Moves-get_finality_update =
        Moves-bind (fetch_data o _ _) _ (Moves-fetch _ _) λ answer. Moves-lift _

    Moves-get_genesis : Moves o R (get_genesis o config)
    unfolding get_genesis
    Moves-get_genesis = Moves-bind (fetch_data o _ _) _ (Moves-fetch _ _) λ answer. Moves-lift _

    Moves-get_pubkey :
        (root : Bytes) → Moves o R (get_sync_committee_aggregate_pubkey o config root)
    unfolding get_sync_committee_aggregate_pubkey
    Moves-get_pubkey root = Moves-bind (fetch_data o _ _) _ (Moves-fetch _ _) λ answer.
        Moves-lift_bind (read_pubkey o answer) _ λ bytes.
          Moves-lift_bind (guard (nat_eq (length bytes) 48) wrong_length) _ λ _. Moves-pure _

    Moves-get_helios_state : Moves o R (get_helios_state o config)
    unfolding get_helios_state
    Moves-get_helios_state =
        Moves-bind (call_rpc o _ _ _) _ (Moves-call_rpc _ _ _ (quiet _ refl)) λ result. Moves-pure _

    Moves-send_head : (u : UpdateHeliosHead) → Moves o R (Clients.submit_helios_update o config u)
    unfolding Clients.submit_helios_update
    Moves-send_head u =
        Moves-bind (call_rpc o _ _ _) _ (Moves-call_rpc _ _ _ (quiet _ refl)) λ result. Moves-pure _

    pub Moves-submit_claim :
        (claim : ClaimDeposit)
        → Extends o R (post config.obscura_rpc "obscura_submitBridgeClaim" (bridge_claim claim))
        → Moves o R (Clients.submit_claim o config claim)
    unfolding Clients.submit_claim
    Moves-submit_claim claim e =
        Moves-bind (call_rpc o _ _ _) _ (Moves-call_rpc _ _ _ e) λ result. Moves-pure _

    -- For a relation that holds for claims too.
    pub Moves-relay_deposit :
        (log : EthLog)
        → ((claim : ClaimDeposit)
            → Extends o R
                (post config.obscura_rpc "obscura_submitBridgeClaim" (bridge_claim claim)))
        → Moves o R (relay_deposit o config log)
    unfolding relay_deposit
    Moves-relay_deposit log e =
        Moves-bind (get_storage_proof o config log.block_number log.deposit_id) _
          (Moves-get_storage_proof _ _)
          λ storage_proof.
            Moves-bind (get_beacon_root o config log.block_number) _ (Moves-get_beacon_root _)
              λ root. Moves-lift_bind (parse_address_str o config.bridge_contract) _ λ contract.
                Moves-if config.mock_proofs _ _ (Moves-submit_claim _ (e _)) (Moves-lift _)

    Moves-run_prover :
        (prover : Option (HeliosWitness → o.World → Option Bytes × o.World)) (w : HeliosWitness)
        → Moves o R (run_prover o prover w)
    unfolding run_prover
    Moves-run_prover none w = record { at = λ s. h.same s.sent }
    Moves-run_prover (some prove) w = record { at = λ s. h.same s.sent }

    Moves-prove : (w : HeliosWitness) → Moves o R (generate_helios_sp1_proof o w)
    unfolding generate_helios_sp1_proof
    Moves-prove w = Moves-run_prover o.prover w

    Moves-helios_proof : (slot : ℕ) (w : HeliosWitness) → Moves o R (helios_proof o config slot w)
    unfolding helios_proof
    Moves-helios_proof slot w = Moves-if _ _ _ (Moves-pure _) (Moves-prove w)

    Moves-advance_head :
        (u : LightClientFinalityUpdateJson) (root : Bytes) (slot : ℕ)
        → Moves o R (advance_head o config u root slot)
    unfolding advance_head
    Moves-advance_head u root slot =
        Moves-bind (get_genesis o config) _ Moves-get_genesis λ genesis.
          Moves-bind (recover _ _) _ (Moves-recover _ _ (Moves-get_pubkey _)) λ pubkey.
            Moves-bind (lift _) _ (Moves-lift _) λ witness.
              Moves-bind (helios_proof o config slot witness) _ (Moves-helios_proof slot witness)
                λ proof. Moves-send_head _

    pub Moves-submit_helios_update : Moves o R (submit_helios_update o config)
    unfolding submit_helios_update
    Moves-submit_helios_update =
        Moves-bind (recover _ _) _ (Moves-recover _ _ Moves-get_helios_state) λ current.
          Moves-bind (get_finality_update o config) _ Moves-get_finality_update λ update.
            Moves-lift_bind (parse_number update.finalized_header.beacon.slot) _ λ slot.
              Moves-if (leb slot current.1) _ _ (Moves-pure _) (Moves-advance_head update _ slot)
