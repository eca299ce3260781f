-- ===== src/Relayer/Blocks.antt =====
-- The blocks that the relayer has asked for deposits.
use obscura_network.Prelude.{
  ℕ, zero, suc, ◌/◌, ◌≤◌, ◌<◌, ◌≡◌, refl, ap, inl, inr, Bool, true, false, ◌&&◌, ◌||◌, Option, none,
  some, List, [], ◌∷◌, ltb, leb, Bool-cases, Result, ok, err, if◌then◌else◌, ok_cancel, subst,
  ltb→lt, leb→le, arith,
}
use obscura_network.Prelude.Exec.{bind-ok, ◌>>◌, pure}
use obscura_network.Beacon.Types.{Failure}
use obscura_network.Relayer.Types.{
  RelayerConfig, EthLog, Request, post, fetch, logs_filter, Outside, Net, Online, request,
}
use obscura_network.Relayer.Decode.{result_of}
use obscura_network.Relayer.Clients.{call_rpc, get_latest_block, get_deposit_events}
use obscura_network.Relayer.Loop.{
  BridgeRelayer, has_id, attempt, in_net, relay_deposit, relay_log, relay_logs, update_head,
  submit_helios_update, mark_processed, mark_epoch, scan_and_relay, Run, round, rounds, after_round,
  slots_per_epoch,
}
use obscura_network.Relayer.Keeps.{Keeps, Keeps-bind, Keeps-pure, Keeps-if, kept-if}
use obscura_network.Relayer.Moves.{
  Sent, IsHistory, Moves, attempted_keeps, Moves-get_latest_block, Moves-get_deposit_events,
  Moves-submit_helios_update, Moves-relay_deposit,
}

abbrev asks : ℕ → Request → Bool
asks b (post url method (logs_filter from_block to_block address topic)) =
    leb from_block b && leb b to_block
asks b (post url method _) = false
asks b (fetch url endpoint) = false

module _ (o : Outside) where
  -- The answer is a list, and no error.
  abbrev is_list : Option o.Value → Bool
  is_list none = false
  is_list (some v) = elim (result_of o v) [
    | err _ ↦ false
    | ok logs ↦ elim (o.as_array logs) [ none ↦ false | some _ ↦ true ]
  ]

  -- The logs of a range with this block were asked for, and a list came back.
  unfoldable pub was_scanned : ℕ → Sent o → Bool
  was_scanned b [] = false
  was_scanned b ((r, a) ∷ l) = (asks b r && is_list a) || was_scanned b l

  abbrev Stays : ℕ → Sent o → Sent o → Type 0
  Stays b l m = was_scanned b l ≡ true → was_scanned b m ≡ true

  was_scanned-cons :
      (b : ℕ) (r : Request) (a : Option o.Value) (l : Sent o) → Stays b l ((r, a) ∷ l)
  unfolding was_scanned
  was_scanned-cons b r a l h = go (asks b r && is_list a)
    where
      go : (c : Bool) → (c || was_scanned b l) ≡ true
      go true = refl
      go false = h

  Stays-IsHistory : (b : ℕ) → IsHistory o (Stays b)
  Stays-IsHistory b = record {
    same = λ l h. h;
    then_ = λ l m n p q h. q (p h);
    step = λ r a l _. was_scanned-cons b r a l;
  }

  abbrev Scanned : ℕ → BridgeRelayer o → Type 0
  Scanned b s = was_scanned b s.net.sent ≡ true

  module _ (config : RelayerConfig) where
    get_deposit_events-scans :
        (f t b : ℕ) (s s' : Net o) (logs : List EthLog)
        → f ≤ b
        → b ≤ t
        → get_deposit_events o config f t s ≡ (ok logs, s')
        → was_scanned b s'.sent ≡ true
    unfolding get_deposit_events call_rpc request was_scanned
    get_deposit_events-scans f t b s s' logs p q h = ground arith

    module _ (b : ℕ) where
      Keeps-net :
          {A : Type 0} (m : Online o A) → Moves o (Stays b) m → Keeps o (Scanned b) (in_net o m)
      Keeps-net m p = record { at = λ s h. p.at s.net h }

      Keeps-relay_log : (log : EthLog) → Keeps o (Scanned b) (relay_log o config log)
      unfolding relay_log attempt mark_processed
      Keeps-relay_log log = record {
        at = λ s h.
            let moved : Moves o (Stays b) (relay_deposit o config log) =
              Moves-relay_deposit o (Stays b) (Stays-IsHistory b) config log
                λ claim a l. was_scanned-cons b _ a l in
            let kept : was_scanned b (relay_deposit o config log s.net).1.sent ≡ true =
              moved.at s.net h in
            if_kept (has_id log.deposit_id s.processed) _ s h (
              attempted_keeps (Scanned b) (mark_processed o log.deposit_id)
                (in_net o (relay_deposit o config log) s) (λ u q. kept) kept kept);
      }
        where
          if_kept :
              (c : Bool) (m : Result Failure (Unit {0}) × BridgeRelayer o) (s : BridgeRelayer o)
              → Scanned b s
              → Scanned b m.1
              → Scanned b (if c then (ok tt, s) else m).1
          if_kept true m s h k = h
          if_kept false m s h k = k

      Keeps-relay_logs : (logs : List EthLog) → Keeps o (Scanned b) (relay_logs o config logs)
      unfolding relay_logs
      Keeps-relay_logs [] = Keeps-pure o (Scanned b) tt
      Keeps-relay_logs (log ∷ logs) =
          Keeps-bind o (Scanned b) (relay_log o config log) _ (Keeps-relay_log log)
            λ _. Keeps-relay_logs logs

      Keeps-update_head :
          (latest : ℕ) (logs : List EthLog) → Keeps o (Scanned b) (update_head o config latest logs)
      unfolding update_head attempt mark_epoch
      Keeps-update_head latest logs = record {
        at = λ s h.
            let kept : was_scanned b (submit_helios_update o config s.net).1.sent ≡ true =
              (Moves-submit_helios_update o (Stays b) (Stays-IsHistory b) config).at s.net h in
            kept-if o (Scanned b) _ _ _ s
              (attempted_keeps (Scanned b) (mark_epoch o (latest / slots_per_epoch))
                (in_net o (submit_helios_update o config) s) (λ u q. kept) kept kept)
              h;
      }

      Keeps-relays :
          (latest : ℕ) (logs : List EthLog)
          → Keeps o
              (Scanned b)
              (do update_head o config latest logs; relay_logs o config logs; pure latest)
      Keeps-relays latest logs =
          Keeps-bind o (Scanned b) (update_head o config latest logs) _
            (Keeps-update_head latest logs)
            λ _.
              Keeps-bind o (Scanned b) (relay_logs o config logs) _ (Keeps-relay_logs logs)
                λ _. Keeps-pure o (Scanned b) latest

      Keeps-scan : (from_block : ℕ) → Keeps o (Scanned b) (scan_and_relay o config from_block)
      unfolding scan_and_relay
      Keeps-scan from_block =
          Keeps-bind o (Scanned b) (in_net o (get_latest_block o config)) _
            (Keeps-net _ (Moves-get_latest_block o (Stays b) (Stays-IsHistory b) config))
            λ latest.
              Keeps-if o (Scanned b) (ltb latest from_block) _ _ (Keeps-pure o (Scanned b) latest) (
                Keeps-bind o (Scanned b) (in_net o (get_deposit_events o config from_block latest))
                  _
                  (Keeps-net _
                    (Moves-get_deposit_events o (Stays b) (Stays-IsHistory b) config _ _))
                  λ logs. Keeps-relays latest logs)

      relays-latest :
          (latest last : ℕ) (logs : List EthLog) (s s' : BridgeRelayer o)
          → (do update_head o config latest logs; relay_logs o config logs; pure latest) s
            ≡ (ok last, s')
          → latest ≡ last
      relays-latest latest last logs s s' h =
          let (_, s1, _, h1) = bind-ok (update_head o config latest logs) _ s h in
          let (_, s2, _, h2) = bind-ok (relay_logs o config logs) _ s1 h1 in
          ok_cancel (ap (λ (r : Result Failure ℕ × BridgeRelayer o). r.0) h2)

      -- From the list of deposits on.
      relays-Scanned :
          (from_block latest last : ℕ) (logs : List EthLog) (s1 s2 s' : BridgeRelayer o)
          → in_net o (get_deposit_events o config from_block latest) s1 ≡ (ok logs, s2)
          → (do update_head o config latest logs; relay_logs o config logs; pure latest) s2
            ≡ (ok last, s')
          → from_block ≤ b
          → b ≤ last
          → Scanned b s'
      relays-Scanned from_block latest last logs s1 s2 s' e2 h2 p q =
          let same : latest ≡ last = relays-latest latest last logs s2 s' h2 in
          let asked : Scanned b s2 =
            get_deposit_events-scans from_block latest b s1.net s2.net logs p (omega arith)
              (ap (λ (r : Result Failure (List EthLog) × BridgeRelayer o). (r.0, r.1.net)) e2) in
          subst (Scanned b) (ap (λ (r : Result Failure ℕ × BridgeRelayer o). r.1) h2)
            ((Keeps-relays latest logs).at s2 asked)

      -- After a scan that succeeds, each block from its first to the last has been scanned.
      scan-Scanned :
          (from_block last : ℕ) (s s' : BridgeRelayer o)
          → scan_and_relay o config from_block s ≡ (ok last, s')
          → from_block ≤ b
          → b ≤ last
          → Scanned b s'
      unfolding scan_and_relay
      scan-Scanned from_block last s s' h p q =
          let (latest, s1, _, h1) = bind-ok (in_net o (get_latest_block o config)) _ s h in
          elim (Bool-cases (ltb latest from_block)) [
            | inl behind ↦
                let same : latest ≡ last =
                  ok_cancel
                    (ap (λ (r : Result Failure ℕ × BridgeRelayer o). r.0) (rw behind at h1)) in
                absurd (omega (arith, ltb→lt latest from_block behind))
            | inr ahead ↦
                let (logs, s2, e2, h2) =
                  bind-ok (in_net o (get_deposit_events o config from_block latest)) _ s1
                    (rw ahead at h1) in
                relays-Scanned from_block latest last logs s1 s2 s' e2 h2 p q
          ]

      -- What is known of the block between two rounds.
      abbrev Covered : Run o → Type 0
      Covered run =
          config.start_block ≤ b → b < run.from_block → was_scanned b run.relayer.net.sent ≡ true

      Covered-after_round :
          (from_block : ℕ) (s : BridgeRelayer o)
          → (config.start_block ≤ b → b < from_block → Scanned b s)
          → (r : Result Failure ℕ × BridgeRelayer o) → scan_and_relay o config from_block s ≡ r
          → Covered (after_round o from_block r)
      Covered-after_round from_block s old (ok last, s') e le lt =
          elim (Bool-cases (leb from_block b)) [
            | inl new ↦ scan-Scanned from_block last s s' e (leb→le _ _ new) (ground arith)
            | inr before ↦
                subst (Scanned b) (ap (λ (r : Result Failure ℕ × BridgeRelayer o). r.1) e)
                  ((Keeps-scan from_block).at s (old le (ground arith)))
          ]
      Covered-after_round from_block s old (err x, s') e le lt =
          subst (Scanned b) (ap (λ (r : Result Failure ℕ × BridgeRelayer o). r.1) e)
            ((Keeps-scan from_block).at s (old le lt))

      Covered-round : (run : Run o) → Covered run → Covered (round o config run)
      unfolding round
      Covered-round run old = elim (Bool-cases run.running) [
        | inl go ↦ rw go (
            Covered-after_round run.from_block run.relayer old
              (scan_and_relay o config run.from_block run.relayer) refl)
        | inr stopped ↦ rw stopped old
      ]

-- After any number of rounds from the start, whatever the servers answer, the logs of every block
-- from the first that is configured up to the one before `from_block` have been asked for and
-- were answered with a list.
pub blocks_scanned :
    (o : Outside) (config : RelayerConfig) (n : ℕ) (world : o.World) (b : ℕ)
    → config.start_block ≤ b
    → b < (rounds o config n world).from_block
    → was_scanned o b (rounds o config n world).relayer.net.sent ≡ true
unfolding rounds
blocks_scanned o config zero world b le lt = absurd (omega arith)
blocks_scanned o config (suc n) world b le lt =
    Covered-round o config b (rounds o config n world) (blocks_scanned o config n world b) le lt
