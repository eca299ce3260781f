-- ===== src/Sanctions/Reach.antt =====
-- The states of the oracle's server, with refreshes that may overlap: each loads its list under no
-- lock, and writes later.
use obscura_network.Prelude.{
  ℕ, ◌≡◌, inl, inr, refl, sym, subst, ap, Option, none, some, List, [], ◌∷◌, ◌++◌, Bytes, length,
  Result, ok, err, Result-cases, ok_cancel,
}
use obscura_network.Prelude.Exec
use obscura_network.Prelude.Exec.{bind-ok, lift, pure}
use obscura_network.Sanctions.Oracle.{SanctionsMerkleTree, OracleError, build}
use obscura_network.Sanctions.Feed.{extract_eth_addresses_from_xml, parse_eth_addresses}
use obscura_network.Sanctions.Server.{
  OracleState, Outside, load_text, load_addresses, addresses_of, load_tree, Loaded, stamp,
  check_secret, build_state, write_back, state_of, or_panicked,
}

module _ (o : Outside) where
  -- The server: the shared state, what is outside, and the trees that refreshes have loaded and not
  -- yet written.
  pub record Server : Type 0 where
    pub state : OracleState
    pub world : o.World
    pub pending : List (Loaded o)

  -- What the server and the rest of the world do. A refresh that fails, a handler that only reads,
  -- and the time that passes, change the world at most.
  pub data ServerStep : Server → Server → Type 0 where
    passes :
        (state : OracleState) (w w' : o.World) (pending : List (Loaded o))
        → ServerStep
            (record { state = state; world = w; pending = pending })
            (record { state = state; world = w'; pending = pending })
    loads :
        (state : OracleState) (w w' : o.World) (pending : List (Loaded o)) (given : Option Bytes)
        (l : Loaded o)
        → check_secret state.refresh_secret given ≡ ok tt
        → load_tree o state.sdn_path w ≡ (ok l, w')
        → ServerStep
            (record { state = state; world = w; pending = pending })
            (record { state = state; world = w'; pending = l ∷ pending })
    writes :
        (state : OracleState) (w : o.World) (before after : List (Loaded o)) (l : Loaded o)
        → ServerStep
            (record { state = state; world = w; pending = before ++ l ∷ after })
            (record { state = write_back o l state; world = w; pending = before ++ after })

  -- The states after a start with a path and a secret.
  pub data Reachable (sdn_path refresh_secret : Option Bytes) : Server → Type 0 where
    begins :
        (w w' : o.World) (s : OracleState)
        → build_state o sdn_path refresh_secret w ≡ (ok s, w')
        → Reachable sdn_path refresh_secret (record { state = s; world = w'; pending = [] })
    goes :
        (s s' : Server)
        → Reachable sdn_path refresh_secret s
        → ServerStep s s'
        → Reachable sdn_path refresh_secret s'

  -- What the state has of the refresh that wrote it last, or of the start.
  abbrev pub written : OracleState → Loaded o
  written s = record { tree = s.tree; count = s.address_count; now = s.updated_at }

  -- What a run of `load_tree` gave: the world that it was in and the one that it left, the text that
  -- came, the addresses found in it, and the tree that was built over them, with their number.
  pub record IsLoaded (sdn_path : Option Bytes) (l : Loaded o) : Type 0 where
    pub asked : o.World
    pub left : o.World
    pub ran : load_tree o sdn_path asked ≡ (ok l, left)
    pub xml : Bytes
    pub raw : List Bytes
    pub came : (load_text o sdn_path asked).0 ≡ some xml
    pub found : extract_eth_addresses_from_xml xml ≡ ok raw
    pub built : build o.sha256 (parse_eth_addresses o.decode_to_slice raw) ≡ ok l.tree
    pub counted : length (parse_eth_addresses o.decode_to_slice raw) ≡ l.count

  addresses_of-inv :
      (r : Option Bytes × o.World) (addresses : List Bytes) (w : o.World)
      → addresses_of o r ≡ (ok addresses, w)
      → (xml : Bytes) × (raw : List Bytes) × (r.0 ≡ some xml)
        × (extract_eth_addresses_from_xml xml ≡ ok raw)
        × (addresses ≡ parse_eth_addresses o.decode_to_slice raw)
  addresses_of-inv (none, w₀) addresses w e = absurd (cc (ap (λ r. r.0) e))
  addresses_of-inv (some xml, w₀) addresses w e =
      elim (Result-cases (extract_eth_addresses_from_xml xml)) [
        | inl (raw, q) ↦
            let same : ok (parse_eth_addresses o.decode_to_slice raw) ≡ ok addresses =
              ap (λ r. r.0) (rw q at e) in
            (xml, raw, refl, q, sym (ok_cancel same))
        | inr (x, q) ↦ absurd (cc (ap (λ r. r.0) (rw q at e)))
      ]

  stamp-inv :
      (r : Result OracleError SanctionsMerkleTree) (n : ℕ) (w w' : o.World) (l : Loaded o)
      → (Exec.◌>>=◌ (lift (or_panicked r)) λ tree. stamp o tree n) w ≡ (ok l, w')
      → (r ≡ ok l.tree) × (n ≡ l.count)
  unfolding stamp
  stamp-inv (err x) n w w' l e = absurd (cc (ap (λ r. r.0) e))
  stamp-inv (ok tree) n w w' l e =
      let same = ok_cancel (ap (λ r. r.0) e) in
      (ap (λ (l : Loaded o). ok l.tree) same, ap (λ (l : Loaded o). l.count) same)

  load_tree-IsLoaded :
      (sdn_path : Option Bytes) (w w' : o.World) (l : Loaded o)
      → load_tree o sdn_path w ≡ (ok l, w')
      → IsLoaded sdn_path l
  unfolding load_tree load_addresses stamp
  load_tree-IsLoaded sdn_path w w' l e =
      let (addresses, w₁, loaded, rest) = bind-ok (load_addresses o sdn_path) _ w e in
      let (xml, raw, came, found, parsed) =
        addresses_of-inv (load_text o sdn_path w) addresses w₁ loaded in
      let (built, counted) = stamp-inv (build o.sha256 addresses) (length addresses) w₁ w' l rest in
      record {
        asked = w;
        left = w';
        ran = e;
        xml = xml;
        raw = raw;
        came = came;
        found = found;
        built = subst (λ a. build o.sha256 a ≡ ok l.tree) parsed built;
        counted = subst (λ a. length a ≡ l.count) parsed counted;
      }

  -- Each of the trees that are yet to be written.
  unfoldable pub AllLoaded : Option Bytes → List (Loaded o) → Type 0
  AllLoaded sdn_path [] = Unit {0}
  AllLoaded sdn_path (l ∷ pending) = IsLoaded sdn_path l × AllLoaded sdn_path pending

  AllLoaded-split :
      (sdn_path : Option Bytes) (before after : List (Loaded o)) (l : Loaded o)
      → AllLoaded sdn_path (before ++ l ∷ after)
      → IsLoaded sdn_path l × AllLoaded sdn_path (before ++ after)
  unfolding AllLoaded
  AllLoaded-split sdn_path [] after l all = all
  AllLoaded-split sdn_path (x ∷ before) after l (h, all) =
      let (here, rest) = AllLoaded-split sdn_path before after l all in (here, (h, rest))

  -- What holds of all states of the server.
  pub record IsGood (sdn_path refresh_secret : Option Bytes) (s : Server) : Type 0 where
    pub current : IsLoaded sdn_path (written s.state)
    pub later : AllLoaded sdn_path s.pending
    pub path : s.state.sdn_path ≡ sdn_path
    pub secret : s.state.refresh_secret ≡ refresh_secret

  ServerStep-IsGood :
      (sdn_path refresh_secret : Option Bytes) (s s' : Server)
      → ServerStep s s'
      → IsGood sdn_path refresh_secret s
      → IsGood sdn_path refresh_secret s'
  unfolding write_back AllLoaded
  ServerStep-IsGood sdn_path refresh_secret s s' (passes state w w' pending) good = record {
    current = good.current;
    later = good.later;
    path = good.path;
    secret = good.secret;
  }
  ServerStep-IsGood sdn_path refresh_secret s s' (loads state w w' pending given l ok_secret loaded)
        good =
      record {
        current = good.current;
        later = (
          subst (λ path. IsLoaded path l) good.path
              (load_tree-IsLoaded state.sdn_path w w' l loaded),
          good.later,
        );
        path = good.path;
        secret = good.secret;
      }
  ServerStep-IsGood sdn_path refresh_secret s s' (writes state w before after l) good =
      let (here, rest) = AllLoaded-split sdn_path before after l good.later in
      record { current = here; later = rest; path = good.path; secret = good.secret }

  -- In every state of the server, whatever refreshes overlap, the tree was built over all the
  -- addresses of one text that its path gave, the count is their number, and the path and the secret
  -- are those of the start.
  pub Reachable-IsGood :
      (sdn_path refresh_secret : Option Bytes) (s : Server)
      → Reachable sdn_path refresh_secret s
      → IsGood sdn_path refresh_secret s
  unfolding build_state AllLoaded
  Reachable-IsGood sdn_path refresh_secret s (begins w w' state e) =
      let (l, w₁, loaded, made) = bind-ok (load_tree o sdn_path) _ w e in
      let good : IsGood sdn_path refresh_secret
          (record { state = state_of o sdn_path refresh_secret l; world = w'; pending = [] }) =
        record {
          current = load_tree-IsLoaded sdn_path w w₁ l loaded;
          later = tt;
          path = refl;
          secret = refl;
        } in
      subst (λ t. IsGood sdn_path refresh_secret (record { state = t; world = w'; pending = [] }))
        (ok_cancel (ap (λ r. r.0) made)) good
  Reachable-IsGood sdn_path refresh_secret s' (goes s t reached step) =
      ServerStep-IsGood sdn_path refresh_secret s t step
        (Reachable-IsGood sdn_path refresh_secret s reached)

  -- The load that the state was written by, and the addresses of its text.
  abbrev pub last_loaded :
      (sdn_path refresh_secret : Option Bytes) (s : Server)
      → Reachable sdn_path refresh_secret s
      → IsLoaded sdn_path (written s.state)
  last_loaded sdn_path refresh_secret s reached =
      (Reachable-IsGood sdn_path refresh_secret s reached).current

  abbrev pub loaded_addresses :
      {sdn_path : Option Bytes} {l : Loaded o} → IsLoaded sdn_path l → List Bytes
  loaded_addresses load = parse_eth_addresses o.decode_to_slice load.raw
