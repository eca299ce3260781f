-- ===== src/Sanctions/Server.antt =====
-- crates/sanctions-oracle/src/server.rs: the state of the oracle's server and its handlers. A text
-- is its bytes; the router, the tracing and the JSON of an answer are left out.
use obscura_network.Prelude.{
  ℕ, Bool, Option, none, some, List, ◌∷◌, Bytes, length, ◌==◌, Bytes_Eq, nat_eq, Result, ok, err,
  ◌>>=◌, guard, ◌>>◌,
}
use obscura_network.Prelude.Exec.{Exec, pure, lift, gets}
use obscura_network.Bridge.Keys.{trim, strip_0x}
use obscura_network.Sanctions.Oracle.{
  SanctionsMerkleTree, NonMembershipWitness, OracleError, listed, below_all, out_of_bounds, build,
  root, non_membership_witness, is_sanctioned,
}
use obscura_network.Sanctions.Feed.{extract_eth_addresses_from_xml, parse_eth_addresses, padded}
use obscura_network.Prelude.Exec

pub record OracleState : Type 0 where
  pub tree : SanctionsMerkleTree
  pub updated_at : ℕ
  pub address_count : ℕ
  pub sdn_path : Option Bytes
  pub refresh_secret : Option Bytes

-- What the server takes from elsewhere: the request to treasury.gov, the files, the clock, and the
-- crates hex and sha2. `World` is the state of all that is outside.
pub record Outside : Type 1 where
  pub World : Type 0
  pub fetch_ofac_sdn : World → Option Bytes × World
  pub read_to_string : Bytes → World → Option Bytes × World
  pub unix_now : World → ℕ × World
  pub decode_to_slice : Bytes → Option Bytes
  pub hex_encode : Bytes → Bytes
  pub sha256 : Bytes → Bytes

-- The errors that a handler answers with, and a panic, after which there is no answer.
pub data Refusal : Type 0 where
  missing_secret invalid_secret bad_address load_failed panicked : Refusal
  forbidden : OracleError → Refusal

-- The answer's status code.
unfoldable pub status : Refusal → Option ℕ
status missing_secret = some 401
status invalid_secret = some 401
status bad_address = some 400
status load_failed = some 500
status panicked = none
status (forbidden e) = some 403

abbrev pub or_panicked {ℓ κ} : {E : Type κ} {A : Type ℓ} → Result E A → Result Refusal A
or_panicked (ok a) = ok a
or_panicked (err e) = err panicked

pub record RootResponse : Type 0 where
  pub root : Bytes
  pub depth : ℕ
  pub address_count : ℕ
  pub updated_at : ℕ

pub record CheckResponse : Type 0 where
  pub address : Bytes
  pub sanctioned : Bool

pub record RefreshResponse : Type 0 where
  pub root : Bytes
  pub address_count : ℕ
  pub updated_at : ℕ

-- `Err(..)` of a witness, or its panic.
unfoldable pub as_forbidden : OracleError → Refusal
as_forbidden listed = forbidden listed
as_forbidden below_all = forbidden below_all
as_forbidden out_of_bounds = panicked

abbrev map_err {ℓ} : {A : Type ℓ} → Result OracleError A → Result Refusal A
map_err (ok a) = ok a
map_err (err e) = err (as_forbidden e)

abbrev pub or_refused {ℓ} : {A : Type ℓ} → Option A → Refusal → Result Refusal A
or_refused none e = err e
or_refused (some a) e = ok a

-- The first block of `refresh`, under a lock of its own: the secret of the state, and that of the
-- query.
unfoldable pub check_secret : Option Bytes → Option Bytes → Result Refusal (Unit {0})
check_secret none given = ok tt
check_secret (some expected) none = err missing_secret
check_secret (some expected) (some provided) = guard (provided == expected) invalid_secret

module _ (o : Outside) where
  -- "0x" and the digits.
  abbrev pub hex_text : Bytes → Bytes
  hex_text b = b'0' ∷ b'x' ∷ o.hex_encode b

  unfoldable pub load_text : Option Bytes → o.World → Option Bytes × o.World
  load_text none w = o.fetch_ofac_sdn w
  load_text (some path) w = o.read_to_string path w

  abbrev parsed : Bytes → Result Refusal (List Bytes)
  parsed xml = or_panicked (extract_eth_addresses_from_xml xml) >>= λ raw.
      ok (parse_eth_addresses o.decode_to_slice raw)

  -- The addresses of the text that came, with the world after it.
  abbrev pub addresses_of : Option Bytes × o.World → Result Refusal (List Bytes) × o.World
  addresses_of (xml, w) = (or_refused xml load_failed >>= parsed, w)

  unfoldable pub load_addresses : Option Bytes → Exec Refusal o.World (List Bytes)
  load_addresses sdn_path w = addresses_of (load_text sdn_path w)

  -- A tree over what was loaded, that many addresses, and the time it was made.
  pub record Loaded : Type 0 where
    pub tree : SanctionsMerkleTree
    pub count : ℕ
    pub now : ℕ

  abbrev stamped : SanctionsMerkleTree → ℕ → ℕ × o.World → Result Refusal Loaded × o.World
  stamped tree count (now, w) = (ok (record { tree = tree; count = count; now = now }), w)

  unfoldable pub stamp : SanctionsMerkleTree → ℕ → Exec Refusal o.World Loaded
  stamp tree count w = stamped tree count (o.unix_now w)

  -- What `OracleState::build` and `refresh` both do.
  unfoldable pub load_tree : Option Bytes → Exec Refusal o.World Loaded
  load_tree sdn_path = Exec.◌>>=◌ (load_addresses sdn_path) λ addresses.
      Exec.◌>>=◌ (lift (or_panicked (build o.sha256 addresses)))
        λ tree. stamp tree (length addresses)

  abbrev pub state_of : Option Bytes → Option Bytes → Loaded → OracleState
  state_of sdn_path refresh_secret l = record {
    tree = l.tree;
    updated_at = l.now;
    address_count = l.count;
    sdn_path = sdn_path;
    refresh_secret = refresh_secret;
  }

  -- `OracleState::build`
  unfoldable pub build_state : Option Bytes → Option Bytes → Exec Refusal o.World OracleState
  build_state sdn_path refresh_secret =
      Exec.◌>>=◌ (load_tree sdn_path) λ l. pure (state_of sdn_path refresh_secret l)

  unfoldable pub get_root : OracleState → Result Refusal RootResponse
  get_root s = or_panicked (root s.tree) >>= λ r. ok (record {
    root = hex_text r;
    depth = s.tree.depth;
    address_count = s.address_count;
    updated_at = s.updated_at;
  })

  unfoldable pub parse_addr : Bytes → Result Refusal Bytes
  unfolding trim strip_0x
  parse_addr text =
      let s = strip_0x (trim text) in
      guard (nat_eq (length s) 40) bad_address
      >> or_refused (padded (o.decode_to_slice s)) bad_address

  unfoldable pub get_witness : OracleState → Bytes → Result Refusal NonMembershipWitness
  get_witness s addr =
      parse_addr addr >>= λ addr_bytes. map_err (non_membership_witness o.sha256 s.tree addr_bytes)

  unfoldable pub check_address : OracleState → Bytes → Result Refusal CheckResponse
  check_address s addr = parse_addr addr >>= λ addr_bytes.
      ok (record { address = addr; sanctioned = is_sanctioned o.sha256 s.tree addr_bytes })

  -- The writes of `refresh`, under one lock.
  unfoldable pub write_back : Loaded → OracleState → OracleState
  write_back l s = record {
    tree = l.tree;
    updated_at = l.now;
    address_count = l.count;
    sdn_path = s.sdn_path;
    refresh_secret = s.refresh_secret;
  }

  unfoldable pub refreshed : Loaded → Result Refusal RefreshResponse
  refreshed l = or_panicked (root l.tree) >>= λ r.
      ok (record { root = hex_text r; address_count = l.count; updated_at = l.now })

  abbrev pub answered :
      OracleState
      → o.World
      → Loaded
      → Result Refusal RefreshResponse
      → Result Refusal RefreshResponse × (OracleState × o.World)
  answered s w l (err e) = (err e, (s, w))
  answered s w l (ok answer) = (ok answer, (write_back l s, w))

  -- The root is computed, which may panic, before the lock is taken.
  abbrev pub finish :
      OracleState
      → Result Refusal Loaded × o.World
      → Result Refusal RefreshResponse × (OracleState × o.World)
  finish s (err e, w) = (err e, (s, w))
  finish s (ok l, w) = answered s w l (refreshed l)

  abbrev pub proceed :
      OracleState
      → o.World
      → Result Refusal (Unit {0})
      → Result Refusal RefreshResponse × (OracleState × o.World)
  proceed s w (err e) = (err e, (s, w))
  proceed s w (ok _) = finish s (load_tree s.sdn_path w)

  -- A refresh with no other beside it.
  unfoldable pub refresh : Option Bytes → Exec Refusal (OracleState × o.World) RefreshResponse
  refresh given (s, w) = proceed s w (check_secret s.refresh_secret given)
