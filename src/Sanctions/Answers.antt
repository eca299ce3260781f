-- ===== src/Sanctions/Answers.antt =====
-- The answers of the oracle's server: those about an address, in every state that it comes to, and
-- that of a refresh without the secret.
use obscura_network.Prelude.{
  ℕ, ◌+◌, ◌^◌, ◌≤◌, ◌<◌, ◌≡◌, ◌≢◌, ◌⊎◌, inl, inr, refl, sym, ap, ◌∙◌, true, false, Option, none,
  some, List, Bytes, length, Result, ok, err, arith, bytes_eq, bytes_eq_sound, bytes_eq_self, subst,
  [], ◌∷◌, Bytes_Eq, Bool-cases, Result-cases, ok_cancel,
}
use obscura_network.Sanctions.Order.{IsArray}
use obscura_network.Sanctions.Oracle.{NonMembershipWitness, listed, root, hash_addr}
use obscura_network.Sanctions.Build.{is_listed}
use obscura_network.Sanctions.Circuit.{sanctions_circuit, recipient_commitment}
use obscura_network.Sanctions.Complete.{oracle_answers, circuit_witness}
use obscura_network.Sanctions.Feed.{parse_eth_address}
use obscura_network.Sanctions.Extract.{addresses_bound}
use obscura_network.Sanctions.Sort.{contains}
use obscura_network.Sanctions.Found.{IsFeature}
use obscura_network.Sanctions.Listed.{feature_parsed}
use obscura_network.Sanctions.Server.{
  OracleState, Outside, load_text, Refusal, forbidden, status, hex_text, get_root, get_witness,
  check_address, parse_addr, refresh, refreshed, write_back, Loaded, RefreshResponse, answered,
  finish, load_tree, check_secret, proceed, as_forbidden, missing_secret, invalid_secret,
}
use obscura_network.Sanctions.Reach.{Server, Reachable, IsLoaded, last_loaded, loaded_addresses}

-- The answers about a listed address.
abbrev pub IsRefused : (o : Outside) → OracleState → Bytes → Type 0
IsRefused o s text =
    (check_address o s text ≡ ok (record { address = text; sanctioned = true }))
    × (get_witness o s text ≡ err (forbidden listed))

-- Those about another: a witness for the root that the server gives, which the circuit accepts.
abbrev pub IsServed : (o : Outside) → OracleState → Bytes → Bytes → ℕ → Type 0
IsServed o s text address timestamp =
    (check_address o s text ≡ ok (record { address = text; sanctioned = false }))
    × ((w : NonMembershipWitness) × (get_witness o s text ≡ ok w)
        × (get_root o s
            ≡ ok (record {
              root = hex_text o w.sanctions_root;
              depth = s.tree.depth;
              address_count = s.address_count;
              updated_at = s.updated_at;
            }))
        × (sanctions_circuit o.sha256 (circuit_witness address w timestamp)
            ≡ ok (record {
              recipient_commitment = recipient_commitment o.sha256 address;
              sanctions_root = w.sanctions_root;
              is_clean = true;
              proof_timestamp = timestamp;
            })))

-- The handlers and the loading read a text in one way.
parse_addr-parsed :
    (o : Outside) (text address : Bytes)
    → parse_addr o text ≡ ok address
    → parse_eth_address o.decode_to_slice text ≡ some address
unfolding parse_addr parse_eth_address
parse_addr-parsed o text address h = ground arith

contains-is_listed :
    (sha256 : Bytes → Bytes) (addresses : List Bytes) (a : Bytes)
    → contains a addresses ≡ true
    → is_listed sha256 addresses (hash_addr sha256 a) ≡ true
contains-is_listed sha256 [] a h = cc
contains-is_listed sha256 (x ∷ l) a h = elim (Bool-cases (bytes_eq a x)) [
  | inl same ↦ ground (
    arith,
    subst (λ b. bytes_eq (hash_addr sha256 a) (hash_addr sha256 b) ≡ true) (bytes_eq_sound a x same)
        (bytes_eq_self (hash_addr sha256 a)),
  )
  | inr other ↦ ground (arith, contains-is_listed sha256 l a (rw other at h))
]

-- An address of a feature of the text is listed, so one that is not listed is of none.
unlisted-IsFeature :
    (o : Outside) (path : Option Bytes) (l : Loaded o) (load : IsLoaded o path l)
    (text address : Bytes)
    → parse_addr o text ≡ ok address
    → is_listed o.sha256 (loaded_addresses o load) (hash_addr o.sha256 address) ≡ false
    → ¬ IsFeature load.xml text
unlisted-IsFeature o path l load text address read clean feature =
    let listed_there = contains-is_listed o.sha256 (loaded_addresses o load) address (
      feature_parsed o.decode_to_slice load.xml text address load.raw feature load.found
        (parse_addr-parsed o text address read)) in
    absurd (cc (sym clean ∙ listed_there))

-- In every state that the server comes to, with refreshes that overlap in any way, the state is what
-- one run of the loading wrote, `/root` counts the addresses that this run read from its text, and for
-- a text that is read as an address: either the hash of the address is that of one of them or a
-- sentinel, and then `/check` says that it is sanctioned and `/witness` answers with the error for a
-- listed address; or not, and then the text stands in no feature of the loaded text, that is, as the
-- first `VersionDetail` behind a tag of the feature type, with 0x in front and ending within 500
-- bytes of the tag, `/check` says that it is not sanctioned, and `/witness` gives a witness for the
-- root of `/root`, which the circuit accepts. The hash has 32 bytes and a text that is loaded has
-- less than 2^63 bytes.
pub server_answers :
    (o : Outside) (hash_array : (x : Bytes) → IsArray 32 (o.sha256 x))
    (text_bound : (path : Option Bytes) (w : o.World) (xml : Bytes)
      → (load_text o path w).0 ≡ some xml
      → length xml < 2 ^ 63)
    (path secret : Option Bytes) (s : Server o) (text address : Bytes) (timestamp : ℕ)
    (reached : Reachable o path secret s)
    → parse_addr o text ≡ ok address
    → (length (loaded_addresses o (last_loaded o path secret s reached)) ≡ s.state.address_count)
      × (((is_listed o.sha256
                (loaded_addresses o (last_loaded o path secret s reached))
                (hash_addr o.sha256 address)
              ≡ true)
            × IsRefused o s.state text)
          ⊎ ((is_listed o.sha256
                  (loaded_addresses o (last_loaded o path secret s reached))
                  (hash_addr o.sha256 address)
                ≡ false)
              × (¬ IsFeature (last_loaded o path secret s reached).xml text)
              × IsServed o s.state text address timestamp))
unfolding check_address get_witness get_root as_forbidden
server_answers o hash_array text_bound path secret s text address timestamp reached read =
    let load = last_loaded o path secret s reached in
    let addresses = loaded_addresses o load in
    let small : length addresses + 2 ≤ 2 ^ 63 = omega (
      arith,
      addresses_bound o.decode_to_slice load.xml load.raw load.found,
      text_bound path load.asked load.xml load.came,
    ) in
    (
      load.counted,
      elim (oracle_answers o.sha256 hash_array addresses s.state.tree address timestamp small
          load.built) [
            | inl (on_list, sanctioned, refused) ↦
                inl (on_list, (simp (read, sanctioned) refl, simp (read, refused) refl))
            | inr (clean, free, cleared) ↦
                let (w, given, rooted, accepted) = cleared in
                inr (
                  clean,
                  unlisted-IsFeature o path _ load text address read clean,
                  (
                    simp (read, free) refl,
                    (w, simp (read, given) refl, simp rooted refl, accepted),
                  ),
                )
          ],
    )

check_secret-refused :
    (expected : Bytes) (given : Option Bytes)
    → given ≢ some expected
    → (e : Refusal) × (check_secret (some expected) given ≡ err e) × (status e ≡ some 401)
unfolding check_secret status
check_secret-refused expected none other = (missing_secret, refl, refl)
check_secret-refused expected (some provided) other =
    elim (Bool-cases (bytes_eq provided expected)) [
      | inl same ↦ absurd (other (ap some (bytes_eq_sound provided expected same)))
      | inr differs ↦ (invalid_secret, rw differs refl, refl)
    ]

-- With a secret set, a refresh that does not give just that secret is answered 401; nothing is
-- loaded, and the state stays as it was.
pub refresh_unauthorized :
    (o : Outside) (s : OracleState) (w : o.World) (expected : Bytes) (given : Option Bytes)
    → s.refresh_secret ≡ some expected
    → given ≢ some expected
    → (e : Refusal) × (refresh o given (s, w) ≡ (err e, (s, w))) × (status e ≡ some 401)
unfolding refresh
refresh_unauthorized o s w expected given set other =
    let (e, refused, code) = check_secret-refused expected given other in
    (e, ap (proceed o s w) (ap (λ secret. check_secret secret given) set ∙ refused), code)

refreshed-get_root :
    (o : Outside) (s : OracleState) (l : Loaded o) (answer : RefreshResponse)
    → refreshed o l ≡ ok answer
    → get_root o (write_back o l s)
      ≡ ok (record {
        root = answer.root;
        depth = l.tree.depth;
        address_count = answer.address_count;
        updated_at = answer.updated_at;
      })
unfolding refreshed get_root write_back
refreshed-get_root o s l answer e = elim (Result-cases (root l.tree)) [
  | inl (r, q) ↦ let same : ok _ ≡ ok answer = simp q at e in rw (q, sym (ok_cancel same)) refl
  | inr (x, q) ↦ absurd (cc (simp q at e))
]

-- After a failure the state is as it was. After an answer, `/root` gives its root, count and time,
-- and the path and the secret are as they were.
unfoldable pub IsOutcome :
    (o : Outside) → OracleState → Result Refusal RefreshResponse × (OracleState × o.World) → Type 0
IsOutcome o s (err e, (s', w)) = s' ≡ s
IsOutcome o s (ok answer, (s', w)) =
    (s'.sdn_path ≡ s.sdn_path)
    × (s'.refresh_secret ≡ s.refresh_secret)
    × (get_root o s'
        ≡ ok (record {
          root = answer.root;
          depth = s'.tree.depth;
          address_count = answer.address_count;
          updated_at = answer.updated_at;
        }))

answered-IsOutcome :
    (o : Outside) (s : OracleState) (w : o.World) (l : Loaded o)
    (m : Result Refusal RefreshResponse)
    → refreshed o l ≡ m
    → IsOutcome o s (answered o s w l m)
unfolding IsOutcome write_back
answered-IsOutcome o s w l (err e) q = refl
answered-IsOutcome o s w l (ok answer) q = (refl, refl, refreshed-get_root o s l answer q)

finish-IsOutcome :
    (o : Outside) (s : OracleState) (m : Result Refusal (Loaded o) × o.World)
    → IsOutcome o s (finish o s m)
unfolding IsOutcome
finish-IsOutcome o s (err e, w) = refl
finish-IsOutcome o s (ok l, w) = answered-IsOutcome o s w l (refreshed o l) refl

proceed-IsOutcome :
    (o : Outside) (s : OracleState) (w : o.World) (m : Result Refusal (Unit {0}))
    → IsOutcome o s (proceed o s w m)
unfolding IsOutcome
proceed-IsOutcome o s w (err e) = refl
proceed-IsOutcome o s w (ok u) = finish-IsOutcome o s (load_tree o s.sdn_path w)

-- A refresh that fails leaves the state as it was. One that succeeds answers with the root, the
-- count and the time that `/root` gives from then on, and keeps the path and the secret.
pub refresh-IsOutcome :
    (o : Outside) (s : OracleState) (w : o.World) (given : Option Bytes)
    → IsOutcome o s (refresh o given (s, w))
unfolding refresh
refresh-IsOutcome o s w given = proceed-IsOutcome o s w (check_secret s.refresh_secret given)
