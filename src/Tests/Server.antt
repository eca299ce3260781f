-- ===== src/Tests/Server.antt =====
-- The oracle's server over a list of one address, which a refresh loads a second time.
use obscura_network.Prelude.{
  ℕ, ◌<◌, ◌^◌, ◌≡◌, ◌⊎◌, refl, subst, true, false, none, some, Option, [], ◌∷◌, ◌++◌, Bytes,
  replicate, length, unwrap_or, ok, arith, bytes_eq, Bytes_Eq,
}
use obscura_network.Merkle.{zero_bytes}
use obscura_network.Bridge.Keys.{trim, strip_0x}
use obscura_network.Bridge.Verifier.{starts_with}
use obscura_network.Sanctions.Order.{bytes_ltb}
use obscura_network.Sanctions.Sort.{contains, insert_sorted, sort, dedup_from, dedup, resize}
use obscura_network.Sanctions.Power.{next_power_of_two, trailing_zeros}
use obscura_network.Sanctions.Oracle.{
  max_bytes, addr_tag, hash_addr, hash_leaf, hash_node, SanctionsMerkleTree, listed_hashes, pair_up,
  levels_loop, build,
}
use obscura_network.Sanctions.Build.{is_listed}
use obscura_network.Sanctions.Feed.{
  feature_tag, open_tag, close_tag, find, address_in, is_char_boundary, extract_round, extract_loop,
  extract_eth_addresses_from_xml, padded, parse_eth_address, parse_eth_addresses,
}
use obscura_network.Sanctions.Server.{
  OracleState, Outside, Loaded, check_secret, load_text, load_addresses, stamp, load_tree,
  build_state, parse_addr, write_back,
}
use obscura_network.Sanctions.Reach.{
  written, IsLoaded, last_loaded, loaded_addresses, Server, passes, loads, writes, Reachable,
  begins, goes,
}
use obscura_network.Sanctions.Found.{IsFeature}
use obscura_network.Sanctions.Listed.{feature_parsed}
use obscura_network.Sanctions.Answers.{IsRefused, IsServed, server_answers}
use obscura_network.Tests.Data.{fit, toy_hash, toy_hash-IsArray}
use obscura_network.Tests.Oracle.{leaf, above}

abbrev digits : ℕ → Bytes
digits d = b'0' ∷ b'x' ∷ replicate 40 d

abbrev xml : Bytes
xml = feature_tag ++ (b'>' ∷ (open_tag ++ (b'>' ∷ (digits b'5' ++ close_tag))))

abbrev outside : Outside
outside = record {
  World = ℕ;
  fetch_ofac_sdn = λ t. (some xml, t);
  read_to_string = λ path t. (none, t);
  unix_now = λ t. (t, t);
  decode_to_slice = λ b. some (fit 20 b);
  hex_encode = λ b. b;
  sha256 = toy_hash;
}

abbrev hashed : Bytes
hashed = addr_tag ++ (replicate 12 0 ++ replicate 16 b'5')

abbrev tree : SanctionsMerkleTree
tree = record {
  sorted_addr_hashes = zero_bytes ∷ hashed ∷ max_bytes ∷ max_bytes ∷ [];
  levels =
      (leaf zero_bytes ∷ leaf hashed ∷ leaf max_bytes ∷ leaf max_bytes ∷ [])
      ∷ (above (leaf zero_bytes) ∷ above (leaf max_bytes) ∷ [])
      ∷ (above (above (leaf zero_bytes)) ∷ [])
      ∷ [];
  depth = 2;
}

abbrev started : OracleState
started = record {
  tree = tree;
  updated_at = 10;
  address_count = 1;
  sdn_path = none;
  refresh_secret = some (b's' ∷ []);
}

abbrev again : Loaded outside
again = record { tree = tree; count = 1; now = 10 }

abbrev address : ℕ → Bytes
address d = replicate 12 0 ++ replicate 20 d

raw_lem : extract_eth_addresses_from_xml xml ≡ ok (digits b'5' ∷ [])
unfolding extract_eth_addresses_from_xml extract_loop extract_round find starts_with
    is_char_boundary address_in trim
raw_lem = refl

parsed_lem : parse_eth_addresses outside.decode_to_slice (digits b'5' ∷ []) ≡ address b'5' ∷ []
unfolding parse_eth_addresses parse_eth_address padded trim strip_0x
parsed_lem = refl

build_lem : build toy_hash (address b'5' ∷ []) ≡ ok tree
unfolding build listed_hashes hash_addr hash_leaf hash_node insert_sorted sort dedup_from dedup
    resize next_power_of_two trailing_zeros pair_up levels_loop bytes_ltb bytes_eq
build_lem = refl

load_tree_lem :
    (t : ℕ) → load_tree outside none t ≡ (ok (record { tree = tree; count = 1; now = t }), t)
unfolding load_tree load_addresses load_text stamp
load_tree_lem t = rw (raw_lem, parsed_lem, build_lem) refl

build_state_lem : build_state outside none (some (b's' ∷ [])) 10 ≡ (ok started, 10)
unfolding build_state
build_state_lem = rw (load_tree_lem 10) refl

-- A refresh has loaded the list, time has passed, and it has written.
reached :
    Reachable outside none
      (some (b's' ∷ []))
      (record { state = write_back outside again started; world = 12; pending = [] })
unfolding check_secret bytes_eq
reached =
    goes _ _
      (goes _ _
        (goes _ _ (begins 10 10 started build_state_lem)
          (loads started 10 10 [] (some (b's' ∷ [])) again refl (load_tree_lem 10)))
        (passes started 10 12 (again ∷ [])))
      (writes started 12 [] [] again)

parse_addr_lem : parse_addr outside (digits b'7') ≡ ok (address b'7')
unfolding parse_addr trim strip_0x padded
parse_addr_lem = refl

text_small :
    (path : Option Bytes) (w : ℕ) (text : Bytes)
    → (load_text outside path w).0 ≡ some text
    → length text < 2 ^ 63
unfolding load_text
text_small none w text e = subst (λ r. length (unwrap_or r []) < 2 ^ 63) e (omega arith)
text_small (some path) w text e = absurd (cc e)

abbrev refreshed_state : Server outside
refreshed_state = record { state = write_back outside again started; world = 12; pending = [] }

abbrev load : IsLoaded outside none (written outside refreshed_state.state)
load = last_loaded outside none (some (b's' ∷ [])) refreshed_state reached

server_answers_example :
    (length (loaded_addresses outside load) ≡ 1)
    × (((is_listed toy_hash (loaded_addresses outside load) (hash_addr toy_hash (address b'7'))
            ≡ true)
          × IsRefused outside (write_back outside again started) (digits b'7'))
        ⊎ ((is_listed toy_hash (loaded_addresses outside load) (hash_addr toy_hash (address b'7'))
              ≡ false)
            × (¬ IsFeature load.xml (digits b'7'))
            × IsServed outside
                (write_back outside again started)
                (digits b'7')
                (address b'7')
                1000))
unfolding write_back
server_answers_example =
    server_answers outside toy_hash-IsArray text_small none (some (b's' ∷ [])) refreshed_state
      (digits b'7') (address b'7') 1000 reached parse_addr_lem

feature : IsFeature xml (digits b'5')
unfolding starts_with trim
feature = record {
  before = [];
  gap = b'>' ∷ [];
  attributes = [];
  inner = digits b'5';
  more = [];
  placed = refl;
  first = refl;
  opening = refl;
  content = refl;
  near = omega arith;
  trimmed = refl;
  prefixed = refl;
}

digits_lem : parse_eth_address outside.decode_to_slice (digits b'5') ≡ some (address b'5')
unfolding parse_eth_address padded trim strip_0x
digits_lem = refl

feature_parsed_example :
    contains (address b'5') (parse_eth_addresses outside.decode_to_slice (digits b'5' ∷ [])) ≡ true
feature_parsed_example =
    feature_parsed outside.decode_to_slice xml (digits b'5') (address b'5') (digits b'5' ∷ [])
      feature raw_lem digits_lem
