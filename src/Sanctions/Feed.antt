-- ===== src/Sanctions/Feed.antt =====
-- The addresses of crates/sanctions-oracle/src/lib.rs: those that it finds in the text of the SDN
-- list, and what it reads from one. A text is its bytes in UTF-8, and `trim` takes off what ASCII
-- calls white space; a slice that cuts a character is a panic. `decode_to_slice` stands for the hex
-- crate, for a slice of 20 bytes.
use obscura_network.Prelude.{
  ℕ, zero, suc, ◌+◌, Bool, ◌||◌, Option, none, some, List, [], ◌∷◌, ◌++◌, Bytes, length, get_elem?,
  take, drop, replicate, min, nat_eq, leb, ltb, if◌then◌else◌, Result, ok, ◌>>=◌, guard, ◌>>◌,
}
use obscura_network.Bridge.Keys.{trim, strip_0x}
use obscura_network.Bridge.Verifier.{starts_with}

-- FeatureTypeID="345"
abbrev pub feature_tag : Bytes
feature_tag =
    b'F' ∷ b'e' ∷ b'a' ∷ b't' ∷ b'u' ∷ b'r' ∷ b'e' ∷ b'T' ∷ b'y' ∷ b'p' ∷ b'e' ∷ b'I' ∷ b'D' ∷ b'='
    ∷ 34 ∷ b'3' ∷ b'4' ∷ b'5' ∷ 34 ∷ []

-- VersionDetail
abbrev version_detail : Bytes
version_detail =
    b'V' ∷ b'e' ∷ b'r' ∷ b's' ∷ b'i' ∷ b'o' ∷ b'n' ∷ b'D' ∷ b'e' ∷ b't' ∷ b'a' ∷ b'i' ∷ b'l' ∷ []

-- <VersionDetail and </VersionDetail>
abbrev pub open_tag : Bytes
open_tag = b'<' ∷ version_detail

abbrev pub close_tag : Bytes
close_tag = b'<' ∷ b'/' ∷ (version_detail ++ b'>' ∷ [])

abbrev next_place : Option ℕ → Option ℕ
next_place none = none
next_place (some i) = some (suc i)

-- `str::find`: where the pattern stands first.
unfoldable pub find : Bytes → Bytes → Option ℕ
find [] pattern = if starts_with [] pattern then some 0 else none
find (a ∷ l) pattern =
    let rest = find l pattern in if starts_with (a ∷ l) pattern then some 0 else next_place rest

-- `if let Some(a) = m`
abbrev pub if_some {ℓ κ} : {A : Type ℓ} {B : Type κ} → Option A → (A → Option B) → Option B
if_some none f = none
if_some (some a) f = f a

-- The address of a window, if there is one.
unfoldable pub address_in : Bytes → Option Bytes
unfolding trim
address_in window = if_some (find window open_tag) λ start.
    let after_open = drop start window in
    if_some (find after_open (b'>' ∷ [])) λ content_start.
      let content = drop (content_start + 1) after_open in
      if_some (find content close_tag) λ end.
        let addr = trim (take end content) in
        if starts_with addr (b'0' ∷ b'x' ∷ []) || starts_with addr (b'0' ∷ b'X' ∷ [])
        then some addr
        else none

abbrev starts_character : Option ℕ → Bool → Bool
starts_character none at_end = at_end
starts_character (some b) at_end = ltb b 128 || leb 192 b

-- `is_char_boundary`
unfoldable pub is_char_boundary : ℕ → Bytes → Bool
is_char_boundary i s = starts_character (get_elem? s i) (nat_eq i (length s))

pub data FeedError : Type 0 where
  cut_character : FeedError

abbrev pub push_some : Option Bytes → List Bytes → List Bytes
push_some none addresses = addresses
push_some (some a) addresses = a ∷ addresses

-- The body of the loop for the place of a tag, and the loop on what follows it.
unfoldable pub extract_round :
    (Bytes → Result FeedError (List Bytes)) → Option ℕ → Bytes → Result FeedError (List Bytes)
extract_round next none search = ok []
extract_round next (some pos) search =
    let after = drop (pos + 19) search in
    let n = min (length after) 500 in
    guard (is_char_boundary n after) cut_character
    >> (next after >>= λ addresses. ok (push_some (address_in (take n after)) addresses))

-- `while let Some(pos) = search.find(..)`
unfoldable pub extract_loop : ℕ → Bytes → Result FeedError (List Bytes)
extract_loop zero text = ok []
extract_loop (suc fuel) text = extract_round (extract_loop fuel) (find text feature_tag) text

unfoldable pub extract_eth_addresses_from_xml : Bytes → Result FeedError (List Bytes)
extract_eth_addresses_from_xml xml = extract_loop (length xml) xml

-- 20 bytes behind twelve zeros.
unfoldable pub padded : Option Bytes → Option Bytes
padded bytes = if_some bytes λ b. some (replicate 12 0 ++ b)

module _ (decode_to_slice : Bytes → Option Bytes) where
  -- The closure of `filter_map`.
  unfoldable pub parse_eth_address : Bytes → Option Bytes
  unfolding trim strip_0x
  parse_eth_address text =
      let s = strip_0x (trim text) in
      if nat_eq (length s) 40 then padded (decode_to_slice s) else none

  unfoldable pub parse_eth_addresses : List Bytes → List Bytes
  parse_eth_addresses [] = []
  parse_eth_addresses (s ∷ raw) = push_some (parse_eth_address s) (parse_eth_addresses raw)
