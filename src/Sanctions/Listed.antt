-- ===== src/Sanctions/Listed.antt =====
-- The features of the text of the SDN list, and the loop that extracts their addresses.
use mathlib.Core.List.{append_assoc}
use obscura_network.Prelude.{
  ℕ, zero, suc, ◌+◌, ◌-◌, ◌≤◌, ◌≡◌, ◌⊎◌, refl, sym, ap, ◌∙◌, subst, inl, inr, true, false, ◌||◌,
  Option, none, some, List, [], ◌∷◌, ◌++◌, Bytes, length, length-append, take, drop, min, Result,
  ok, arith, Bool-cases, Result-cases, ok_cancel, Bytes_Eq, bytes_eq, bytes_eq_self, bytes_eq_sound,
}
use obscura_network.Bridge.Keys.{trim}
use obscura_network.Bridge.Verifier.{starts_with}
use obscura_network.Sanctions.Sort.{contains}
use obscura_network.Sanctions.Feed.{
  feature_tag, open_tag, close_tag, find, address_in, is_char_boundary, FeedError, push_some,
  extract_round, extract_loop, extract_eth_addresses_from_xml, parse_eth_address,
  parse_eth_addresses,
}
use obscura_network.Sanctions.Extract.{length-drop}
use obscura_network.Sanctions.Found.{
  has, element, IsFeature, find-here, drop-within, take-past, starts_with_self, address_in-element,
}

-- A pattern without an F ends before an F.
ends_before :
    (c t p : Bytes)
    → has b'F' p ≡ false
    → starts_with (c ++ b'F' ∷ t) p ≡ true
    → length p ≤ length c
unfolding starts_with
ends_before c t [] f h = omega arith
ends_before [] t (q ∷ p) f h = absurd (ground arith)
ends_before (x ∷ c) t (q ∷ p) f h = ground (arith, ends_before c t p)

-- Where the first tag is found: it is the one that stands there, or one that ends before it.
abbrev IsNear : Bytes → Bytes → ℕ → Type 0
IsNear text rest pos =
    (drop (pos + 19) text ≡ rest)
    ⊎ ((before : Bytes) × (drop (pos + 19) text ≡ before ++ (feature_tag ++ rest)))

earlier_tag :
    (x : ℕ) (before rest : Bytes)
    → starts_with (x ∷ (before ++ (feature_tag ++ rest))) feature_tag ≡ true
    → IsNear (x ∷ (before ++ (feature_tag ++ rest))) rest 0
unfolding starts_with
earlier_tag x before rest h =
    let ends : 18 ≤ length before =
      ends_before before (drop 1 feature_tag ++ rest) (drop 1 feature_tag) refl (ground arith) in
    inr (drop 18 before, drop-within 18 before (feature_tag ++ rest) ends)

first_tag :
    (before rest : Bytes)
    → (pos : ℕ) × (find (before ++ (feature_tag ++ rest)) feature_tag ≡ some pos)
      × IsNear (before ++ (feature_tag ++ rest)) rest pos
unfolding find
first_tag [] rest =
    (0, find-here (feature_tag ++ rest) feature_tag (starts_with_self feature_tag rest), inl refl)
first_tag (x ∷ before) rest =
    let text = x ∷ (before ++ (feature_tag ++ rest)) in
    elim (Bool-cases (starts_with text feature_tag)) [
      | inl here ↦ (0, find-here text feature_tag here, earlier_tag x before rest here)
      | inr later ↦
          let (pos, found, near) = first_tag before rest in
          (
            suc pos,
            rw (later, found) refl,
            subst
                (λ n.
                  (drop n text ≡ rest) ⊎ ((b : Bytes) × (drop n text ≡ b ++ (feature_tag ++ rest))))
                {x = suc (pos + 19)} {y = suc pos + 19} (omega arith) near,
          )
    ]

contains-push_some :
    (a : Bytes) (m : Option Bytes) (l : List Bytes)
    → contains a l ≡ true
    → contains a (push_some m l) ≡ true
contains-push_some a none l h = h
contains-push_some a (some b) l h = ground (arith, h)

-- What a round that succeeds returns.
extract_round-ok :
    (next : Bytes → Result FeedError (List Bytes)) (pos : ℕ) (text : Bytes) (raw : List Bytes)
    → extract_round next (some pos) text ≡ ok raw
    → (l : List Bytes) × (next (drop (pos + 19) text) ≡ ok l)
      × (raw
          ≡ push_some
              (address_in (take (min (length (drop (pos + 19) text)) 500) (drop (pos + 19) text)))
              l)
unfolding extract_round
extract_round-ok next pos text raw h =
    let after = drop (pos + 19) text in
    elim (Bool-cases (is_char_boundary (min (length after) 500) after)) [
      | inr cut ↦ absurd (cc (rw cut at h))
      | inl whole ↦ elim (Result-cases (next after)) [
        | inl (l, q) ↦ (l, q, sym (ok_cancel (rw (whole, q) at h)))
        | inr (e, q) ↦ absurd (cc (rw (whole, q) at h))
      ]
    ]

-- What the loop looks at behind a tag.
abbrev window : Bytes → Bytes
window after = take (min (length after) 500) after

-- The address of a window behind any tag of the text is extracted.
window_found :
    (fuel : ℕ) (raw : List Bytes) (before rest a : Bytes)
    → length (before ++ (feature_tag ++ rest)) ≤ fuel
    → address_in (window rest) ≡ some a
    → extract_loop fuel (before ++ (feature_tag ++ rest)) ≡ ok raw
    → contains a raw ≡ true
unfolding extract_loop
window_found zero raw before rest a small address h =
    absurd (omega (arith, length-append before (feature_tag ++ rest)))
window_found (suc fuel) raw before rest a small address h =
    let text = before ++ (feature_tag ++ rest) in
    let (pos, found, near) = first_tag before rest in
    let (l, next, made) = extract_round-ok (extract_loop fuel) pos text raw (rw found at h) in
    elim near [
      | inl same ↦
          let all : raw ≡ push_some (some a) l =
            made ∙ ap (λ m. push_some m l) (ap (λ r. address_in (window r)) same ∙ address) in
          ap (contains a) all ∙ ap (λ b. b || contains a l) (bytes_eq_self a)
      | inr (before', same) ↦
          let shorter : length (before' ++ (feature_tag ++ rest)) ≤ fuel = omega (
            arith,
            ap length same,
            length-drop (pos + 19) text,
            length-append before (feature_tag ++ rest),
          ) in
          let found_later =
            window_found fuel l before' rest a shorter address
              (subst (λ t. extract_loop fuel t ≡ ok l) same next) in
          ap (contains a) made
          ∙ contains-push_some a (address_in (window (drop (pos + 19) text))) l found_later
    ]

-- The window behind a tag begins with the element that ends in it.
window-element :
    (gap attributes inner more : Bytes)
    → length (element gap attributes inner) ≤ 500
    → (m : Bytes) × (window (element gap attributes inner ++ more)
        ≡ gap ++ (open_tag ++ (attributes ++ (b'>' ∷ (inner ++ (close_tag ++ m))))))
window-element gap attributes inner more near =
    let e = element gap attributes inner in
    let n = min (length (e ++ more)) 500 in
    let m = take (n - length e) more in
    (
      m,
      take-past n e more (omega (arith, length-append e more))
          ∙ (append_assoc gap _ m
              ∙ ap (λ r. gap ++ (open_tag ++ r))
                  (append_assoc attributes (b'>' ∷ (inner ++ close_tag)) m
                    ∙ ap (λ r. attributes ++ (b'>' ∷ r)) (append_assoc inner close_tag m))),
    )

-- Each text that stands in a feature is extracted.
feature_found :
    (xml text : Bytes) (raw : List Bytes)
    → IsFeature xml text
    → extract_eth_addresses_from_xml xml ≡ ok raw
    → contains text raw ≡ true
unfolding extract_eth_addresses_from_xml
feature_found xml text raw f h =
    let rest = element f.gap f.attributes f.inner ++ f.more in
    let whole = f.before ++ (feature_tag ++ rest) in
    let (m, cut) = window-element f.gap f.attributes f.inner f.more f.near in
    let prefixed : starts_with (trim f.inner) (b'0' ∷ b'x' ∷ []) ≡ true =
      subst (λ t. starts_with t (b'0' ∷ b'x' ∷ []) ≡ true) (sym f.trimmed) f.prefixed in
    let address : address_in (window rest) ≡ some text =
      ap address_in cut
      ∙ (address_in-element f.gap f.attributes f.inner m f.first f.opening f.content prefixed
          ∙ ap some f.trimmed) in
    window_found (length whole) raw f.before rest text (omega arith) address
      (subst (λ t. extract_loop (length t) t ≡ ok raw) f.placed h)

parsed_found :
    (decode_to_slice : Bytes → Option Bytes) (text a : Bytes) (raw : List Bytes)
    → contains text raw ≡ true
    → parse_eth_address decode_to_slice text ≡ some a
    → contains a (parse_eth_addresses decode_to_slice raw) ≡ true
unfolding parse_eth_addresses
parsed_found decode_to_slice text a [] h e = cc
parsed_found decode_to_slice text a (s ∷ raw) h e = elim (Bool-cases (bytes_eq text s)) [
  | inl same ↦
      let parsed : parse_eth_address decode_to_slice s ≡ some a =
        subst (λ t. parse_eth_address decode_to_slice t ≡ some a) (bytes_eq_sound text s same) e in
      let l = parse_eth_addresses decode_to_slice raw in
      ap (λ m. contains a (push_some m l)) parsed ∙ ap (λ b. b || contains a l) (bytes_eq_self a)
  | inr other ↦
      contains-push_some a (parse_eth_address decode_to_slice s)
        (parse_eth_addresses decode_to_slice raw)
        (parsed_found decode_to_slice text a raw (rw other at h) e)
]

-- An address that stands in a feature of the text, that is, as the first `VersionDetail` behind a tag
-- of the feature type, with 0x in front and ending within 500 bytes of the tag, is among the addresses
-- that are read from the text, if the extraction does not panic.
pub feature_parsed :
    (decode_to_slice : Bytes → Option Bytes) (xml text a : Bytes) (raw : List Bytes)
    → IsFeature xml text
    → extract_eth_addresses_from_xml xml ≡ ok raw
    → parse_eth_address decode_to_slice text ≡ some a
    → contains a (parse_eth_addresses decode_to_slice raw) ≡ true
feature_parsed decode_to_slice xml text a raw f h e =
    parsed_found decode_to_slice text a raw (feature_found xml text raw f h) e
