-- ===== src/Sanctions/Found.antt =====
-- The features of the text of the SDN list, and the address that is found in one.
use mathlib.Core.List.{append_assoc}
use obscura_network.Prelude.{
  ℕ, zero, suc, ◌+◌, ◌-◌, ◌≤◌, ◌≡◌, refl, sym, ap, ◌∙◌, Bool, true, false, ◌||◌, ◌&&◌, some, [],
  ◌∷◌, ◌++◌, Bytes, length, take, drop, take_all, take-append, nat_eq, arith, Bytes_Eq,
}
use obscura_network.Bridge.Keys.{trim}
use obscura_network.Bridge.Verifier.{starts_with}
use obscura_network.Mpt.RoundTrip.{drop-length}
use obscura_network.Sanctions.Feed.{feature_tag, open_tag, close_tag, find, address_in}

abbrev pub has : ℕ → Bytes → Bool
has c [] = false
has c (x ∷ l) = nat_eq x c || has c l

-- Whether the text, which `pattern` follows, has a place at which `pattern` begins.
abbrev pub begins_in : Bytes → Bytes → Bool
begins_in pattern [] = false
begins_in pattern (x ∷ l) = starts_with (x ∷ l ++ pattern) pattern || begins_in pattern l

-- An element with a text inside, behind what comes before it.
abbrev pub element : Bytes → Bytes → Bytes → Bytes
element gap attributes inner = gap ++ (open_tag ++ (attributes ++ (b'>' ∷ (inner ++ close_tag))))

-- The text stands, but for the white space around it, in the first `VersionDetail` element behind a
-- tag of the feature type, which ends within 500 bytes of the tag.
pub record IsFeature (xml text : Bytes) : Type 0 where
  pub before : Bytes
  pub gap : Bytes
  pub attributes : Bytes
  pub inner : Bytes
  pub more : Bytes
  pub placed : xml ≡ before ++ (feature_tag ++ (element gap attributes inner ++ more))
  pub first : begins_in open_tag gap ≡ false
  pub opening : has b'>' attributes ≡ false
  pub content : has b'<' inner ≡ false
  pub near : length (element gap attributes inner) ≤ 500
  pub trimmed : trim inner ≡ text
  pub prefixed : starts_with text (b'0' ∷ b'x' ∷ []) ≡ true

starts_with-append :
    (l m p : Bytes) → length p ≤ length l → starts_with (l ++ m) p ≡ starts_with l p
unfolding starts_with
starts_with-append l m [] h = refl
starts_with-append [] m (c ∷ p) h = absurd (omega arith)
starts_with-append (x ∷ l) m (c ∷ p) h =
    ap (λ b. nat_eq x c && b) (starts_with-append l m p (omega arith))

pub starts_with_self : (p m : Bytes) → starts_with (p ++ m) p ≡ true
unfolding starts_with
starts_with_self [] m = refl
starts_with_self (c ∷ p) m = ground (arith, starts_with_self p m)

length-append_ge : (l p : Bytes) → length p ≤ length (l ++ p)
length-append_ge [] p = omega arith
length-append_ge (x ∷ l) p = omega (arith, length-append_ge l p)

pub find-here : (l p : Bytes) → starts_with l p ≡ true → find l p ≡ some 0
unfolding find
find-here [] p h = rw h refl
find-here (x ∷ l) p h = rw h refl

-- A pattern that begins nowhere before is found where it stands.
pub find-after :
    (gap p m : Bytes) → begins_in p gap ≡ false → find (gap ++ (p ++ m)) p ≡ some (length gap)
unfolding find
find-after [] p m h = find-here (p ++ m) p (starts_with_self p m)
find-after (x ∷ gap) p m h =
    let shut : starts_with (x ∷ (gap ++ (p ++ m))) p ≡ false =
      ap (λ l. starts_with (x ∷ l) p) (sym (append_assoc gap p m))
      ∙ (starts_with-append (x ∷ (gap ++ p)) m p (omega (arith, length-append_ge gap p))
          ∙ ground arith) in
    rw (shut, find-after gap p m (ground arith)) refl

pub has-begins_in : (c : ℕ) (p gap : Bytes) → has c gap ≡ false → begins_in (c ∷ p) gap ≡ false
unfolding starts_with
has-begins_in c p [] h = refl
has-begins_in c p (x ∷ gap) h = ground (arith, has-begins_in c p gap)

pub drop-past : (l m : Bytes) (x : ℕ) → drop (length l + 1) (l ++ x ∷ m) ≡ m
drop-past [] m x = refl
drop-past (y ∷ l) m x =
    ap (λ n. drop n (y ∷ (l ++ x ∷ m))) {x = suc (length l) + 1} {y = suc (length l + 1)}
      (omega arith)
    ∙ drop-past l m x

pub drop-within : (n : ℕ) (l m : Bytes) → n ≤ length l → drop n (l ++ m) ≡ drop n l ++ m
drop-within zero l m h = refl
drop-within (suc n) [] m h = absurd (omega arith)
drop-within (suc n) (x ∷ l) m h = drop-within n l m (omega arith)

pub take-past : (n : ℕ) (l m : Bytes) → length l ≤ n → take n (l ++ m) ≡ l ++ take (n - length l) m
take-past n [] m h = ap (λ k. take k m) {x = n} {y = n - 0} (omega arith)
take-past zero (x ∷ l) m h = absurd (omega arith)
take-past (suc n) (x ∷ l) m h =
    ap (λ r. x ∷ r)
      (take-past n l m (omega arith)
        ∙ ap (λ k. l ++ take k m) {x = n - length l} {y = suc n - suc (length l)} (omega arith))

pub take-length : (l m : Bytes) → take (length l) (l ++ m) ≡ l
take-length l m = take-append (length l) l m (omega arith) ∙ take_all (length l) l (omega arith)

-- The first address of a window that begins with an element.
pub address_in-element :
    (gap attributes inner m : Bytes)
    → begins_in open_tag gap ≡ false
    → has b'>' attributes ≡ false
    → has b'<' inner ≡ false
    → starts_with (trim inner) (b'0' ∷ b'x' ∷ []) ≡ true
    → address_in (gap ++ (open_tag ++ (attributes ++ (b'>' ∷ (inner ++ (close_tag ++ m))))))
      ≡ some (trim inner)
unfolding address_in
address_in-element gap attributes inner m first opening content prefixed =
    let rest = inner ++ (close_tag ++ m) in
    let tail = open_tag ++ (attributes ++ (b'>' ∷ rest)) in
    rw
      (
        find-after gap open_tag (attributes ++ (b'>' ∷ rest)) first,
        drop-length gap tail,
        find-after (open_tag ++ attributes) (b'>' ∷ []) rest
            (has-begins_in b'>' [] (open_tag ++ attributes) opening),
        drop-past (open_tag ++ attributes) rest b'>',
        find-after inner close_tag m (has-begins_in b'<' (drop 1 close_tag) inner content),
        take-length inner (close_tag ++ m),
        prefixed,
      )
      refl
