-- ===== src/Sanctions/Sort.antt =====
-- `sort`, `dedup` and `resize` on a vector of byte arrays, and what they leave in it.
use obscura_network.Prelude.{
  ℕ, zero, suc, ◌-◌, ◌≤◌, ◌<◌, ◌≡◌, refl, sym, ap, ◌∙◌, inl, inr, Bool, true, false, ◌||◌, List, [],
  ◌∷◌, ◌++◌, Bytes, bytes_eq, bytes_eq_sound, bytes_eq_self, ◌==◌, Bytes_Eq, length, length-append,
  length-replicate, take, take_all, replicate, get_or, arith, Bool-cases, if◌then◌else◌,
}
use obscura_network.Sanctions.Order.{
  bytes_ltb, IsUpTo, bytes_ltb-IsUpTo, IsUpTo-trans, bytes_ltb_irrefl,
}

-- The list is ascending afterwards, and there is only one such list.
unfoldable pub insert_sorted : Bytes → List Bytes → List Bytes
insert_sorted h [] = h ∷ []
insert_sorted h (x ∷ l) = if bytes_ltb x h then x ∷ insert_sorted h l else h ∷ (x ∷ l)

unfoldable pub sort : List Bytes → List Bytes
unfolding insert_sorted
sort [] = []
sort (h ∷ l) = insert_sorted h (sort l)

-- Of neighbours that are equal, the first stays.
unfoldable pub dedup_from : Bytes → List Bytes → List Bytes
dedup_from x [] = x ∷ []
dedup_from x (y ∷ l) = elim (x == y) [ true ↦ dedup_from x l | false ↦ x ∷ dedup_from y l ]

unfoldable pub dedup : List Bytes → List Bytes
unfolding dedup_from
dedup [] = []
dedup (x ∷ l) = dedup_from x l

unfoldable pub resize : ℕ → Bytes → List Bytes → List Bytes
resize n value l = take n l ++ replicate (n - length l) value

-- All of the list is at least `x`.
abbrev pub AllFrom : Bytes → List Bytes → Type 0
AllFrom x [] = Unit {0}
AllFrom x (y ∷ l) = IsUpTo x y × AllFrom x l

abbrev pub IsAscending : List Bytes → Type 0
IsAscending [] = Unit {0}
IsAscending (x ∷ l) = AllFrom x l × IsAscending l

AllFrom-trans : (x y : Bytes) (l : List Bytes) → IsUpTo x y → AllFrom y l → AllFrom x l
AllFrom-trans x y [] p a = tt
AllFrom-trans x y (z ∷ l) p (q, a) = (IsUpTo-trans x y z p q, AllFrom-trans x y l p a)

insert_sorted-AllFrom :
    (x h : Bytes) (l : List Bytes) → IsUpTo x h → AllFrom x l → AllFrom x (insert_sorted h l)
unfolding insert_sorted
insert_sorted-AllFrom x h [] p a = (p, tt)
insert_sorted-AllFrom x h (y ∷ l) p (q, a) = elim (Bool-cases (bytes_ltb y h)) [
  | inl less ↦ rw less (q, insert_sorted-AllFrom x h l p a)
  | inr here ↦ rw here (p, (q, a))
]

insert_sorted-IsAscending :
    (h : Bytes) (l : List Bytes) → IsAscending l → IsAscending (insert_sorted h l)
unfolding insert_sorted
insert_sorted-IsAscending h [] a = (tt, tt)
insert_sorted-IsAscending h (y ∷ l) (f, a) = elim (Bool-cases (bytes_ltb y h)) [
  | inl less ↦
      rw less
        (insert_sorted-AllFrom y h l (bytes_ltb-IsUpTo y h less) f, insert_sorted-IsAscending h l a)
  | inr here ↦ rw here ((here, AllFrom-trans h y l here f), (f, a))
]

pub sort-IsAscending : (l : List Bytes) → IsAscending (sort l)
unfolding sort
sort-IsAscending [] = tt
sort-IsAscending (h ∷ l) = insert_sorted-IsAscending h (sort l) (sort-IsAscending l)

dedup_from-AllFrom :
    (x y : Bytes) (l : List Bytes) → IsUpTo x y → AllFrom x l → AllFrom x (dedup_from y l)
unfolding dedup_from
dedup_from-AllFrom x y [] p a = (p, tt)
dedup_from-AllFrom x y (z ∷ l) p (q, a) = elim (Bool-cases (bytes_eq y z)) [
  | inl same ↦ rw (same, dedup_from) (dedup_from-AllFrom x y l p a)
  | inr other ↦ rw (other, dedup_from) (p, dedup_from-AllFrom x z l q a)
]

dedup_from-IsAscending :
    (x : Bytes) (l : List Bytes) → AllFrom x l → IsAscending l → IsAscending (dedup_from x l)
unfolding dedup_from
dedup_from-IsAscending x [] f a = (tt, tt)
dedup_from-IsAscending x (y ∷ l) (p, f) (g, a) = elim (Bool-cases (bytes_eq x y)) [
  | inl same ↦ rw (same, dedup_from) (dedup_from-IsAscending x l f a)
  | inr other ↦
      rw (other, dedup_from) (dedup_from-AllFrom x y l p f, dedup_from-IsAscending y l g a)
]

pub dedup-IsAscending : (l : List Bytes) → IsAscending l → IsAscending (dedup l)
unfolding dedup
dedup-IsAscending [] a = tt
dedup-IsAscending (x ∷ l) (f, a) = dedup_from-IsAscending x l f a

-- Whether a list has an element.
abbrev pub contains : Bytes → List Bytes → Bool
contains k [] = false
contains k (x ∷ l) = k == x || contains k l

-- Sorting and removing duplicates keep what is in the list.
insert_sorted-contains :
    (k h : Bytes) (l : List Bytes) → contains k (insert_sorted h l) ≡ contains k (h ∷ l)
unfolding insert_sorted
insert_sorted-contains k h [] = refl
insert_sorted-contains k h (y ∷ l) = ground (arith, insert_sorted-contains k h l)

pub contains-sort : (k : Bytes) (l : List Bytes) → contains k (sort l) ≡ contains k l
unfolding sort
contains-sort k [] = refl
contains-sort k (h ∷ l) =
    insert_sorted-contains k h (sort l) ∙ ap (λ b. k == h || b) (contains-sort k l)

contains-dedup_from :
    (k x : Bytes) (l : List Bytes) → contains k (dedup_from x l) ≡ contains k (x ∷ l)
unfolding dedup_from
contains-dedup_from k x [] = refl
contains-dedup_from k x (y ∷ l) =
    ground (arith, contains-dedup_from k x l, contains-dedup_from k y l, bytes_eq_sound x y)

pub contains-dedup : (k : Bytes) (l : List Bytes) → contains k (dedup l) ≡ contains k l
unfolding dedup
contains-dedup k [] = refl
contains-dedup k (x ∷ l) = contains-dedup_from k x l

pub contains-append :
    (k : Bytes) (l m : List Bytes) → contains k (l ++ m) ≡ (contains k l || contains k m)
contains-append k [] m = refl
contains-append k (x ∷ l) m = ground (arith, contains-append k l m)

pub contains-replicate : (k x : Bytes) (n : ℕ) → contains k (replicate n x) ≡ true → k ≡ x
contains-replicate k x zero h = cc
contains-replicate k x (suc n) h = ground (arith, contains-replicate k x n, bytes_eq_sound k x)

-- All of a list is at most `x`.
abbrev pub AllUpTo : Bytes → List Bytes → Type 0
AllUpTo x [] = Unit {0}
AllUpTo x (y ∷ l) = IsUpTo y x × AllUpTo x l

pub AllUpTo-intro :
    (x : Bytes) (l : List Bytes) → ((y : Bytes) → contains y l ≡ true → IsUpTo y x) → AllUpTo x l
AllUpTo-intro x [] h = tt
AllUpTo-intro x (y ∷ l) h =
    (h y (rw (bytes_eq_self y)), AllUpTo-intro x l (λ z m. h z (ground (arith, m))))

AllFrom-replicate : (x y : Bytes) (n : ℕ) → IsUpTo x y → AllFrom x (replicate n y)
AllFrom-replicate x y zero h = tt
AllFrom-replicate x y (suc n) h = (h, AllFrom-replicate x y n h)

AllFrom-append : (x : Bytes) (l m : List Bytes) → AllFrom x l → AllFrom x m → AllFrom x (l ++ m)
AllFrom-append x [] m a b = b
AllFrom-append x (y ∷ l) m (p, a) b = (p, AllFrom-append x l m a b)

IsAscending-replicate : (x : Bytes) (n : ℕ) → IsAscending (replicate n x)
IsAscending-replicate x zero = tt
IsAscending-replicate x (suc n) =
    (AllFrom-replicate x x n (bytes_ltb_irrefl x), IsAscending-replicate x n)

-- An ascending list goes on ascending with copies of a value that is at least all of it.
pub IsAscending-append :
    (x : Bytes) (n : ℕ) (l : List Bytes)
    → AllUpTo x l
    → IsAscending l
    → IsAscending (l ++ replicate n x)
IsAscending-append x n [] u a = IsAscending-replicate x n
IsAscending-append x n (y ∷ l) (p, u) (f, a) =
    (AllFrom-append y l (replicate n x) f (AllFrom-replicate y x n p), IsAscending-append x n l u a)

pub resize_grow :
    (n : ℕ) (x : Bytes) (l : List Bytes)
    → length l ≤ n
    → resize n x l ≡ l ++ replicate (n - length l) x
unfolding resize
resize_grow n x l h = ap (λ m. m ++ replicate (n - length l) x) (take_all n l h)

pub length-resize : (n : ℕ) (x : Bytes) (l : List Bytes) → length l ≤ n → length (resize n x l) ≡ n
length-resize n x l h =
    ap length (resize_grow n x l h)
    ∙ omega (
      arith,
      length-append l (replicate (n - length l) x),
      length-replicate {A = Bytes} (n - length l) x,
    )

-- By place.
AllFrom-get_or :
    (x : Bytes) (l : List Bytes) (i : ℕ) (d : Bytes)
    → AllFrom x l
    → i < length l
    → IsUpTo x (get_or l i d)
AllFrom-get_or x [] i d a h = absurd (omega arith)
AllFrom-get_or x (y ∷ l) zero d (p, a) h = p
AllFrom-get_or x (y ∷ l) (suc i) d (p, a) h = AllFrom-get_or x l i d a (omega arith)

pub IsAscending-get_or :
    (l : List Bytes) (i j : ℕ) (d : Bytes)
    → IsAscending l
    → i ≤ j
    → j < length l
    → IsUpTo (get_or l i d) (get_or l j d)
IsAscending-get_or [] i j d a le h = absurd (omega arith)
IsAscending-get_or (x ∷ l) zero zero d a le h = bytes_ltb_irrefl x
IsAscending-get_or (x ∷ l) zero (suc j) d (f, a) le h = AllFrom-get_or x l j d f (omega arith)
IsAscending-get_or (x ∷ l) (suc i) zero d a le h = absurd (omega arith)
IsAscending-get_or (x ∷ l) (suc i) (suc j) d (f, a) le h =
    IsAscending-get_or l i j d a (omega arith) (omega arith)

-- What is in a list is at a place of it.
pub contains-get_or :
    (k : Bytes) (l : List Bytes) (d : Bytes)
    → contains k l ≡ true
    → (i : ℕ) × (i < length l) × (get_or l i d ≡ k)
contains-get_or k [] d h = cc
contains-get_or k (x ∷ l) d h = elim (Bool-cases (bytes_eq k x)) [
  | inl here ↦ (0, omega arith, sym (bytes_eq_sound k x here))
  | inr there ↦ let (i, lt, e) = contains-get_or k l d (rw there at h) in (suc i, omega arith, e)
]

length-insert_sorted : (h : Bytes) (l : List Bytes) → length (insert_sorted h l) ≡ suc (length l)
unfolding insert_sorted
length-insert_sorted h [] = refl
length-insert_sorted h (x ∷ l) = ground (arith, length-insert_sorted h l)

pub length-sort : (l : List Bytes) → length (sort l) ≡ length l
unfolding sort
length-sort [] = refl
length-sort (h ∷ l) = length-insert_sorted h (sort l) ∙ ap suc (length-sort l)

length-dedup_from : (x : Bytes) (l : List Bytes) → length (dedup_from x l) ≤ suc (length l)
unfolding dedup_from
length-dedup_from x [] = omega arith
length-dedup_from x (y ∷ l) = ground (arith, length-dedup_from x l, length-dedup_from y l)

pub length-dedup : (l : List Bytes) → length (dedup l) ≤ length l
unfolding dedup
length-dedup [] = omega arith
length-dedup (x ∷ l) = length-dedup_from x l
