-- ===== src/Sanctions/Partition.antt =====
-- Where `partition_point` cuts an ascending vector.
use obscura_network.Prelude.{
  ℕ, zero, suc, ◌<◌, ◌≡◌, refl, sym, ◌∙◌, inl, inr, true, false, some, List, [], ◌∷◌, Bytes,
  bytes_eq, bytes_eq_sound, bytes_eq_self, Bytes_Eq, length, get_elem?, get_or, arith, Bool-cases,
}
use obscura_network.Sanctions.Order.{
  bytes_ltb, IsUpTo, bytes_ltb_irrefl, bytes_ltb_connected, lt-IsUpTo,
}
use obscura_network.Sanctions.Sort.{contains, AllFrom, IsAscending}
use obscura_network.Sanctions.Oracle.{partition_point, stands_at}

pub get_elem_lem :
    (l : List Bytes) (i : ℕ) (d : Bytes) → i < length l → get_elem? l i ≡ some (get_or l i d)
get_elem_lem [] i d h = absurd (omega arith)
get_elem_lem (x ∷ l) zero d h = refl
get_elem_lem (x ∷ l) (suc i) d h = get_elem_lem l i d (omega arith)

bytes_eq_comm : (a b : Bytes) → bytes_eq a b ≡ bytes_eq b a
bytes_eq_comm a b = elim (Bool-cases (bytes_eq a b)) [
  | inl same ↦ cc (bytes_eq_sound a b same)
  | inr other ↦ elim (Bool-cases (bytes_eq b a)) [
    | inl same ↦ cc (bytes_eq_sound b a same)
    | inr neither ↦ cc (other, neither)
  ]
]

contains_above :
    (h x : Bytes) (l : List Bytes) → bytes_ltb h x ≡ true → AllFrom x l → contains h l ≡ false
contains_above h x [] p a = refl
contains_above h x (y ∷ l) p (q, a) =
    ground
      (arith, contains_above h x l p a, lt-IsUpTo h x y p q, bytes_eq_sound h y, bytes_ltb_irrefl h)

-- The first element that is not less than `h` is `h`, if `h` is in the vector.
pub contains-partition_point :
    (h : Bytes) (l : List Bytes)
    → IsAscending l
    → contains h l ≡ stands_at h (get_elem? l (partition_point h l))
unfolding partition_point
contains-partition_point h [] a = refl
contains-partition_point h (x ∷ l) (f, a) = elim (Bool-cases (bytes_ltb x h)) [
  | inl less ↦
      let other : bytes_eq h x ≡ false = elim (Bool-cases (bytes_eq h x)) [
        | inl same ↦ absurd (cc (bytes_eq_sound h x same, less, bytes_ltb_irrefl h))
        | inr other ↦ other
      ] in
      rw (less, other) (contains-partition_point h l a)
  | inr stop ↦ elim (Bool-cases (bytes_eq h x)) [
    | inl same ↦ rw (stop, same) (sym (bytes_eq_comm x h ∙ same))
    | inr other ↦
        let above : bytes_ltb h x ≡ true = elim (Bool-cases (bytes_ltb h x)) [
          | inl above ↦ above
          | inr below ↦ absurd (cc (bytes_ltb_connected h x below stop, bytes_eq_self h, other))
        ] in
        rw (stop, other) (contains_above h x l above f ∙ sym (bytes_eq_comm x h ∙ other))
  ]
]

pub partition_point-below :
    (h : Bytes) (l : List Bytes) (i : ℕ) (d : Bytes)
    → i < partition_point h l
    → i < length l
    → bytes_ltb (get_or l i d) h ≡ true
unfolding partition_point
partition_point-below h [] i d p q = absurd (omega arith)
partition_point-below h (x ∷ l) zero d p q = ground arith
partition_point-below h (x ∷ l) (suc i) d p q =
    partition_point-below h l i d (ground arith) (omega arith)

pub partition_point_stop :
    (h : Bytes) (l : List Bytes) (d : Bytes)
    → partition_point h l < length l
    → IsUpTo h (get_or l (partition_point h l) d)
unfolding partition_point
partition_point_stop h [] d p = absurd (omega arith)
partition_point_stop h (x ∷ l) d p = elim (Bool-cases (bytes_ltb x h)) [
  | inl less ↦ rw less (partition_point_stop h l d (ground (arith, p, less)))
  | inr stop ↦ rw stop stop
]
