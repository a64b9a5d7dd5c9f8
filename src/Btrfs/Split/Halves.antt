-- ===== src/Btrfs/Split/Halves.antt =====
-- The two halves of a leaf that is split.
use werunos.Base.{
  ℕ, zero, suc, ◌/◌, ◌<◌, ◌≡◌, refl, ap, true, none, List, [], ◌∷◌, ◌++◌, length, length-take,
  length-drop, take, drop, All, if_both, arith,
}
use werunos.Btrfs.Types.{Key, less}
use werunos.Btrfs.Leaf.{ItemEntry, insert_item, last_index}
use werunos.Btrfs.Leaf.Sorted.{IsSorted, insert_item-IsSorted}
use werunos.Btrfs.Split.Grow.{left_half, right_half}

abbrev Below : ItemEntry → ItemEntry → Type 0
Below x y = less x.k y.k ≡ true

append_take-drop : (n : ℕ) (xs : List ItemEntry) → take n xs ++ drop n xs ≡ xs
append_take-drop zero xs = refl
append_take-drop (suc n) [] = refl
append_take-drop (suc n) (x ∷ xs) = ap (λ (ys : List ItemEntry). x ∷ ys) (append_take-drop n xs)

All-take : (P : ItemEntry → Type 0) (n : ℕ) (xs : List ItemEntry) → All P xs → All P (take n xs)
All-take P zero xs a = tt
All-take P (suc n) [] a = tt
All-take P (suc n) (x ∷ xs) (p, a) = (p, All-take P n xs a)

All-drop : (P : ItemEntry → Type 0) (n : ℕ) (xs : List ItemEntry) → All P xs → All P (drop n xs)
All-drop P zero xs a = a
All-drop P (suc n) [] a = tt
All-drop P (suc n) (x ∷ xs) (p, a) = All-drop P n xs a

-- The front and the rest of a list in order are in order, and each item of the front is below each of the rest.
take-drop-IsSorted :
    (n : ℕ) (xs : List ItemEntry)
    → IsSorted xs
    → IsSorted (take n xs) × IsSorted (drop n xs) × All (λ y. All (Below y) (drop n xs)) (take n xs)
unfolding IsSorted
take-drop-IsSorted zero xs s = (tt, s, tt)
take-drop-IsSorted (suc n) [] s = (tt, tt, tt)
take-drop-IsSorted (suc n) (x ∷ xs) (a, s) =
    let rest = take-drop-IsSorted n xs s in
    ((All-take (Below x) n xs a, rest.0), rest.1, (All-drop (Below x) n xs a, rest.2))

length-insert_item :
    (k : Key) (bytes : List ℕ) (items : List ItemEntry)
    → length (insert_item k bytes items) ≡ suc (length items)
unfolding insert_item
length-insert_item k bytes [] = refl
length-insert_item k bytes (x ∷ items) =
    if_both (λ (ys : List ItemEntry). length ys ≡ suc (suc (length items))) (less x.k k)
      (λ _. ap suc (length-insert_item k bytes items)) λ _. refl

-- The halves of a leaf's items: `x` is the first one of the right half, whose key goes to the node above.
pub record AreHalves (all left right : List ItemEntry) : Type 0 where
  pub x : ItemEntry
  pub rest : List ItemEntry
  pub starts : right ≡ x ∷ rest
  pub some_left : 0 < length left
  pub kept : left ++ right ≡ all
  pub left_sorted : IsSorted left
  pub right_sorted : IsSorted right
  pub separated : All (λ y. less y.k x.k ≡ true) left

first_of :
    (all left right : List ItemEntry)
    → 0 < length left
    → 0 < length right
    → left ++ right ≡ all
    → IsSorted left
    → IsSorted right
    → All (λ y. All (Below y) right) left
    → AreHalves all left right
first_of all left [] some_left some_right kept l r apart = absurd (omega arith)
first_of all left (x ∷ rest) some_left some_right kept l r apart = record {
  x = x;
  rest = rest;
  starts = refl;
  some_left = some_left;
  kept = kept;
  left_sorted = l;
  right_sorted = r;
  separated = below left apart;
}
  where
    below :
        (ys : List ItemEntry)
        → All (λ y. All (Below y) (x ∷ rest)) ys
        → All (λ y. less y.k x.k ≡ true) ys
    below [] a = tt
    below (y ∷ ys) ((p, ps), a) = (p, below ys a)

-- A leaf of one item or more, in the order of its keys, that is split for a key which none of them has: the
-- halves hold its items and the new one, no half is empty, both are in order, and every key of the left half
-- is less than the key of the right half that goes to the node above.
pub halves-insert_item :
    (k : Key) (bytes : List ℕ) (items : List ItemEntry)
    → IsSorted items
    → last_index k items ≡ none
    → 0 < length items
    → AreHalves
        (insert_item k bytes items)
        (left_half (insert_item k bytes items))
        (right_half (insert_item k bytes items))
halves-insert_item k bytes items s new some_item =
    let all = insert_item k bytes items in
    let n = length all / 2 in
    let size : length all ≡ suc (length items) = length-insert_item k bytes items in
    let both = take-drop-IsSorted n all (insert_item-IsSorted k bytes items s new) in
    first_of all (take n all) (drop n all) (omega (arith, size, length-take n all))
      (omega (arith, size, length-drop n all)) (append_take-drop n all) both.0 both.1 both.2
