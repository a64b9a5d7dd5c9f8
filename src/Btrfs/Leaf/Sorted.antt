-- ===== src/Btrfs/Leaf/Sorted.antt =====
-- The items of a leaf are in the order of their keys.
use werunos.Base.{
  ℕ, ◌≡◌, true, false, Option, none, List, [], ◌∷◌, All, if_both, option_both, arith,
}
use werunos.Btrfs.Types.{Key, less}
use werunos.Btrfs.Types.Order.{less-IsLinear}
use werunos.Btrfs.Leaf.{ItemEntry, same_key, insert_item, last_index}

-- Each key is less than those behind it.
unfoldable pub IsSorted : List ItemEntry → Type 0
IsSorted [] = Unit
IsSorted (x ∷ items) = All (λ y. less x.k y.k ≡ true) items × IsSorted items

-- No item has the key.
abbrev pub Lacks : Key → List ItemEntry → Type 0
Lacks k items = All (λ y. same_key y.k k ≡ false) items

none-Lacks : (k : Key) (items : List ItemEntry) → last_index k items ≡ none → Lacks k items
unfolding last_index
none-Lacks k [] e = tt
none-Lacks k (x ∷ items) e =
    option_both Absent (last_index k items)
      (λ n. if_both Absent (same_key x.k k) (λ t q. absurd cc) (λ t q. (t, none-Lacks k items n)))
      (λ i s q. absurd cc) e
  where
    Absent : Option ℕ → Type 0
    Absent r = r ≡ none → Lacks k (x ∷ items)

All-insert_item :
    (P : ItemEntry → Type 0) (k : Key) (bytes : List ℕ) (items : List ItemEntry)
    → P (record { k = k; bytes = bytes })
    → All P items
    → All P (insert_item k bytes items)
unfolding insert_item
All-insert_item P k bytes [] p ps = (p, tt)
All-insert_item P k bytes (x ∷ items) p (q, ps) =
    if_both (All P) (less x.k k) (λ _. (q, All-insert_item P k bytes items p ps))
      (λ _. (p, (q, ps)))

above :
    (k : Key) (x : ItemEntry) (items : List ItemEntry)
    → less k x.k ≡ true
    → All (λ y. less x.k y.k ≡ true) items
    → All (λ y. less k y.k ≡ true) items
above k x [] t ps = tt
above k x (y ∷ items) t (p, ps) = (less-IsLinear.transitive k x.k y.k t p, above k x items t ps)

not_less-above : (a k : Key) → less a k ≡ false → same_key a k ≡ false → less k a ≡ true
unfolding less
not_less-above a k t u = ground arith

insert_item-Lacks :
    (k : Key) (bytes : List ℕ) (items : List ItemEntry)
    → IsSorted items
    → Lacks k items
    → IsSorted (insert_item k bytes items)
unfolding IsSorted insert_item
insert_item-Lacks k bytes [] s l = (tt, tt)
insert_item-Lacks k bytes (x ∷ items) (lt, s) (l, ls) =
    if_both IsSorted (less x.k k)
      (λ t. (
        All-insert_item (λ y. less x.k y.k ≡ true) k bytes items t lt,
        insert_item-Lacks k bytes items s ls,
      ))
      (λ t. let u = not_less-above x.k k t l in ((u, above k x items u lt), (lt, s)))

-- A key that is new to a leaf in the order of its keys is put where the order has it.
pub insert_item-IsSorted :
    (k : Key) (bytes : List ℕ) (items : List ItemEntry)
    → IsSorted items
    → last_index k items ≡ none
    → IsSorted (insert_item k bytes items)
insert_item-IsSorted k bytes items s n = insert_item-Lacks k bytes items s (none-Lacks k items n)
