-- ===== src/Btrfs/Edit/Reads.antt =====
-- The items that are read from a leaf, and what a removal or a change of one of them needs of room.
use werunos.Base.{
  ℕ, zero, suc, ◌+◌, ◌*◌, ◌≤◌, ◌≡◌, refl, sym, ap, ap₂, ◌∙◌, false, some, List, [], ◌∷◌, length,
  slice, le, ltb, if_both, arith,
}
use werunos.Btrfs.Types.{Key, LeafItem, less}
use werunos.Btrfs.Types.Decode.{get_key}
use werunos.Btrfs.Tree.Walk.{Entry, HasItems}
use werunos.Btrfs.Leaf.{
  ItemEntry, read_items, insert_item, remove_index, replace_index, total_data, needed,
}
use werunos.Btrfs.Leaf.Encoded.{IsKey, HaveKeys}

-- The entries of a leaf without their places in it.
abbrev pub items_of : List Entry → List ItemEntry
items_of [] = []
items_of ((item, bytes) ∷ entries) = record { k = item.key; bytes = bytes } ∷ items_of entries

pub read_items-HasItems :
    (buf : List ℕ) (entries : List Entry) (i off : ℕ)
    → off ≡ 101 + i * 25
    → HasItems buf off entries
    → read_items buf (length entries) i ≡ some (items_of entries)
unfolding read_items HasItems
read_items-HasItems buf [] i off e has = refl
read_items-HasItems buf ((item, bytes) ∷ entries) i off e (fits, same, within, is, has) =
    let rest = read_items-HasItems buf entries (i + 1) (off + 25) (omega arith) has in
    let t : ltb (length buf) (101 + i * 25 + 25) ≡ false = ground arith in
    let o : le 4 buf (101 + i * 25 + 17) ≡ item.offset =
      ap (λ (x : ℕ). le 4 buf (x + 17)) (sym e) ∙ ap (λ (x : LeafItem). x.offset) same in
    let s : le 4 buf (101 + i * 25 + 21) ≡ item.size =
      ap (λ (x : ℕ). le 4 buf (x + 21)) (sym e) ∙ ap (λ (x : LeafItem). x.size) same in
    let k : get_key buf (101 + i * 25) ≡ item.key =
      ap (get_key buf) (sym e) ∙ ap (λ (x : LeafItem). x.key) same in
    let u : ltb (length buf) (101 + item.offset + item.size) ≡ false = ground arith in
    rw (read_items, t, o, s, u, rest)
      (ap₂ (λ (a : Key) (b : List ℕ). some (record { k = a; bytes = b } ∷ items_of entries)) k
        (ap₂ (λ (x y : ℕ). slice buf (101 + x) y) o s ∙ is))

pub needed_remove : (items : List ItemEntry) (i : ℕ) → needed (remove_index i items) ≤ needed items
unfolding remove_index total_data
needed_remove [] i = omega arith
needed_remove (x ∷ items) zero = omega arith
needed_remove (x ∷ items) (suc i) = let h = needed_remove items i in omega (arith, h)

pub remove_index-HaveKeys :
    (items : List ItemEntry) (i : ℕ) → HaveKeys items → HaveKeys (remove_index i items)
unfolding remove_index
remove_index-HaveKeys [] i ks = ks
remove_index-HaveKeys (x ∷ items) zero (k, ks) = ks
remove_index-HaveKeys (x ∷ items) (suc i) (k, ks) = (k, remove_index-HaveKeys items i ks)

pub replace_index-HaveKeys :
    (items : List ItemEntry) (i : ℕ) (bytes : List ℕ)
    → HaveKeys items
    → HaveKeys (replace_index i bytes items)
unfolding replace_index
replace_index-HaveKeys [] i bytes ks = ks
replace_index-HaveKeys (x ∷ items) zero bytes ks = ks
replace_index-HaveKeys (x ∷ items) (suc i) bytes (k, ks) =
    (k, replace_index-HaveKeys items i bytes ks)

pub insert_item-HaveKeys :
    (items : List ItemEntry) (k : Key) (bytes : List ℕ)
    → IsKey k
    → HaveKeys items
    → HaveKeys (insert_item k bytes items)
unfolding insert_item
insert_item-HaveKeys [] k bytes q ks = (q, tt)
insert_item-HaveKeys (x ∷ items) k bytes q (p, ks) =
    if_both HaveKeys (less x.k k) (λ _. (p, insert_item-HaveKeys items k bytes q ks))
      (λ _. (q, (p, ks)))
