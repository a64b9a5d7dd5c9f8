-- ===== src/Btrfs/Leaf/Encoded.antt =====
-- A leaf that is written holds the items it was written with.
use werunos.Base.{
  ℕ, ◌+◌, ◌-◌, ◌*◌, ◌%◌, ◌^◌, ◌≤◌, ◌<◌, ◌≡◌, ◌⊎◌, inl, inr, refl, sym, ap, subst, ◌∙◌, false,
  Option, some, List, [], ◌∷◌, ◌++◌, length, length-append, byte_at, All, copy_at, length-copy_at,
  le, put_le, ltb, arith,
}
use werunos.Base.Holds.{
  Holds-append, slice-Holds, Holds, Holds-left, Holds-right, Holds-skip, le-Holds, le-field,
  copy_at-Holds, copy_at-Holds_apart, byte_at-copy_at_outside,
}
use werunos.Btrfs.Types.{Key, LeafItem}
use werunos.Btrfs.Types.Decode.{get_leaf_item}
use werunos.Btrfs.Tree.{node_header_size}
use werunos.Btrfs.Tree.Walk.{Entry, HasItems}
use werunos.Btrfs.Leaf.{ItemEntry, put_key, total_data, put_data, put_items}

-- The fields of a key are in the range of their words.
abbrev pub IsKey : Key → Type 0
IsKey k = (k.objectid < 256 ^ 8) × (k.typ < 256) × (k.offset < 256 ^ 8)

abbrev pub HaveKeys : List ItemEntry → Type 0
HaveKeys items = All (λ x. IsKey x.k) items

-- The bytes of the items, one behind the other.
abbrev pub joined_data : List ItemEntry → List ℕ
joined_data [] = []
joined_data (x ∷ items) = x.bytes ++ joined_data items

length-joined_data : (items : List ItemEntry) → length (joined_data items) ≡ total_data items
unfolding total_data
length-joined_data [] = refl
length-joined_data (x ∷ items) =
    length-append x.bytes (joined_data items)
    ∙ ap (λ (n : ℕ). length x.bytes + n) (length-joined_data items)

-- The head of an item whose bytes are at `pos`, and those of the items behind it.
abbrev head : ItemEntry → ℕ → List ℕ
head x pos =
    put_key x.k
    ++ (put_le 4 ((pos + 2 ^ 32 - node_header_size) % 2 ^ 32) ++ put_le 4 (length x.bytes))

abbrev pub heads : List ItemEntry → ℕ → List ℕ
heads [] pos = []
heads (x ∷ items) pos = head x pos ++ heads items (pos + length x.bytes)

-- The entries of a leaf, the bytes of the first one at `pos`.
abbrev pub entries_from : ℕ → List ItemEntry → List Entry
entries_from pos [] = []
entries_from pos (x ∷ items) =
    (record { key = x.k; offset = pos - node_header_size; size = length x.bytes }, x.bytes)
    ∷ entries_from (pos + length x.bytes) items

length-head : (x : ItemEntry) (pos : ℕ) → length (head x pos) ≡ 25
unfolding put_le
length-head x pos = refl

-- What `put_data` gives.
pub record HasData (items : List ItemEntry) (dst : List ℕ) (end : ℕ) (result : Option (List ℕ × ℕ))
    : Type 0 where
  pub out : List ℕ
  pub pos : ℕ
  pub is : result ≡ some (out, pos)
  pub at_end : pos + total_data items ≡ end
  pub same_length : length out ≡ length dst
  pub kept : (i : ℕ) → i < pos → byte_at out i ≡ byte_at dst i
  pub holds : Holds out pos (joined_data items)

pub put_data-HasData :
    (items : List ItemEntry) (dst : List ℕ) (end : ℕ)
    → end ≤ length dst
    → total_data items ≤ end
    → HasData items dst end (put_data items dst end)
unfolding put_data total_data
put_data-HasData [] dst end fits room = record {
  out = dst;
  pos = end;
  is = refl;
  at_end = omega arith;
  same_length = refl;
  kept = λ i lt. refl;
  holds = λ i lt. absurd (omega arith);
}
put_data-HasData (x ∷ items) dst end fits room =
    let rest = put_data-HasData items dst end fits (omega arith) in
    let pos = rest.pos - length x.bytes in
    let room' : length x.bytes ≤ rest.pos = omega (arith, rest.at_end) in
    let t : ltb rest.pos (length x.bytes) ≡ false = ground arith in
    let below : rest.pos ≤ length rest.out = omega (arith, rest.at_end, rest.same_length) in
    record {
      out = copy_at rest.out pos x.bytes;
      pos = pos;
      is = rw (put_data, rest.is, t) refl;
      at_end = omega (arith, rest.at_end);
      same_length = length-copy_at rest.out pos x.bytes ∙ rest.same_length;
      kept = λ i lt.
          byte_at-copy_at_outside rest.out pos x.bytes i (inl lt) ∙ rest.kept i (omega arith);
      holds =
          Holds-append (copy_at rest.out pos x.bytes) pos x.bytes (joined_data items)
            (copy_at-Holds rest.out pos x.bytes (omega arith))
            (subst (λ (n : ℕ). Holds (copy_at rest.out pos x.bytes) n (joined_data items))
              (let e : rest.pos ≡ pos + length x.bytes = omega arith in e)
              (copy_at-Holds_apart rest.out pos x.bytes rest.pos (joined_data items)
                (inr (omega arith)) rest.holds));
    }

-- What `put_items` gives.
pub record HasHeads (items : List ItemEntry) (i pos : ℕ) (dst out : List ℕ) : Type 0 where
  pub same_length : length out ≡ length dst
  pub kept :
      (j : ℕ)
      → (j < 101 + i * 25) ⊎ (101 + (i + length items) * 25 ≤ j)
      → byte_at out j ≡ byte_at dst j
  pub holds : Holds out (101 + i * 25) (heads items pos)

pub put_items-HasHeads :
    (items : List ItemEntry) (i pos : ℕ) (dst : List ℕ)
    → 101 + (i + length items) * 25 ≤ length dst
    → HasHeads items i pos dst (put_items items i pos dst)
unfolding put_items
put_items-HasHeads [] i pos dst fits = record {
  same_length = refl;
  kept = λ j o. refl;
  holds = λ j lt. absurd (omega arith);
}
put_items-HasHeads (x ∷ items) i pos dst fits =
    let dst1 = copy_at dst (101 + i * 25) (head x pos) in
    let l : length dst1 ≡ length dst = length-copy_at dst (101 + i * 25) (head x pos) in
    let rest = put_items-HasHeads items (i + 1) (pos + length x.bytes) dst1 (omega (arith, l)) in
    record {
      same_length = rest.same_length ∙ l;
      kept = λ j o.
          rest.kept j (omega arith)
          ∙ byte_at-copy_at_outside dst (101 + i * 25) (head x pos) j
              (omega (arith, length-head x pos));
      holds =
          Holds-append _ (101 + i * 25) (head x pos) (heads items (pos + length x.bytes))
            (λ j lt.
              rest.kept (101 + i * 25 + j) (omega (arith, length-head x pos))
              ∙ copy_at-Holds dst (101 + i * 25) (head x pos) (omega (arith, length-head x pos)) j
                  lt)
            (subst
              (λ (n : ℕ).
                Holds (put_items items (i + 1) (pos + length x.bytes) dst1) n
                  (heads items (pos + length x.bytes)))
              (let e : 101 + (i + 1) * 25 ≡ 101 + i * 25 + length (head x pos) =
                  omega (arith, length-head x pos) in
                e)
              rest.holds);
    }

module _ (xs : List ℕ) (off : ℕ) (x : ItemEntry) (pos : ℕ) (k : IsKey x.k) (front : 101 ≤ pos)
    (small : pos + length x.bytes < 2 ^ 32) (h : Holds xs off (head x pos)) where
  leaf_item_eq :
      {o t f a b : ℕ}
      → o ≡ x.k.objectid
      → t ≡ x.k.typ
      → f ≡ x.k.offset
      → a ≡ pos - 101
      → b ≡ length x.bytes
      → ◌≡◌ {A = LeafItem}
          (record { key = record { objectid = o; typ = t; offset = f }; offset = a; size = b })
          (record { key = x.k; offset = pos - 101; size = length x.bytes })
  leaf_item_eq o t f a b = cc

  -- The head that is written is read back.
  get_leaf_item-head :
      get_leaf_item xs off
      ≡ record { key = x.k; offset = pos - node_header_size; size = length x.bytes }
  unfolding put_le
  get_leaf_item-head =
      let rel = (pos + 2 ^ 32 - 101) % 2 ^ 32 in
      let r : rel ≡ pos - 101 = omega arith in
      let tail = put_le 4 rel ++ put_le 4 (length x.bytes) in
      let h0 = Holds-left xs off (put_key x.k) tail h in
      let h1 = Holds-skip 8 x.k.objectid xs off (put_le 1 x.k.typ ++ put_le 8 x.k.offset) h0 in
      let h2 = Holds-skip 1 x.k.typ xs (off + 8) (put_le 8 x.k.offset) h1 in
      let h3 : Holds xs (off + 17) tail = Holds-right xs off (put_key x.k) tail h in
      let h4 = Holds-skip 4 rel xs (off + 17) (put_le 4 (length x.bytes)) h3 in
      let e9 : off + 8 + 1 ≡ off + 9 = omega arith in
      let e21 : off + 17 + 4 ≡ off + 21 = omega arith in
      leaf_item_eq
        (le-field 8 x.k.objectid xs off off (put_le 1 x.k.typ ++ put_le 8 x.k.offset) refl k.0 h0)
        (le-field 1 x.k.typ xs (off + 8) (off + 8) (put_le 8 x.k.offset) refl k.1 h1)
        (ap (le 8 xs) (sym e9) ∙ le-Holds 8 x.k.offset xs (off + 8 + 1) k.2 h2)
        (le-field 4 rel xs (off + 17) (off + 17) (put_le 4 (length x.bytes)) refl (omega arith) h3
          ∙ r)
        (ap (le 4 xs) (sym e21) ∙ le-Holds 4 (length x.bytes) xs (off + 17 + 4) (omega arith) h4)

-- The heads and the bytes of the items give the items of a leaf.
pub HasItems-entries_from :
    (xs : List ℕ) (items : List ItemEntry) (off pos : ℕ)
    → HaveKeys items
    → off + length items * 25 ≤ length xs
    → 101 ≤ pos
    → pos + total_data items ≤ length xs
    → length xs < 2 ^ 32
    → Holds xs off (heads items pos)
    → Holds xs pos (joined_data items)
    → HasItems xs off (entries_from pos items)
unfolding HasItems total_data
HasItems-entries_from xs [] off pos ks fits front room small h h' = tt
HasItems-entries_from xs (x ∷ items) off pos (k, ks) fits front room small h h' =
    let e : 101 + (pos - 101) ≡ pos = omega arith in
    (
      omega arith,
      get_leaf_item-head xs off x pos k front (omega arith)
          (Holds-left xs off (head x pos) (heads items (pos + length x.bytes)) h),
      omega arith,
      rw e (
          slice-Holds xs pos x.bytes (omega arith)
            (Holds-left xs pos x.bytes (joined_data items) h')),
      HasItems-entries_from xs items (off + 25) (pos + length x.bytes) ks (omega arith)
          (omega arith) (omega arith) small
          (subst (λ (n : ℕ). Holds xs n (heads items (pos + length x.bytes)))
            (let q : off + length (head x pos) ≡ off + 25 = omega (arith, length-head x pos) in q)
            (Holds-right xs off (head x pos) (heads items (pos + length x.bytes)) h))
          (Holds-right xs pos x.bytes (joined_data items) h'),
    )
