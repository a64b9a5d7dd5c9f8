-- ===== src/Vfs/Append/Leaf.antt =====
-- What `parseExtentNode` reads from a leaf to which an extent has been added.
use werunos.Base.{
  ℕ, zero, suc, ◌+◌, ◌-◌, ◌*◌, ◌%◌, ◌^◌, ◌≤◌, ◌<◌, ◌≡◌, refl, sym, ap, ap₂, subst, ◌∙◌, Bool, true,
  Option, none, some, List, [], ◌∷◌, ◌++◌, append_assoc, length, copy_at, IsBytes, ltb, ◌==◌,
  if◌then◌else◌, if_both, inl, inr, arith, length-copy_at, ltb→lt,
}
use werunos.Base.Holds.{copy_at-Holds, copy_at-Holds_apart, byte_at-copy_at_outside}
use werunos.Block.Mbr.{ReaderAt}
use werunos.Vfs.Extents.{
  Extent, ExtentHeader, get_extent, put_extent, get_header, put_header, header_size, entry_size, ok,
  parse_node, ext_magic,
}
use werunos.Vfs.Extents.Codec.{
  IsExtent, IsHeader, length-put_extent, length-put_header, get-put_extent, get-put_header,
  get_header_cong, get_extent-IsExtent, get_header-IsHeader,
}
use werunos.Vfs.Extents.Find.{entries_at, entries_at_cong, entries_at_snoc, parse_node-leaf}
use werunos.Vfs.Append.{adjoins, merges, merged, entry_offset, add_entry, append_to_leaf}
use werunos.Vfs.Append.Mapping.{append_extent, EndsIn32, Appends, find-append_extent_or}

append_extent-snoc :
    (l : List Extent) (x e : Extent)
    → append_extent (l ++ (x ∷ [])) e ≡ l ++ (if merges x e then merged x e ∷ [] else x ∷ e ∷ [])
unfolding append_extent
append_extent-snoc [] x e = refl
append_extent-snoc (y ∷ []) x e = refl
append_extent-snoc (y ∷ z ∷ l) x e = ap (λ t. y ∷ t) (append_extent-snoc (z ∷ l) x e)

-- The last entry on its own.
entries_at-suc :
    (xs : List ℕ) (n : ℕ)
    → entries_at xs (suc n) 0 ≡ entries_at xs n 0 ++ (get_extent xs (entry_offset n) ∷ [])
entries_at-suc xs n =
    entries_at_snoc xs n 0
    ∙ ap (λ (k : ℕ). entries_at xs n 0 ++ (get_extent xs (header_size + k * entry_size) ∷ []))
        (let e : 0 + n ≡ n = omega arith in e)

-- A leaf with room for one more entry, in its header's count and in its buffer.
pub record HasRoom (xs : List ℕ) : Type 0 where
  pub bytes : IsBytes xs
  pub magic : (get_header xs).magic ≡ ext_magic
  pub depth : (get_header xs).depth ≡ 0
  pub below_max : (get_header xs).entries < (get_header xs).max
  pub fits : header_size + ((get_header xs).entries + 1) * entry_size ≤ length xs

-- What reading `ys` as a node gives.
pub record Reads (xs : List ℕ) (l : List Extent) (r : Option (List ℕ)) : Type 0 where
  pub after : List ℕ
  pub written : r ≡ some after
  pub same_length : length after ≡ length xs
  pub reads :
      (disk : ReaderAt) (block_size fuel : ℕ) → parse_node disk block_size (suc fuel) after ≡ ok l

module _ (xs : List ℕ) (h : HasRoom xs) (e : Extent) (f : IsExtent e) where
  abbrev n : ℕ
  n = (get_header xs).entries

  abbrev new_header : ExtentHeader
  new_header = record (get_header xs) { entries = (n + 1) % 2 ^ 16 }

  abbrev with_entry : List ℕ
  with_entry = copy_at xs (entry_offset n) (put_extent e)

  abbrev with_header : List ℕ
  with_header = copy_at with_entry 0 (put_header new_header)

  new_header-IsHeader : IsHeader new_header
  new_header-IsHeader =
      let t = get_header-IsHeader xs h.bytes in
      record {
        magic = t.magic;
        entries = omega arith;
        max = t.max;
        depth = t.depth;
        generation = t.generation;
      }

  header_read : get_header with_header ≡ new_header
  header_read = get-put_header with_header new_header new_header-IsHeader (
      copy_at-Holds with_entry 0 (put_header new_header) (
        omega (
          arith,
          h.fits,
          length-put_header new_header,
          length-copy_at xs (entry_offset n) (put_extent e),
        )))

  entry_read : get_extent with_header (entry_offset n) ≡ e
  entry_read = get-put_extent with_header (entry_offset n) e f (
      copy_at-Holds_apart with_entry 0 (put_header new_header) (entry_offset n) (put_extent e)
        (inr (omega (arith, length-put_header new_header)))
        (copy_at-Holds xs (entry_offset n) (put_extent e)
          (omega (arith, h.fits, length-put_extent e))))

  old_read : entries_at with_header n 0 ≡ entries_at xs n 0
  old_read = entries_at_cong with_header xs n 0 λ j lo hi.
      byte_at-copy_at_outside with_entry 0 (put_header new_header) j
        (inr (omega (arith, length-put_header new_header)))
      ∙ byte_at-copy_at_outside xs (entry_offset n) (put_extent e) j (inl (omega arith))

  small : (n + 1) % 2 ^ 16 ≡ n + 1
  small = omega (arith, h.below_max, (get_header-IsHeader xs h.bytes).max)

  add_entry-Reads : Reads xs (entries_at xs n 0 ++ (e ∷ [])) (add_entry xs (get_header xs) e)
  unfolding add_entry
  add_entry-Reads =
      if_both (Reads xs (entries_at xs n 0 ++ (e ∷ []))) (ltb (length xs) (entry_offset n))
        (λ t. absurd (omega (arith, h.fits, ltb→lt _ _ t)))
        λ _. record {
          after = with_header;
          written = refl;
          same_length = length_same;
          reads = λ disk block_size fuel.
              parse_node-leaf disk block_size fuel with_header
                (ap (λ t. t.magic) header_read ∙ h.magic) (ap (λ t. t.depth) header_read ∙ h.depth)
                (omega (arith, h.fits, length_same, count))
              ∙ ap ok (
                  ap (λ (k : ℕ). entries_at with_header k 0)
                    (let q : (get_header with_header).entries ≡ suc n = omega (arith, count) in q)
                  ∙ entries_at-suc with_header n
                  ∙ ap₂ (λ l x. l ++ (x ∷ [])) old_read entry_read);
        }
    where
      length_same : length with_header ≡ length xs
      length_same =
          length-copy_at with_entry 0 (put_header new_header)
          ∙ length-copy_at xs (entry_offset n) (put_extent e)

      count : (get_header with_header).entries ≡ n + 1
      count = ap (λ t. t.entries) header_read ∙ small

-- The last entry made longer: the header and the entries before it stay.
module _ (xs : List ℕ) (h : HasRoom xs) (m : ℕ) (n_eq : (get_header xs).entries ≡ suc m)
    (x : Extent) (f : IsExtent x) where
  abbrev longer : List ℕ
  longer = copy_at xs (entry_offset m) (put_extent x)

  longer-Reads : Reads xs (entries_at xs m 0 ++ (x ∷ [])) (some longer)
  longer-Reads = record {
    after = longer;
    written = refl;
    same_length = length-copy_at xs (entry_offset m) (put_extent x);
    reads = λ disk block_size fuel.
        parse_node-leaf disk block_size fuel longer (ap (λ t. t.magic) header_same ∙ h.magic)
          (ap (λ t. t.depth) header_same ∙ h.depth)
          (omega (
            arith,
            h.fits,
            length-copy_at xs (entry_offset m) (put_extent x),
            ap (λ t. t.entries) header_same,
          ))
        ∙ ap ok (
            ap (λ (k : ℕ). entries_at longer k 0) (ap (λ t. t.entries) header_same ∙ n_eq)
            ∙ entries_at-suc longer m
            ∙ ap₂ (λ l y. l ++ (y ∷ [])) old_same last_read);
  }
    where
      header_same : get_header longer ≡ get_header xs
      header_same =
          get_header_cong longer xs
            λ i lt. byte_at-copy_at_outside xs (entry_offset m) (put_extent x) i (inl (omega arith))

      last_read : get_extent longer (entry_offset m) ≡ x
      last_read = get-put_extent longer (entry_offset m) x f (
          copy_at-Holds xs (entry_offset m) (put_extent x)
            (omega (arith, h.fits, n_eq, length-put_extent x)))

      old_same : entries_at longer m 0 ≡ entries_at xs m 0
      old_same = entries_at_cong longer xs m 0 λ j lo hi.
          byte_at-copy_at_outside xs (entry_offset m) (put_extent x) j (inl (omega arith))

merged-IsExtent :
    (x e : Extent) → IsExtent x → IsExtent e → merges x e ≡ true → IsExtent (merged x e)
unfolding adjoins
merged-IsExtent x e fx fe m = record {
  block = fx.block;
  len = ground (arith, fx.len, fe.len);
  start_hi = fx.start_hi;
  start_lo = fx.start_lo;
}

module _ (xs : List ℕ) (e : Extent) (h : HasRoom xs) (f : IsExtent e) where
  abbrev Appended : ℕ → Option (List ℕ) → Type 0
  Appended k = Reads xs (append_extent (entries_at xs k 0) e)

  -- Behind a last entry `x`.
  append-last :
      (m : ℕ)
      → (get_header xs).entries ≡ suc m
      → Appended (suc m) (
          if merges (get_extent xs (entry_offset m)) e
          then some
              (copy_at xs (entry_offset m) (put_extent (merged (get_extent xs (entry_offset m)) e)))
          else add_entry xs (get_header xs) e)
  append-last m n_eq =
      if_both (Appended (suc m)) (merges x e)
        (λ y.
          subst (λ l. Reads xs l (some (copy_at xs (entry_offset m) (put_extent (merged x e)))))
            (sym (
              split
              ∙ ap (λ (b : Bool). entries_at xs m 0 ++ (if b then merged x e ∷ [] else x ∷ e ∷ []))
                  y))
            (longer-Reads xs h m n_eq (merged x e)
              (merged-IsExtent x e (get_extent-IsExtent xs (entry_offset m) h.bytes) f y)))
        λ t.
          subst (λ l. Reads xs l (add_entry xs (get_header xs) e))
            (sym (
              split
              ∙ ap (λ (b : Bool). entries_at xs m 0 ++ (if b then merged x e ∷ [] else x ∷ e ∷ []))
                  t
              ∙ sym (all_then_e)))
            (add_entry-Reads xs h e f)
    where
      x : Extent
      x = get_extent xs (entry_offset m)

      all_then_e :
          entries_at xs (get_header xs).entries 0 ++ (e ∷ []) ≡ entries_at xs m 0 ++ (x ∷ e ∷ [])
      all_then_e =
          ap (λ (k : ℕ). entries_at xs k 0 ++ (e ∷ [])) n_eq
          ∙ ap (λ l. l ++ (e ∷ [])) (entries_at-suc xs m)
          ∙ append_assoc (entries_at xs m 0) (x ∷ []) (e ∷ [])

      split :
          append_extent (entries_at xs (suc m) 0) e
          ≡ entries_at xs m 0 ++ (if merges x e then merged x e ∷ [] else x ∷ e ∷ [])
      split =
          ap (λ l. append_extent l e) (entries_at-suc xs m)
          ∙ append_extent-snoc (entries_at xs m 0) x e

  append-cases :
      (k : ℕ) → (get_header xs).entries ≡ k → Appended k (append_to_leaf xs (get_header xs) e)
  unfolding append_to_leaf append_extent entries_at
  append-cases zero n_eq =
      if_both (Appended 0) ((get_header xs).entries == 0)
        (λ _.
          subst
            (λ (k : ℕ). Reads xs (entries_at xs k 0 ++ (e ∷ [])) (add_entry xs (get_header xs) e))
            n_eq (add_entry-Reads xs h e f))
        λ t. absurd (ground arith)
  append-cases (suc m) n_eq =
      if_both (Appended (suc m)) ((get_header xs).entries == 0) (λ t. absurd (ground arith))
        λ _.
          subst
            (λ (k : ℕ). Appended (suc m) (
              if ltb (length xs) (entry_offset k + entry_size)
              then none
              else (if merges (get_extent xs (entry_offset k)) e
                  then some (
                      copy_at xs (entry_offset k)
                        (put_extent (merged (get_extent xs (entry_offset k)) e)))
                  else add_entry xs (get_header xs) e)))
            (let q : m ≡ (get_header xs).entries - 1 = omega arith in q)
            (if_both (Appended (suc m)) (ltb (length xs) (entry_offset m + entry_size))
              (λ t. absurd (omega (arith, h.fits, ltb→lt _ _ t))) λ _. append-last m n_eq)

pub append_to_leaf-Reads :
    (xs : List ℕ) (e : Extent)
    → HasRoom xs
    → IsExtent e
    → Reads xs
        (append_extent (entries_at xs (get_header xs).entries 0) e)
        (append_to_leaf xs (get_header xs) e)
append_to_leaf-Reads xs e h f = append-cases xs e h f (get_header xs).entries refl

-- A leaf of bytes that has room for an entry, below its maximum and within the buffer, gets an extent whose
-- fields fit and whose end is a block number of 32 bits. The leaf that results has the size of the old one
-- and reads as a list of extents (the old ones and the new one, or the new one in one piece with the last) by
-- which every block that the old extents map is where it was, and every other block is where the new extent
-- puts it, if it does.
pub append_to_leaf-append_extent :
    (xs : List ℕ) (e : Extent)
    → HasRoom xs
    → IsExtent e
    → EndsIn32 e
    → Reads xs
        (append_extent (entries_at xs (get_header xs).entries 0) e)
        (append_to_leaf xs (get_header xs) e)
      × Appends
          (entries_at xs (get_header xs).entries 0)
          e
          (append_extent (entries_at xs (get_header xs).entries 0) e)
append_to_leaf-append_extent xs e h f ends =
    (append_to_leaf-Reads xs e h f, find-append_extent_or _ e ends)
