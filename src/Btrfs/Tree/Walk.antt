-- ===== src/Btrfs/Tree/Walk.antt =====
-- The walk over a tree that is on the device visits its items in their order.
use werunos.Base.{
  ℕ, zero, suc, ◌+◌, ◌-◌, ◌%◌, ◌^◌, ◌≤◌, ◌<◌, ◌≡◌, ◌≢◌, ◌⊎◌, inl, inr, refl, sym, ap, ◌∙◌, subst,
  true, false, none, some, List, [], ◌∷◌, ◌++◌, length, length-filled, ltb, ◌==◌, if◌then◌else◌,
  zeros, copy_at, slice, arith,
}
use werunos.Block.Mbr.{ReaderAt}
use werunos.Btrfs.Types.{LeafItem, decode_leaf_item}
use werunos.Btrfs.Types.Decode.{
  at, get_leaf_item, get_internal_ptr, get_node_header, decode_leaf_item-at, decode_internal_ptr-at,
  decode_node_header-at,
}
use werunos.Btrfs.Chunks.{ChunkMapping, resolve}
use werunos.Btrfs.Tree.{
  Walked, done, failed, panicked, stuck, ◌>>=◌, leaf_loop, node_loop, walk_tree,
  walk_tree_with_node_cb,
}

-- An item of a leaf with its bytes.
abbrev pub Entry : Type 0
Entry = LeafItem × List ℕ

-- The items that a leaf has from `off` on; the bytes of each are in the node.
unfoldable pub HasItems : List ℕ → ℕ → List Entry → Type 0
HasItems buf off [] = Unit
HasItems buf off ((item, bytes) ∷ entries) =
    (off + 25 ≤ length buf)
    × (get_leaf_item buf off ≡ item)
    × (101 + item.offset + item.size ≤ length buf)
    × (slice buf (101 + item.offset) item.size ≡ bytes)
    × HasItems buf (off + 25) entries

-- The pointers that an inner node has from `off` on, with the items of the trees that they lead to.
unfoldable pub HasChildren : (ℕ → List Entry → Type 0) → List ℕ → ℕ → List (List Entry) → Type 0
HasChildren tree buf off [] = Unit
HasChildren tree buf off (entries ∷ more) =
    (off + 33 ≤ length buf)
    × tree (get_internal_ptr buf off).blockptr entries
    × HasChildren tree buf (off + 33) more

abbrev pub joined : List (List Entry) → List Entry
joined [] = []
joined (entries ∷ more) = entries ++ joined more

module _ (dev : ReaderAt) (node_size : ℕ) (mappings : List ChunkMapping) where
  -- The node at a logical address is in the bytes `buf`.
  pub record IsNode (addr : ℕ) (buf : List ℕ) : Type 0 where
    pub phys : ℕ
    pub resolved : resolve mappings addr ≡ some phys
    pub readable : (dev phys node_size).err ≡ none
    pub same : copy_at (zeros node_size) 0 (dev phys node_size).bytes ≡ buf

  pub record IsLeaf (addr : ℕ) (entries : List Entry) : Type 0 where
    pub buf : List ℕ
    pub is_node : IsNode addr buf
    pub is_leaf : (get_node_header buf).level ≡ 0
    pub count : (get_node_header buf).nritems ≡ length entries
    pub items : HasItems buf 101 entries

  pub record IsInner (tree : ℕ → List Entry → Type 0) (addr : ℕ) (entries : List Entry)
      : Type 0 where
    pub buf : List ℕ
    pub is_node : IsNode addr buf
    pub is_inner : (get_node_header buf).level ≢ 0
    pub children : List (List Entry)
    pub count : (get_node_header buf).nritems ≡ length children
    pub pointers : HasChildren tree buf 101 children
    pub all : entries ≡ joined children

  -- The device has a tree of at most `h` levels below its root at a logical address, with these items in the leaves, from
  -- left to right.
  unfoldable pub HasTree : ℕ → ℕ → List Entry → Type 0
  HasTree zero addr entries = IsLeaf addr entries
  HasTree (suc h) addr entries = IsLeaf addr entries ⊎ IsInner (HasTree h) addr entries

module _ {A : Type 0} where
  pub done_inj : (a b : A) → done a ≡ done b → a ≡ b
  done_inj a b e =
      ap (λ (m : Walked A). elim m [ done c ↦ c | failed y c ↦ c | panicked ↦ a | stuck ↦ a ]) e

  bind_cong :
      (m : Walked A) (f g : A → Walked A)
      → ((a : A) → m ≡ done a → f a ≡ g a)
      → (m >>= f) ≡ (m >>= g)
  bind_cong (done a) f g h = h a refl
  bind_cong (failed e a) f g h = refl
  bind_cong panicked f g h = refl
  bind_cong stuck f g h = refl

  bind_assoc : (m : Walked A) (f g : A → Walked A) → (m >>= f >>= g) ≡ (m >>= λ a. f a >>= g)
  bind_assoc (done a) f g = refl
  bind_assoc (failed e a) f g = refl
  bind_assoc panicked f g = refl
  bind_assoc stuck f g = refl

module _ {A : Type 0} (cb : LeafItem → List ℕ → A → Walked A) where
  -- The callback on each item.
  unfoldable pub for_each : List Entry → A → Walked A
  for_each [] a = done a
  for_each ((item, bytes) ∷ entries) a = cb item bytes a >>= for_each entries

  for_each-append :
      (xs ys : List Entry) (a : A) → for_each (xs ++ ys) a ≡ (for_each xs a >>= for_each ys)
  unfolding for_each
  for_each-append [] ys a = refl
  for_each-append ((item, bytes) ∷ xs) ys a =
      bind_cong (cb item bytes a) _ _ (λ b _. for_each-append xs ys b)
      ∙ sym (bind_assoc (cb item bytes a) _ _)

  leaf_loop-HasItems :
      (buf : List ℕ) (off : ℕ) (entries : List Entry) (a : A)
      → length buf < 2 ^ 32
      → HasItems buf off entries
      → leaf_loop cb (length entries) (at buf off) a ≡ for_each entries a
  unfolding leaf_loop for_each HasItems
  leaf_loop-HasItems buf off [] a small has = refl
  leaf_loop-HasItems buf off ((item, bytes) ∷ entries) a small (fits, same, within, is, has) =
      let d : decode_leaf_item (at buf off) ≡ some (item, at buf (off + 25)) =
        decode_leaf_item-at buf off fits ∙ ap (λ x. some (x, at buf (off + 25))) same in
      let s : (101 + item.offset) % 2 ^ 32 ≡ 101 + item.offset = omega arith in
      let e : (101 + item.offset + item.size) % 2 ^ 32 ≡ 101 + item.offset + item.size =
        omega arith in
      let l : length buf % 2 ^ 32 ≡ length buf = omega arith in
      let w : 101 + item.offset + item.size - (101 + item.offset) ≡ item.size = omega arith in
      let t : ltb (length buf) (101 + item.offset + item.size) ≡ false = ground arith in
      let u : ltb (101 + item.offset + item.size) (101 + item.offset) ≡ false = ground arith in
      rw (leaf_loop, d, s, e, l, w, t, u, is)
        (bind_cong (cb item bytes a) _ _
          λ b _. leaf_loop-HasItems buf (off + 25) entries b small has)

  module _ (chunks : A → List ChunkMapping) where
    -- The callback takes no translation away.
    abbrev pub Keeps : Type 0
    Keeps =
        (item : LeafItem) (bytes : List ℕ) (a b : A)
        → cb item bytes a ≡ done b
        → (x p : ℕ) → resolve (chunks a) x ≡ some p
        → resolve (chunks b) x ≡ some p

    module _ (keeps : Keeps) where
      for_each-Keeps :
          (entries : List Entry) (a b : A)
          → for_each entries a ≡ done b
          → (x p : ℕ) → resolve (chunks a) x ≡ some p
          → resolve (chunks b) x ≡ some p
      unfolding for_each
      for_each-Keeps [] a b e x p r =
          subst (λ (c : A). resolve (chunks c) x ≡ some p) (done_inj a b e) r
      for_each-Keeps ((item, bytes) ∷ entries) a b e x p r =
          step (cb item bytes a) (keeps item bytes a) e
            (λ c e' r'. for_each-Keeps entries c b e' x p r')
        where
          step :
              (m : Walked A)
              → ((c : A)
                  → m ≡ done c
                  → (x p : ℕ) → resolve (chunks a) x ≡ some p
                  → resolve (chunks c) x ≡ some p)
              → (m >>= for_each entries) ≡ done b
              → ((c : A)
                  → for_each entries c ≡ done b
                  → resolve (chunks c) x ≡ some p
                  → resolve (chunks b) x ≡ some p)
              → resolve (chunks b) x ≡ some p
          step (done c) h e h' = h' c e (h c refl x p r)
          step (failed y c) h e h' = absurd cc
          step panicked h e h' = absurd cc
          step stuck h e h' = absurd cc

      module _ (dev : ReaderAt) (node_size : ℕ) (mappings : List ChunkMapping)
          (wide : 101 ≤ node_size) (small : node_size < 2 ^ 32) where
        abbrev Knows : A → Type 0
        Knows a = (x p : ℕ) → resolve mappings x ≡ some p → resolve (chunks a) x ≡ some p

        node_loop-HasChildren :
            (tree : ℕ → List Entry → Type 0) (walk : ℕ → A → Walked A)
            → ((addr : ℕ) (entries : List Entry) (a : A)
                → tree addr entries
                → Knows a
                → walk addr a ≡ for_each entries a)
            → (buf : List ℕ) (off : ℕ) (children : List (List Entry)) (a : A)
            → HasChildren tree buf off children
            → Knows a
            → node_loop cb walk (length children) (at buf off) a ≡ for_each (joined children) a
        unfolding node_loop HasChildren for_each
        node_loop-HasChildren tree walk h buf off [] a has k = refl
        node_loop-HasChildren tree walk h buf off (entries ∷ more) a (fits, t, has) k =
            rw (node_loop, decode_internal_ptr-at buf off fits, h _ entries a t k)
              (bind_cong (for_each entries a) _ _ (λ b e.
                  node_loop-HasChildren tree walk h buf (off + 33) more b has
                    (λ x p r. for_each-Keeps entries a b e x p (k x p r)))
                ∙ sym (for_each-append entries (joined more) a))

        module _ (fuel addr : ℕ) (buf : List ℕ) (a : A) (k : Knows a)
            (node : IsNode dev node_size mappings addr buf) where
          length-buf : length buf ≡ node_size
          length-buf =
              ap length (sym node.same) ∙ length-filled node_size (dev node.phys node_size).bytes

          abbrev branches : Walked A
          branches =
              if (get_node_header buf).level == 0
              then leaf_loop cb (get_node_header buf).nritems (at buf 101) a
              else node_loop cb (walk_tree cb dev node_size chunks fuel)
                  (get_node_header buf).nritems (at buf 101) a

          walk_tree-IsNode : walk_tree cb dev node_size chunks (suc fuel) addr a ≡ branches
          unfolding walk_tree_with_node_cb
          walk_tree-IsNode =
              rw
                (
                  walk_tree_with_node_cb,
                  k addr node.phys node.resolved,
                  node.readable,
                  node.same,
                  decode_node_header-at buf (omega (arith, length-buf)),
                )
                refl

        walk_tree-IsLeaf :
            (fuel addr : ℕ) (entries : List Entry) (a : A)
            → Knows a
            → IsLeaf dev node_size mappings addr entries
            → walk_tree cb dev node_size chunks (suc fuel) addr a ≡ for_each entries a
        walk_tree-IsLeaf fuel addr entries a k leaf =
            let z : (get_node_header leaf.buf).level == 0 ≡ true = ground (arith, leaf.is_leaf) in
            walk_tree-IsNode fuel addr leaf.buf a k leaf.is_node
            ∙ rw (z, leaf.count)
                (leaf_loop-HasItems leaf.buf 101 entries a
                  (omega (arith, length-buf fuel addr leaf.buf a k leaf.is_node)) leaf.items)

        -- Where the device has a tree of at most `h` levels below its root, and the callback keeps the
        -- mappings, a walk that may go deeper than `h` nodes calls the callback on the items of the leaves
        -- from left to right, up to the first call that does not succeed, and ends as that call or with the
        -- last state.
        pub walk_tree-HasTree :
            (h fuel addr : ℕ) (entries : List Entry) (a : A)
            → Knows a
            → h < fuel
            → HasTree dev node_size mappings h addr entries
            → walk_tree cb dev node_size chunks fuel addr a ≡ for_each entries a
        unfolding walk_tree_with_node_cb HasTree
        walk_tree-HasTree h zero addr entries a k lt t = absurd (omega arith)
        walk_tree-HasTree zero (suc fuel) addr entries a k lt t =
            walk_tree-IsLeaf fuel addr entries a k t
        walk_tree-HasTree (suc h) (suc fuel) addr entries a k lt (inl t) =
            walk_tree-IsLeaf fuel addr entries a k t
        walk_tree-HasTree (suc h) (suc fuel) addr entries a k lt (inr t) =
            let z : (get_node_header t.buf).level == 0 ≡ false = ground (arith, t.is_inner) in
            walk_tree-IsNode fuel addr t.buf a k t.is_node
            ∙ rw (z, t.count, t.all)
                (node_loop-HasChildren (HasTree dev node_size mappings h)
                  (walk_tree cb dev node_size chunks fuel)
                  (λ addr' entries' a' t' k'.
                    walk_tree-HasTree h fuel addr' entries' a' k' (omega arith) t')
                  t.buf 101 t.children a t.pointers k)
