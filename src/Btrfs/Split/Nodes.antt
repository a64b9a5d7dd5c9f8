-- ===== src/Btrfs/Split/Nodes.antt =====
-- A node above the leaves that is written, and read again.
use werunos.Base.{
  ℕ, ◌+◌, ◌*◌, ◌^◌, ◌≤◌, ◌<◌, ◌≡◌, ◌⊎◌, inl, inr, refl, sym, ap, subst, ◌∙◌, none, some, List, [],
  ◌∷◌, ◌++◌, length, length-replicate, drop, slice, byte_at, All, zeros, copy_at, length-copy_at,
  le, put_le, ltb, ltb-false→le, ltb→lt, Bool-cases, arith,
}
use werunos.Base.Holds.{
  Holds, Holds-append, Holds-left, Holds-right, Holds-skip, le-Holds, le-field, copy_at-Holds,
  copy_at-Holds_apart, byte_at-copy_at_outside, drop-copy_at_front,
}
use werunos.Btrfs.Types.{InternalKeyPtr}
use werunos.Btrfs.Types.Decode.{at, get_internal_ptr, decode_internal_ptr-at, get_node_header}
use werunos.Btrfs.Tree.{node_header_size}
use werunos.Btrfs.Crc.{calc_crc32c}
use werunos.Btrfs.Leaf.{put_key}
use werunos.Btrfs.Leaf.Encoded.{IsKey}
use werunos.Btrfs.Split.{read_ptrs, put_ptrs, put_node_header, with_checksum, encode_node}

-- The fields of a pointer are in the range of their words.
abbrev pub IsPtr : InternalKeyPtr → Type 0
IsPtr p = IsKey p.key × (p.blockptr < 256 ^ 8)

-- The pointers as they are written, with the generation of the superblock.
abbrev pub stamped : ℕ → List InternalKeyPtr → List InternalKeyPtr
stamped generation [] = []
stamped generation (p ∷ ptrs) = record p { generation = generation } ∷ stamped generation ptrs

module _ (generation : ℕ) where
  abbrev ptr_bytes : InternalKeyPtr → List ℕ
  ptr_bytes p = put_key p.key ++ (put_le 8 p.blockptr ++ put_le 8 generation)

  abbrev ptrs_bytes : List InternalKeyPtr → List ℕ
  ptrs_bytes [] = []
  ptrs_bytes (p ∷ ptrs) = ptr_bytes p ++ ptrs_bytes ptrs

  length-ptr_bytes : (p : InternalKeyPtr) → length (ptr_bytes p) ≡ 33
  unfolding put_le
  length-ptr_bytes p = refl

  -- What `put_ptrs` gives.
  record HasPtrs (ptrs : List InternalKeyPtr) (i : ℕ) (dst out : List ℕ) : Type 0 where
    same_length : length out ≡ length dst
    kept : (j : ℕ) → j < 101 + i * 33 → byte_at out j ≡ byte_at dst j
    holds : Holds out (101 + i * 33) (ptrs_bytes ptrs)

  put_ptrs-HasPtrs :
      (ptrs : List InternalKeyPtr) (i : ℕ) (dst : List ℕ)
      → 101 + (i + length ptrs) * 33 ≤ length dst
      → HasPtrs ptrs i dst (put_ptrs generation ptrs i dst)
  unfolding put_ptrs
  put_ptrs-HasPtrs [] i dst fits = record {
    same_length = refl;
    kept = λ j o. refl;
    holds = λ j lt. absurd (omega arith);
  }
  put_ptrs-HasPtrs (p ∷ ptrs) i dst fits =
      let dst1 = copy_at dst (101 + i * 33) (ptr_bytes p) in
      let l : length dst1 ≡ length dst = length-copy_at dst (101 + i * 33) (ptr_bytes p) in
      let w = length-ptr_bytes p in
      let rest = put_ptrs-HasPtrs ptrs (i + 1) dst1 (omega (arith, l)) in
      record {
        same_length = rest.same_length ∙ l;
        kept = λ j o.
            rest.kept j (omega arith)
            ∙ byte_at-copy_at_outside dst (101 + i * 33) (ptr_bytes p) j (omega (arith, w));
        holds =
            Holds-append _ (101 + i * 33) (ptr_bytes p) (ptrs_bytes ptrs)
              (λ j lt.
                rest.kept (101 + i * 33 + j) (omega (arith, w))
                ∙ copy_at-Holds dst (101 + i * 33) (ptr_bytes p) (omega (arith, w)) j lt)
              (subst (λ (n : ℕ). Holds (put_ptrs generation ptrs (i + 1) dst1) n (ptrs_bytes ptrs))
                (let e : 101 + (i + 1) * 33 ≡ 101 + i * 33 + length (ptr_bytes p) =
                    omega (arith, w) in
                  e)
                rest.holds);
      }

  module _ (xs : List ℕ) (off : ℕ) (p : InternalKeyPtr) (good : IsPtr p)
      (small : generation < 256 ^ 8) (h : Holds xs off (ptr_bytes p)) where
    ptr_eq :
        {o t f a b : ℕ}
        → o ≡ p.key.objectid
        → t ≡ p.key.typ
        → f ≡ p.key.offset
        → a ≡ p.blockptr
        → b ≡ generation
        → ◌≡◌ {A = InternalKeyPtr}
            (record {
              key = record { objectid = o; typ = t; offset = f };
              blockptr = a;
              generation = b;
            })
            (record p { generation = generation })
    ptr_eq o t f a b = cc

    get_internal_ptr-bytes : get_internal_ptr xs off ≡ record p { generation = generation }
    unfolding put_le
    get_internal_ptr-bytes =
        let tail = put_le 8 p.blockptr ++ put_le 8 generation in
        let h0 = Holds-left xs off (put_key p.key) tail h in
        let h1 =
          Holds-skip 8 p.key.objectid xs off (put_le 1 p.key.typ ++ put_le 8 p.key.offset) h0 in
        let h2 = Holds-skip 1 p.key.typ xs (off + 8) (put_le 8 p.key.offset) h1 in
        let h3 : Holds xs (off + 17) tail = Holds-right xs off (put_key p.key) tail h in
        let h4 = Holds-skip 8 p.blockptr xs (off + 17) (put_le 8 generation) h3 in
        let e9 : off + 8 + 1 ≡ off + 9 = omega arith in
        let e25 : off + 17 + 8 ≡ off + 25 = omega arith in
        ptr_eq
          (le-field 8 p.key.objectid xs off off (put_le 1 p.key.typ ++ put_le 8 p.key.offset) refl
            good.0.0 h0)
          (le-field 1 p.key.typ xs (off + 8) (off + 8) (put_le 8 p.key.offset) refl good.0.1 h1)
          (ap (le 8 xs) (sym e9) ∙ le-Holds 8 p.key.offset xs (off + 8 + 1) good.0.2 h2)
          (le-field 8 p.blockptr xs (off + 17) (off + 17) (put_le 8 generation) refl good.1 h3)
          (ap (le 8 xs) (sym e25) ∙ le-Holds 8 generation xs (off + 17 + 8) small h4)

  read_ptrs-Holds :
      (ptrs : List InternalKeyPtr) (xs : List ℕ) (off : ℕ)
      → All IsPtr ptrs
      → generation < 256 ^ 8
      → off + length ptrs * 33 ≤ length xs
      → Holds xs off (ptrs_bytes ptrs)
      → read_ptrs (length ptrs) (at xs off) ≡ some (stamped generation ptrs)
  unfolding read_ptrs
  read_ptrs-Holds [] xs off good small fits h = refl
  read_ptrs-Holds (p ∷ ptrs) xs off (g, good) small fits h =
      let w = length-ptr_bytes p in
      let e : off + length (ptr_bytes p) ≡ off + 33 = omega (arith, w) in
      let rest : read_ptrs (length ptrs) (at xs (off + 33)) ≡ some (stamped generation ptrs) =
        read_ptrs-Holds ptrs xs (off + 33) good small (omega arith) (
          subst (λ (n : ℕ). Holds xs n (ptrs_bytes ptrs)) e
            (Holds-right xs off (ptr_bytes p) (ptrs_bytes ptrs) h)) in
      rw (read_ptrs, decode_internal_ptr-at xs off (omega arith), rest)
        (ap (λ (q : InternalKeyPtr). some (q ∷ stamped generation ptrs))
          (get_internal_ptr-bytes xs off p g small
            (Holds-left xs off (ptr_bytes p) (ptrs_bytes ptrs) h)))

  -- A node that has these pointers, and the head that goes with them.
  pub record IsNodeOf (logical lvl : ℕ) (old : List ℕ) (ptrs : List InternalKeyPtr) (out : List ℕ)
      : Type 0 where
    pub same_length : length out ≡ length old
    pub count : (get_node_header out).nritems ≡ length ptrs
    pub has_level : (get_node_header out).level ≡ lvl
    pub has_generation : (get_node_header out).generation ≡ generation
    pub bytenr : (get_node_header out).bytenr ≡ logical
    pub checksum : Holds out 0 (put_le 4 (calc_crc32c (drop 32 out)))
    pub pointers : read_ptrs (length ptrs) (at out 101) ≡ some (stamped generation ptrs)

  module _ (logical lvl : ℕ) (old : List ℕ) (ptrs : List InternalKeyPtr)
      (fits : 101 + length ptrs * 33 ≤ length old) where
    abbrev headed : List ℕ
    headed =
        put_node_header (length ptrs) lvl generation logical
          (copy_at (zeros (length old)) 0 (slice old 0 node_header_size))

    abbrev body : List ℕ
    body = put_ptrs generation ptrs 0 headed

    abbrev sum : List ℕ
    sum = put_le 4 (calc_crc32c (drop 32 body))

    abbrev out : List ℕ
    out = with_checksum body

    length-headed : length headed ≡ length old
    length-headed =
        length-copy_at _ 48 (put_le 8 logical)
        ∙ length-copy_at _ 80 (put_le 8 generation)
        ∙ length-copy_at _ 100 (put_le 1 lvl)
        ∙ length-copy_at _ 96 (put_le 4 (length ptrs))
        ∙ length-copy_at (zeros (length old)) 0 _
        ∙ length-replicate (length old) 0

    in_body : HasPtrs ptrs 0 headed body
    in_body = put_ptrs-HasPtrs ptrs 0 headed (omega (arith, length-headed))

    length-out : length out ≡ length old
    length-out = length-copy_at body 0 sum ∙ in_body.same_length ∙ length-headed

    -- The fields of the head are in the node.
    out-Holds :
        (a : ℕ) (ys : List ℕ) → 4 ≤ a → a + length ys ≤ 101 → Holds headed a ys → Holds out a ys
    unfolding put_le
    out-Holds a ys behind before h =
        copy_at-Holds_apart body 0 sum a ys (inr (omega arith))
          λ i lt. in_body.kept (a + i) (omega arith) ∙ h i lt

    abbrev headed1 : List ℕ
    headed1 =
        copy_at (copy_at (zeros (length old)) 0 (slice old 0 node_header_size)) 96
          (put_le 4 (length ptrs))

    abbrev headed2 : List ℕ
    headed2 = copy_at headed1 100 (put_le 1 lvl)

    abbrev headed3 : List ℕ
    headed3 = copy_at headed2 80 (put_le 8 generation)

    length-headed1 : length headed1 ≡ length old
    length-headed1 =
        length-copy_at _ 96 (put_le 4 (length ptrs))
        ∙ length-copy_at (zeros (length old)) 0 _
        ∙ length-replicate (length old) 0

    length-headed3 : length headed3 ≡ length old
    length-headed3 =
        length-copy_at headed2 80 (put_le 8 generation)
        ∙ length-copy_at headed1 100 (put_le 1 lvl)
        ∙ length-headed1

    -- The last field that is put to the head is the address, and before it the generation.
    headed3-Holds : (a : ℕ) (ys : List ℕ) → 88 ≤ a → Holds headed2 a ys → Holds headed a ys
    unfolding put_le
    headed3-Holds a ys behind h =
        copy_at-Holds_apart headed3 48 (put_le 8 logical) a ys (inr (omega arith))
          (copy_at-Holds_apart headed2 80 (put_le 8 generation) a ys (inr (omega arith)) h)

    is_node_of :
        All IsPtr ptrs
        → 101 ≤ length old
        → length old < 2 ^ 32
        → generation < 256 ^ 8
        → logical < 256 ^ 8
        → lvl < 256
        → IsNodeOf logical lvl old ptrs out
    unfolding put_le
    is_node_of good wide small g l lv = record {
      same_length = length-out;
      count = le-Holds 4 (length ptrs) out 96 (omega arith) (
          out-Holds 96 (put_le 4 (length ptrs)) (omega arith) (omega arith) (
            headed3-Holds 96 (put_le 4 (length ptrs)) (omega arith) (
              copy_at-Holds_apart headed1 100 (put_le 1 lvl) 96 (put_le 4 (length ptrs))
                (inl (omega arith))
                (copy_at-Holds _ 96 (put_le 4 (length ptrs)) (
                  omega (
                    arith,
                    length-headed1,
                    length-copy_at (copy_at (zeros (length old)) 0 (slice old 0 node_header_size))
                        96 (put_le 4 (length ptrs)),
                  ))))));
      has_level = le-Holds 1 lvl out 100 (omega arith) (
          out-Holds 100 (put_le 1 lvl) (omega arith) (omega arith) (
            headed3-Holds 100 (put_le 1 lvl) (omega arith)
              (copy_at-Holds headed1 100 (put_le 1 lvl) (omega (arith, length-headed1)))));
      has_generation = le-Holds 8 generation out 80 g (
          out-Holds 80 (put_le 8 generation) (omega arith) (omega arith) (
            copy_at-Holds_apart headed3 48 (put_le 8 logical) 80 (put_le 8 generation)
              (inr (omega arith))
              (copy_at-Holds headed2 80 (put_le 8 generation)
                (omega (arith, length-headed3, length-copy_at headed2 80 (put_le 8 generation))))));
      bytenr = le-Holds 8 logical out 48 l (
          out-Holds 48 (put_le 8 logical) (omega arith) (omega arith)
            (copy_at-Holds headed3 48 (put_le 8 logical) (omega (arith, length-headed3))));
      checksum =
          subst (λ (xs : List ℕ). Holds out 0 (put_le 4 (calc_crc32c xs)))
            (sym (drop-copy_at_front 32 body sum (omega arith)))
            (copy_at-Holds body 0 sum (omega (arith, length-out, length-copy_at body 0 sum)));
      pointers =
          read_ptrs-Holds ptrs out 101 good g (omega (arith, length-out)) (
            copy_at-Holds_apart body 0 sum 101 (ptrs_bytes ptrs) (inr (omega arith)) in_body.holds);
    }

  -- A node of 101 bytes or more, and fewer than 2^32, whose level, address and generation fit their fields as
  -- the pointers do: where the pointers fit into the node it is written with their count, that level, address
  -- and generation and the checksum of its bytes, and reading it gives just those pointers, with that
  -- generation; where they do not, there is a panic.
  pub encode_node-IsNodeOf :
      (logical lvl : ℕ) (old : List ℕ) (ptrs : List InternalKeyPtr)
      → All IsPtr ptrs
      → 101 ≤ length old
      → length old < 2 ^ 32
      → generation < 256 ^ 8
      → logical < 256 ^ 8
      → lvl < 256
      → ((101 + length ptrs * 33 ≤ length old)
          × ((out : List ℕ) × (encode_node generation logical lvl old ptrs ≡ some out)
              × IsNodeOf logical lvl old ptrs out))
        ⊎ ((length old < 101 + length ptrs * 33)
            × (encode_node generation logical lvl old ptrs ≡ none))
  unfolding encode_node
  encode_node-IsNodeOf logical lvl old ptrs good wide small g l lv =
      elim (Bool-cases (ltb (length old) (node_header_size + length ptrs * 33))) [
        | inl t ↦ inr (ltb→lt _ _ t, rw t refl)
        | inr f ↦
            let fits : 101 + length ptrs * 33 ≤ length old = ltb-false→le _ _ f in
            inl (
              fits,
              (
                out logical lvl old ptrs fits,
                rw f refl,
                is_node_of logical lvl old ptrs fits good wide small g l lv,
              ),
            )
      ]
