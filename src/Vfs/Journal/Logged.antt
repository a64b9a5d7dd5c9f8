-- ===== src/Vfs/Journal/Logged.antt =====
-- The tags of the descriptor that a commit writes, as the replay reads them, and its copies of the data.
use werunos.Base.{
  ℕ, ◌+◌, ◌%◌, ◌^◌, ◌≤◌, ◌<◌, ◌≡◌, refl, sym, subst, ◌∙◌, Bool, true, false, none, some, some_inj,
  List, [], ◌∷◌, length, length-put_le, length-copy_at, length-filled, byte_at-filled, same_lists,
  IsBytes, zeros, copy_at, le, put_le, ltb, ltb-false→le, ◌==◌, if◌then◌else◌, arith, Bool-cases,
  inl, inr,
}
use werunos.Base.Holds.{Holds, le-Holds, copy_at-Holds, copy_at-Holds_apart}
use werunos.Vfs.Tx.Map.{Dirty}
use werunos.Vfs.Journal.{is_last, is_escaped, has_crc, xor_front, esc_bytes}
use werunos.Vfs.Journal.Escape.{xor_front-xor_front, le-xor_front}
use werunos.Vfs.Journal.Commit.{
  is_magic, data_copy, tag_flags, put_tags, header_block, descriptor_block,
}
use werunos.Vfs.Journal.Commit.Bounds.{with_tag, length-with_tag, length-put_tags}

-- The flags of a tag are read as they were meant.
abbrev flags_of : Bool → Bool → ℕ
flags_of escaped last = (if escaped then 1 else 0) + (if last then 64 else 0)

flags_of_read :
    (escaped last : Bool)
    → (is_last (flags_of escaped last) ≡ last)
      × (is_escaped (flags_of escaped last) ≡ escaped)
      × (has_crc (flags_of escaped last) ≡ false)
flags_of_read true true = (refl, refl, refl)
flags_of_read true false = (refl, refl, refl)
flags_of_read false true = (refl, refl, refl)
flags_of_read false false = (refl, refl, refl)

pub tag_flags_read :
    (bytes : List ℕ) (rest : Dirty)
    → (is_last (tag_flags bytes rest) ≡ (length rest == 0))
      × (is_escaped (tag_flags bytes rest) ≡ is_magic bytes)
      × (has_crc (tag_flags bytes rest) ≡ false)
tag_flags_read bytes rest = flags_of_read (is_magic bytes) (length rest == 0)

tag_flags-lt : (bytes : List ℕ) (rest : Dirty) → tag_flags bytes rest < 256 ^ 4
tag_flags-lt bytes rest = ground arith

-- The tags of the dirty blocks stand in the block from `off` on.
unfoldable pub HasTags : List ℕ → ℕ → Dirty → Type 0
HasTags buf off [] = Unit
HasTags buf off ((n, bytes) ∷ rest) =
    (off + 8 ≤ length buf)
    × (le 4 buf off ≡ n)
    × (le 4 buf (off + 4) ≡ tag_flags bytes rest)
    × HasTags buf (off + 8) rest

-- The numbers of the blocks fit into their field.
abbrev pub HaveNumbers : Dirty → Type 0
HaveNumbers [] = Unit
HaveNumbers ((n, bytes) ∷ rest) = (n < 2 ^ 32) × HaveNumbers rest

put_tags-Holds :
    (dirty : Dirty) (off : ℕ) (desc out : List ℕ) (a : ℕ) (ys : List ℕ)
    → put_tags dirty off desc ≡ some out
    → a + length ys ≤ off
    → Holds desc a ys
    → Holds out a ys
unfolding put_tags
put_tags-Holds [] off desc out a ys e before h =
    subst (λ (xs : List ℕ). Holds xs a ys) (some_inj e) h
put_tags-Holds ((n, bytes) ∷ rest) off desc out a ys e before h =
    elim (Bool-cases (ltb (length desc) (off + 8))) [
      | inl t ↦ absurd (let z : none ≡ some out = rw t at e in cc)
      | inr f ↦
          put_tags-Holds rest (off + 8) (with_tag n bytes rest off desc) out a ys (rw f at e)
            (omega arith)
            (copy_at-Holds_apart (copy_at desc off (put_le 4 (n % 2 ^ 32))) (off + 4)
              (put_le 4 (tag_flags bytes rest)) a ys (inl (omega arith))
              (copy_at-Holds_apart desc off (put_le 4 (n % 2 ^ 32)) a ys (inl before) h))
    ]

put_tags-HasTags :
    (dirty : Dirty) (off : ℕ) (desc out : List ℕ)
    → put_tags dirty off desc ≡ some out
    → HaveNumbers dirty
    → HasTags out off dirty
unfolding put_tags HasTags
put_tags-HasTags [] off desc out e ns = tt
put_tags-HasTags ((n, bytes) ∷ rest) off desc out e (lt, ns) =
    elim (Bool-cases (ltb (length desc) (off + 8))) [
      | inl t ↦ absurd (let z : none ≡ some out = rw t at e in cc)
      | inr f ↦
          let room : off + 8 ≤ length desc = ltb-false→le (length desc) (off + 8) f in
          let desc1 = copy_at desc off (put_le 4 (n % 2 ^ 32)) in
          let desc2 = with_tag n bytes rest off desc in
          let put : put_tags rest (off + 8) desc2 ≡ some out = rw f at e in
          let l1 : length desc1 ≡ length desc = length-copy_at desc off (put_le 4 (n % 2 ^ 32)) in
          let w1 : length (put_le 4 (n % 2 ^ 32)) ≡ 4 = length-put_le 4 (n % 2 ^ 32) in
          let w2 : length (put_le 4 (tag_flags bytes rest)) ≡ 4 =
            length-put_le 4 (tag_flags bytes rest) in
          let number : Holds out off (put_le 4 (n % 2 ^ 32)) =
            put_tags-Holds rest (off + 8) desc2 out off (put_le 4 (n % 2 ^ 32)) put
              (omega (arith, w1))
              (copy_at-Holds_apart desc1 (off + 4) (put_le 4 (tag_flags bytes rest)) off
                (put_le 4 (n % 2 ^ 32)) (inl (omega (arith, w1)))
                (copy_at-Holds desc off (put_le 4 (n % 2 ^ 32)) (omega (arith, w1)))) in
          let flags : Holds out (off + 4) (put_le 4 (tag_flags bytes rest)) =
            put_tags-Holds rest (off + 8) desc2 out (off + 4) (put_le 4 (tag_flags bytes rest)) put
              (omega (arith, w2))
              (copy_at-Holds desc1 (off + 4) (put_le 4 (tag_flags bytes rest))
                (omega (arith, l1, w2))) in
          (
            omega (
              arith,
              length-put_tags rest (off + 8) desc2 out put,
              length-with_tag n bytes rest off desc,
            ),
            le-Holds 4 (n % 2 ^ 32) out off (omega arith) number ∙ omega arith,
            le-Holds 4 (tag_flags bytes rest) out (off + 4) (tag_flags-lt bytes rest) flags,
            put_tags-HasTags rest (off + 8) desc2 out put ns,
          )
    ]

-- The descriptor of a commit has the tags of the dirty blocks behind its header.
pub descriptor_block-HasTags :
    (size sequence : ℕ) (dirty : Dirty) (out : List ℕ)
    → descriptor_block size sequence dirty ≡ some out
    → HaveNumbers dirty
    → HasTags out 12 dirty
unfolding descriptor_block
descriptor_block-HasTags size sequence dirty out e ns =
    put_tags-HasTags dirty 12 (header_block size 1 sequence) out e ns

module _ (size : ℕ) (bytes : List ℕ) (full : length bytes ≡ size) where
  filled : copy_at (zeros size) 0 bytes ≡ bytes
  filled =
      same_lists (copy_at (zeros size) 0 bytes) bytes (length-filled size bytes ∙ sym full)
        λ i lt. byte_at-filled size bytes i (omega (arith, full))

  -- What the replay makes of the copy is the block, and the type that it reads in the copy is the second word of the block.
  pub unescaped-data_copy :
      IsBytes bytes
      → (if is_magic bytes
          then xor_front esc_bytes (data_copy size bytes)
          else data_copy size bytes)
        ≡ bytes
  unfolding data_copy
  unescaped-data_copy b = elim (Bool-cases (is_magic bytes)) [
    | inl t ↦ rw (t, filled) (xor_front-xor_front bytes b)
    | inr f ↦ rw f filled
  ]

  pub le-data_copy : le 4 (data_copy size bytes) 4 ≡ le 4 bytes 4
  unfolding data_copy
  le-data_copy = elim (Bool-cases (is_magic bytes)) [
    | inl t ↦ rw (t, filled) (le-xor_front bytes)
    | inr f ↦ rw (f, filled) refl
  ]
