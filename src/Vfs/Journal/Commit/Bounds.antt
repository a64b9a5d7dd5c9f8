-- ===== src/Vfs/Journal/Commit/Bounds.antt =====
-- The sizes of the blocks that a commit writes to the journal.
use werunos.Base.{
  ℕ, suc, ◌+◌, ◌*◌, ◌%◌, ◌^◌, ◌≤◌, ◌<◌, ◌≡◌, refl, sym, ap, ◌∙◌, none, some, List, [], ◌∷◌, length,
  zeros, copy_at, length-copy_at, length-filled, length-replicate, put_le, ltb, if_both, arith,
  Bool-cases, inl, inr, some_inj, ltb→lt, ltb-false→le,
}
use werunos.Vfs.Tx.Map.{Dirty}
use werunos.Vfs.Journal.{xor_front, esc_bytes}
use werunos.Vfs.Journal.Commit.{
  is_magic, data_copy, tag_flags, put_tags, header_block, descriptor_block, commit_block,
  next_super,
}

pub length-xor_front : (es bytes : List ℕ) → length (xor_front es bytes) ≡ length bytes
unfolding xor_front
length-xor_front [] bytes = refl
length-xor_front (e ∷ es) [] = refl
length-xor_front (e ∷ es) (x ∷ bytes) = ap suc (length-xor_front es bytes)

-- The block with one tag put into it.
abbrev pub with_tag : ℕ → List ℕ → Dirty → ℕ → List ℕ → List ℕ
with_tag n bytes dirty off desc =
    copy_at (copy_at desc off (put_le 4 (n % 2 ^ 32))) (off + 4) (put_le 4 (tag_flags bytes dirty))

pub length-with_tag :
    (n : ℕ) (bytes : List ℕ) (dirty : Dirty) (off : ℕ) (desc : List ℕ)
    → length (with_tag n bytes dirty off desc) ≡ length desc
length-with_tag n bytes dirty off desc =
    length-copy_at (copy_at desc off (put_le 4 (n % 2 ^ 32))) (off + 4)
      (put_le 4 (tag_flags bytes dirty))
    ∙ length-copy_at desc off (put_le 4 (n % 2 ^ 32))

pub length-put_tags :
    (dirty : Dirty) (off : ℕ) (desc out : List ℕ)
    → put_tags dirty off desc ≡ some out
    → length out ≡ length desc
unfolding put_tags
length-put_tags [] off desc out e = ap length (sym (some_inj e))
length-put_tags ((n, bytes) ∷ dirty) off desc out e =
    elim (Bool-cases (ltb (length desc) (off + 8))) [
      | inl t ↦ absurd (let z : none ≡ some out = rw t at e in cc)
      | inr f ↦
          length-put_tags dirty (off + 8) (with_tag n bytes dirty off desc) out (rw f at e)
          ∙ length-with_tag n bytes dirty off desc
    ]

module _ (size : ℕ) where
  pub length-data_copy : (bytes : List ℕ) → length (data_copy size bytes) ≡ size
  unfolding data_copy
  length-data_copy bytes =
      if_both (λ (xs : List ℕ). length xs ≡ size) (is_magic bytes)
        (λ _. length-xor_front esc_bytes (copy_at (zeros size) 0 bytes) ∙ length-filled size bytes)
        λ _. length-filled size bytes

  pub length-header_block : (kind sequence : ℕ) → length (header_block size kind sequence) ≡ size
  length-header_block kind sequence =
      length-copy_at _ 8 (put_le 4 sequence)
      ∙ length-copy_at _ 4 (put_le 4 kind)
      ∙ length-copy_at (zeros size) 0 _
      ∙ length-replicate size 0

  pub length-commit_block : (sequence now : ℕ) → length (commit_block size sequence now) ≡ size
  unfolding commit_block
  length-commit_block sequence now =
      length-copy_at _ 16 (put_le 8 now) ∙ length-header_block _ sequence

  -- The tags fit, or they do not, by their number.
  put_tags-eq-none :
      (dirty : Dirty) (off : ℕ) (desc : List ℕ)
      → off ≤ length desc
      → ((put_tags dirty off desc ≡ none) → length desc < off + 8 * length dirty)
        × (length desc < off + 8 * length dirty → put_tags dirty off desc ≡ none)
  unfolding put_tags
  put_tags-eq-none [] off desc le = (λ e. cc, λ lt. absurd (omega arith))
  put_tags-eq-none ((n, bytes) ∷ dirty) off desc le =
      let same : length (with_tag n bytes dirty off desc) ≡ length desc =
        length-with_tag n bytes dirty off desc in
      elim (Bool-cases (ltb (length desc) (off + 8))) [
        | inl t ↦ (λ e. omega (arith, ltb→lt (length desc) (off + 8) t), λ lt. rw t refl)
        | inr f ↦
            let rest =
              put_tags-eq-none dirty (off + 8) (with_tag n bytes dirty off desc)
                (omega (arith, same, ltb-false→le (length desc) (off + 8) f)) in
            (
              λ e. omega (arith, same, rest.0 (rw f at e)),
              λ lt. rw f (rest.1 (omega (arith, same))),
            )
      ]

  -- A commit panics at the descriptor just where there are more dirty blocks than its block has room for tags, one for each
  -- eight bytes behind the header of twelve.
  pub descriptor_block-eq-none :
      (sequence : ℕ) (dirty : Dirty)
      → 12 ≤ size
      → ((descriptor_block size sequence dirty ≡ none) → size < 12 + 8 * length dirty)
        × (size < 12 + 8 * length dirty → descriptor_block size sequence dirty ≡ none)
  unfolding descriptor_block
  descriptor_block-eq-none sequence dirty le =
      let same : length (header_block size 1 sequence) ≡ size = length-header_block 1 sequence in
      let both = put_tags-eq-none dirty 12 (header_block size 1 sequence) (omega (arith, same)) in
      (λ e. omega (arith, same, both.0 e), λ lt. both.1 (omega (arith, same)))

  pub length-descriptor_block :
      (sequence : ℕ) (dirty : Dirty) (out : List ℕ)
      → descriptor_block size sequence dirty ≡ some out
      → length out ≡ size
  unfolding descriptor_block
  length-descriptor_block sequence dirty out e =
      length-put_tags dirty 12 (header_block size 1 sequence) out e ∙ length-header_block 1 sequence

pub length-next_super :
    (sequence next_start : ℕ) (jsb : List ℕ)
    → length (next_super sequence next_start jsb) ≡ length jsb
unfolding next_super
length-next_super sequence next_start jsb =
    length-copy_at _ 16 (put_le 4 next_start) ∙ length-copy_at jsb 12 _
