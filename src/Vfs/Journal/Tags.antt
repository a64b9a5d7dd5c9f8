-- ===== src/Vfs/Journal/Tags.antt =====
-- The loop over the tags of a descriptor ends within its rounds.
use werunos.Base.{
  ℕ, zero, suc, ◌+◌, ◌*◌, ◌/◌, ◌%◌, ◌^◌, ◌<◌, ◌≡◌, refl, Bool, true, false, not, ◌&&◌, List, ltb,
  ◌==◌, if_both, option_both, arith, ltb-false→le, if◌then◌else◌,
}
use werunos.Block.Device.{ReadWriterAt}
use werunos.Vfs.Extents.{Extent}
use werunos.Vfs.Journal.{
  Tag, get_tag, is_last, is_escaped, has_crc, get_journal_header, jbd2_block, Replayed, done,
  panicked, stuck, failed, Replaying, advance, xor_front, esc_bytes, read_journal_block, apply_tag,
  tag_loop, tag_rounds,
}

abbrev pub is_cut : Replayed → Bool
is_cut stuck = true
is_cut done = false
is_cut panicked = false
is_cut (failed e) = false

module _ (d : ReadWriterAt) (block_size : ℕ) (extents : List Extent) (start maxlen : ℕ) where
  apply_tag-is_cut :
      (tag : Tag) (r : Replaying d)
      → is_cut (apply_tag d block_size extents start maxlen tag r).1 ≡ false
  unfolding apply_tag
  apply_tag-is_cut tag r =
      let s = (read_journal_block d block_size extents r.dev (advance maxlen r.pos)).0 in
      let e = (read_journal_block d block_size extents r.dev (advance maxlen r.pos)).1 in
      let buf = (read_journal_block d block_size extents r.dev (advance maxlen r.pos)).2 in
      let bytes = if is_escaped tag.flags then xor_front esc_bytes buf else buf in
      if_both P (advance maxlen r.pos == start) (λ _. refl)
        λ _.
          option_both P e
            (λ _.
              if_both P (not ((get_journal_header buf).blocktype == jbd2_block)) (λ _. refl)
                λ _.
                  option_both P (d.write_at s (tag.blocknr * block_size % 2 ^ 64) bytes).1.err
                    (λ _. refl) λ _ _. refl)
            λ _ _. refl
    where
      P : Replaying d × Replayed → Type 0
      P x = is_cut x.1 ≡ false

  tag_loop-is_cut_from :
      (fuel : ℕ) (buf : List ℕ) (off : ℕ) (r : Replaying d)
      → block_size < off + 8 * suc fuel
      → is_cut (tag_loop d block_size extents start maxlen (suc fuel) buf off r).1 ≡ false
  unfolding tag_loop
  tag_loop-is_cut_from zero buf off r lt =
      if_both {A = Replaying d × Replayed} (λ x. is_cut x.1 ≡ false) (ltb block_size (off + 8))
        (λ _. refl) λ f. absurd (omega (arith, ltb-false→le block_size (off + 8) f))
  tag_loop-is_cut_from (suc fuel) buf off r lt =
      let tag = get_tag buf off in
      let next = apply_tag d block_size extents start maxlen tag r in
      let off' = off + 8 + (if has_crc tag.flags then 4 else 0) in
      if_both P (ltb block_size (off + 8)) (λ _. refl)
        λ f.
          if_both P ((tag.blocknr == 0) && (tag.flags == 0)) (λ _. refl)
            λ _.
              after next.1 (apply_tag-is_cut tag r) next.0 (is_last tag.flags)
                (tag_loop d block_size extents start maxlen (suc fuel) buf off' next.0)
                (tag_loop-is_cut_from fuel buf off' next.0 (omega arith))
    where
      P : Replaying d × Replayed → Type 0
      P x = is_cut x.1 ≡ false

      after :
          (x : Replayed)
          → is_cut x ≡ false
          → (r' : Replaying d) (last : Bool) (rest : Replaying d × Replayed) → P rest
          → P (elim x [
            | done ↦ if last then (r', done) else rest
            | panicked ↦ (r', panicked)
            | stuck ↦ (r', stuck)
            | failed e ↦ (r', failed e)
          ])
      after done c r' last rest h = if_both P last (λ _. refl) λ _. h
      after panicked c r' last rest h = refl
      after stuck c r' last rest h = cc
      after (failed e) c r' last rest h = refl

  -- The loop over the tags of a descriptor ends by itself, whatever the block and the journal hold: it is not cut off
  -- within one round for each eight bytes of the block.
  pub tag_loop-is_cut :
      (buf : List ℕ) (r : Replaying d)
      → is_cut (tag_loop d block_size extents start maxlen (tag_rounds block_size) buf 12 r).1
        ≡ false
  tag_loop-is_cut buf r = tag_loop-is_cut_from (block_size / 8) buf 12 r (omega arith)
