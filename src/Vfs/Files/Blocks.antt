-- ===== src/Vfs/Files/Blocks.antt =====
-- What the loop over the blocks of one extent puts into the buffer.
use werunos.Base.{
  ℕ, zero, suc, ◌+◌, ◌-◌, ◌*◌, ◌%◌, ◌^◌, ◌≤◌, ◌<◌, ◌≡◌, ◌⊎◌, inl, inr, refl, sym, ap, subst, ◌∙◌,
  Bool, true, false, none, List, length, byte_at, zeros, copy_at, slice, length-copy_at,
  byte_at-copy_at, length-slice, byte_at-slice, byte_at-filled, length-filled, patch_inside,
  index_eq, ltb, leb, if◌then◌else◌, if_both, option_both, ◌&&◌, Bool-cases, min, arith,
}
use werunos.Base.Holds.{byte_at-copy_at_outside}
use werunos.Block.Device.{Reply, ReadWriterAt, IsDisk}
use werunos.Vfs.Files.{Reading, read_blocks}
use werunos.Vfs.Files.Content.{block_byte, block_byte-first, block_byte-next}

abbrev pub between : ℕ → ℕ → ℕ → Bool
between lo hi i = leb lo i && ltb i hi

module _ {d : ReadWriterAt} (h : IsDisk d) (block_size start stop : ℕ) (pos : 0 < block_size) where
  -- `r'` is `r` after the bytes `lo` to `hi` of the file have been read to their places, where they
  -- are between `start` and `stop`; `byte` gives them by their distance from `lo`.
  pub record Fills (lo hi : ℕ) (byte : ℕ → ℕ) (r r' : Reading d) : Type 0 where
    pub kept : (i : ℕ) → h.content r'.dev i ≡ h.content r.dev i
    pub same_length : length r'.buf ≡ length r.buf
    pub filled :
        r'.good ≡ true
        → (i : ℕ)
        → byte_at r'.buf i ≡ (
            if between lo (min hi stop) (start + i) then byte (start + i - lo) else byte_at r.buf i)

  -- One block that overlaps the range.
  module _ (r : Reading d) (phys lo block_end : ℕ) (end_eq : block_end ≡ lo + block_size) where
    abbrev reply : Reply
    reply = (d.read_at r.dev (phys * block_size % 2 ^ 64) block_size).1

    abbrev block_buf : List ℕ
    block_buf = copy_at (zeros block_size) 0 reply.bytes

    abbrev src_start : ℕ
    src_start = if ltb lo start then start - lo else 0

    abbrev src_end : ℕ
    src_end = if ltb stop block_end then stop - lo else block_size

    abbrev dst_start : ℕ
    dst_start = lo + src_start - start

    abbrev copied : List ℕ
    copied = copy_at r.buf dst_start (slice block_buf src_start (src_end - src_start))

    src_start-eq : src_start ≡ start - lo
    src_start-eq = ground arith

    length-copied :
        length (slice block_buf src_start (src_end - src_start))
        ≡ min block_size (stop - lo) - (start - lo)
    length-copied =
        let e : src_end ≡ min block_size (stop - lo) = ground arith in
        omega (
          arith,
          e,
          src_start-eq,
          length-slice block_buf src_start (src_end - src_start),
          length-filled block_size reply.bytes,
        )

    byte_at-copied :
        reply.err ≡ none
        → start < lo + block_size
        → lo < stop
        → start ≤ stop
        → stop ≤ start + length r.buf
        → (i : ℕ)
        → byte_at copied i ≡ (
            if between lo (min (lo + block_size) stop) (start + i)
            then h.content r.dev (phys * block_size % 2 ^ 64 + (start + i - lo))
            else byte_at r.buf i)
    byte_at-copied e s0 s1 s2 s3 i =
        elim (Bool-cases (between lo (min (lo + block_size) stop) (start + i))) [
          | inl t ↦ inside (ground arith) (ground arith) (ground arith) ∙ rw t
          | inr f ↦ byte_at-copy_at_outside r.buf dst_start _ i (outside (ground arith)) ∙ rw f
        ]
      where
        inside :
            lo ≤ start + i
            → start + i < lo + block_size
            → start + i < stop
            → byte_at copied i ≡ h.content r.dev (phys * block_size % 2 ^ 64 + (start + i - lo))
        inside a b c =
            byte_at-copy_at r.buf dst_start (slice block_buf src_start (src_end - src_start)) i
              (omega arith)
            ∙ patch_inside (byte_at r.buf) dst_start _ i (omega (arith, src_start-eq))
                (omega (arith, src_start-eq, length-copied))
            ∙ byte_at-slice block_buf src_start (src_end - src_start) (i - dst_start) (
                omega (
                  arith,
                  src_start-eq,
                  length-copied,
                  length-slice block_buf src_start (src_end - src_start),
                ))
            ∙ index_eq block_buf _ _ (omega (arith, src_start-eq))
            ∙ byte_at-filled block_size reply.bytes (start + i - lo) (omega arith)
            ∙ (h.reads r.dev (phys * block_size % 2 ^ 64) block_size).same (start + i - lo)
                (omega (arith, (h.reads r.dev (phys * block_size % 2 ^ 64) block_size).full e))

        outside :
            (start + i < lo) ⊎ (min (lo + block_size) stop ≤ start + i)
            → (i < dst_start)
              ⊎ (dst_start + length (slice block_buf src_start (src_end - src_start)) ≤ i)
        outside o = omega (arith, src_start-eq, length-copied)

  module _ (c : ℕ → ℕ) (le : start ≤ stop) where
    suc_blocks : (lo n : ℕ) → lo + suc n * block_size ≡ lo + block_size + n * block_size
    suc_blocks lo n = omega arith

    -- What is filled behind the first block is what is filled from it on, if that block is filled.
    Fills-next :
        (n phys lo : ℕ) (r r1 r' : Reading d)
        → ((i : ℕ) → h.content r1.dev i ≡ h.content r.dev i)
        → length r1.buf ≡ length r.buf
        → ((i : ℕ)
            → byte_at r1.buf i ≡ (
                if between lo (min (lo + block_size) stop) (start + i)
                then block_byte c block_size phys (start + i - lo)
                else byte_at r.buf i))
        → Fills
            (lo + block_size)
            (lo + block_size + n * block_size)
            (block_byte c block_size (phys + 1))
            r1
            r'
        → Fills lo (lo + suc n * block_size) (block_byte c block_size phys) r r'
    Fills-next n phys lo r r1 r' kept same first f = record {
      kept = λ i. f.kept i ∙ kept i;
      same_length = f.same_length ∙ same;
      filled = λ g i. f.filled g i ∙ joined i;
    }
      where
        joined :
            (i : ℕ)
            → (if between
                  (lo + block_size)
                  (min (lo + block_size + n * block_size) stop)
                  (start + i)
                then block_byte c block_size (phys + 1) (start + i - (lo + block_size))
                else byte_at r1.buf i)
              ≡ (if between lo (min (lo + suc n * block_size) stop) (start + i)
                  then block_byte c block_size phys (start + i - lo)
                  else byte_at r.buf i)
        joined i =
            let e = suc_blocks lo n in
            elim (Bool-cases (
              between (lo + block_size) (min (lo + block_size + n * block_size) stop)
                (start + i))) [
                  | inl t ↦
                      let u : between lo (min (lo + suc n * block_size) stop) (start + i) ≡ true =
                        ground arith in
                      rw (t, u)
                        (ap (block_byte c block_size (phys + 1)) (
                            let q : start + i - (lo + block_size) ≡ start + i - lo - block_size =
                              omega arith in
                            q)
                          ∙ sym (
                              block_byte-next c block_size pos phys (start + i - lo)
                                (ground arith)))
                  | inr t ↦
                      elim (Bool-cases (between lo (min (lo + block_size) stop) (start + i))) [
                        | inl v ↦
                            let u : between lo (min (lo + suc n * block_size) stop) (start + i)
                                ≡ true =
                              ground arith in
                            rw (t, u) (first i ∙ rw v)
                        | inr v ↦
                            let u : between lo (min (lo + suc n * block_size) stop) (start + i)
                                ≡ false =
                              ground arith in
                            rw (t, u) (first i ∙ rw v)
                      ]
                ]

    pub read_blocks-Fills :
        (n phys lo : ℕ) (r : Reading d)
        → lo + n * block_size < 2 ^ 64
        → stop ≤ start + length r.buf
        → ((i : ℕ) → h.content r.dev i ≡ c i)
        → Fills lo
            (lo + n * block_size)
            (block_byte c block_size phys)
            r
            (read_blocks d block_size start stop n phys lo r)
    unfolding read_blocks
    read_blocks-Fills zero phys lo r small room same = record {
      kept = λ i. refl;
      same_length = refl;
      filled = λ g i. ground arith;
    }
    read_blocks-Fills (suc n) phys lo r small room same =
        if_both P (leb block_end start)
          (λ t.
            Fills-next n phys lo r r _ (λ i. refl) refl (λ i. ground arith)
              (shift r _ (
                read_blocks-Fills n (phys + 1) block_end r (omega (arith, next, suc_blocks lo n))
                  room same)))
          λ t.
            if_both P (leb stop lo)
              (λ u. record { kept = λ i. refl; same_length = refl; filled = λ g i. ground arith })
              λ u.
                option_both P (reply r phys lo block_end next).err
                  (λ e.
                    Fills-next n phys lo r
                      (record r {
                        dev = (d.read_at r.dev (phys * block_size % 2 ^ 64) block_size).0;
                        buf = copied r phys lo block_end next;
                      })
                      _ (h.reads r.dev (phys * block_size % 2 ^ 64) block_size).kept
                      (length-copy_at r.buf (dst_start r phys lo block_end next) _)
                      (λ i.
                        byte_at-copied r phys lo block_end next e (ground arith) (ground arith) le
                          room i
                        ∙ elim (Bool-cases (between lo (min (lo + block_size) stop) (start + i))) [
                          | inl v ↦ rw v (
                              same _
                              ∙ sym (
                                  block_byte-first c block_size pos phys (start + i - lo)
                                    (ground arith)))
                          | inr v ↦ rw v
                        ])
                      (shift _ _ (
                        read_blocks-Fills n (phys + 1) block_end
                          (record r {
                            dev = (d.read_at r.dev (phys * block_size % 2 ^ 64) block_size).0;
                            buf = copied r phys lo block_end next;
                          })
                          (omega (arith, next, suc_blocks lo n))
                          (omega (
                            arith,
                            length-copy_at r.buf (dst_start r phys lo block_end next) (
                                slice (block_buf r phys lo block_end next)
                                  (src_start r phys lo block_end next)
                                  (src_end r phys lo block_end next
                                    - src_start r phys lo block_end next)),
                          ))
                          (λ i.
                            (h.reads r.dev (phys * block_size % 2 ^ 64) block_size).kept i
                            ∙ same i))))
                  λ x e. record {
                    kept = (h.reads r.dev (phys * block_size % 2 ^ 64) block_size).kept;
                    same_length = refl;
                    filled = λ g i. absurd cc;
                  }
      where
        block_end : ℕ
        block_end = (lo + block_size) % 2 ^ 64

        next : block_end ≡ lo + block_size
        next = omega (arith, suc_blocks lo n)

        P : Reading d → Type 0
        P = Fills lo (lo + suc n * block_size) (block_byte c block_size phys) r

        shift :
            (r1 r' : Reading d)
            → Fills block_end
                (block_end + n * block_size)
                (block_byte c block_size (phys + 1))
                r1
                r'
            → Fills
                (lo + block_size)
                (lo + block_size + n * block_size)
                (block_byte c block_size (phys + 1))
                r1
                r'
        shift r1 r' f =
            subst
              (λ (x : ℕ). Fills x (x + n * block_size) (block_byte c block_size (phys + 1)) r1 r')
              next f
