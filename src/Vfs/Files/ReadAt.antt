-- ===== src/Vfs/Files/ReadAt.antt =====
-- `ReadFileAt` reads the bytes of the file.
use werunos.Base.{
  ℕ, ◌+◌, ◌-◌, ◌*◌, ◌%◌, ◌^◌, ◌≤◌, ◌<◌, ◌≡◌, refl, sym, ap, subst, ◌∙◌, Bool, true, false, List, [],
  ◌∷◌, length, byte_at, ltb, leb, if◌then◌else◌, if_both, Bool-cases, inl, inr, min, arith,
}
use werunos.Block.Device.{ReadWriterAt, IsDisk}
use werunos.Vfs.Extents.{Extent, uninitialized, block_count, phys_start}
use werunos.Vfs.Files.{Reading, read_blocks, read_extents}
use werunos.Vfs.Files.Content.{file_byte, block_byte}
use werunos.Vfs.Files.Blocks.{between, Fills, read_blocks-Fills}

-- The bytes that the extents take in the file.
abbrev pub extents_size : ℕ → List Extent → ℕ
extents_size block_size [] = 0
extents_size block_size (e ∷ extents) = block_count e * block_size + extents_size block_size extents

module _ {d : ReadWriterAt} (h : IsDisk d) (block_size start stop : ℕ) (pos : 0 < block_size)
    (c : ℕ → ℕ) (le : start ≤ stop) where
  -- The buffer is zero where the file goes on from `lo`.
  abbrev pub IsZero : ℕ → List ℕ → Type 0
  IsZero lo buf = (i : ℕ) → between lo stop (start + i) ≡ true → byte_at buf i ≡ 0

  abbrev pub FillsFile : List Extent → ℕ → Reading d → Reading d → Type 0
  FillsFile extents lo r r' =
      Fills h block_size start stop pos lo stop (file_byte c block_size extents) r r'

  module _ (e : Extent) (extents : List Extent) (lo : ℕ) where
    abbrev size : ℕ
    size = block_count e * block_size

    abbrev whole : ℕ → Bool
    whole i = between lo stop (start + i)

    abbrev behind : ℕ → Bool
    behind i = between (lo + size) stop (start + i)

    file_byte-behind :
        (i : ℕ)
        → behind i ≡ true
        → file_byte c block_size (e ∷ extents) (start + i - lo)
          ≡ file_byte c block_size extents (start + i - (lo + size))
    unfolding file_byte
    file_byte-behind i t =
        if_both (λ (b : ℕ). b ≡ file_byte c block_size extents (start + i - (lo + size)))
          (ltb (start + i - lo) size) (λ u. absurd (ground arith))
          λ _.
            ap (file_byte c block_size extents)
              (let q : start + i - lo - size ≡ start + i - (lo + size) = omega arith in q)

    -- An extent before others that have been read, with what the buffer has for it.
    FillsFile-before :
        (r r1 r' : Reading d)
        → ((i : ℕ) → h.content r1.dev i ≡ h.content r.dev i)
        → length r1.buf ≡ length r.buf
        → ((i : ℕ)
            → behind i ≡ false
            → byte_at r1.buf i ≡ (
                if whole i
                then file_byte c block_size (e ∷ extents) (start + i - lo)
                else byte_at r.buf i))
        → FillsFile extents (lo + size) r1 r'
        → FillsFile (e ∷ extents) lo r r'
    FillsFile-before r r1 r' kept same first f = record {
      kept = λ i. f.kept i ∙ kept i;
      same_length = f.same_length ∙ same;
      filled = λ g i. f.filled g i ∙ joined i;
    }
      where
        joined :
            (i : ℕ)
            → (if between (lo + size) (min stop stop) (start + i)
                then file_byte c block_size extents (start + i - (lo + size))
                else byte_at r1.buf i)
              ≡ (if between lo (min stop stop) (start + i)
                  then file_byte c block_size (e ∷ extents) (start + i - lo)
                  else byte_at r.buf i)
        joined i = elim (Bool-cases (behind i)) [
          | inl t ↦
              let u : between lo (min stop stop) (start + i) ≡ true = ground arith in
              let v : between (lo + size) (min stop stop) (start + i) ≡ true = ground arith in
              rw (u, v) (sym (file_byte-behind i t))
          | inr t ↦
              let v : between (lo + size) (min stop stop) (start + i) ≡ false = ground arith in
              let m : min stop stop ≡ stop = omega arith in rw (v, m) (first i t)
        ]

  pub read_extents-FillsFile :
      (extents : List Extent) (lo : ℕ) (r : Reading d)
      → lo + extents_size block_size extents < 2 ^ 64
      → stop ≤ start + length r.buf
      → ((i : ℕ) → h.content r.dev i ≡ c i)
      → IsZero lo r.buf
      → FillsFile extents lo r (read_extents d block_size start stop extents lo r)
  unfolding read_extents file_byte
  read_extents-FillsFile [] lo r small room same zero_buf = record {
    kept = λ i. refl;
    same_length = refl;
    filled = λ g i. elim (Bool-cases (between lo (min stop stop) (start + i))) [
      | inl t ↦ let u : between lo stop (start + i) ≡ true = ground arith in rw t (zero_buf i u)
      | inr t ↦ rw t
    ];
  }
  read_extents-FillsFile (e ∷ extents) lo r small room same zero_buf =
      if_both P (leb extent_end start)
        (λ t.
          FillsFile-before e extents lo r r _ (λ i. refl) refl
            (λ i u. (let q : whole e extents lo i ≡ false = ground (arith, next) in rw q))
            (at_end r _ (
              read_extents-FillsFile extents extent_end r small' room same
                (zero_behind r zero_buf))))
        λ t.
          if_both P (leb stop lo)
            (λ u. record { kept = λ i. refl; same_length = refl; filled = λ g i. ground arith })
            λ u.
              if_both P (uninitialized e)
                (λ w.
                  FillsFile-before e extents lo r r _ (λ i. refl) refl (λ i v. empty i v w)
                    (at_end r _ (
                      read_extents-FillsFile extents extent_end r small' room same
                        (zero_behind r zero_buf))))
                λ w.
                  if_both P r1.good
                    (λ g.
                      FillsFile-before e extents lo r r1 _ filled.kept filled.same_length
                        (λ i v. filled.filled g i ∙ taken i v w)
                        (at_end r1 _ (
                          read_extents-FillsFile extents extent_end r1 small'
                            (omega (arith, filled.same_length)) (λ i. filled.kept i ∙ same i)
                            (λ i v. filled.filled g i ∙ untouched i v))))
                    λ g. record {
                      kept = filled.kept;
                      same_length = filled.same_length;
                      filled = λ g' i. absurd cc;
                    }
    where
      P : Reading d → Type 0
      P = FillsFile (e ∷ extents) lo r

      extent_end : ℕ
      extent_end = (lo + block_count e * block_size) % 2 ^ 64

      next : extent_end ≡ lo + block_count e * block_size
      next = omega arith

      small' : extent_end + extents_size block_size extents < 2 ^ 64
      small' = omega (arith, next)

      r1 : Reading d
      r1 = read_blocks d block_size start stop (block_count e) (phys_start e) lo r

      filled :
          Fills h block_size start stop pos lo
            (lo + block_count e * block_size)
            (block_byte c block_size (phys_start e))
            r
            r1
      filled =
          read_blocks-Fills h block_size start stop pos c le (block_count e) (phys_start e) lo r
            (omega arith) room same

      at_end :
          (r2 r' : Reading d)
          → FillsFile extents extent_end r2 r'
          → FillsFile extents (lo + block_count e * block_size) r2 r'
      at_end r2 r' f = subst (λ (x : ℕ). FillsFile extents x r2 r') next f

      zero_behind : (r2 : Reading d) → IsZero lo r2.buf → IsZero extent_end r2.buf
      zero_behind r2 z i t = z i (ground (arith, next))

      empty :
          (i : ℕ)
          → behind e extents lo i ≡ false
          → uninitialized e ≡ true
          → byte_at r.buf i ≡ (
              if whole e extents lo i
              then file_byte c block_size (e ∷ extents) (start + i - lo)
              else byte_at r.buf i)
      empty i v w = elim (Bool-cases (whole e extents lo i)) [
        | inl t ↦
            let q : ltb (start + i - lo) (block_count e * block_size) ≡ true = ground arith in
            rw (t, q, w) (zero_buf i t)
        | inr t ↦ rw t
      ]

      taken :
          (i : ℕ)
          → behind e extents lo i ≡ false
          → uninitialized e ≡ false
          → (if between lo (min (lo + block_count e * block_size) stop) (start + i)
              then block_byte c block_size (phys_start e) (start + i - lo)
              else byte_at r.buf i)
            ≡ (if whole e extents lo i
                then file_byte c block_size (e ∷ extents) (start + i - lo)
                else byte_at r.buf i)
      taken i v w = elim (Bool-cases (whole e extents lo i)) [
        | inl t ↦
            let q : ltb (start + i - lo) (block_count e * block_size) ≡ true = ground arith in
            let u : between lo (min (lo + block_count e * block_size) stop) (start + i) ≡ true =
              ground arith in
            rw (t, q, w, u)
        | inr t ↦
            let u : between lo (min (lo + block_count e * block_size) stop) (start + i) ≡ false =
              ground arith in
            rw (t, u)
      ]

      untouched :
          (i : ℕ)
          → between extent_end stop (start + i) ≡ true
          → (if between lo (min (lo + block_count e * block_size) stop) (start + i)
              then block_byte c block_size (phys_start e) (start + i - lo)
              else byte_at r.buf i)
            ≡ 0
      untouched i v =
          let u : between lo (min (lo + block_count e * block_size) stop) (start + i) ≡ false =
            ground (arith, next) in
          rw u (zero_buf i (ground (arith, next)))
