-- ===== src/Block/Partition/Isolation.antt =====
-- Reads and writes of a partition stay inside it.
use native.Mathlib.Nat.{mod-eq_of_lt}
use werunos.Base.{
  ℕ, ◌+◌, ◌-◌, ◌*◌, ◌%◌, ◌^◌, ◌≤◌, ◌<◌, ◌≡◌, ◌⊎◌, refl, sym, ap, ◌∙◌, min, true, none, some, List,
  length, patch, take, arith, if_both, ◌==◌, if◌then◌else◌, inl, inr, ltb, index_eq, Bool-cases,
  ltb-false→le, take_all, ap₂, length-take, ltb→lt,
}
use werunos.Base.Int.{ℤ, pos, negsuc}
use werunos.Block.Device.{Reply, Written, ReadWriterAt, ReadsTrue, WritesTrue, IsDisk}
use werunos.Block.Aligned.Writes.{aligned-IsDisk}
use werunos.Block.Partition.{
  Partition, is_sector_size, reader_disk, new_partition_reader, room, read_at, write_at,
  default_sector_size,
}

-- The partition is not empty, and its end is an offset of the disk.
pub record Fits (p : Partition) : Type 0 where
  pub ordered : p.start_lba ≤ p.end_lba
  pub sectors : 0 < p.sector_size
  pub bounded : (p.end_lba + 1) * p.sector_size < 2 ^ 63

-- The bytes of a disk as an offset from `base` sees them.
abbrev pub window : (ℕ → ℕ) → ℕ → ℕ → ℕ
window f base i = f (base + i)

abbrev pub first_byte : Partition → ℕ
first_byte p = p.start_lba * p.sector_size

abbrev pub bytes_of : Partition → ℕ
bytes_of p = (p.end_lba - p.start_lba + 1) * p.sector_size

le_times : (a b : ℕ) → 0 < b → a ≤ a * b
le_times a b h = grind arith

-- The first byte and the number of bytes add up to the byte behind the last.
span : (p : Partition) → Fits p → first_byte p + bytes_of p ≡ (p.end_lba + 1) * p.sector_size
span p f =
    let e : p.start_lba + (p.end_lba - p.start_lba + 1) ≡ p.end_lba + 1 =
      omega (arith, f.ordered) in
    omega (arith, ap (λ (t : ℕ). t * p.sector_size) e)

sector_count :
    (p : Partition)
    → Fits p
    → (p.end_lba + 2 ^ 64 - p.start_lba + 1) % 2 ^ 64 ≡ p.end_lba - p.start_lba + 1
sector_count p f =
    omega (arith, f.ordered, f.bounded, le_times (p.end_lba + 1) p.sector_size f.sectors)

pub reader-eq :
    (p : Partition)
    → Fits p
    → new_partition_reader p ≡ record { start = first_byte p; size = pos (bytes_of p) }
unfolding new_partition_reader
reader-eq p f = ground (
  arith,
  f.bounded,
  span p f,
  sector_count p f,
  mod-eq_of_lt {n = first_byte p} {m = 2 ^ 64} (omega (arith, f.bounded, span p f)),
)

window-ReadsTrue :
    (before after : ℕ → ℕ) (base off n : ℕ) (r : Reply)
    → ReadsTrue before after (base + off) n r
    → ReadsTrue (window before base) (window after base) off n r
window-ReadsTrue before after base off n r t = record {
  kept = λ i. t.kept (base + i);
  fits = t.fits;
  same =
      λ i lt. let e : base + off + i ≡ base + (off + i) = omega arith in t.same i lt ∙ ap before e;
  full = t.full;
  ended = λ x i lt.
      let e : base + (off + i) ≡ base + off + i = omega arith in ap before e ∙ t.ended x i lt;
}

patch-window :
    (f : ℕ → ℕ) (base off : ℕ) (p : List ℕ) (i : ℕ)
    → patch f (base + off) p (base + i) ≡ patch (window f base) off p i
patch-window f base off p i =
    ground (arith, index_eq p (base + i - (base + off)) (i - off) (omega arith))

window-WritesTrue :
    (before after : ℕ → ℕ) (base off : ℕ) (p : List ℕ) (w : Written)
    → WritesTrue before after (base + off) p w
    → WritesTrue (window before base) (window after base) off p w
window-WritesTrue before after base off p w t = record {
  torn = λ i. elim (t.torn (base + i)) [
    | inl x ↦ inl x
    | inr x ↦ inr (x ∙ patch-window before base off p i)
  ];
  fits = t.fits;
  full = t.full;
  done = λ x i. t.done x (base + i) ∙ patch-window before base off p i;
}

is_sector_size-pos : (ss : ℕ) → is_sector_size ss ≡ true → 0 < ss
unfolding is_sector_size
is_sector_size-pos ss h = ground arith

-- The reader's device is a disk, whether it goes by sectors or not.
pub reader_disk-IsDisk : {d : ReadWriterAt} → IsDisk d → (p : Partition) → IsDisk (reader_disk d p)
reader_disk-IsDisk {d} k p =
    if_both IsDisk (is_sector_size ss) (λ h. aligned-IsDisk k ss (positive h)) (λ _. k)
  where
    ss : ℕ
    ss = if p.sector_size == 0 then default_sector_size else p.sector_size

    positive : is_sector_size ss ≡ true → 0 < ss
    positive h = is_sector_size-pos ss h

room_inside : (size off : ℕ) → off < size → room (pos size) (pos off) ≡ some (size - off)
unfolding room
room_inside size off h = ground arith

room_outside :
    (size : ℕ) (off : ℤ) → ((n : ℕ) → off ≡ pos n → size ≤ n) → room (pos size) off ≡ none
unfolding room
room_outside size (negsuc n) h = refl
room_outside size (pos n) h = ground (arith, h n refl)

if_min : (a b : ℕ) → (if ltb a b then a else b) ≡ min a b
if_min a b = ground arith

if_take : (a : ℕ) (xs : List ℕ) → (if ltb a (length xs) then take a xs else xs) ≡ take a xs
if_take a xs = elim (Bool-cases (ltb a (length xs))) [
  | inl h ↦ rw h
  | inr h ↦ rw h (sym (take_all a xs (ltb-false→le _ _ h)))
]

module _ (d : ReadWriterAt) (p : Partition) (f : Fits p) (s : d.State) (off : ℕ)
    (h : off < bytes_of p) where
  offset-eq : (first_byte p + off) % 2 ^ 64 ≡ first_byte p + off
  offset-eq = mod-eq_of_lt (omega (arith, f.bounded, span p f))

  pub read_at-eq :
      (n : ℕ)
      → read_at d (new_partition_reader p) s (pos off) n
        ≡ d.read_at s (first_byte p + off) (min (bytes_of p - off) n)
  unfolding read_at
  read_at-eq n =
      ap (λ r. read_at d r s (pos off) n) (reader-eq p f)
      ∙ rw (room_inside (bytes_of p) off h, read_at)
          (ap₂ (d.read_at s) offset-eq (if_min (bytes_of p - off) n))

  pub write_at-eq :
      (buf : List ℕ)
      → write_at d (new_partition_reader p) s (pos off) buf
        ≡ d.write_at s (first_byte p + off) (take (bytes_of p - off) buf)
  unfolding write_at
  write_at-eq buf =
      ap (λ r. write_at d r s (pos off) buf) (reader-eq p f)
      ∙ rw (room_inside (bytes_of p) off h, write_at)
          (ap₂ (d.write_at s) offset-eq (if_take (bytes_of p - off) buf))

module _ {d : ReadWriterAt} (k : IsDisk d) (p : Partition) (f : Fits p) where
  -- A read that begins in the partition answers as a read of the partition alone would, cut at the
  -- partition's end.
  pub read_at-window :
      (s : d.State) (off n : ℕ)
      → off < bytes_of p
      → ReadsTrue
          (window (k.content s) (first_byte p))
          (window (k.content (read_at d (new_partition_reader p) s (pos off) n).0) (first_byte p))
          off
          (min (bytes_of p - off) n)
          (read_at d (new_partition_reader p) s (pos off) n).1
  read_at-window s off n h =
      rw (read_at-eq d p f s off h n)
        (window-ReadsTrue _ _ (first_byte p) off _ _ (k.reads s (first_byte p + off) _))

  -- A write that begins in the partition writes as a write to the partition alone would, cut at the
  -- partition's end.
  pub write_at-window :
      (s : d.State) (off : ℕ) (buf : List ℕ)
      → off < bytes_of p
      → WritesTrue
          (window (k.content s) (first_byte p))
          (window
            (k.content (write_at d (new_partition_reader p) s (pos off) buf).0)
            (first_byte p))
          off
          (take (bytes_of p - off) buf)
          (write_at d (new_partition_reader p) s (pos off) buf).1
  write_at-window s off buf h =
      rw (write_at-eq d p f s off h buf)
        (window-WritesTrue _ _ (first_byte p) off _ _ (k.writes s (first_byte p + off) _))

  refused-outside :
      (s : d.State) (off : ℤ) (buf : List ℕ) (i : ℕ)
      → room (pos (bytes_of p)) off ≡ none
      → k.content (write_at d (new_partition_reader p) s off buf).0 i ≡ k.content s i
  unfolding write_at
  refused-outside s off buf i e = rw (reader-eq p f, e, write_at)

  inside-outside :
      (s : d.State) (off : ℕ) (buf : List ℕ) (i : ℕ)
      → off < bytes_of p
      → (i < first_byte p) ⊎ (first_byte p + bytes_of p ≤ i)
      → k.content (write_at d (new_partition_reader p) s (pos off) buf).0 i ≡ k.content s i
  inside-outside s off buf i h out =
      rw (write_at-eq d p f s off h buf)
        (elim ((k.writes s (first_byte p + off) (take (bytes_of p - off) buf)).torn i) [
          | inl x ↦ x
          | inr x ↦ x ∙ ground (arith, length-take (bytes_of p - off) buf)
        ])

  -- Of a partition that does not end before it starts, has sectors, and ends below the byte 2^63 of the disk:
  -- no write through its reader changes a byte of the disk outside it, whatever the offset, negative ones
  -- included, and however long the write is.
  pub write_at-outside :
      (s : d.State) (off : ℤ) (buf : List ℕ) (i : ℕ)
      → (i < first_byte p) ⊎ (first_byte p + bytes_of p ≤ i)
      → k.content (write_at d (new_partition_reader p) s off buf).0 i ≡ k.content s i
  write_at-outside s (negsuc n) buf i out =
      refused-outside s (negsuc n) buf i (room_outside (bytes_of p) (negsuc n) (λ m e. cc))
  write_at-outside s (pos off) buf i out = elim (Bool-cases (ltb off (bytes_of p))) [
    | inl h ↦ inside-outside s off buf i (ltb→lt _ _ h) out
    | inr h ↦
        refused-outside s (pos off) buf i
          (room_outside (bytes_of p) (pos off) (λ m e. ground arith))
  ]
