-- ===== src/Vfs/Safe/Log.antt =====
-- The log of replaced bytes: what is read from it, and what an append makes of an empty one.
use werunos.Base.{
  ℕ, zero, suc, ◌+◌, ◌-◌, ◌≤◌, ◌<◌, ◌^◌, ◌≡◌, ◌⊎◌, inl, inr, refl, sym, ap, ap₂, subst, ◌∙◌, Bool,
  true, false, List, [], ◌∷◌, ◌++◌, append_assoc, append-nil, get_or-append_left, length,
  length-append, take, drop, take_all, length-take, All, slice, index_eq, le, le_cong, put_le, ltb,
  if_both, Bool-cases, ==→eq, arith,
}
use werunos.Base.Holds.{Holds, Holds-left, Holds-right, Holds-skip, le-field, le-Holds, slice-Holds}
use werunos.Vfs.Safe.{
  SafeEntry, LogFile, LogHost, put_at, pending, read_pending, write_file, entry_header,
  append_entry,
}

-- The offset and the length fit into their words.
abbrev pub IsEntry : SafeEntry → Type 0
IsEntry e = (e.offset < 256 ^ 8) × (length e.bytes < 256 ^ 4)

abbrev pub put_entry : SafeEntry → List ℕ
put_entry e = entry_header e.offset e.bytes ++ e.bytes

abbrev pub encoded : List SafeEntry → List ℕ
encoded [] = []
encoded (e ∷ entries) = put_entry e ++ encoded entries

-- The front of an entry that is not complete, or nothing.
abbrev pub IsCut : List ℕ → Type 0
IsCut tail = (length tail < 12) ⊎ (length tail < 12 + le 4 tail 8)

pub length-entry_header : (off : ℕ) (bytes : List ℕ) → length (entry_header off bytes) ≡ 12
unfolding put_le
length-entry_header off bytes = refl

pending-encoded :
    (fuel : ℕ) (bytes : List ℕ) (pos : ℕ) (entries : List SafeEntry) (tail : List ℕ)
    → All IsEntry entries
    → IsCut tail
    → length bytes ≡ pos + length (encoded entries ++ tail)
    → length bytes ≤ pos + fuel
    → Holds bytes pos (encoded entries ++ tail)
    → pending fuel bytes pos ≡ entries
unfolding pending
pending-encoded zero bytes pos [] tail es cut l f h = refl
pending-encoded zero bytes pos (e ∷ entries) tail es cut l f h = absurd (
    omega (
      arith,
      length-append (put_entry e ++ encoded entries) tail,
      length-append (put_entry e) (encoded entries),
      length-append (entry_header e.offset e.bytes) e.bytes,
      length-entry_header e.offset e.bytes,
    ))
pending-encoded (suc fuel) bytes pos [] tail es (inl cut) l f h =
    let t : ltb (length bytes) (pos + 12) ≡ true = ground arith in rw t refl
pending-encoded (suc fuel) bytes pos [] tail es (inr cut) l f h =
    elim (Bool-cases (ltb (length bytes) (pos + 12))) [
      | inl t ↦ rw t refl
      | inr t ↦
          let e : le 4 bytes (pos + 8) ≡ le 4 tail 8 = le_cong 4 bytes tail (pos + 8) 8 (λ i lt.
            index_eq bytes (pos + 8 + i) (pos + (8 + i)) (omega arith)
            ∙ h (8 + i) (ground arith)) in
          let u : ltb (length bytes) (pos + 12 + le 4 tail 8) ≡ true = ground arith in
          rw (t, e, u) refl
    ]
pending-encoded (suc fuel) bytes pos (e ∷ entries) tail (q, es) cut l f h =
    let n = length e.bytes in
    let behind = encoded entries ++ tail in
    let parts : encoded (e ∷ entries) ++ tail
        ≡ entry_header e.offset e.bytes ++ (e.bytes ++ behind) =
      append_assoc (put_entry e) (encoded entries) tail
      ∙ append_assoc (entry_header e.offset e.bytes) e.bytes behind in
    let hs : Holds bytes pos (entry_header e.offset e.bytes ++ (e.bytes ++ behind)) =
      subst (Holds bytes pos) parts h in
    let hh : Holds bytes pos (entry_header e.offset e.bytes) =
      Holds-left bytes pos (entry_header e.offset e.bytes) (e.bytes ++ behind) hs in
    let hl = length-entry_header e.offset e.bytes in
    let hb : Holds bytes (pos + 12) (e.bytes ++ behind) =
      subst (λ (k : ℕ). Holds bytes (pos + k) (e.bytes ++ behind)) hl
        (Holds-right bytes pos (entry_header e.offset e.bytes) (e.bytes ++ behind) hs) in
    let long : length bytes ≡ pos + 12 + n + length behind = omega (
      arith,
      l,
      ap length parts,
      length-append (entry_header e.offset e.bytes) (e.bytes ++ behind),
      length-append e.bytes behind,
      hl,
    ) in
    let o : le 8 bytes pos ≡ e.offset =
      le-field 8 e.offset bytes pos pos (put_le 4 n) refl q.0 hh in
    let k : le 4 bytes (pos + 8) ≡ n =
      le-Holds 4 n bytes (pos + 8) q.1 (Holds-skip 8 e.offset bytes pos (put_le 4 n) hh) in
    let t : ltb (length bytes) (pos + 12) ≡ false = ground arith in
    let u : ltb (length bytes) (pos + 12 + n) ≡ false = ground arith in
    let rest =
      pending-encoded fuel bytes (pos + 12 + n) entries tail es cut long (omega arith)
        (Holds-right bytes (pos + 12) e.bytes behind hb) in
    let s : slice bytes (pos + 12) n ≡ e.bytes =
      slice-Holds bytes (pos + 12) e.bytes (omega arith)
        (Holds-left bytes (pos + 12) e.bytes behind hb) in
    rw (t, k, u, o, s, rest) refl

-- A log of whole entries whose offsets and lengths fit their fields, and of one that was cut off, is read as
-- the whole entries.
pub read_pending-encoded :
    (entries : List SafeEntry) (tail : List ℕ) (pos : ℕ)
    → All IsEntry entries
    → IsCut tail
    → read_pending (record { bytes = encoded entries ++ tail; pos = pos }) ≡ entries
unfolding read_pending
read_pending-encoded entries tail pos es cut =
    pending-encoded (length (encoded entries ++ tail)) (encoded entries ++ tail) 0 entries tail es
      cut (omega arith) (omega arith)
      (λ i lt. index_eq (encoded entries ++ tail) (0 + i) i (omega arith))

drop_all : (xs : List ℕ) (n : ℕ) → length xs ≤ n → drop n xs ≡ []
drop_all [] zero le = refl
drop_all [] (suc n) le = refl
drop_all (x ∷ xs) zero le = absurd (omega arith)
drop_all (x ∷ xs) (suc n) le = drop_all xs n (omega arith)

-- A write at the end of the file.
put_at-end : (xs ys : List ℕ) → put_at xs (length xs) ys ≡ xs ++ ys
put_at-end xs ys =
    let e : length xs - length xs ≡ 0 = omega arith in
    rw
      (
        put_at,
        e,
        drop_all xs (length xs + length ys) (omega arith),
        append-nil xs,
        append-nil ys,
        take_all (length xs) xs (omega arith),
      )
      refl

take_same : (n : ℕ) (xs : List ℕ) → length (take n xs) ≡ length xs → take n xs ≡ xs
take_same zero [] e = refl
take_same (suc n) [] e = refl
take_same zero (x ∷ xs) e = absurd (omega arith)
take_same (suc n) (x ∷ xs) e = ap (λ (ys : List ℕ). x ∷ ys) (take_same n xs (omega arith))

abbrev pub empty_log : LogFile
empty_log = record { bytes = []; pos = 0 }

module _ (host : LogHost) where
  -- What a write at the end of a file leaves, if all is taken, and else.
  write_file-all :
      (f : LogFile) (p : List ℕ)
      → f.pos ≡ length f.bytes
      → (write_file host f p).1 ≡ true
      → (write_file host f p).0 ≡ record { bytes = f.bytes ++ p; pos = f.pos + length p }
  unfolding write_file
  write_file-all f p at_end t =
      let same = take_same (host.takes f p) p (==→eq _ _ t) in
      ap₂ (λ (xs : List ℕ) (n : ℕ). record { bytes = xs; pos = n })
        (ap₂ (λ (k : ℕ) (xs : List ℕ). put_at f.bytes k xs) at_end same ∙ put_at-end f.bytes p)
        (ap (λ (xs : List ℕ). f.pos + length xs) same)

  write_file-part :
      (f : LogFile) (p : List ℕ)
      → f.pos ≡ length f.bytes
      → (write_file host f p).1 ≡ false
      → ((write_file host f p).0.bytes ≡ f.bytes ++ take (host.takes f p) p)
        × (length (take (host.takes f p) p) < length p)
  unfolding write_file
  write_file-part f p at_end t = (
    ap (λ (k : ℕ). put_at f.bytes k (take (host.takes f p) p)) at_end
        ∙ put_at-end f.bytes (take (host.takes f p) p),
    (let l = length-take (host.takes f p) p in ground (arith, l)),
  )

pub read_pending-bytes :
    (f : LogFile) (xs : List ℕ)
    → f.bytes ≡ xs
    → read_pending f ≡ read_pending (record { bytes = xs; pos = 0 })
unfolding read_pending
read_pending-bytes f xs e = ap (λ (ys : List ℕ). pending (length ys) ys 0) e

module _ (host : LogHost) (e : SafeEntry) (q : IsEntry e) where
  abbrev header : List ℕ
  header = entry_header e.offset e.bytes

  -- What an append to the empty log gives: nothing that counts, or the entry; the entry if it succeeds.
  pub record Appended (r : LogFile × Bool) : Type 0 where
    pub read : (read_pending r.0 ≡ []) ⊎ (read_pending r.0 ≡ e ∷ [])
    pub succeeded : r.1 ≡ true → read_pending r.0 ≡ e ∷ []
    pub whole : r.1 ≡ true → r.0.bytes ≡ put_entry e

  len_field : (done : List ℕ) → le 4 (header ++ done) 8 ≡ length e.bytes
  len_field done =
      let h : Holds (header ++ done) 0 header = λ i lt.
        index_eq (header ++ done) (0 + i) i (omega arith) ∙ get_or-append_left header done i 0 lt in
      le-Holds 4 (length e.bytes) (header ++ done) 8 q.1
        (Holds-skip 8 e.offset (header ++ done) 0 (put_le 4 (length e.bytes)) h)

  cut_read : (f : LogFile) (tail : List ℕ) → f.bytes ≡ tail → IsCut tail → read_pending f ≡ []
  cut_read f tail b cut = read_pending-bytes f tail b ∙ read_pending-encoded [] tail 0 tt cut

  whole_read : (f : LogFile) → f.bytes ≡ put_entry e → read_pending f ≡ e ∷ []
  whole_read f b =
      read_pending-bytes f (encoded (e ∷ []) ++ [])
        (b ∙ sym (append-nil (put_entry e)) ∙ sym (append-nil (put_entry e ++ [])))
      ∙ read_pending-encoded (e ∷ []) [] 0 (q, tt) (inl (omega arith))

  pub append_entry-Appended : Appended (append_entry host empty_log e.offset e.bytes)
  unfolding append_entry
  append_entry-Appended =
      if_both Appended w1.1
        (λ t.
          if_both Appended w2.1
            (λ u.
              let b =
                ap (λ (f : LogFile). f.bytes) (write_file-all host w1.0 e.bytes (at_end t) u)
                ∙ ap (λ (f : LogFile). f.bytes ++ e.bytes)
                    (write_file-all host empty_log header refl t) in
              record {
                read = inr (whole_read w2.0 b);
                succeeded = λ _. whole_read w2.0 b;
                whole = λ _. b;
              })
            (λ u. record {
              read = inl (part t u);
              succeeded = λ v. absurd cc;
              whole = λ v. absurd cc;
            }))
        (λ t. record {
          read = inl (
              let p = write_file-part host empty_log header refl t in
              cut_read w1.0 (take (host.takes empty_log header) header) p.0
                (inl (omega (arith, p.1, length-entry_header e.offset e.bytes))));
          succeeded = λ v. absurd cc;
          whole = λ v. absurd cc;
        })
    where
      w1 : LogFile × Bool
      w1 = write_file host empty_log header

      w2 : LogFile × Bool
      w2 = write_file host w1.0 e.bytes

      at_end : w1.1 ≡ true → w1.0.pos ≡ length w1.0.bytes
      at_end t =
          let f = write_file-all host empty_log header refl t in
          ap (λ (g : LogFile). g.pos) f
          ∙ (let z : 0 + length header ≡ length header = omega arith in z)
          ∙ ap (λ (g : LogFile). length g.bytes) (sym f)

      part : w1.1 ≡ true → w2.1 ≡ false → read_pending w2.0 ≡ []
      part t u =
          let p = write_file-part host w1.0 e.bytes (at_end t) u in
          let done = take (host.takes w1.0 e.bytes) e.bytes in
          let b : w2.0.bytes ≡ header ++ done =
            p.0
            ∙ ap (λ (f : LogFile). f.bytes ++ done) (write_file-all host empty_log header refl t) in
          cut_read w2.0 (header ++ done) b (
            inr (
              omega (
                arith,
                p.1,
                length-append header done,
                length-entry_header e.offset e.bytes,
                len_field done,
              )))
