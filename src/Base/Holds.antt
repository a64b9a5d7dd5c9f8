-- ===== src/Base/Holds.antt =====
-- Which bytes a buffer holds at an offset.
use native.Mathlib.Nat.{add_assoc}
use werunos.Base.{
  ◌-◌, drop, length-drop, get_or-drop, same_lists, slice, byte_at-slice, length-slice, ℕ, ◌+◌, ◌^◌,
  ◌≤◌, ◌<◌, ◌≡◌, ◌⊎◌, inl, inr, sym, ap, ◌∙◌, List, ◌++◌, length, length-append, get_or-append_left,
  get_or-append_right, byte_at, index_eq, copy_at, le, le_cong, put_le, le-put_le, length-put_le,
  length-copy_at, byte_at-copy_at, patch_inside, patch_outside, arith, Bool-cases, ltb, ltb→lt,
  ltb-false→le, get_or-past,
}

abbrev pub Holds : List ℕ → ℕ → List ℕ → Type 0
Holds xs off ys = (i : ℕ) → i < length ys → byte_at xs (off + i) ≡ byte_at ys i

module _ (xs : List ℕ) (off : ℕ) (ys zs : List ℕ) where
  pub Holds-left : Holds xs off (ys ++ zs) → Holds xs off ys
  Holds-left h i lt = h i (omega (arith, length-append ys zs)) ∙ get_or-append_left ys zs i 0 lt

  pub Holds-right : Holds xs off (ys ++ zs) → Holds xs (off + length ys) zs
  Holds-right h i lt =
      index_eq xs _ _ (add_assoc off (length ys) i)
      ∙ h (length ys + i) (omega (arith, length-append ys zs))
      ∙ get_or-append_right ys zs (length ys + i) 0 (omega arith)
      ∙ index_eq zs _ _ (omega arith)

pub le-Holds :
    (k v : ℕ) (xs : List ℕ) (off : ℕ) → v < 256 ^ k → Holds xs off (put_le k v) → le k xs off ≡ v
le-Holds k v xs off lt h =
    le_cong k xs (put_le k v) off 0
      (λ i l. h i (omega (arith, length-put_le k v)) ∙ index_eq (put_le k v) _ _ (omega arith))
    ∙ le-put_le k v lt

pub copy_at-Holds :
    (xs : List ℕ) (off : ℕ) (ys : List ℕ)
    → off + length ys ≤ length xs
    → Holds (copy_at xs off ys) off ys
copy_at-Holds xs off ys fits i lt =
    byte_at-copy_at xs off ys (off + i) (omega arith)
    ∙ patch_inside (byte_at xs) off ys (off + i) (omega arith) (omega arith)
    ∙ index_eq ys _ _ (omega arith)

-- A copy leaves the bytes outside its range.
pub byte_at-copy_at_outside :
    (xs : List ℕ) (off : ℕ) (ys : List ℕ) (i : ℕ)
    → (i < off) ⊎ (off + length ys ≤ i)
    → byte_at (copy_at xs off ys) i ≡ byte_at xs i
byte_at-copy_at_outside xs off ys i out = elim (Bool-cases (ltb i (length xs))) [
  | inl lt ↦ byte_at-copy_at xs off ys i (ltb→lt _ _ lt) ∙ patch_outside (byte_at xs) off ys i out
  | inr ge ↦
      get_or-past (copy_at xs off ys) i 0
        (omega (arith, length-copy_at xs off ys, ltb-false→le _ _ ge))
      ∙ sym (get_or-past xs i 0 (ltb-false→le _ _ ge))
]

pub copy_at-Holds_apart :
    (xs : List ℕ) (off : ℕ) (ys : List ℕ) (a : ℕ) (zs : List ℕ)
    → (a + length zs ≤ off) ⊎ (off + length ys ≤ a)
    → Holds xs a zs
    → Holds (copy_at xs off ys) a zs
copy_at-Holds_apart xs off ys a zs apart h i lt =
    byte_at-copy_at_outside xs off ys (a + i) (omega arith) ∙ h i lt

-- Fields one behind the other: the number at the front, and the bytes behind it.
module _ (k v : ℕ) (xs : List ℕ) (a b : ℕ) (zs : List ℕ) (e : a ≡ b) where
  pub le-field : v < 256 ^ k → Holds xs a (put_le k v ++ zs) → le k xs b ≡ v
  le-field lt h = ap (le k xs) (sym e) ∙ le-Holds k v xs a lt (Holds-left xs a (put_le k v) zs h)

pub Holds-skip :
    (k v : ℕ) (xs : List ℕ) (a : ℕ) (zs : List ℕ)
    → Holds xs a (put_le k v ++ zs)
    → Holds xs (a + k) zs
Holds-skip k v xs a zs h i lt =
    index_eq xs _ _ (omega (arith, length-put_le k v)) ∙ Holds-right xs a (put_le k v) zs h i lt

pub Holds-append :
    (xs : List ℕ) (off : ℕ) (ys zs : List ℕ)
    → Holds xs off ys
    → Holds xs (off + length ys) zs
    → Holds xs off (ys ++ zs)
Holds-append xs off ys zs h h' i lt = elim (Bool-cases (ltb i (length ys))) [
  | inl t ↦ h i (ground arith) ∙ sym (get_or-append_left ys zs i 0 (ground arith))
  | inr t ↦
      let le : length ys ≤ i = ground arith in
      index_eq xs _ _ (omega arith)
      ∙ h' (i - length ys) (omega (arith, length-append ys zs))
      ∙ sym (get_or-append_right ys zs i 0 le)
]

pub slice-Holds :
    (xs : List ℕ) (off : ℕ) (ys : List ℕ)
    → off + length ys ≤ length xs
    → Holds xs off ys
    → slice xs off (length ys) ≡ ys
slice-Holds xs off ys fits h =
    same_lists (slice xs off (length ys)) ys (omega (arith, length-slice xs off (length ys)))
      λ i lt. byte_at-slice xs off (length ys) i lt ∙ h i lt

-- What is put to the front of a buffer is dropped with it.
pub drop-copy_at_front :
    (n : ℕ) (buf bytes : List ℕ) → length bytes ≤ n → drop n (copy_at buf 0 bytes) ≡ drop n buf
drop-copy_at_front n buf bytes le =
    same_lists (drop n (copy_at buf 0 bytes)) (drop n buf)
      (omega
        (arith, length-drop n (copy_at buf 0 bytes), length-drop n buf, length-copy_at buf 0 bytes))
      λ i lt.
        get_or-drop n (copy_at buf 0 bytes) i 0
        ∙ byte_at-copy_at_outside buf 0 bytes (n + i) (inr (omega arith))
        ∙ sym (get_or-drop n buf i 0)
