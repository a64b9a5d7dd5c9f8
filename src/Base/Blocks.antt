-- ===== src/Base/Blocks.antt =====
-- Positions in blocks of a fixed size.
use native.Mathlib.Nat.{div-eq_of_lt-le, div-mul-le_self, lt-div-mul-add, mod-eq-sub-div-mul}
use werunos.Base.{
  ℕ, sym, ◌+◌, ◌-◌, ◌*◌, ◌/◌, ◌%◌, ◌≤◌, ◌<◌, ◌≡◌, ◌≢◌, ap, ◌⊎◌, inl, inr, arith, Bool-cases, ltb,
  ltb→lt, ltb-false→le,
}

module _ (size : ℕ) (h : 0 < size) where
  pub block_lower : (i : ℕ) → i / size * size ≤ i
  block_lower i = div-mul-le_self i size

  pub block_upper : (i : ℕ) → i < i / size * size + size
  block_upper i = lt-div-mul-add {a = i} {b = size} h

  pub block_rest : (i : ℕ) → i % size ≡ i - i / size * size
  block_rest i = mod-eq-sub-div-mul i size

  pub block_of : (b i : ℕ) → b * size ≤ i → i < b * size + size → i / size ≡ b
  block_of b i lo hi = div-eq_of_lt-le size lo (omega arith)

  -- Another block's number is below or above.
  pub block_apart : (b i : ℕ) → (i < b * size) ⊎ (b * size + size ≤ i) → i / size ≢ b
  block_apart b i out e =
      absurd (omega (arith, block_lower i, block_upper i, ap (λ (t : ℕ). t * size) e))

  pub block_split :
      (b i : ℕ)
      → ((b ≡ i / size) × (b * size ≤ i) × (i < b * size + size))
        ⊎ ((b ≢ i / size) × ((i < b * size) ⊎ (b * size + size ≤ i)))
  block_split b i = elim (Bool-cases (ltb i (b * size))) [
    | inl lo ↦ inr ((λ e. block_apart b i (inl (ltb→lt _ _ lo)) (sym e)), inl (ltb→lt _ _ lo))
    | inr lo ↦ elim (Bool-cases (ltb i (b * size + size))) [
      | inl hi ↦ inl (
        sym (block_of b i (ltb-false→le _ _ lo) (ltb→lt _ _ hi)),
        ltb-false→le _ _ lo,
        ltb→lt _ _ hi,
      )
      | inr hi ↦
          inr
            ((λ e. block_apart b i (inr (ltb-false→le _ _ hi)) (sym e)), inr (ltb-false→le _ _ hi))
    ]
  ]
