-- ===== src/Btrfs/Types/Order.antt =====
-- `less` orders the keys.
use werunos.Base.{◌≡◌, ◌⊎◌, inl, inr, Bool, true, false, Bool-cases, arith}
use werunos.Btrfs.Types.{Key, less}

-- A linear order, by its test for less: no key is less than itself, the order is transitive, and of
-- two keys that are not equal one is less.
pub record IsLinear (lt : Key → Key → Bool) : Type 0 where
  pub irreflexive : (a : Key) → lt a a ≡ false
  pub transitive : (a b c : Key) → lt a b ≡ true → lt b c ≡ true → lt a c ≡ true
  pub total : (a b : Key) → (lt a b ≡ true) ⊎ ((a ≡ b) ⊎ (lt b a ≡ true))

key_eq : (a b : Key) → a.objectid ≡ b.objectid → a.typ ≡ b.typ → a.offset ≡ b.offset → a ≡ b
key_eq a b o t f = cc

-- The keys of a tree are ordered by object, then by type, then by offset: the order is linear.
pub less-IsLinear : IsLinear less
unfolding less
less-IsLinear = record {
  irreflexive = λ a. ground arith;
  transitive = λ a b c t u. ground arith;
  total = λ a b. elim (Bool-cases (less a b)) [
    | inl t ↦ inl t
    | inr t ↦ elim (Bool-cases (less b a)) [
      | inl u ↦ inr (inr u)
      | inr u ↦ inr (inl (key_eq a b (ground arith) (ground arith) (ground arith)))
    ]
  ];
}
