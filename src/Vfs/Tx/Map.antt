-- ===== src/Vfs/Tx/Map.antt =====
-- The map from block numbers to the data of dirty blocks, as a list in the order of an iteration.
use werunos.Base.{
  ℕ, ◌≡◌, refl, Option, none, some, List, [], ◌∷◌, length, ◌==◌, if◌then◌else◌, arith, if_both, ap,
  sym, ◌∙◌, ==→eq,
}

abbrev pub Dirty : Type 0
Dirty = List (ℕ × List ℕ)

unfoldable pub lookup : ℕ → Dirty → Option (List ℕ)
lookup k [] = none
lookup k ((j, v) ∷ m) = if j == k then some v else lookup k m

unfoldable pub store : ℕ → List ℕ → Dirty → Dirty
store k v [] = (k, v) ∷ []
store k v ((j, w) ∷ m) = if j == k then (k, v) ∷ m else (j, w) ∷ store k v m

-- No block number occurs twice, and each block has its full size.
abbrev pub IsDirty : ℕ → Dirty → Type 0
IsDirty size [] = Unit
IsDirty size ((j, v) ∷ m) = (lookup j m ≡ none) × (length v ≡ size) × IsDirty size m

pub lookup-store :
    (k j : ℕ) (v : List ℕ) (m : Dirty)
    → lookup j (store k v m) ≡ (if k == j then some v else lookup j m)
unfolding lookup store
lookup-store k j v [] = refl
lookup-store k j v ((i, w) ∷ m) = ground (arith, lookup-store k j v m)

pub store-IsDirty :
    (size k : ℕ) (v : List ℕ) (m : Dirty)
    → length v ≡ size
    → IsDirty size m
    → IsDirty size (store k v m)
unfolding store
store-IsDirty size k v [] e h = (unfold lookup in refl, e, tt)
store-IsDirty size k v ((j, w) ∷ m) e h =
    if_both (IsDirty size) (j == k)
      (λ t. (ap (λ (n : ℕ). lookup n m) (sym (==→eq j k t)) ∙ h.0, e, h.2))
      λ f. (ground (arith, lookup-store k j v m, h.0), h.1, store-IsDirty size k v m e h.2)

pub lookup-IsDirty :
    (size k : ℕ) (v : List ℕ) (m : Dirty) → IsDirty size m → lookup k m ≡ some v → length v ≡ size
unfolding lookup
lookup-IsDirty size k v [] h e = cc
lookup-IsDirty size k v ((j, w) ∷ m) h e = ground (arith, lookup-IsDirty size k v m h.2)
