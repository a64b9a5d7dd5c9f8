-- ===== src/Btrfs/Chunks/Resolve.antt =====
-- Which physical address `resolve` gives.
use werunos.Base.{
  ℕ, ◌+◌, ◌-◌, ◌%◌, ◌^◌, ◌≤◌, ◌<◌, ◌≡◌, ◌↔◌, subst, ◌⊎◌, refl, true, false, some, some_inj, List,
  [], ◌∷◌, ◌++◌, if_both, Option, All, arith,
}
use werunos.Btrfs.Chunks.{ChunkMapping, covers, resolve}

-- The second mapping does not begin within the first one, nor the first within the second one.
abbrev pub AreApart : ChunkMapping → ChunkMapping → Type 0
AreApart c c' = (c.logical + c.len ≤ c'.logical) ⊎ (c'.logical + c'.len ≤ c.logical)

-- The addresses of the mappings are below 2^64, on both sides.
abbrev pub IsBelow : ChunkMapping → Type 0
IsBelow c = (c.logical + c.len < 2 ^ 64) × (c.physical + c.len < 2 ^ 64)

unfoldable pub AreDisjoint : List ChunkMapping → Type 0
AreDisjoint [] = Unit
AreDisjoint (c ∷ chunks) = IsBelow c × All (AreApart c) chunks × AreDisjoint chunks

-- `Translates chunks x p`: one of the mappings has `x`, and `p` is its place on the device.
pub data Translates : List ChunkMapping → ℕ → ℕ → Type 0 where
  first :
      (c : ChunkMapping) (chunks : List ChunkMapping) (x : ℕ)
      → c.logical ≤ x
      → x < c.logical + c.len
      → Translates (c ∷ chunks) x (c.physical + (x - c.logical))
  later :
      (c : ChunkMapping) (chunks : List ChunkMapping) (x p : ℕ)
      → Translates chunks x p
      → Translates (c ∷ chunks) x p

apart-Translates :
    (c : ChunkMapping) (chunks : List ChunkMapping) (x p : ℕ)
    → All (AreApart c) chunks
    → Translates chunks x p
    → (x < c.logical) ⊎ (c.logical + c.len ≤ x)
apart-Translates c [] x p _ t = elim t [ ]
apart-Translates c (c' ∷ chunks) x p (a, rest) (first _ _ _ le lt) = omega arith
apart-Translates c (c' ∷ chunks) x p (a, rest) (later _ _ _ _ t) =
    apart-Translates c chunks x p rest t

complete :
    (chunks : List ChunkMapping) (x p : ℕ)
    → AreDisjoint chunks
    → Translates chunks x p
    → resolve chunks x ≡ some p
unfolding resolve AreDisjoint
complete [] x p _ t = elim t [ ]
complete (c ∷ chunks) x p (b, rest, d) (first _ _ _ le lt) =
    let t : covers c x ≡ true = ground arith in
    let q : (c.physical + (x - c.logical)) % 2 ^ 64 ≡ c.physical + (x - c.logical) = omega arith in
    rw (t, q) refl
complete (c ∷ chunks) x p (b, rest, d) (later _ _ _ _ t) =
    let o = apart-Translates c chunks x p rest t in
    let f : covers c x ≡ false = ground arith in rw f (complete chunks x p d t)

sound :
    (chunks : List ChunkMapping) (x p : ℕ)
    → AreDisjoint chunks
    → resolve chunks x ≡ some p
    → Translates chunks x p
unfolding resolve AreDisjoint
sound [] x p d e = absurd cc
sound (c ∷ chunks) x p (b, rest, d) e =
    if_both (λ (r : Option ℕ). r ≡ some p → Translates (c ∷ chunks) x p) (covers c x)
      (λ t q.
        subst (Translates (c ∷ chunks) x) (place t (some_inj q))
          (first c chunks x (ground arith) (ground arith)))
      (λ t q. later c chunks x p (sound chunks x p d q)) e
  where
    place :
        covers c x ≡ true
        → (c.physical + (x - c.logical)) % 2 ^ 64 ≡ p
        → c.physical + (x - c.logical) ≡ p
    place t q = ground arith

-- Where the mappings are disjoint and no address reaches 2^64, `resolve` gives an address on the device exactly if
-- it is the place to which one of the mappings takes the logical address.
pub resolve-Translates :
    (chunks : List ChunkMapping) (x p : ℕ)
    → AreDisjoint chunks
    → (resolve chunks x ≡ some p) ↔ Translates chunks x p
resolve-Translates chunks x p d = (sound chunks x p d, complete chunks x p d)

-- Mappings that are added later change nothing for an address that has one.
pub resolve-append :
    (chunks more : List ChunkMapping) (x p : ℕ)
    → resolve chunks x ≡ some p
    → resolve (chunks ++ more) x ≡ some p
unfolding resolve
resolve-append [] more x p e = absurd cc
resolve-append (c ∷ chunks) more x p e =
    if_both (λ (r : Option ℕ). r ≡ some p → resolve ((c ∷ chunks) ++ more) x ≡ some p) (covers c x)
      (λ t q. rw t q) (λ t q. rw t (resolve-append chunks more x p q)) e
