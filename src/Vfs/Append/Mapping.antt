-- ===== src/Vfs/Append/Mapping.antt =====
-- Appending an extent, as an operation on lists, and what it does to the map from the blocks of a
-- file to the blocks of the disk.
use werunos.Base.{
  ℕ, ◌+◌, ◌^◌, ◌<◌, ◌≡◌, refl, ◌∙◌, true, Option, none, some, List, [], ◌∷◌, ◌++◌, if_both,
  if◌then◌else◌, arith,
}
use werunos.Vfs.Extents.{Extent, block_count, find_physical_block}
use werunos.Vfs.Append.{adjoins, merges, merged}

-- The list of extents with `e` behind it, in one piece with the last where that is possible.
unfoldable pub append_extent : List Extent → Extent → List Extent
append_extent [] e = e ∷ []
append_extent (x ∷ []) e = if merges x e then merged x e ∷ [] else x ∷ e ∷ []
append_extent (x ∷ y ∷ extents) e = x ∷ append_extent (y ∷ extents) e

-- The end of the extent is a block number of 32 bits.
abbrev pub EndsIn32 : Extent → Type 0
EndsIn32 e = e.block + block_count e < 2 ^ 32

find-merged :
    (x e : Extent) (logical : ℕ)
    → EndsIn32 e
    → merges x e ≡ true
    → find_physical_block (merged x e ∷ []) logical ≡ find_physical_block (x ∷ e ∷ []) logical
unfolding find_physical_block adjoins
find-merged x e logical ends m = ground arith

find-cons :
    (x : Extent) (l m : List Extent) (logical : ℕ)
    → find_physical_block l logical ≡ find_physical_block m logical
    → find_physical_block (x ∷ l) logical ≡ find_physical_block (x ∷ m) logical
unfolding find_physical_block
find-cons x l m logical h = ground (arith, h)

find-append_extent :
    (l : List Extent) (e : Extent) (logical : ℕ)
    → EndsIn32 e
    → find_physical_block (append_extent l e) logical ≡ find_physical_block (l ++ (e ∷ [])) logical
unfolding append_extent
find-append_extent [] e logical ends = refl
find-append_extent (x ∷ []) e logical ends =
    if_both (λ l. find_physical_block l logical ≡ find_physical_block (x ∷ e ∷ []) logical)
      (merges x e) (find-merged x e logical ends) (λ _. refl)
find-append_extent (x ∷ y ∷ l) e logical ends =
    find-cons x (append_extent (y ∷ l) e) ((y ∷ l) ++ (e ∷ [])) logical
      (find-append_extent (y ∷ l) e logical ends)

-- The block that the list gives, or else the one that `e` gives.
abbrev pub or_else : Option ℕ → Option ℕ → Option ℕ
or_else (some b) o = some b
or_else none o = o

find-snoc :
    (l : List Extent) (e : Extent) (logical : ℕ)
    → find_physical_block (l ++ (e ∷ [])) logical
      ≡ or_else (find_physical_block l logical) (find_physical_block (e ∷ []) logical)
unfolding find_physical_block
find-snoc [] e logical = refl
find-snoc (x ∷ l) e logical = ground (arith, find-snoc l e logical)

-- Every block that the old extents map is where it was, and every other one is where the new extent puts it, if it does.
abbrev pub Appends : List Extent → Extent → List Extent → Type 0
Appends old e new =
    (logical : ℕ)
    → find_physical_block new logical
      ≡ or_else (find_physical_block old logical) (find_physical_block (e ∷ []) logical)

-- Appending an extent, merged or not, leaves every block of the file where it was, and adds the
-- blocks of the extent.
pub find-append_extent_or :
    (l : List Extent) (e : Extent) → EndsIn32 e → Appends l e (append_extent l e)
find-append_extent_or l e ends logical = find-append_extent l e logical ends ∙ find-snoc l e logical
