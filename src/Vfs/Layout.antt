-- ===== src/Vfs/Layout.antt =====
-- The layout of the structs that encoding/binary reads and writes: `SuperBlock` of vfs/super.go,
-- `GroupDescriptor` of vfs/bgdesc.go and `Inode` of vfs/inodes.go, as the sizes of their fields in
-- order; an array is one field.
use werunos.Base.{ℕ, zero, suc, ◌+◌, ◌≡◌, refl, List, [], ◌∷◌}

-- The bytes before field `k`.
abbrev pub place : List ℕ → ℕ → ℕ
place [] k = 0
place (w ∷ widths) zero = 0
place (w ∷ widths) (suc k) = w + place widths k

abbrev pub struct_size : List ℕ → ℕ
struct_size [] = 0
struct_size (w ∷ widths) = w + struct_size widths

abbrev pub superblock_fields : List ℕ
superblock_fields =
    4 ∷ 4 ∷ 4 ∷ 4 ∷ 4 ∷ 4 ∷ 4 ∷ 4 ∷ 4 ∷ 4 ∷ 4 ∷ 4 ∷ 4 ∷ 2 ∷ 2 ∷ 2 ∷ 2 ∷ 2 ∷ 2 ∷ 4 ∷ 4 ∷ 4 ∷ 4 ∷ 2
    ∷ 2 ∷ 4 ∷ 2 ∷ 2 ∷ 4 ∷ 4 ∷ 4 ∷ 16 ∷ 16 ∷ 64 ∷ 4 ∷ 1 ∷ 1 ∷ 2 ∷ 16 ∷ 4 ∷ 4 ∷ 4 ∷ 16 ∷ 1 ∷ 1 ∷ 2 ∷ 4
    ∷ 4 ∷ 4 ∷ 68 ∷ 4 ∷ 4 ∷ 4 ∷ 2 ∷ 2 ∷ 4 ∷ 2 ∷ 2 ∷ 8 ∷ 4 ∷ 1 ∷ 1 ∷ 1 ∷ 1 ∷ 8 ∷ 4 ∷ 4 ∷ 8 ∷ 4 ∷ 4 ∷ 4
    ∷ 4 ∷ 8 ∷ 32 ∷ 4 ∷ 4 ∷ 4 ∷ 4 ∷ 8 ∷ 32 ∷ 64 ∷ 4 ∷ 4 ∷ 4 ∷ 8 ∷ 4 ∷ 16 ∷ 4 ∷ 4 ∷ 4 ∷ 1 ∷ 1 ∷ 1 ∷ 1
    ∷ 1 ∷ 1 ∷ 1 ∷ 1 ∷ 2 ∷ 2 ∷ 4 ∷ 376 ∷ 4 ∷ []

abbrev pub descriptor_fields : List ℕ
descriptor_fields =
    4 ∷ 4 ∷ 4 ∷ 2 ∷ 2 ∷ 2 ∷ 2 ∷ 4 ∷ 2 ∷ 2 ∷ 2 ∷ 2 ∷ 4 ∷ 4 ∷ 4 ∷ 2 ∷ 2 ∷ 2 ∷ 2 ∷ 4 ∷ 2 ∷ 2 ∷ 4 ∷ []

abbrev pub inode_fields : List ℕ
inode_fields =
    2 ∷ 2 ∷ 4 ∷ 4 ∷ 4 ∷ 4 ∷ 4 ∷ 2 ∷ 2 ∷ 4 ∷ 4 ∷ 4 ∷ 60 ∷ 4 ∷ 4 ∷ 4 ∷ 4 ∷ 2 ∷ 2 ∷ 2 ∷ 2 ∷ 2 ∷ 2 ∷ 2
    ∷ 2 ∷ 4 ∷ 4 ∷ 4 ∷ 4 ∷ 4 ∷ 4 ∷ 4 ∷ []

-- The sizes that the code relies on.
superblock_size_run : struct_size superblock_fields ≡ 1024
superblock_size_run = refl

descriptor_size_run : struct_size descriptor_fields ≡ 64
descriptor_size_run = refl
