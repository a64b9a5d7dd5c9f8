-- ===== src/Btrfs/Space/Runs.antt =====
-- An allocation on a disk of two leaves of 171 bytes: one extent, and one file whose bytes lie behind it.
use werunos.Base.{ℕ, ◌≡◌, ◌≢◌, refl, List, [], ◌∷◌, ◌++◌, zeros, copy_at, le, put_le, arith}
use werunos.Block.Memory.{memory}
use werunos.Btrfs.Chunks.{ChunkMapping, resolve}
use werunos.Btrfs.Tree.Walk.{HasItems, HasTree}
use werunos.Btrfs.Edit.{Volume}
use werunos.Btrfs.Space.{
  allocated, out_of_space, chunk_of_type, sort_in, sort_ranges, first_fit, allocate_in,
  allocate_space,
}
use werunos.Btrfs.Space.Occupied.{HasTrees, in_use}
use werunos.Btrfs.Space.Free.{Allocated, IsBounded, allocate_space-Allocated}

unfoldable extent_leaf : List ℕ
unfolding put_le
extent_leaf =
    zeros 96
    ++ (put_le 4 1
        ++ ((0 ∷ put_le 8 0)
            ++ ((168 ∷ put_le 8 400) ++ (put_le 4 70 ++ (put_le 4 0 ++ zeros 45)))))

unfoldable file_data : List ℕ
unfolding put_le
file_data = zeros 20 ++ ((1 ∷ put_le 8 1000) ++ (put_le 8 50 ++ zeros 8))

unfoldable file_leaf : List ℕ
unfolding put_le
file_leaf =
    zeros 96
    ++ (put_le 4 1
        ++ ((0 ∷ put_le 8 257)
            ++ ((108 ∷ put_le 8 0) ++ (put_le 4 25 ++ (put_le 4 45 ++ file_data)))))

abbrev chunk : ChunkMapping
chunk = record { logical = 0; len = 8192; physical = 0; flags = 1 }

fit_run :
    allocate_in 512 100 chunk
      (record { logical = 1000; len = 50 } ∷ record { logical = 0; len = 400 } ∷ [])
    ≡ allocated 1536 1536
unfolding allocate_in first_fit sort_ranges sort_in
fit_run = refl

full_run :
    allocate_in 512 100 (record chunk { len = 1600 }) (record { logical = 0; len = 1100 } ∷ [])
    ≡ out_of_space
unfolding allocate_in first_fit sort_ranges sort_in
full_run = refl

-- The mapping takes the address 1 to the front of the disk.
abbrev moved_chunk : ChunkMapping
moved_chunk = record { logical = 1; len = 8192; physical = 0; flags = 1 }

abbrev moved : Volume memory
moved = record {
  dev = extent_leaf ++ file_leaf;
  chunks = moved_chunk ∷ [];
  node_size = 171;
  generation = 3;
  fs_root = 172;
  fs_root_lvl = 0;
  extent_root = 1;
  extent_root_lvl = 0;
  chunk_root = 0;
  chunk_root_lvl = 0;
}

one_not_zero : ◌≢◌ {A = ℕ} 1 0
one_not_zero e = cc

abbrev moved-HasTrees : HasTrees moved 1
unfolding HasTree HasItems extent_leaf file_leaf file_data put_le le copy_at resolve
moved-HasTrees = record {
  loaded = one_not_zero;
  extents =
      (record { key = record { objectid = 0; typ = 168; offset = 400 }; offset = 70; size = 0 }, [])
      ∷ [];
  files =
      (
        record { key = record { objectid = 257; typ = 108; offset = 0 }; offset = 25; size = 45 },
        file_data,
      )
      ∷ [];
  extents_height = 0;
  files_height = 0;
  extent_tree = record {
    buf = extent_leaf;
    is_node = record { phys = 0; resolved = refl; readable = refl; same = refl };
    is_leaf = refl;
    count = refl;
    items = (omega arith, refl, omega arith, refl, tt);
  };
  file_tree = record {
    buf = file_leaf;
    is_node = record { phys = 171; resolved = refl; readable = refl; same = refl };
    is_leaf = refl;
    count = refl;
    items = (omega arith, refl, omega arith, refl, tt);
  };
  extents_fuel = omega arith;
  files_fuel = omega arith;
}

moved-IsBounded : IsBounded 512 100 moved_chunk (in_use moved moved-HasTrees)
unfolding file_data put_le le moved-HasTrees
moved-IsBounded = record {
  bound = 9000;
  ranges = (omega arith, (omega arith, tt));
  chunk = omega arith;
  device = omega arith;
  room = omega arith;
}

allocate_space-Allocated_example :
    Allocated 100 moved_chunk (in_use moved moved-HasTrees) (allocate_space 1 moved 512 100 1)
unfolding chunk_of_type
allocate_space-Allocated_example =
    allocate_space-Allocated moved 1 moved-HasTrees 512 100 1 moved_chunk (omega arith)
      (omega arith) refl moved-IsBounded
