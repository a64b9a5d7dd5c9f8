-- ===== src/Vfs/Safe/Runs.antt =====
-- Runs on a disk of 8 bytes, with a host whose file takes all writes, and one whose file takes nothing.
use werunos.Base.{
  ℕ, zero, suc, byte_at, ◌<◌, ◌+◌, ◌≡◌, refl, true, some, List, [], ◌∷◌, ◌++◌, length, copy_at, le,
  put_le, arith, inl,
}
use werunos.Block.Memory.{memory, memory-IsDisk}
use werunos.Vfs.Safe.{
  LogHost, SafeDevice, write_file, append_entry, truncate_file, remove_last_entry, pending,
  read_pending, lookup_cache, take_out, update_cache, read_old, logged_write, safe_write_at,
  safe_read_at, new_safe_device, write_back,
}
use werunos.Vfs.Safe.Log.{encoded, empty_log, read_pending-encoded}
use werunos.Vfs.Safe.Cache.{AreDistinct}
use werunos.Vfs.Safe.Coherent.{
  IsCoherent, ReadsCoherent, WritesCoherent, safe_read_at-ReadsCoherent,
  safe_write_at-WritesCoherent,
}
use werunos.Vfs.Safe.Atomic.{Atomic, safe_write_at-Atomic}

abbrev host : LogHost
host = record { takes = λ _ p. length p; syncs = λ _. true; truncates = λ _. true }

abbrev disk : List ℕ
disk = 1 ∷ 2 ∷ 3 ∷ 4 ∷ 5 ∷ 6 ∷ 7 ∷ 8 ∷ []

abbrev new_device : SafeDevice host memory
new_device = record { dev = disk; log = empty_log; cache = [] }

write_run : (safe_write_at host memory new_device 2 (9 ∷ 9 ∷ [])).0 ≡ record {
  dev = 1 ∷ 2 ∷ 9 ∷ 9 ∷ 5 ∷ 6 ∷ 7 ∷ 8 ∷ [];
  log = record { bytes = []; pos = 14 };
  cache = record { offset = 2; bytes = 9 ∷ 9 ∷ [] } ∷ [];
}
unfolding safe_write_at read_old logged_write lookup_cache update_cache take_out append_entry
    write_file remove_last_entry truncate_file put_le copy_at
write_run = refl

-- The next entry is written behind a gap of zeros, in which the next start finds an entry without bytes instead.
gap_run :
    read_pending (append_entry host (record { bytes = []; pos = 14 }) 100 (7 ∷ 8 ∷ [])).0
    ≡ record { offset = 0; bytes = [] } ∷ []
unfolding read_pending pending append_entry write_file put_le le
gap_run = refl

-- Two blocks of the cache share bytes: the write goes to one of them, and the other one is read.
stale_run :
    lookup_cache
      (update_cache (9 ∷ 9 ∷ []) 2 (
        record { offset = 2; bytes = 3 ∷ 4 ∷ [] }
        ∷ record { offset = 0; bytes = 1 ∷ 2 ∷ 3 ∷ 4 ∷ [] }
        ∷ []))
      0
      4
    ≡ some (1 ∷ 2 ∷ 3 ∷ 4 ∷ [])
unfolding lookup_cache update_cache take_out copy_at
stale_run = refl

restart_run :
    new_safe_device host memory
      (record { bytes = encoded (record { offset = 3; bytes = 0 ∷ 0 ∷ [] } ∷ []); pos = 0 })
      disk
    ≡ some (record { dev = 1 ∷ 2 ∷ 3 ∷ 0 ∷ 0 ∷ 6 ∷ 7 ∷ 8 ∷ []; log = empty_log; cache = [] })
unfolding new_safe_device read_pending pending write_back truncate_file put_le le copy_at
restart_run = refl

read_pending-encoded_example :
    read_pending (record {
      bytes = encoded (record { offset = 3; bytes = 5 ∷ 6 ∷ [] } ∷ []) ++ (1 ∷ 2 ∷ []);
      pos = 0;
    })
    ≡ record { offset = 3; bytes = 5 ∷ 6 ∷ [] } ∷ []
read_pending-encoded_example =
    read_pending-encoded (record { offset = 3; bytes = 5 ∷ 6 ∷ [] } ∷ []) (1 ∷ 2 ∷ []) 0
      ((omega arith, omega arith), tt) (inl (omega arith))

safe_write_at-Atomic_example :
    Atomic host memory-IsDisk disk 2
      (9 ∷ 9 ∷ [])
      (safe_write_at host memory new_device 2 (9 ∷ 9 ∷ []))
safe_write_at-Atomic_example =
    safe_write_at-Atomic host memory-IsDisk disk 2 (9 ∷ 9 ∷ []) (omega arith) (omega arith)
      (λ e. absurd cc)

abbrev one_block : SafeDevice host memory
one_block = record {
  dev = disk;
  log = empty_log;
  cache = record { offset = 2; bytes = 3 ∷ 4 ∷ [] } ∷ [];
}

abbrev one_block-IsCoherent : IsCoherent host memory-IsDisk 2 (omega arith) one_block
unfolding AreDistinct
one_block-IsCoherent = record {
  coherent = (record { number = 1; place = refl; len = refl; same = two_bytes }, tt);
  distinct = (tt, tt);
}
  where
    two_bytes : (i : ℕ) → i < 2 → byte_at (3 ∷ 4 ∷ []) i ≡ byte_at disk (2 + i)
    two_bytes zero lt = refl
    two_bytes (suc zero) lt = refl
    two_bytes (suc (suc i)) lt = absurd (omega arith)

safe_read_at-ReadsCoherent_example :
    ReadsCoherent host memory-IsDisk 2
      (omega arith)
      one_block
      one_block-IsCoherent
      4
      2
      refl
      (safe_read_at host memory one_block 4 2)
safe_read_at-ReadsCoherent_example =
    safe_read_at-ReadsCoherent host memory-IsDisk 2 (omega arith) one_block one_block-IsCoherent 4 2
      refl

safe_write_at-WritesCoherent_example :
    WritesCoherent host memory-IsDisk 2
      (omega arith)
      one_block
      one_block-IsCoherent
      2
      1
      refl
      (9 ∷ 9 ∷ [])
      refl
      (safe_write_at host memory one_block 2 (9 ∷ 9 ∷ []))
safe_write_at-WritesCoherent_example =
    safe_write_at-WritesCoherent host memory-IsDisk 2 (omega arith) one_block one_block-IsCoherent 2
      1 refl (9 ∷ 9 ∷ []) refl (λ e. absurd cc)
