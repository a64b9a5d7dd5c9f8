-- ===== src/Vfs/Safe.antt =====
-- vfs/redolog.go: a device that logs the bytes that a write replaces, and keeps the last blocks in a cache.
pub mod Log
pub mod Atomic
pub mod Cache
pub mod Coherent
mod Runs
use werunos.Base.{
  ℕ, zero, suc, ◌+◌, ◌-◌, ◌*◌, Bool, true, false, ◌&&◌, Option, none, some, List, [], ◌∷◌, ◌++◌,
  length, take, drop, slice, zeros, copy_at, le, put_le, ltb, leb, ◌==◌, if◌then◌else◌,
}
use werunos.Block.Device.{IoError, eof, fault, Reply, Written, ReadWriterAt}

abbrev pub safe_hdr_size : ℕ
safe_hdr_size = 12

pub record SafeEntry : Type 0 where
  pub offset : ℕ
  pub bytes : List ℕ

-- An `os.File`: its bytes and the offset at which the next `Write` begins, which `Truncate` leaves where it is.
pub record LogFile : Type 0 where
  pub bytes : List ℕ
  pub pos : ℕ

-- What the host does with the file: how many bytes of a write it takes, and whether `Sync` and `Truncate` succeed.
pub record LogHost : Type 0 where
  pub takes : LogFile → List ℕ → ℕ
  pub syncs : LogFile → Bool
  pub truncates : LogFile → Bool

-- Bytes written at `pos`; a gap before them is filled with zeros.
abbrev pub put_at : List ℕ → ℕ → List ℕ → List ℕ
put_at bytes pos xs =
    take pos (bytes ++ zeros (pos - length bytes)) ++ (xs ++ drop (pos + length xs) bytes)

-- The loop of `readPending` from `pos` on; each round goes on by a header at least.
unfoldable pub pending : ℕ → List ℕ → ℕ → List SafeEntry
pending zero bytes pos = []
pending (suc fuel) bytes pos =
    let len = le 4 bytes (pos + 8) in
    let rest = pending fuel bytes (pos + safe_hdr_size + len) in
    if ltb (length bytes) (pos + safe_hdr_size)
    then []
    else if ltb (length bytes) (pos + safe_hdr_size + len)
    then []
    else record { offset = le 8 bytes pos; bytes = slice bytes (pos + safe_hdr_size) len } ∷ rest

unfoldable pub read_pending : LogFile → List SafeEntry
read_pending log = pending (length log.bytes) log.bytes 0

abbrev pub entry_header : ℕ → List ℕ → List ℕ
entry_header off bytes = put_le 8 off ++ put_le 4 (length bytes)

module _ (host : LogHost) where
  -- `Write`, and whether it has taken all.
  unfoldable pub write_file : LogFile → List ℕ → LogFile × Bool
  write_file f p =
      let done = take (host.takes f p) p in
      (
        record { bytes = put_at f.bytes f.pos done; pos = f.pos + length done },
        length done == length p,
      )

  unfoldable pub truncate_file : LogFile → ℕ → LogFile × Bool
  truncate_file f size =
      if host.truncates f
      then (record f { bytes = take size (f.bytes ++ zeros (size - length f.bytes)) }, true)
      else (f, false)

  -- `appendEntry`, and whether it has succeeded.
  unfoldable pub append_entry : LogFile → ℕ → List ℕ → LogFile × Bool
  append_entry log off bytes =
      let (log1, ok1) = write_file log (entry_header off bytes) in
      let (log2, ok2) = write_file log1 bytes in
      if ok1 then (if ok2 then (log2, host.syncs log2) else (log2, false)) else (log1, false)

  unfoldable pub remove_last_entry : LogFile → ℕ → LogFile
  remove_last_entry log len = (truncate_file log (length log.bytes - (safe_hdr_size + len))).0

pub record CacheBlock : Type 0 where
  pub offset : ℕ
  pub bytes : List ℕ

-- The block has all of the range.
abbrev pub contains : CacheBlock → ℕ → ℕ → Bool
contains block off n = leb block.offset off && leb (off + n) (block.offset + length block.bytes)

unfoldable pub lookup_cache : List CacheBlock → ℕ → ℕ → Option (List ℕ)
lookup_cache [] off n = none
lookup_cache (block ∷ cache) off n =
    let rest = lookup_cache cache off n in
    if contains block off n then some (slice block.bytes (off - block.offset) n) else rest

-- The first block that has all of the range, with the bytes put in, and the other blocks.
unfoldable pub take_out : List ℕ → ℕ → List CacheBlock → Option (CacheBlock × List CacheBlock)
take_out p off [] = none
take_out p off (block ∷ cache) =
    let rest : Option (CacheBlock × List CacheBlock) = elim (take_out p off cache) [
      | none ↦ none
      | some (found, others) ↦ some (found, block ∷ others)
    ] in
    if contains block off (length p)
    then some (record block { bytes = copy_at block.bytes (off - block.offset) p }, cache)
    else rest

abbrev pub cache_slots : ℕ
cache_slots = 64

unfoldable pub update_cache : List ℕ → ℕ → List CacheBlock → List CacheBlock
update_cache p off cache = if length p == 0 then cache else elim (take_out p off cache) [
  | some (found, others) ↦ found ∷ others
  | none ↦
      let new : CacheBlock = record { offset = off; bytes = p } in
      if leb cache_slots (length cache) then new ∷ take (length cache - 1) cache else new ∷ cache
]

module _ (host : LogHost) (inner : ReadWriterAt) where
  pub record SafeDevice : Type 0 where
    pub dev : inner.State
    pub log : LogFile
    pub cache : List CacheBlock

  -- The loop of `NewSafeDevice` over the pending entries; `none` is a write that has failed.
  unfoldable pub write_back : List SafeEntry → inner.State → Option inner.State
  write_back [] s = some s
  write_back (e ∷ entries) s =
      let (s1, w) = inner.write_at s e.offset e.bytes in
      let rest = write_back entries s1 in elim w.err [ none ↦ rest | some _ ↦ none ]

  -- The pending entries are written, and the log is cleared.
  abbrev pub recover : List SafeEntry → LogFile → inner.State → Option SafeDevice
  recover [] log s = some (record { dev = s; log = log; cache = [] })
  recover (e ∷ entries) log s = elim (write_back (e ∷ entries) s) [
    | none ↦ none
    | some s1 ↦
        if (truncate_file host log 0).1
        then some (record { dev = s1; log = (truncate_file host log 0).0; cache = [] })
        else none
  ]

  -- `NewSafeDevice` on a log that has been opened.
  unfoldable pub new_safe_device : LogFile → inner.State → Option SafeDevice
  new_safe_device log s = recover (read_pending log) log s

  unfoldable pub safe_read_at : SafeDevice → ℕ → ℕ → SafeDevice × Reply
  safe_read_at s off n = elim (lookup_cache s.cache off n) [
    | some bytes ↦ (s, record { bytes = bytes; err = none })
    | none ↦
        let (dev1, reply) = inner.read_at s.dev off n in
        elim reply.err [
          | none ↦ (record s { dev = dev1; cache = update_cache reply.bytes off s.cache }, reply)
          | some e ↦ (record s { dev = dev1 }, reply)
        ]
  ]

  -- The bytes that a write replaces, from the cache or from the device; `none` is a read that has failed.
  unfoldable pub read_old : SafeDevice → ℕ → ℕ → SafeDevice × Option (List ℕ)
  read_old s off n = elim (lookup_cache s.cache off n) [
    | some bytes ↦ (s, some bytes)
    | none ↦
        let (dev1, reply) = inner.read_at s.dev off n in
        let s1 : SafeDevice = record s {
          dev = dev1;
          cache = update_cache reply.bytes off s.cache;
        } in
        elim reply.err [
          | none ↦ (s1, some reply.bytes)
          | some eof ↦ (s1, some reply.bytes)
          | some fault ↦ (record s { dev = dev1 }, none)
        ]
  ]

  -- The write, with the old bytes in the log while it is under way.
  unfoldable pub logged_write : SafeDevice → List ℕ → ℕ → List ℕ → SafeDevice × Written
  logged_write s old off p =
      let (log1, ok) = append_entry host s.log off old in
      let (dev1, w) = inner.write_at s.dev off p in
      if ok
      then elim w.err [
        | some e ↦ (record s { dev = dev1; log = log1 }, w)
        | none ↦ (
          record s {
            dev = dev1;
            log = remove_last_entry host log1 (length old);
            cache = update_cache (take w.count p) off s.cache;
          },
          record { count = w.count; err = none },
        )
      ]
      else (record s { log = log1 }, record { count = 0; err = some fault })

  abbrev pub write_over : SafeDevice × Option (List ℕ) → ℕ → List ℕ → SafeDevice × Written
  write_over (s, none) off p = (s, record { count = 0; err = some fault })
  write_over (s, some old) off p = logged_write s old off p

  unfoldable pub safe_write_at : SafeDevice → ℕ → List ℕ → SafeDevice × Written
  safe_write_at s off p =
      if length p == 0
      then (s, record { count = 0; err = none })
      else write_over (read_old s off (length p)) off p
