-- ===== src/Vfs/Safe/Atomic.antt =====
-- A write on a new device is made whole or undone by the next start.
use werunos.Base.{
  ℕ, ◌+◌, ◌-◌, ◌^◌, ◌<◌, ◌≡◌, ◌≢◌, ◌⊎◌, inl, inr, refl, sym, ap, ◌∙◌, subst, Bool, true, false,
  Option, none, some, some_inj, List, [], ◌∷◌, length, length-append, byte_at, patch, patch_cong,
  patch_empty, patch_inside, patch_outside, range_split, ◌==◌, ==→eq, if◌then◌else◌, if_both,
  option_both, Bool-cases, arith,
}
use werunos.Block.Device.{IoError, eof, fault, Reply, Written, ReadWriterAt, IsDisk}
use werunos.Vfs.Safe.{
  SafeEntry, LogFile, LogHost, CacheBlock, entry_header, pending, read_pending, append_entry,
  truncate_file, remove_last_entry, update_cache, lookup_cache, SafeDevice, write_back, recover,
  new_safe_device, read_old, logged_write, write_over, safe_write_at,
}
use werunos.Vfs.Safe.Log.{
  read_pending-encoded, empty_log, Appended, append_entry-Appended, read_pending-bytes,
  length-entry_header,
}

module _ (host : LogHost) {d : ReadWriterAt} (h : IsDisk d) where
  -- The log as the next start opens it.
  abbrev pub reopened : LogFile → LogFile
  reopened log = record { bytes = log.bytes; pos = 0 }

  abbrev Starts : LogFile → d.State → SafeDevice host d → Type 0
  Starts log s s2 = new_safe_device host d (reopened log) s ≡ some s2

  recovered :
      (log : LogFile) (entries : List SafeEntry) (s : d.State) (s2 : SafeDevice host d)
      → read_pending log ≡ entries
      → Starts log s s2
      → recover host d entries (reopened log) s ≡ some s2
  unfolding new_safe_device
  recovered log entries s s2 r e =
      subst (λ (es : List SafeEntry). recover host d es (reopened log) s ≡ some s2)
        (read_pending-bytes (reopened log) log.bytes refl
          ∙ sym (read_pending-bytes log log.bytes refl)
          ∙ r)
        e

  removed_last :
      (f : LogFile) (len : ℕ)
      → host.truncates f ≡ true
      → length f.bytes - (12 + len) ≡ 0
      → read_pending (remove_last_entry host f len) ≡ []
  unfolding remove_last_entry truncate_file
  removed_last f len t z =
      rw (remove_last_entry, truncate_file, t, z)
        (read_pending-bytes (record f { bytes = [] }) [] refl
          ∙ read_pending-encoded [] [] 0 tt (inl (omega arith)))

  kept_last : (f : LogFile) (len : ℕ) → host.truncates f ≡ false → remove_last_entry host f len ≡ f
  unfolding remove_last_entry truncate_file
  kept_last f len t = rw (remove_last_entry, truncate_file, t) refl

  Starts-nil :
      (log : LogFile) (s : d.State) (s2 : SafeDevice host d)
      → read_pending log ≡ []
      → Starts log s s2
      → s ≡ s2.dev
  Starts-nil log s s2 r e =
      ap (λ (x : SafeDevice host d). x.dev) (some_inj (recovered log [] s s2 r e))

  Starts-entry :
      (log : LogFile) (e : SafeEntry) (s : d.State) (s2 : SafeDevice host d)
      → read_pending log ≡ e ∷ []
      → Starts log s s2
      → (i : ℕ) → h.content s2.dev i ≡ patch (h.content s) e.offset e.bytes i
  unfolding write_back
  Starts-entry log e s s2 r q i =
      option_both After (d.write_at s e.offset e.bytes).1.err
        (λ w.
          if_both Cleared (truncate_file host (reopened log) 0).1
            (λ t same.
              ap (λ (x : SafeDevice host d). h.content x.dev i) (sym (some_inj same))
              ∙ (h.writes s e.offset e.bytes).done w i)
            (λ t same. absurd cc))
        (λ x w same. absurd cc) (recovered log (e ∷ []) s s2 r q)
    where
      Cleared : Option (SafeDevice host d) → Type 0
      Cleared o = o ≡ some s2 → h.content s2.dev i ≡ patch (h.content s) e.offset e.bytes i

      After : Option d.State → Type 0
      After o = Cleared (elim o as (λ _. Option (SafeDevice host d)) [
        | none ↦ none
        | some s1 ↦
            if (truncate_file host (reopened log) 0).1
            then some
                (record { dev = s1; log = (truncate_file host (reopened log) 0).0; cache = [] })
            else none
      ])

  module _ (s : d.State) (off : ℕ) (p : List ℕ) where
    abbrev IsOld : d.State → Type 0
    IsOld s' = (i : ℕ) → h.content s' i ≡ h.content s i

    abbrev IsNew : d.State → Type 0
    IsNew s' = (i : ℕ) → h.content s' i ≡ patch (h.content s) off p i

    -- What a write has made: the next start that succeeds finds the old bytes or the new ones; and where the write reports
    -- no error, and the file can be truncated, the new ones.
    pub record Atomic (out : SafeDevice host d × Written) : Type 0 where
      pub whole :
          (s2 : SafeDevice host d) → Starts out.0.log out.0.dev s2 → IsOld s2.dev ⊎ IsNew s2.dev
      pub durable :
          out.1.err ≡ none
          → ((f : LogFile) → host.truncates f ≡ true)
          → (s2 : SafeDevice host d) → Starts out.0.log out.0.dev s2
          → IsNew s2.dev

    module _ (bytes : List ℕ) (same_length : length bytes ≡ length p)
        (is_old : (i : ℕ) → i < length bytes → byte_at bytes i ≡ h.content s (off + i)) where
      -- The old bytes undo a write that has left each byte old or new.
      undone :
          (c : ℕ → ℕ)
          → ((i : ℕ) → (c i ≡ h.content s i) ⊎ (c i ≡ patch (h.content s) off p i))
          → (i : ℕ) → patch c off bytes i ≡ h.content s i
      undone c torn i = elim (range_split off (length bytes) i) [
        | inl (a, b) ↦
            patch_inside c off bytes i a b
            ∙ is_old (i - off) (omega arith)
            ∙ ap (h.content s) (omega arith)
        | inr o ↦ patch_outside c off bytes i o ∙ elim (torn i) [
          | inl t ↦ t
          | inr t ↦ t ∙ patch_outside (h.content s) off p i (omega arith)
        ]
      ]

      module _ (dv : d.State) (cache : List CacheBlock)
          (same : (i : ℕ) → h.content dv i ≡ h.content s i) (o : off < 256 ^ 8)
          (l : length bytes < 256 ^ 4) where
        abbrev entry : SafeEntry
        entry = record { offset = off; bytes = bytes }

        abbrev appended : LogFile × Bool
        appended = append_entry host empty_log off bytes

        appended-Appended : Appended host entry (o, l) appended
        appended-Appended = append_entry-Appended host entry (o, l)

        after_torn :
            (dv' : d.State) (s2 : SafeDevice host d)
            → ((i : ℕ)
                → (h.content dv' i ≡ h.content s i)
                  ⊎ (h.content dv' i ≡ patch (h.content s) off p i))
            → read_pending appended.0 ≡ entry ∷ []
            → Starts appended.0 dv' s2
            → IsOld s2.dev
        after_torn dv' s2 torn r q i =
            Starts-entry appended.0 entry dv' s2 r q i ∙ undone (h.content dv') torn i

        -- The log after the entry has been removed.
        emptied :
            appended.1 ≡ true
            → host.truncates appended.0 ≡ true
            → read_pending (remove_last_entry host appended.0 (length bytes)) ≡ []
        emptied ok t =
            let whole = appended-Appended.whole ok in
            removed_last appended.0 (length bytes) t (
              omega (
                arith,
                ap length whole,
                length-append (entry_header off bytes) bytes,
                length-entry_header off bytes,
              ))

        logged_write-Atomic :
            Atomic (
              logged_write host d (record { dev = dv; log = empty_log; cache = cache }) bytes off p)
        unfolding logged_write
        logged_write-Atomic =
            if_both Atomic appended.1
              (λ ok.
                option_both Atomic (d.write_at dv off p).1.err
                  (λ e. record {
                    whole = λ s2 q. elim (Bool-cases (host.truncates appended.0)) [
                      | inl t ↦ inr (written e s2 (Starts-nil _ dv1 s2 (emptied ok t) q))
                      | inr t ↦ inl (
                          after_torn dv1 s2 torn (appended-Appended.succeeded ok) (
                            subst (λ (f : LogFile). Starts f dv1 s2)
                              (kept_last appended.0 (length bytes) t) q))
                    ];
                    durable = λ _ ts s2 q.
                        written e s2 (Starts-nil _ dv1 s2 (emptied ok (ts appended.0)) q);
                  })
                  (λ x e. record {
                    whole = λ s2 q. inl (after_torn dv1 s2 torn (appended-Appended.succeeded ok) q);
                    durable = λ n. absurd (let c : some x ≡ none = sym e ∙ n in cc);
                  }))
              (λ _. record {
                whole = λ s2 q. inl (elim appended-Appended.read [
                  | inl r ↦ λ i.
                      sym (ap (λ (x : d.State). h.content x i) (Starts-nil appended.0 dv s2 r q))
                      ∙ same i
                  | inr r ↦ after_torn dv s2 (λ i. inl (same i)) r q
                ]);
                durable = λ n. absurd cc;
              })
          where
            dv1 : d.State
            dv1 = (d.write_at dv off p).0

            torn :
                (i : ℕ)
                → (h.content dv1 i ≡ h.content s i)
                  ⊎ (h.content dv1 i ≡ patch (h.content s) off p i)
            torn i = elim ((h.writes dv off p).torn i) [
              | inl t ↦ inl (t ∙ same i)
              | inr t ↦ inr (t ∙ patch_cong (h.content dv) (h.content s) off p i (same i))
            ]

            written :
                (d.write_at dv off p).1.err ≡ none
                → (s2 : SafeDevice host d) → dv1 ≡ s2.dev
                → IsNew s2.dev
            written e s2 q i =
                sym (ap (λ (x : d.State). h.content x i) q)
                ∙ (h.writes dv off p).done e i
                ∙ patch_cong (h.content dv) (h.content s) off p i (same i)

    -- A write on a device with an empty log and an empty cache, of fewer than 2^32 bytes at an offset below
    -- 2^64, whose range the disk does not end in: however the writes to the log and to the disk fail, a start
    -- that opens the log and succeeds finds either every byte as before or every byte as written; and it
    -- finds them as written where the write reported no error and the file can be truncated.
    pub safe_write_at-Atomic :
        off < 2 ^ 64
        → length p < 2 ^ 32
        → (d.read_at s off (length p)).1.err ≢ some eof
        → Atomic (safe_write_at host d (record { dev = s; log = empty_log; cache = [] }) off p)
    unfolding safe_write_at read_old lookup_cache read_pending pending
    safe_write_at-Atomic o l inside =
        if_both Atomic (length p == 0)
          (λ t. record {
            whole = λ s2 e.
                inl (λ i.
                  sym (ap (λ (x : d.State). h.content x i) (Starts-nil empty_log s s2 refl e)));
            durable = λ _ _ s2 e i.
                sym (ap (λ (x : d.State). h.content x i) (Starts-nil empty_log s s2 refl e))
                ∙ sym (patch_empty (h.content s) off p i (==→eq _ _ t));
          })
          (λ _. option_both After r.1.err (λ e. good e) failed)
      where
        r : d.State × Reply
        r = d.read_at s off (length p)

        After : SafeDevice host d × Option (List ℕ) → Type 0
        After x = Atomic (write_over host d x off p)

        s1 : SafeDevice host d
        s1 = record { dev = r.0; log = empty_log; cache = update_cache r.1.bytes off [] }

        good : r.1.err ≡ none → After (s1, some r.1.bytes)
        good e =
            let n = (h.reads s off (length p)).full e in
            logged_write-Atomic r.1.bytes n (λ i lt. (h.reads s off (length p)).same i lt) r.0
              (update_cache r.1.bytes off []) (h.reads s off (length p)).kept o (omega (arith, n))

        failed :
            (x : IoError)
            → r.1.err ≡ some x
            → After (elim x [
              | eof ↦ (s1, some r.1.bytes)
              | fault ↦ (record { dev = r.0; log = empty_log; cache = [] }, none)
            ])
        failed eof e = absurd (inside e)
        failed fault e = record {
          whole = λ s2 q. inl (λ i.
              sym (ap (λ (x : d.State). h.content x i) (Starts-nil empty_log r.0 s2 refl q))
              ∙ (h.reads s off (length p)).kept i);
          durable = λ q. absurd cc;
        }
