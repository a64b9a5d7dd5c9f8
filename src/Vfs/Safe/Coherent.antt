-- ===== src/Vfs/Safe/Coherent.antt =====
-- Reads and writes of whole blocks of one size are those of the device below.
use werunos.Base.{
  ℕ, ◌+◌, ◌-◌, ◌*◌, ◌<◌, ◌≡◌, ◌≢◌, ◌⊎◌, inl, inr, refl, sym, ◌∙◌, subst, Option, none, some, List,
  length, take_all, byte_at, index_eq, patch, patch_cong, patch_inside, patch_outside, ◌==◌,
  if_both, option_both, arith,
}
use werunos.Block.Device.{
  IoError, eof, fault, Reply, Written, ReadWriterAt, ReadsTrue, WritesTrue, IsDisk,
}
use werunos.Vfs.Safe.{
  LogHost, SafeDevice, lookup_cache, update_cache, append_entry, read_old, logged_write, write_over,
  safe_read_at, safe_write_at,
}
use werunos.Vfs.Safe.Cache.{IsValid, IsValid-same, lookup_cache-same, update_cache-IsValid}

module _ (host : LogHost) {d : ReadWriterAt} (h : IsDisk d) (size : ℕ) (pos : 0 < size) where
  -- The cache holds whole blocks of the size, none twice, with the bytes of the device.
  abbrev pub IsCoherent : SafeDevice host d → Type 0
  IsCoherent s = IsValid size (h.content s.dev) s.cache

  module _ (s : SafeDevice host d) (v : IsCoherent s) (off number : ℕ)
      (place : off ≡ number * size) where
    -- The same device, read by blocks.
    cached_read :
        (dev : d.State)
        → ((i : ℕ) → h.content dev i ≡ h.content s.dev i)
        → (bytes : List ℕ) → length bytes ≡ size
        → ((i : ℕ) → i < size → byte_at bytes i ≡ h.content s.dev (off + i))
        → IsValid size (h.content dev) (update_cache bytes off s.cache)
    cached_read dev same bytes len is =
        update_cache-IsValid size (h.content s.dev) (h.content dev) off number place bytes len
          (λ i lt. is i lt ∙ sym (same (off + i))) (λ i o. same i) pos s.cache v

    -- What a read gives: the device keeps its bytes, the cache stays valid, and the reply is one of the device.
    pub record ReadsCoherent (out : SafeDevice host d × Reply) : Type 0 where
      pub coherent : IsCoherent out.0
      pub reads : ReadsTrue (h.content s.dev) (h.content out.0.dev) off size out.1

    -- Where the cache holds whole blocks of one size, as the device does, a read of such a block gives the bytes of the
    -- device under the contract of a reader, and leaves the device and the cache as good.
    pub safe_read_at-ReadsCoherent : ReadsCoherent (safe_read_at host d s off size)
    unfolding safe_read_at
    safe_read_at-ReadsCoherent =
        option_both ReadsCoherent (lookup_cache s.cache off size)
          (λ _.
            option_both ReadsCoherent r.1.err
              (λ e. record {
                coherent =
                    cached_read r.0 rd.kept r.1.bytes (rd.full e)
                      (λ i lt. rd.same i (omega (arith, rd.full e)));
                reads = rd;
              })
              (λ x e. record {
                coherent = IsValid-same size (h.content s.dev) (h.content r.0) rd.kept s.cache v;
                reads = rd;
              }))
          (λ bytes e.
            let found = lookup_cache-same size (h.content s.dev) s.cache off bytes v.coherent e in
            record {
              coherent = v;
              reads = record {
                kept = λ i. refl;
                fits = omega (arith, found.0);
                same = λ i lt. found.1 i (omega (arith, found.0));
                full = λ _. found.0;
                ended = λ n. absurd cc;
              };
            })
      where
        r : d.State × Reply
        r = d.read_at s.dev off size

        rd : ReadsTrue (h.content s.dev) (h.content r.0) off size r.1
        rd = h.reads s.dev off size

    module _ (p : List ℕ) (len : length p ≡ size) where
      -- What a write gives: each byte is old or new; without an error all of the block is new, and the cache stays valid.
      pub record WritesCoherent (out : SafeDevice host d × Written) : Type 0 where
        pub torn :
            (i : ℕ)
            → (h.content out.0.dev i ≡ h.content s.dev i)
              ⊎ (h.content out.0.dev i ≡ patch (h.content s.dev) off p i)
        pub count : out.1.err ≡ none → out.1.count ≡ size
        pub done :
            out.1.err ≡ none → (i : ℕ) → h.content out.0.dev i ≡ patch (h.content s.dev) off p i
        pub coherent : out.1.err ≡ none → IsCoherent out.0

      logged_write-WritesCoherent :
          (s1 : SafeDevice host d) (old : List ℕ)
          → IsCoherent s1
          → ((i : ℕ) → h.content s1.dev i ≡ h.content s.dev i)
          → WritesCoherent (logged_write host d s1 old off p)
      unfolding logged_write
      logged_write-WritesCoherent s1 old v1 same =
          if_both WritesCoherent (append_entry host s1.log off old).1
            (λ ok.
              option_both WritesCoherent w.1.err
                (λ e. record {
                  torn = torn';
                  count = λ _. wt.full e ∙ len;
                  done = λ _ i.
                      wt.done e i
                      ∙ patch_cong (h.content s1.dev) (h.content s.dev) off p i (same i);
                  coherent = λ _.
                      subst
                        (λ (xs : List ℕ).
                          IsValid size (h.content w.0) (update_cache xs off s1.cache))
                        (sym (take_all w.1.count p (omega (arith, wt.full e)))) (cached e);
                })
                (λ x e. record {
                  torn = torn';
                  count = λ n. absurd (wrong x e n);
                  done = λ n. absurd (wrong x e n);
                  coherent = λ n. absurd (wrong x e n);
                }))
            (λ _. record {
              torn = λ i. inl (same i);
              count = λ n. absurd cc;
              done = λ n. absurd cc;
              coherent = λ n. absurd cc;
            })
        where
          w : d.State × Written
          w = d.write_at s1.dev off p

          wt : WritesTrue (h.content s1.dev) (h.content w.0) off p w.1
          wt = h.writes s1.dev off p

          wrong : (x : IoError) → w.1.err ≡ some x → w.1.err ≡ none → ⊥
          wrong x e n = let q : none ≡ some x = sym n ∙ e in cc

          torn' :
              (i : ℕ)
              → (h.content w.0 i ≡ h.content s.dev i)
                ⊎ (h.content w.0 i ≡ patch (h.content s.dev) off p i)
          torn' i = elim (wt.torn i) [
            | inl t ↦ inl (t ∙ same i)
            | inr t ↦ inr (t ∙ patch_cong (h.content s1.dev) (h.content s.dev) off p i (same i))
          ]

          cached : w.1.err ≡ none → IsValid size (h.content w.0) (update_cache p off s1.cache)
          cached e =
              update_cache-IsValid size (h.content s1.dev) (h.content w.0) off number place p len
                (λ i lt. sym (
                  wt.done e (off + i)
                  ∙ patch_inside (h.content s1.dev) off p (off + i) (omega arith)
                      (omega (arith, len))
                  ∙ index_eq p (off + i - off) i (omega arith)))
                (λ i o. wt.done e i ∙ patch_outside (h.content s1.dev) off p i (omega (arith, len)))
                pos s1.cache v1

      -- Where the cache holds whole blocks of one size, as the device does, a write of such a block within the device
      -- that reports no error has written all of it, and leaves the cache as good; one that reports an error has left each
      -- byte old or new.
      pub safe_write_at-WritesCoherent :
          (d.read_at s.dev off size).1.err ≢ some eof
          → WritesCoherent (safe_write_at host d s off p)
      unfolding safe_write_at read_old
      safe_write_at-WritesCoherent inside =
          if_both WritesCoherent (length p == 0) (λ t. absurd (ground (arith, len)))
            (λ _.
              subst (λ (n : ℕ). After (read_old host d s off n)) (sym len)
                (option_both After (lookup_cache s.cache off size)
                  (λ _.
                    option_both After r.1.err
                      (λ e.
                        logged_write-WritesCoherent s1 r.1.bytes
                          (cached_read r.0 rd.kept r.1.bytes (rd.full e)
                            (λ i lt. rd.same i (omega (arith, rd.full e))))
                          rd.kept)
                      failed)
                  (λ bytes _. logged_write-WritesCoherent s bytes v (λ i. refl))))
        where
          r : d.State × Reply
          r = d.read_at s.dev off size

          rd : ReadsTrue (h.content s.dev) (h.content r.0) off size r.1
          rd = h.reads s.dev off size

          s1 : SafeDevice host d
          s1 = record s { dev = r.0; cache = update_cache r.1.bytes off s.cache }

          After : SafeDevice host d × Option (List ℕ) → Type 0
          After x = WritesCoherent (write_over host d x off p)

          failed :
              (x : IoError)
              → r.1.err ≡ some x
              → After
                  (elim x [ eof ↦ (s1, some r.1.bytes) | fault ↦ (record s { dev = r.0 }, none) ])
          failed eof e = absurd (inside e)
          failed fault e = record {
            torn = λ i. inl (rd.kept i);
            count = λ n. absurd cc;
            done = λ n. absurd cc;
            coherent = λ n. absurd cc;
          }
