-- ===== src/Vfs/Safe/Cache.antt =====
-- The cache, where all accesses are to whole blocks of one size: it holds what the device holds.
use native.Mathlib.Nat.{div-eq_of_lt-le}
use werunos.Base.{
  ℕ, zero, suc, ◌+◌, ◌-◌, ◌*◌, ◌/◌, ◌≤◌, ◌<◌, ◌≡◌, ◌≢◌, ◌⊎◌, inl, inr, sym, ap, ◌∙◌, subst, true,
  false, Option, none, some, some_inj, List, [], ◌∷◌, length, take, All, slice, length-slice,
  byte_at-slice, byte_at, index_eq, copy_at, length-copy_at, byte_at-copy_at, patch_inside,
  range_split, leb, ◌==◌, if◌then◌else◌, if_both, arith,
}
use werunos.Vfs.Safe.{CacheBlock, contains, lookup_cache, take_out, cache_slots, update_cache}

All-take {κ} :
    (P : CacheBlock → Type κ) (n : ℕ) (cache : List CacheBlock) → All P cache → All P (take n cache)
All-take P zero cache ps = tt
All-take P (suc n) [] ps = tt
All-take P (suc n) (x ∷ cache) (p, ps) = (p, All-take P n cache ps)

module _ (size : ℕ) where
  -- The block is the one of a number, and has the bytes that the device has there.
  pub record IsBlockOf (c : ℕ → ℕ) (block : CacheBlock) : Type 0 where
    pub number : ℕ
    pub place : block.offset ≡ number * size
    pub len : length block.bytes ≡ size
    pub same : (i : ℕ) → i < size → byte_at block.bytes i ≡ c (block.offset + i)

  abbrev pub Elsewhere : ℕ → List CacheBlock → Type 0
  Elsewhere off cache = All (λ y. y.offset ≢ off) cache

  unfoldable pub AreDistinct : List CacheBlock → Type 0
  AreDistinct [] = Unit
  AreDistinct (x ∷ cache) = Elsewhere x.offset cache × AreDistinct cache

  AreDistinct-take :
      (n : ℕ) (cache : List CacheBlock) → AreDistinct cache → AreDistinct (take n cache)
  unfolding AreDistinct
  AreDistinct-take zero cache ds = tt
  AreDistinct-take (suc n) [] ds = tt
  AreDistinct-take (suc n) (x ∷ cache) (e, ds) =
      (All-take (λ y. y.offset ≢ x.offset) n cache e, AreDistinct-take n cache ds)

  pub record IsValid (c : ℕ → ℕ) (cache : List CacheBlock) : Type 0 where
    pub coherent : All (IsBlockOf c) cache
    pub distinct : AreDistinct cache

  blocks_same :
      (c c' : ℕ → ℕ)
      → ((i : ℕ) → c' i ≡ c i)
      → (cache : List CacheBlock) → All (IsBlockOf c) cache
      → All (IsBlockOf c') cache
  blocks_same c c' e [] bs = tt
  blocks_same c c' e (x ∷ cache) (b, bs) = (
    record {
      number = b.number;
      place = b.place;
      len = b.len;
      same = λ i lt. b.same i lt ∙ sym (e (x.offset + i));
    },
    blocks_same c c' e cache bs,
  )

  -- A device with the same bytes.
  pub IsValid-same :
      (c c' : ℕ → ℕ)
      → ((i : ℕ) → c' i ≡ c i)
      → (cache : List CacheBlock) → IsValid c cache
      → IsValid c' cache
  IsValid-same c c' e cache v = record {
    coherent = blocks_same c c' e cache v.coherent;
    distinct = v.distinct;
  }

  same_place :
      (c : ℕ → ℕ) (x : CacheBlock) (off : ℕ)
      → IsBlockOf c x
      → contains x off size ≡ true
      → x.offset ≡ off
  same_place c x off b t = let l = b.len in ground arith

  other_place :
      (c : ℕ → ℕ) (x : CacheBlock) (off : ℕ)
      → IsBlockOf c x
      → contains x off size ≡ false
      → x.offset ≢ off
  other_place c x off b t e = let l = b.len in absurd (ground arith)

  -- What is found in the cache is what the device has.
  pub lookup_cache-same :
      (c : ℕ → ℕ) (cache : List CacheBlock) (off : ℕ) (bytes : List ℕ)
      → All (IsBlockOf c) cache
      → lookup_cache cache off size ≡ some bytes
      → (length bytes ≡ size) × ((i : ℕ) → i < size → byte_at bytes i ≡ c (off + i))
  unfolding lookup_cache
  lookup_cache-same c [] off bytes bs e = absurd cc
  lookup_cache-same c (x ∷ cache) off bytes (b, bs) e =
      if_both Found (contains x off size) (λ t q. subst Holds_block (some_inj q) (slice_same t))
        (λ t q. lookup_cache-same c cache off bytes bs q) e
    where
      Holds_block : List ℕ → Type 0
      Holds_block xs = (length xs ≡ size) × ((i : ℕ) → i < size → byte_at xs i ≡ c (off + i))

      Found : Option (List ℕ) → Type 0
      Found r = r ≡ some bytes → Holds_block bytes

      slice_same : contains x off size ≡ true → Holds_block (slice x.bytes (off - x.offset) size)
      slice_same t =
          let p = same_place c x off b t in
          (
            omega (arith, length-slice x.bytes (off - x.offset) size, b.len),
            λ i lt.
                byte_at-slice x.bytes (off - x.offset) size i lt
                ∙ index_eq x.bytes (off - x.offset + i) i (omega (arith, p))
                ∙ b.same i lt
                ∙ ap (λ (o : ℕ). c (o + i)) p,
          )

  -- A block of a number is put into the cache: `c` and `c'` are the device before and after.
  module _ (c c' : ℕ → ℕ) (off number : ℕ) (place : off ≡ number * size) (p : List ℕ)
      (len : length p ≡ size) (there : (i : ℕ) → i < size → byte_at p i ≡ c' (off + i))
      (elsewhere : (i : ℕ) → (i < off) ⊎ (off + size ≤ i) → c' i ≡ c i) where
    still_block : (x : CacheBlock) → IsBlockOf c x → x.offset ≢ off → IsBlockOf c' x
    still_block x b ne = record {
      number = b.number;
      place = b.place;
      len = b.len;
      same = λ i lt. b.same i lt ∙ sym (elsewhere (x.offset + i) (out i lt));
    }
      where
        out : (i : ℕ) → i < size → (x.offset + i < off) ⊎ (off + size ≤ x.offset + i)
        out i lt = elim (range_split off size (x.offset + i)) [
          | inl (a, z) ↦
              let n : (x.offset + i) / size ≡ b.number =
                div-eq_of_lt-le size (omega (arith, b.place)) (omega (arith, b.place)) in
              let m : (x.offset + i) / size ≡ number =
                div-eq_of_lt-le size (omega (arith, place)) (omega (arith, place)) in
              absurd (ne (b.place ∙ ap (λ (k : ℕ). k * size) (sym n ∙ m) ∙ sym place))
          | inr o ↦ o
        ]

    still_blocks :
        (cache : List CacheBlock)
        → All (IsBlockOf c) cache
        → Elsewhere off cache
        → All (IsBlockOf c') cache
    still_blocks [] bs ne = tt
    still_blocks (x ∷ cache) (b, bs) (n, ne) = (still_block x b n, still_blocks cache bs ne)

    abbrev TakenOut : List CacheBlock → Option (CacheBlock × List CacheBlock) → Type 0
    TakenOut cache none = Elsewhere off cache
    TakenOut cache (some (found, others)) =
        (found.offset ≡ off)
        × IsBlockOf c' found
        × All (IsBlockOf c') others
        × AreDistinct others
        × Elsewhere off others
        × ((o : ℕ) → Elsewhere o cache → Elsewhere o others)

    -- A block that is not the one looked for stays.
    stays :
        (x : CacheBlock) (cache : List CacheBlock) (r : Option (CacheBlock × List CacheBlock))
        → IsBlockOf c x
        → x.offset ≢ off
        → Elsewhere x.offset cache
        → TakenOut cache r
        → TakenOut
            (x ∷ cache)
            (elim r [ none ↦ none | some (found, others) ↦ some (found, x ∷ others) ])
    unfolding AreDistinct
    stays x cache none b ne ns t = (ne, t)
    stays x cache (some (found, others)) b ne ns (f, bf, bs, ds, es, keeps) = (
      f,
      bf,
      (still_block x b ne, bs),
      (keeps x.offset ns, ds),
      (ne, es),
      λ o (m, ms). (m, keeps o ms),
    )

    take_out-TakenOut :
        (cache : List CacheBlock)
        → All (IsBlockOf c) cache
        → AreDistinct cache
        → TakenOut cache (take_out p off cache)
    unfolding take_out AreDistinct
    take_out-TakenOut [] bs ds = tt
    take_out-TakenOut (x ∷ cache) (b, bs) (n, ds) =
        if_both (TakenOut (x ∷ cache)) (contains x off (length p))
          (λ t. here (same_place c x off b (subst (λ (k : ℕ). contains x off k ≡ true) len t)))
          (λ t.
            stays x cache (take_out p off cache) b
              (other_place c x off b (subst (λ (k : ℕ). contains x off k ≡ false) len t)) n
              (take_out-TakenOut cache bs ds))
      where
        here :
            x.offset ≡ off
            → TakenOut
                (x ∷ cache)
                (some (record x { bytes = copy_at x.bytes (off - x.offset) p }, cache))
        here e =
            let ns : Elsewhere off cache = subst (λ (o : ℕ). Elsewhere o cache) e n in
            (
              e,
              record {
                number = b.number;
                place = b.place;
                len = length-copy_at x.bytes (off - x.offset) p ∙ b.len;
                same = λ i lt.
                    byte_at-copy_at x.bytes (off - x.offset) p i (omega (arith, b.len))
                    ∙ patch_inside (byte_at x.bytes) (off - x.offset) p i (omega (arith, e))
                        (omega (arith, e))
                    ∙ index_eq p (i - (off - x.offset)) i (omega (arith, e))
                    ∙ there i lt
                    ∙ ap (λ (o : ℕ). c' (o + i)) (sym e);
              },
              still_blocks cache bs ns,
              ds,
              ns,
              λ o (m, ms). ms,
            )

    -- A block that is put into the cache is found there, and the others stay valid.
    pub update_cache-IsValid :
        0 < size
        → (cache : List CacheBlock) → IsValid c cache
        → IsValid c' (update_cache p off cache)
    unfolding update_cache AreDistinct
    update_cache-IsValid pos cache v =
        if_both (IsValid c') (length p == 0) (λ t. absurd (ground arith))
          (λ _. after (take_out p off cache) (take_out-TakenOut cache v.coherent v.distinct))
      where
        new : CacheBlock
        new = record { offset = off; bytes = p }

        new-IsBlockOf : IsBlockOf c' new
        new-IsBlockOf = record { number = number; place = place; len = len; same = there }

        after :
            (r : Option (CacheBlock × List CacheBlock))
            → TakenOut cache r
            → IsValid c' (elim r [
              | some (found, others) ↦ found ∷ others
              | none ↦
                  if leb cache_slots (length cache)
                  then new ∷ take (length cache - 1) cache
                  else new ∷ cache
            ])
        after none ns =
            if_both (IsValid c') (leb cache_slots (length cache))
              (λ _. record {
                coherent = (
                  new-IsBlockOf,
                  All-take (IsBlockOf c') (length cache - 1) cache
                      (still_blocks cache v.coherent ns),
                );
                distinct = (
                  All-take (λ y. y.offset ≢ off) (length cache - 1) cache ns,
                  AreDistinct-take (length cache - 1) cache v.distinct,
                );
              })
              (λ _. record {
                coherent = (new-IsBlockOf, still_blocks cache v.coherent ns);
                distinct = (ns, v.distinct);
              })
        after (some (found, others)) (f, bf, bs, ds, es, keeps) = record {
          coherent = (bf, bs);
          distinct = (subst (λ (o : ℕ). Elsewhere o others) (sym f) es, ds);
        }
