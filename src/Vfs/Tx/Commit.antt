-- ===== src/Vfs/Tx/Commit.antt =====
-- Whole transactions: writes, and then a commit or a rollback.
use werunos.Base.{
  ℕ, ◌+◌, ◌*◌, ◌≤◌, ◌<◌, ◌≡◌, ◌⊎◌, refl, sym, ap, ◌∙◌, Bool, true, false, Option, none, some, List,
  [], ◌∷◌, length, patch, arith, inl, inr, index_eq, patch_inside, patch_outside, patch_cong, eq→==,
  ne→==, option_both,
}
use werunos.Base.Blocks.{block_rest, block_split}
use werunos.Block.Device.{IoError, ReadWriterAt, IsDisk}
use werunos.Vfs.Tx.{TxState, write_at, write_dirty, Dev, direct, in_tx, begin, rollback}
use werunos.Vfs.Tx.Map.{Dirty, lookup, IsDirty}
use werunos.Vfs.Tx.View.{seen, seen_base, seen_hit, seen_miss, seen_absent, view}
use werunos.Vfs.Tx.Writes.{write_at-WritesOwn}

module _ (size : ℕ) (h : 0 < size) where
  -- The first block written to the disk, and the rest seen over it.
  pub seen-patch :
      (b : ℕ) (bd : List ℕ) (m : Dirty) (f : ℕ → ℕ) (i : ℕ)
      → IsDirty size ((b, bd) ∷ m)
      → seen size m (patch f (b * size) bd) i ≡ seen size ((b, bd) ∷ m) f i
  seen-patch b bd m f i good = elim (block_split size h b i) [
    | inl (e, lo, hi) ↦
        seen_absent size m _ i (ap (λ (n : ℕ). lookup n m) (sym e) ∙ good.0)
        ∙ patch_inside f (b * size) bd i lo (omega (arith, good.1))
        ∙ index_eq bd _ _ (omega (arith, block_rest size h i, ap (λ (n : ℕ). n * size) e))
        ∙ sym (seen_hit size b bd m f i (eq→== b _ e))
    | inr (ne, out) ↦
        seen_base size m _ f i (patch_outside f (b * size) bd i (outside out good.1))
        ∙ sym (seen_miss size b bd m f i (ne→== b _ ne))
  ]
    where
      outside :
          (i < b * size) ⊎ (b * size + size ≤ i)
          → length bd ≡ size
          → (i < b * size) ⊎ (b * size + length bd ≤ i)
      outside out e = omega arith

  module _ {d : ReadWriterAt} (k : IsDisk d) where
    -- Writing the dirty blocks makes the disk what the transaction saw.
    pub write_dirty-seen :
        (m : Dirty) (s : d.State) (i : ℕ)
        → IsDirty size m
        → (write_dirty size d m s).1 ≡ none
        → k.content (write_dirty size d m s).0 i ≡ seen size m (k.content s) i
    unfolding write_dirty
    write_dirty-seen [] s i good ok =
        sym (seen_absent size [] (k.content s) i (unfold lookup in refl))
    write_dirty-seen ((b, bd) ∷ m) s i good ok =
        let w = d.write_at s (b * size) bd in
        option_both {B = d.State × Option IoError}
          (λ x. x.1 ≡ none → k.content x.0 i ≡ seen size ((b, bd) ∷ m) (k.content s) i) w.1.err
          (λ e ok'.
            write_dirty-seen m w.0 i good.2 ok'
            ∙ seen_base size m _ _ i ((k.writes s (b * size) bd).done e i)
            ∙ seen-patch b bd m (k.content s) i good)
          (λ e _ ok'. cc) ok

-- The calls of `WriteAt` of one transaction, up to the first that reports an error.
unfoldable pub write_all :
    (size : ℕ) (d : ReadWriterAt) → List (ℕ × List ℕ) → TxState d → TxState d × Bool
write_all size d [] st = (st, true)
write_all size d ((off, p) ∷ ws) st =
    let (st', w) = write_at size d st off p in
    elim w.err [ some _ ↦ (st', false) | none ↦ write_all size d ws st' ]

-- The same writes, one after the other, to a byte function.
abbrev pub patches : List (ℕ × List ℕ) → (ℕ → ℕ) → ℕ → ℕ
patches [] f = f
patches ((off, p) ∷ ws) f = patches ws (patch f off p)

pub patches_cong :
    (ws : List (ℕ × List ℕ)) (f g : ℕ → ℕ) (i : ℕ)
    → ((j : ℕ) → f j ≡ g j)
    → patches ws f i ≡ patches ws g i
patches_cong [] f g i e = e i
patches_cong ((off, p) ∷ ws) f g i e =
    patches_cong ws (patch f off p) (patch g off p) i (λ j. patch_cong f g off p j (e j))

-- What the disk itself holds, in a transaction or not.
abbrev pub on_disk : {d : ReadWriterAt} → IsDisk d → Dev d → ℕ → ℕ
on_disk k (direct s) = k.content s
on_disk k (in_tx st) = k.content st.inner

abbrev pub opened : (d : ReadWriterAt) → d.State → TxState d
opened d s = record { dirty = []; inner = s }

module _ {d : ReadWriterAt} (k : IsDisk d) (size : ℕ) (h : 0 < size) where
  record WroteAll (ws : List (ℕ × List ℕ)) (st : TxState d) (x : TxState d × Bool) : Type 0 where
    good : IsDirty size x.0.dirty
    disk : (i : ℕ) → k.content x.0.inner i ≡ k.content st.inner i
    sees : x.1 ≡ true → (i : ℕ) → view k size x.0 i ≡ patches ws (view k size st) i

  write_all-WroteAll :
      (ws : List (ℕ × List ℕ)) (st : TxState d)
      → IsDirty size st.dirty
      → WroteAll ws st (write_all size d ws st)
  unfolding write_all
  write_all-WroteAll [] st good = record { good = good; disk = λ i. refl; sees = λ _ i. refl }
  write_all-WroteAll ((off, p) ∷ ws) st good =
      let x = write_at size d st off p in
      let own = write_at-WritesOwn k size st off p h good in
      let rest = write_all-WroteAll ws x.0 own.good in
      option_both (WroteAll ((off, p) ∷ ws) st) x.1.err
        (λ e. record {
          good = rest.good;
          disk = λ i. rest.disk i ∙ own.disk i;
          sees = λ ok i. rest.sees ok i ∙ patches_cong ws _ _ i (own.done e);
        })
        λ e _. record { good = own.good; disk = own.disk; sees = λ ok. cc }

  -- However a transaction's writes went, the disk is unchanged while it is open, and a rollback gives
  -- back the disk as it was before `BeginTransaction`.
  pub rollback-write_all :
      (s : d.State) (ws : List (ℕ × List ℕ)) (i : ℕ)
      → (begin (direct s) ≡ in_tx (opened d s))
        × (on_disk k (in_tx (write_all size d ws (opened d s)).0) i ≡ on_disk k (direct s) i)
        × (on_disk k (rollback (in_tx (write_all size d ws (opened d s)).0)) i
            ≡ on_disk k (direct s) i)
  unfolding rollback begin
  rollback-write_all s ws i =
      let all = write_all-WroteAll ws (opened d s) tt in (refl, all.disk i, all.disk i)
