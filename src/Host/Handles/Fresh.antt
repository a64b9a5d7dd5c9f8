-- ===== src/Host/Handles/Fresh.antt =====
-- A handle belongs to one open file: runs of the calls on a table, as a relation.
use werunos.Base.{
  ℕ, ◌+◌, ◌%◌, ◌^◌, ◌≤◌, ◌<◌, ◌≡◌, ◌≢◌, refl, Option, none, some, ◌==◌, ==→eq, if_both, arith,
}
use werunos.Host.Handles.{HandleTable, store, replace, load, delete, empty}

module _ {V : Type 0} where
  -- One call. A handle that is replaced or deleted is one that was given out.
  pub data Step : HandleTable V → HandleTable V → Type 0 where
    stores : (t : HandleTable V) (v : V) → Step t (store t v).0
    replaces : (t : HandleTable V) (h : ℕ) (v : V) → h ≤ t.next → Step t (replace t h v)
    deletes : (t : HandleTable V) (h : ℕ) → h ≤ t.next → Step t (delete t h)

  pub data Reachable : ℕ → HandleTable V → Type 0 where
    at_start : Reachable 0 (empty V)
    after : (n : ℕ) (t u : HandleTable V) → Reachable n t → Step t u → Reachable (n + 1) u

  -- Every handle of the table has been given out, and there were at most `n` of them.
  pub record IsIssued (n : ℕ) (t : HandleTable V) : Type 0 where
    pub few : t.next ≤ n
    pub none_above : (h : ℕ) → t.next < h → load t h ≡ none

  Step-IsIssued :
      (n : ℕ) (t u : HandleTable V) → n + 1 < 2 ^ 64 → IsIssued n t → Step t u → IsIssued (n + 1) u
  Step-IsIssued n t u lt i (stores _ v) = record {
    few = omega (arith, i.few);
    none_above = λ h above.
        if_both (λ (o : Option V). o ≡ none) ((t.next + 1) % 2 ^ 64 == h)
          (λ e. absurd (omega (arith, ==→eq _ _ e))) λ _. i.none_above h (omega (arith, i.few));
  }
  Step-IsIssued n t u lt i (replaces _ k v old) = record {
    few = omega (arith, i.few);
    none_above = λ h above.
        if_both (λ (o : Option V). o ≡ none) (k == h) (λ e. absurd (omega (arith, ==→eq _ _ e)))
          λ _. i.none_above h above;
  }
  Step-IsIssued n t u lt i (deletes _ k old) = record {
    few = omega (arith, i.few);
    none_above = λ h above.
        if_both (λ (o : Option V). o ≡ none) (k == h) (λ _. refl) λ _. i.none_above h above;
  }

  Reachable-IsIssued : (n : ℕ) (t : HandleTable V) → n < 2 ^ 64 → Reachable n t → IsIssued n t
  Reachable-IsIssued n t lt at_start = record { few = omega arith; none_above = λ h above. refl }
  Reachable-IsIssued n t lt (after m s _ r step) =
      Step-IsIssued m s t lt (Reachable-IsIssued m s (omega arith) r) step

  -- After fewer than 2^64 - 1 calls on a new table, of which those of `Replace` and `Delete` name no handle
  -- above the last that `Store` has given, `Store` gives a handle under which there was nothing, the value is
  -- there afterwards, and every other handle keeps what it had.
  pub store-Reachable :
      (n : ℕ) (t : HandleTable V) (v : V)
      → n + 1 < 2 ^ 64
      → Reachable n t
      → (load t (store t v).1 ≡ none)
        × (load (store t v).0 (store t v).1 ≡ some v)
        × ((h : ℕ) → h ≢ (store t v).1 → load (store t v).0 h ≡ load t h)
  store-Reachable n t v lt r =
      let i = Reachable-IsIssued n t (omega arith) r in
      (
        i.none_above _ (omega (arith, i.few)),
        if_both (λ (o : Option V). o ≡ some v) ((t.next + 1) % 2 ^ 64 == (t.next + 1) % 2 ^ 64)
            (λ _. refl) (λ e. absurd (ground arith)),
        λ h ne.
            if_both (λ (o : Option V). o ≡ load t h) ((t.next + 1) % 2 ^ 64 == h)
              (λ e. absurd (ground arith)) (λ _. refl),
      )
