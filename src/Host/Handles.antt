-- ===== src/Host/Handles.antt =====
-- host/handles.go: the table of the open files. `sync.Map` is a map of the library, and every call
-- is one atomic step.
pub mod Fresh
mod Runs
use werunos.Base.{ℕ, ◌+◌, ◌%◌, ◌^◌, Option, none, some, List, [], ◌∷◌, ◌==◌, if◌then◌else◌}

-- The newest value of a key stands first; `none` is a deleted one.
pub record HandleTable {ℓ} (V : Type ℓ) : Type ℓ where
  pub map : List (ℕ × Option V)
  pub next : ℕ

module _ {ℓ} {V : Type ℓ} where
  abbrev pub find : List (ℕ × Option V) → ℕ → Option V
  find [] h = none
  find ((k, v) ∷ rest) h = let found = find rest h in if k == h then v else found

  abbrev pub store : HandleTable V → V → HandleTable V × ℕ
  store t v = let h = (t.next + 1) % 2 ^ 64 in (record { map = (h, some v) ∷ t.map; next = h }, h)

  abbrev pub replace : HandleTable V → ℕ → V → HandleTable V
  replace t h v = record t { map = (h, some v) ∷ t.map }

  abbrev pub load : HandleTable V → ℕ → Option V
  load t h = find t.map h

  abbrev pub delete : HandleTable V → ℕ → HandleTable V
  delete t h = record t { map = (h, none) ∷ t.map }

abbrev pub empty {ℓ} : (V : Type ℓ) → HandleTable V
empty V = record { map = []; next = 0 }
