-- ===== src/Host/Handles/Runs.antt =====
-- Two files are opened and the first is closed.
use werunos.Base.{ℕ, ◌≡◌, ◌≢◌, refl, none, some, arith}
use werunos.Host.Handles.{HandleTable, store, load, delete, empty}
use werunos.Host.Handles.Fresh.{Reachable, stores, deletes, at_start, after, store-Reachable}

abbrev one_open : HandleTable ℕ
one_open = (store (empty ℕ) 70).0

abbrev closed : HandleTable ℕ
closed = delete one_open 1

closed_run : ((store closed 80).1 ≡ 2) × (load closed 1 ≡ none)
closed_run = (refl, refl)

closed-Reachable : Reachable 2 closed
closed-Reachable =
    after 1 one_open closed (after 0 (empty ℕ) one_open at_start (stores (empty ℕ) 70))
      (deletes one_open 1 (omega arith))

store-Reachable_example :
    (load closed 2 ≡ none)
    × (load (store closed 80).0 2 ≡ some 80)
    × ((h : ℕ) → h ≢ 2 → load (store closed 80).0 h ≡ load closed h)
store-Reachable_example = store-Reachable 2 closed 80 (omega arith) closed-Reachable
