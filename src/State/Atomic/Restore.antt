-- ===== src/State/Atomic/Restore.antt =====
-- `rollback` puts back every saved account (internal/state/state.go).
use shadowledger.Prelude.{◌≡◌, refl, [], ◌∷◌, Option, none, some, arith, bytes_eq_iff}
use shadowledger.Prelude.Map.{Map, lookup, lookup-insert, lookup-erase, bytes_key}
use shadowledger.Crypto.{Address}
use shadowledger.State.Data.{Account}
use shadowledger.State.Ledger.{restore, restore_all}
use shadowledger.State.Confine.{recovered, IsUnique}

lookup-restore :
    (k a : Address) (o : Option Account) (m : Map Address Account)
    → lookup a (restore (k, o) m) ≡ (recovered (lookup a ((k, o) ∷ [])) (lookup a m))
unfolding restore lookup
lookup-restore k a none m = ground (arith, lookup-erase k a m)
lookup-restore k a (some ac) m = ground (arith, lookup-insert k a ac m)

pub lookup-restore_all :
    (a : Address) (saved : Map Address (Option Account)) (m : Map Address Account)
    → IsUnique saved
    → lookup a (restore_all saved m) ≡ recovered (lookup a saved) (lookup a m)
unfolding restore_all lookup
lookup-restore_all a [] m h = refl
lookup-restore_all a ((k, o) ∷ saved) m h = ground (
  arith,
  lookup-restore_all a saved (restore (k, o) m) h.1,
  lookup-restore k a o m,
  bytes_eq_iff a k,
)
