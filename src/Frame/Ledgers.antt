-- ===== src/Frame/Ledgers.antt =====
-- The slots of all keys, sets and processes through the handlers (QuaServer/ServiceQua.cpp) and the
-- dispatch of packets (QuaServer/FlowMsg.cpp).
pub mod First
pub mod Second
use modern_flux.Base.{ℕ, ◌≤◌, arith}
use modern_flux.Base.Bytes.{Bytes}
use modern_flux.Base.Dict.{lookup_or, insert, erase_if}
use modern_flux.Base.Dict.Every.{
  Every, Every-insert, Every-emplace, Every-lookup_or, Every-erase_if, Every-map,
}
use modern_flux.Quota.Slot.{empty_item}
use modern_flux.Quota.Record.{QData, QDataMap, init_qdata, init_key_qua_alloc, clear_qdata}
use modern_flux.Server.Ledger.{AreLedgers, AreLedgers-grow, empty-IsLedger}

-- The slots of an entry are balanced, and none has more than `bound` requests.
abbrev pub HasLedgers : ℕ → QData → Type 0
HasLedgers bound d = AreLedgers bound d.titem

abbrev pub AllLedgers : ℕ → QDataMap → Type 0
AllLedgers bound m = Every (HasLedgers bound) m

pub init_qdata-HasLedgers : (bound junk : ℕ) → HasLedgers bound (init_qdata junk)
unfolding init_qdata
init_qdata-HasLedgers bound junk = let e = empty-IsLedger bound in (e, (e, (e, (e, (e, (e, tt))))))

module _ (bound : ℕ) where
  pub insert-AllLedgers :
      (k : Bytes) (d : QData) (m : QDataMap)
      → HasLedgers bound d
      → AllLedgers bound m
      → AllLedgers bound (insert k d m)
  insert-AllLedgers = Every-insert (HasLedgers bound)

  pub init-AllLedgers :
      (junk : ℕ) (k : Bytes) (m : QDataMap)
      → AllLedgers bound m
      → AllLedgers bound (init_key_qua_alloc junk k m)
  unfolding init_key_qua_alloc
  init-AllLedgers junk k m h =
      Every-emplace (HasLedgers bound) k (init_qdata junk) m (init_qdata-HasLedgers bound junk) h

  pub lookup_or-HasLedgers :
      (junk : ℕ) (k : Bytes) (m : QDataMap)
      → AllLedgers bound m
      → HasLedgers bound (lookup_or k (init_qdata junk) m)
  lookup_or-HasLedgers junk k m h =
      Every-lookup_or (HasLedgers bound) k (init_qdata junk) m (init_qdata-HasLedgers bound junk) h

  pub clear-AllLedgers :
      (expire now : ℕ) (m : QDataMap)
      → AllLedgers bound m
      → AllLedgers bound (clear_qdata expire now m)
  unfolding clear_qdata
  clear-AllLedgers expire now m h = Every-erase_if (HasLedgers bound) _ m h

pub AllLedgers-grow :
    (bound more : ℕ) (m : QDataMap) → bound ≤ more → AllLedgers bound m → AllLedgers more m
AllLedgers-grow bound more m le h =
    Every-map (HasLedgers bound) (HasLedgers more) m
      (λ d one. AreLedgers-grow bound more d.titem one le) h
