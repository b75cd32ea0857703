-- ===== src/Server.antt =====
-- The state of the first quota server (QuaServer/ServiceQua.h and ServiceQua.cpp): the data of all
-- keys and of all processes, the sets with their hosts, and the processes to report on. The handler
-- GetQueryQuota is in the modules below.
pub mod Books
pub mod Alloc
pub mod Second
pub mod Overlap
pub mod Query
pub mod Share
pub mod Bound
pub mod Reply
pub mod Ledger
pub mod Together
use modern_flux.Base.{
  ℕ, Bool, true, false, ◌&&◌, Option, none, some, List, [], ◌∷◌, ltb, if◌then◌else◌, length,
}
use modern_flux.Base.Int.{ℤ}
use modern_flux.Base.Bytes.{Bytes, eq_bytes, lt_bytes}
use modern_flux.Base.Dict.{Dict, lookup, lookup_or}
use modern_flux.Quota.Slot.{TimeItem}
use modern_flux.Quota.Record.{QDataMap}

pub record SetCfgFirst : Type 0 where
  pub setquota : ℤ
  pub setsum : ℤ
  pub feaid : ℕ
  pub refuseid : ℕ
  pub setrefuseid : ℕ
  pub realid : ℕ
  pub timesum : List TimeItem
  pub lock : ℕ
  pub updatetime : ℕ
  pub workernum : ℕ

-- PROCQ without `procvalid`, which this server leaves at 0.
pub record SetProc : Type 0 where
  pub procid : Bytes
  pub setkey : Bytes

pub record Server : Type 0 where
  pub s_map_quota : QDataMap
  pub s_map_proc_quota : QDataMap
  pub map_set_ip_cfg : Dict Bytes
  pub map_set_cfg_first : Dict SetCfgFirst
  pub s_setproc : List SetProc

-- std::set::insert, in the order of the process ids.
unfoldable pub insert_proc : SetProc → List SetProc → List SetProc
insert_proc p [] = p ∷ []
insert_proc p (q ∷ qs) =
    let rest = insert_proc p qs in
    if lt_bytes p.procid q.procid
    then p ∷ q ∷ qs
    else if eq_bytes p.procid q.procid
    then q ∷ qs
    else q ∷ rest

-- `setkey` of GetSETCfgFirst: the request's own, or that of its host.
unfoldable pub get_set_key : Bytes → Bytes → Server → Bytes
get_set_key asked remoteip s =
    if ltb 0 (length asked)
    then asked
    else if ltb 0 (length remoteip)
    then lookup_or remoteip [] s.map_set_ip_cfg
    else []

-- `psetcfgfirst` of GetSETCfgFirst.
unfoldable pub get_set_cfg_first : Bytes → Server → Option SetCfgFirst
get_set_cfg_first setkey s =
    if ltb 0 (length setkey) then lookup setkey s.map_set_cfg_first else none
