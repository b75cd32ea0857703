-- ===== src/Quota/Record.antt =====
-- QDATA of QuaServer/ServiceQua.h: what a server keeps for an activity, a process or a set.
pub mod Shares
use modern_flux.Base.{
  ℕ, ◌-◌, ◌*◌, ◌/◌, ◌%◌, Bool, true, false, ◌&&◌, Option, none, some, List, [], ltb, if◌then◌else◌,
  replicate,
}
use modern_flux.Base.Int.{ℤ, pos, positive}
use modern_flux.Base.Word.{i32, u32, mod32}
use modern_flux.Base.Bytes.{Bytes}
use modern_flux.Base.Dict.{Dict, lookup, insert, emplace, lookup_or, erase_if}
use modern_flux.Quota.Times.{num_per_min}
use modern_flux.Quota.Slot.{TimeItem, empty_item}
use modern_flux.Quota.Peer.{IdMap, WorkerInfo}

pub record QData : Type 0 where
  pub titem : List TimeItem
  pub mapalloq : IdMap
  pub mapworker : Dict WorkerInfo
  pub updatetime : ℕ
  pub setvalid : ℕ
  pub setquota : ℕ
  pub setrefuse : ℕ
  pub setnowsum : ℕ
  pub workernum : ℕ
  pub setfirstvalid : Bool

abbrev pub QDataMap : Type 0
QDataMap = Dict QData

-- QDATA::Init; it does not write `updatetime`, which keeps whatever the new object holds there.
unfoldable pub init_qdata : ℕ → QData
init_qdata junk = record {
  titem = replicate num_per_min empty_item;
  mapalloq = [];
  mapworker = [];
  updatetime = junk;
  setvalid = 0;
  setquota = 0;
  setrefuse = 0;
  setnowsum = 0;
  workernum = 0;
  setfirstvalid = false;
}

-- InitKeyQuaAlloc; a caller that reads `qmap[key]` alone gets an object of zeros, `junk` being 0.
unfoldable pub init_key_qua_alloc : ℕ → Bytes → QDataMap → QDataMap
init_key_qua_alloc junk key qmap = emplace key (init_qdata junk) qmap

-- The share of the set's quota of a process with `procvalid` requests, in uint32_t.
unfoldable pub get_proc_q : QData → ℤ → ℤ
get_proc_q d procvalid =
    if (ltb 0 d.setvalid && positive procvalid) && d.setfirstvalid
    then i32 (pos (((d.setquota * u32 procvalid) % mod32) / d.setvalid))
    else pos 0

unfoldable pub get_set_real_num : QData → ℤ
get_set_real_num d =
    if ltb d.setrefuse d.setvalid then i32 (pos (d.setvalid - d.setrefuse)) else pos 0

unfoldable pub get_aver_q : QData → ℤ
get_aver_q d = i32 (pos (if ltb 0 d.workernum then d.setquota / d.workernum else d.setquota))

-- ClearQData
unfoldable pub clear_qdata : ℕ → ℕ → QDataMap → QDataMap
clear_qdata s_expire ttime m = erase_if (λ d. ltb s_expire (ttime - d.updatetime)) m
