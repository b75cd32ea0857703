-- ===== src/Quota/Peer.antt =====
-- What a server keeps of the processes that report to it (QuaServer/ServiceQua.h): IDINFO with
-- `ValidID` of ServiceQua.cpp, and WorkerInfo. Times are seconds, and are not negative.
pub mod Steady
use modern_flux.Base.{
  ℕ, ◌+◌, ◌-◌, ◌*◌, ◌≡◌, Bool, true, false, ◌&&◌, ◌||◌, not, Option, none, some, List, [], ◌∷◌, ltb,
  leb, if◌then◌else◌, length,
}
use modern_flux.Base.Int.{ℤ, pos, ltb_ℤ, ◌+ℤ◌}
use modern_flux.Base.Word.{i32}
use modern_flux.Base.Bytes.{Bytes}
use modern_flux.Base.Dict.{Dict, lookup, insert, emplace, lookup_or, erase_if}

pub record IdInfo : Type 0 where
  pub aquota : ℕ
  pub updatetime : ℕ
  pub firsttime : ℕ

abbrev pub no_info : IdInfo
no_info = record { aquota = 0; updatetime = 0; firsttime = 0 }

-- By address, then by process.
abbrev pub IdMap : Type 0
IdMap = Dict (Dict IdInfo)

-- The entry `idmap[ip][id]`.
abbrev pub id_info : Bytes → Bytes → IdMap → IdInfo
id_info ip id idmap = lookup_or id no_info (lookup_or ip [] idmap)

abbrev pub set_id_info : Bytes → Bytes → IdInfo → IdMap → IdMap
set_id_info ip id info idmap = insert ip (insert id info (lookup_or ip [] idmap)) idmap

-- InitIdInfoMap
unfoldable pub init_id_info_map : Bytes → Bytes → IdMap → IdMap
init_id_info_map ip id idmap =
    let m = emplace ip [] idmap in insert ip (emplace id no_info (lookup_or ip [] m)) m

-- ValidID on the entry: reports less than thirty seconds apart, for more than two minutes.
unfoldable pub judge : ℕ → IdInfo → Bool × IdInfo
judge now info =
    if leb info.updatetime now && ltb (now - info.updatetime) 30
    then (
      ltb info.firsttime now && ltb (60 * 2) (now - info.firsttime),
      record info { updatetime = now },
    )
    else (false, record info { firsttime = now; updatetime = now })

unfoldable pub valid_id : IdMap → Bytes → Bytes → ℕ → Bool × IdMap
unfolding init_id_info_map
valid_id idmap ip id now =
    let m = init_id_info_map ip id idmap in
    let r = judge now (id_info ip id m) in (r.0, set_id_info ip id r.1 m)

-- GetLastQuota
unfoldable pub get_last_quota : IdMap → Bytes → Bytes → ℕ
get_last_quota mapalloq ip procid = elim (lookup ip mapalloq) [
  | none ↦ 0
  | some m ↦ (lookup_or procid no_info m).aquota
]

-- The time test of QDATA::CleanReportId.
abbrev pub is_stale : ℕ → IdInfo → Bool
is_stale now info = ltb info.updatetime now && ltb (60 * 30) (now - info.updatetime)

unfoldable pub clean_ids : ℕ → Dict IdInfo → Dict IdInfo
clean_ids now tmap =
    let kept = if ltb 500 (length tmap) then [] else tmap in
    if ltb 300 (length kept) then erase_if (is_stale now) kept else kept

-- QDATA::CleanReportId
unfoldable pub clean_report_id : ℕ → Bytes → IdMap → IdMap
clean_report_id now ip mapalloq = elim (lookup ip mapalloq) [
  | none ↦ mapalloq
  | some tmap ↦ insert ip (clean_ids now tmap) mapalloq
]

pub record WorkerInfo : Type 0 where
  pub workernum : ℤ
  pub updatetime : ℕ

abbrev pub no_worker : WorkerInfo
no_worker = record { workernum = pos 0; updatetime = 0 }

-- QDATA::AddWorkerItem
unfoldable pub add_worker_item : Bytes → ℤ → ℕ → Dict WorkerInfo → Dict WorkerInfo
add_worker_item ip workernum ttime m =
    let m' = emplace ip no_worker m in
    let w = lookup_or ip no_worker m' in
    insert ip
      (record {
        workernum = if ltb_ℤ w.workernum workernum then workernum else w.workernum;
        updatetime = ttime;
      })
      m'

-- QDATA::GetWorkerNum: the hosts heard of in the last half hour, or in time to come.
unfoldable pub get_worker_num : ℕ → Dict WorkerInfo → ℤ → ℤ
get_worker_num now [] num = num
get_worker_num now ((ip, info) ∷ m) num = get_worker_num now m (
    if (leb info.updatetime now && leb (now - info.updatetime) (60 * 30)) || ltb now info.updatetime
    then i32 (num +ℤ info.workernum)
    else num)
