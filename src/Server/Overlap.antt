-- ===== src/Server/Overlap.antt =====
-- The access of GetQueryQuota to the second server in two parts (QuaServer/ServiceQua.cpp): while it
-- waits for the answer, the framework runs other requests of the process, and the loop reloads the
-- sets. `psetcfgfirst` points into the map, so the second part sees what the others have written.
pub mod Flight
pub mod Split
use modern_flux.Base.{ℕ, Option, none, some, List, [], ◌∷◌, if◌then◌else◌}
use modern_flux.Base.Int.{ℤ}
use modern_flux.Base.Bytes.{Bytes, eq_bytes}
use modern_flux.Base.Dict.{lookup, insert}
use modern_flux.Message.{SetQuotaReq, SetQuotaRsp}
use modern_flux.Server.{SetCfgFirst, Server}
use modern_flux.Server.Second.{set_request, touch_procs, apply_procqs, may_ask, set_sum}

-- The part before the exchange, for the set `cfg` of `setkey`: the request, if one is sent.
unfoldable pub begin_access : ℤ → ℕ → Bytes → SetCfgFirst → Server → Option SetQuotaReq × Server
unfolding may_ask set_request touch_procs
begin_access group now setkey cfg s =
    let asked : SetCfgFirst = record cfg { updatetime = now; lock = 1 } in
    let procs = touch_procs s.s_setproc s.s_map_proc_quota in
    if may_ask now s.s_setproc cfg
    then (
      some (set_request group setkey asked procs s.s_setproc),
      record s {
        s_map_proc_quota = procs;
        s_setproc = [];
        map_set_cfg_first = insert setkey asked s.map_set_cfg_first;
      },
    )
    else (none, s)

-- The answer to the processes and to the set.
unfoldable pub take_answer :
    ℕ → Bytes → Option SetQuotaRsp → SetCfgFirst → Server → SetCfgFirst × Server
unfolding apply_procqs set_sum
take_answer now setkey answer cfg s = elim answer [
  | none ↦ (cfg, s)
  | some rsp ↦ (
    set_sum setkey rsp (record cfg { updatetime = now }),
    record s {
      s_map_proc_quota =
          if eq_bytes rsp.setkey setkey
          then apply_procqs now rsp.procq s.s_map_proc_quota
          else s.s_map_proc_quota;
    },
  )
]

-- The part after the exchange; `answer` is what came back and parsed.
unfoldable pub end_access : ℕ → Bytes → Option SetQuotaRsp → Server → Server
unfolding take_answer
end_access now setkey answer s = elim (lookup setkey s.map_set_cfg_first) [
  | none ↦ s
  | some cfg ↦
      let r = take_answer now setkey answer cfg s in
      record r.1 { map_set_cfg_first = insert setkey (record r.0 { lock = 0 }) s.map_set_cfg_first }
]
