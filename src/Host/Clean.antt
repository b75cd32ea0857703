-- ===== src/Host/Clean.antt =====
-- The periodic cleaning: ClearData of QuaServer/ServiceQua.cpp, with ClearLocalData, which
-- DEFINE_QUOTA_ERASE_FUNC of QuaServer/ServiceQua.h makes. Of its clocks one reading is kept; the time
-- `lastshow`, which only a log uses, is left out.
pub mod Fresh
use modern_flux.Base.{ℕ, ◌*◌, ◌-◌, Bool, ◌&&◌, ltb, if◌then◌else◌}
use modern_flux.Base.Dict.{Dict, erase_if}
use modern_flux.Window.{QuaWin, clear_key, s_expire}
use modern_flux.Quota.Record.{QDataMap, clear_qdata}
use modern_flux.Client.{LocalData}

-- s_offline_interval and s_offline_begin
abbrev pub s_offline_interval : ℕ
s_offline_interval = 60 * 60 * 24

abbrev pub s_offline_begin : ℕ
s_offline_begin = 16

-- All that is cleaned, and `lasterase`.
pub record Tables : Type 0 where
  pub s_map_qua : Dict QuaWin
  pub s_map_quota : QDataMap
  pub s_map_proc_quota : QDataMap
  pub s_map_setprocdata : QDataMap
  pub s_map_setsumdata : QDataMap
  pub s_map_local : Dict LocalData
  pub lasterase : ℕ

-- ClearLocalData
unfoldable pub clear_local_data : ℕ → Dict LocalData → Dict LocalData
clear_local_data ttime m = erase_if (λ d. ltb s_expire (ttime - d.updatetime)) m

-- ClearData, in the hour `hour`.
unfoldable pub clear_data : ℕ → ℕ → Tables → Tables
unfolding clear_local_data
clear_data now hour t =
    if ltb s_offline_interval (now - t.lasterase) && ltb s_offline_begin hour
    then record {
      s_map_qua = clear_key now t.s_map_qua;
      s_map_quota = clear_qdata s_expire now t.s_map_quota;
      s_map_proc_quota = clear_qdata s_expire now t.s_map_proc_quota;
      s_map_setprocdata = clear_qdata s_expire now t.s_map_setprocdata;
      s_map_setsumdata = clear_qdata s_expire now t.s_map_setsumdata;
      s_map_local = clear_local_data now t.s_map_local;
      lasterase = now;
    }
    else t
