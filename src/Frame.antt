-- ===== src/Frame.antt =====
-- The hooks of the framework, QuaServer/Frame.cpp: the start of a process, a packet and the periodic
-- loop, on all data of the process. tinyxml, the framework and the system are parameters: what they
-- return is input. Logging is left out, and so is `g_spp_worker_pid`, which nothing reads.
pub mod Init
pub mod Ledgers
pub mod Booked
pub mod Life
use modern_flux.Base.{ℕ, ◌+◌, Option, none, some, List, [], ◌∷◌, length, ltb, if◌then◌else◌}
use modern_flux.Base.Int.{ℤ, pos, negsuc, leb_ℤ}
use modern_flux.Base.Word.{i32}
use modern_flux.Packet.{ntohl}
use modern_flux.Base.Bytes.{Bytes}
use modern_flux.Base.Dict.{Dict}
use modern_flux.Window.{QuaWin}
use modern_flux.Client.{LocalData}
use modern_flux.Server.{Server}
use modern_flux.Config.{Arr}
use modern_flux.Config.Sets.{Config, Files, SetFileInfo, SetMacInfo, load_set_info_wrap}
use modern_flux.Host.Clean.{Tables, clear_data}
use modern_flux.Host.Entry.{WindItem, loop_leave}
use modern_flux.Dispatch.{Wire, Process, Call, handle_process}

-- MyProtocolCheck, which repeats ProtocolCheck; `none` is a null pointer.
unfoldable pub my_protocol_check : Option Bytes → ℤ
unfolding ntohl
my_protocol_check none = negsuc 0
my_protocol_check (some arrived) =
    let all = i32 (pos (ntohl arrived + 4)) in
    if ltb (length arrived) 4
    then pos 0
    else if leb_ℤ all (pos (length arrived))
    then all
    else pos 0

-- spp_handle_input, on what has arrived: above 0 the framework cuts off so many bytes as a packet.
unfoldable pub spp_handle_input : Option Bytes → ℤ
unfolding my_protocol_check
spp_handle_input blob = my_protocol_check blob

-- The data of a process, of which the handlers use `process`.
pub record Worker : Type 0 where
  pub process : Process
  pub s_map_qua : Dict QuaWin
  pub s_map_local : Dict LocalData
  pub lasterase : ℕ
  pub last : ℕ
  pub g_map_set_file : Dict (Arr SetFileInfo)
  pub g_map_set : Dict (Arr SetMacInfo)
  pub wind : WindItem

-- A process that has just started.
abbrev pub no_server : Server
no_server = record {
  s_map_quota = [];
  s_map_proc_quota = [];
  map_set_ip_cfg = [];
  map_set_cfg_first = [];
  s_setproc = [];
}

abbrev pub started : Worker
started = record {
  process = record { first = no_server; s_map_setprocdata = []; s_map_setsumdata = [] };
  s_map_qua = [];
  s_map_local = [];
  lasterase = 0;
  last = 0;
  g_map_set_file = [];
  g_map_set = [];
  wind = record {
    looplast = pos 0;
    loopdelta = pos 0;
    loopdeltamax = pos 0;
    reqtimemax = pos 0;
    ident = pos 0;
  };
}

-- The maps that ClearData cleans.
abbrev pub tables : Worker → Tables
tables w = record {
  s_map_qua = w.s_map_qua;
  s_map_quota = w.process.first.s_map_quota;
  s_map_proc_quota = w.process.first.s_map_proc_quota;
  s_map_setprocdata = w.process.s_map_setprocdata;
  s_map_setsumdata = w.process.s_map_setsumdata;
  s_map_local = w.s_map_local;
  lasterase = w.lasterase;
}

abbrev pub with_tables : Tables → Worker → Worker
with_tables t w = record w {
  process = record {
    first = record w.process.first {
      s_map_quota = t.s_map_quota;
      s_map_proc_quota = t.s_map_proc_quota;
    };
    s_map_setprocdata = t.s_map_setprocdata;
    s_map_setsumdata = t.s_map_setsumdata;
  };
  s_map_qua = t.s_map_qua;
  s_map_local = t.s_map_local;
  lasterase = t.lasterase;
}

-- The data of the loader.
abbrev pub config : Worker → Config
config w = record {
  last = w.last;
  g_map_set_file = w.g_map_set_file;
  g_map_set = w.g_map_set;
  server = w.process.first;
}

abbrev pub with_config : Config → Worker → Worker
with_config c w = record w {
  process = record w.process { first = c.server };
  last = c.last;
  g_map_set_file = c.g_map_set_file;
  g_map_set = c.g_map_set;
}

-- What one round of the loop meets: the clocks of its three calls, the hour of the day, and the files.
pub record Tick : Type 0 where
  pub now : ℕ
  pub hour : ℕ
  pub files : Files
  pub loadtime : ℕ
  pub ttime : ℤ

abbrev clean_step : Tick → Worker → Worker
clean_step t w = with_tables (clear_data t.now t.hour (tables w)) w

abbrev load_step : Tick → Worker → Worker
load_step t w = with_config (load_set_info_wrap t.files t.loadtime (config w)) w

-- spp_handle_loop
unfoldable pub spp_handle_loop : Tick → Worker → Worker
spp_handle_loop t w =
    let loaded = load_step t (clean_step t w) in
    record loaded { wind = loop_leave t.ttime loaded.wind }

-- spp_handle_process: the message object hands the packet to HandleProcess. The replies, and the
-- data after it.
unfoldable pub spp_handle_process : Wire → Call → Bytes → Worker → Option (List Bytes × Worker)
spp_handle_process w call packet worker = elim (handle_process w call packet worker.process) [
  | none ↦ none
  | some (replies, p) ↦ some (replies, record worker { process = p })
]

-- What the framework hands to a process, one after the other.
pub data Event : Type 0 where
  packet : Call → Bytes → Event
  loop : Tick → Event

unfoldable pub happen : Wire → Event → Worker → Option (List Bytes × Worker)
unfolding spp_handle_loop spp_handle_process
happen w (packet call raw) worker = spp_handle_process w call raw worker
happen w (loop t) worker = some ([], spp_handle_loop t worker)

-- A life of the process: all replies, one list for each event, and the data at the end.
unfoldable pub live : Wire → List Event → Worker → Option (List (List Bytes) × Worker)
unfolding happen
live w [] worker = some ([], worker)
live w (e ∷ es) worker = elim (happen w e worker) [
  | none ↦ none
  | some (replies, next) ↦ elim (live w es next) [
    | none ↦ none
    | some (more, end) ↦ some (replies ∷ more, end)
  ]
]
