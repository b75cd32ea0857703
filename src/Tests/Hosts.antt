-- ===== src/Tests/Hosts.antt =====
-- Concrete runs of configuration files and of the host's counters.
use modern_flux.Base.{
  ℕ, ◌≤◌, ◌≡◌, refl, ap, none, some, [], ◌∷◌, ◌++◌, arith, length, get_or, replicate,
}
use modern_flux.Base.Int.{pos}
use modern_flux.Base.Bytes.{Bytes, eq_bytes}
use modern_flux.Base.Dict.{lookup}
use modern_flux.Packet.{htonl}
use modern_flux.Server.{Server}
use modern_flux.Config.{Format, Item, Arr, Reading, load, load_file}
use modern_flux.Config.Intact.{load_file-pack}
use modern_flux.Config.Current.{IsRefresh, load-IsRefresh}
use modern_flux.Config.Sets.{SetMacInfo, SetFileInfo, Config, Files, load_set_info_wrap}
use modern_flux.Config.Sets.Kept.{KeepsBooks, load_set_info_wrap-KeepsBooks}
use modern_flux.Host.{
  Stat, CpuInfo, get_mem_info, get_cpu_info, get_work_time_info, cpu_percent, set_memory,
}
use modern_flux.Host.Usage.{get_cpu_info-le}
use modern_flux.Host.Entry.{MtItem, enter, leave, report, happen_all, mt_enter, report_att, max_ℤ}
use modern_flux.Host.Entry.Running.{
  none_left, entered, left, reported, happen_all-Runs, shared_ident,
}
use modern_flux.Host.Clean.{Tables, clear_data}
use modern_flux.Host.Clean.Fresh.{IsSpared, clear_data-IsSpared}

-- A sum of sixteen bytes, the first of which is the first byte of the text.
abbrev first_byte : Bytes → ℕ
first_byte [] = 0
first_byte (x ∷ s) = x

abbrev plain : Format ℕ
plain = record { md5 = λ s. first_byte s ∷ replicate 15 0; parse = λ s. some (length s) }

load_file-pack_example :
    let sum = plain.md5 (5 ∷ 6 ∷ []) in
    (load_file plain (some (htonl 2 ++ (sum ++ (5 ∷ 6 ∷ [])))) ≡ some 2)
    × (load_file plain (some (htonl 2 ++ (sum ++ (7 ∷ 6 ∷ [])))) ≡ none)
load_file-pack_example =
    load_file-pack plain (5 ∷ 6 ∷ []) (7 ∷ 6 ∷ []) refl (omega arith) (omega arith) refl
      (λ e. absurd (omega (arith, ap first_byte e)))

abbrev item : Item ℕ
item = record { cfg_data = 4; file_time = 10; load_time = 100; update_time = 100 }

abbrev pair : Arr ℕ
pair = record { data_arr = item ∷ item ∷ []; cur = 0 }

abbrev reading : Reading
reading = record {
  file_time = some 20;
  content = some (htonl 2 ++ (plain.md5 (5 ∷ 6 ∷ []) ++ (5 ∷ 6 ∷ [])));
  time = 500;
}

load-IsRefresh_example :
    let out = load plain item (97 ∷ []) reading ((97 ∷ [], pair) ∷ []) in
    (new : Arr ℕ) × (lookup (97 ∷ []) out.gmap ≡ some new)
    × IsRefresh item 20 500 out.flag (load_file plain reading.content) pair new
    × (out.ret ≡ pos 0)
    × (out.found ≡ some (new.cur, (get_or new.data_arr new.cur item).cfg_data))
load-IsRefresh_example =
    load-IsRefresh item plain (97 ∷ []) reading ((97 ∷ [], pair) ∷ []) pair 20
      (unfold lookup eq_bytes in refl) (refl, omega arith) refl

abbrev server : Server
server = record {
  s_map_quota = [];
  s_map_proc_quota = [];
  map_set_ip_cfg = [];
  map_set_cfg_first = [];
  s_setproc = [];
}

abbrev file_list : SetFileInfo
file_list = record { fpath = []; fname = (98 ∷ []) ∷ [] }

abbrev one_set : SetMacInfo
one_set = record {
  itemlist =
      record {
        setkey = 115 ∷ [];
        setquota = pos 9;
        iplist = (49 ∷ []) ∷ [];
        feaid = pos 1;
        refuseid = pos 2;
        setrefuseid = pos 3;
        realid = pos 4;
      }
      ∷ [];
}

abbrev pub files : Files
files = record {
  read_file = λ path. record { file_time = some 20; content = none; time = 500 };
  file_format = record { md5 = λ s. s; parse = λ s. some file_list };
  set_format = record { md5 = λ s. s; parse = λ s. some one_set };
  fresh_file = record { cfg_data = file_list; file_time = 0; load_time = 0; update_time = 0 };
  fresh_set = record { cfg_data = one_set; file_time = 0; load_time = 0; update_time = 0 };
}

abbrev config : Config
config = record { last = 0; g_map_set_file = []; g_map_set = []; server = server }

load_set_info_wrap-KeepsBooks_example :
    KeepsBooks server (load_set_info_wrap files 500 config).server
load_set_info_wrap-KeepsBooks_example = load_set_info_wrap-KeepsBooks files 500 config

abbrev idle_host : CpuInfo
idle_host = record {
  worktime = 10;
  totaltime = 100;
  memory = 0 ∷ 0 ∷ 0 ∷ 0 ∷ [];
  cpu_usage = 0;
  mem_usage = 0;
}

abbrev later : Stat
later = record { user = 20; nice = 5; system = 5; idle = 170; iowait = 0; irq = 0; softirq = 0 }

get_cpu_info-le_example : 20 ≤ 100
get_cpu_info-le_example =
    get_cpu_info-le idle_host (record idle_host { worktime = 30; totaltime = 200; cpu_usage = 20 })
      later none (0 ∷ 0 ∷ 0 ∷ 0 ∷ []) 0 (omega arith)
      (record { work = omega arith; total = omega arith; idle = omega arith; small = omega arith })
      (unfold get_cpu_info get_work_time_info get_mem_info set_memory cpu_percent in refl)

abbrev counters : MtItem
counters = record {
  mtnum = pos 2;
  mttotal = pos 2;
  mtmax = pos 2;
  mtcpumax = pos 90;
  mtmemmax = pos 50;
  ident = pos 7;
}

happen_all-Runs_example :
    (happen_all (enter (pos 8) 3 ∷ report (pos 8) 40 30 ∷ leave 4 ∷ []) counters).mtnum ≡ pos 1
happen_all-Runs_example =
    happen_all-Runs (entered (omega arith) (reported (left (omega arith) none_left))) (omega arith)
      counters refl

shared_ident_example :
    let entered_first = report_att (pos 8) 40 30 (mt_enter (pos 8) 1 counters).1 in
    let reported_first = (mt_enter (pos 8) 1 (report_att (pos 8) 40 30 counters)).1 in
    (entered_first.mtcpumax ≡ max_ℤ (pos 90) (pos 40))
    × (entered_first.mtmemmax ≡ max_ℤ (pos 50) (pos 30))
    × (reported_first.mtmax ≡ max_ℤ (pos 2) reported_first.mtnum)
shared_ident_example = shared_ident counters (pos 8) 1 40 30

abbrev tables : Tables
tables = record {
  s_map_qua = [];
  s_map_quota = [];
  s_map_proc_quota = [];
  s_map_setprocdata = [];
  s_map_setsumdata = [];
  s_map_local = [];
  lasterase = 0;
}

clear_data-IsSpared_example :
    IsSpared 500000 tables (clear_data 500000 17 tables)
    × (clear_data 500100 18 (clear_data 500000 17 tables) ≡ clear_data 500000 17 tables)
clear_data-IsSpared_example =
    clear_data-IsSpared 500000 17 500100 18 tables (omega arith) (omega arith) (omega arith)
