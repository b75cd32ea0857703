-- ===== src/Config/Sets.antt =====
-- The sets of hosts from their files: LoadSETInfoWrap of QuaServer/ServiceQua.cpp, and the messages of
-- Protocol/open_app_desc.proto that the files hold. The file system is a parameter. The field `key` of
-- SETCfgFirst, which repeats the key of its entry, and the log are left out.
pub mod Kept
use modern_flux.Base.{
  ℕ, ◌+◌, ◌-◌, Bool, ◌&&◌, ◌||◌, Option, none, some, List, [], ◌∷◌, ◌++◌, ltb, ◌==◌, if◌then◌else◌,
  length, replicate,
}
use modern_flux.Base.Int.{ℤ, pos, positive, eqb_ℤ}
use modern_flux.Base.Word.{u32}
use modern_flux.Base.Bytes.{Bytes, bytes}
use modern_flux.Base.Dict.{Dict, insert, emplace, lookup_or}
use modern_flux.Quota.Times.{num_per_min}
use modern_flux.Quota.Slot.{empty_item}
use modern_flux.Server.{SetCfgFirst, Server}
use modern_flux.Config.{Format, Item, Arr, Reading, Loaded, load}

pub record SetItem : Type 0 where
  pub setkey : Bytes
  pub setquota : ℤ
  pub iplist : List Bytes
  pub feaid : ℤ
  pub refuseid : ℤ
  pub setrefuseid : ℤ
  pub realid : ℤ

pub record SetMacInfo : Type 0 where
  pub itemlist : List SetItem

pub record SetFileInfo : Type 0 where
  pub fpath : Bytes
  pub fname : List Bytes

-- SETCfgFirst::Init
abbrev pub init_set_cfg : SetCfgFirst
init_set_cfg = record {
  setquota = pos 0;
  setsum = pos 0;
  feaid = 0;
  refuseid = 0;
  setrefuseid = 0;
  realid = 0;
  timesum = replicate num_per_min empty_item;
  lock = 0;
  updatetime = 0;
  workernum = 0;
}

-- GET_PRO_VAL
abbrev pub get_pro_val : ℤ → ℤ
get_pro_val v = if positive v then v else pos 0

-- The fields of a set that its file gives.
unfoldable pub configure : SetItem → SetCfgFirst → SetCfgFirst
configure item cfg = record cfg {
  setquota = get_pro_val item.setquota;
  feaid = u32 (get_pro_val item.feaid);
  refuseid = u32 (get_pro_val item.refuseid);
  setrefuseid = u32 (get_pro_val item.setrefuseid);
  realid = u32 (get_pro_val item.realid);
}

-- The hosts of a set.
unfoldable pub assign_ips : Bytes → List Bytes → Dict Bytes → Dict Bytes
assign_ips setkey [] m = m
assign_ips setkey (ip ∷ ips) m =
    assign_ips setkey ips (if ltb 0 (length ip) then insert ip setkey m else m)

-- One set of a file.
unfoldable pub apply_item : SetItem → Server → Server
unfolding configure assign_ips
apply_item item s =
    let sets = emplace item.setkey init_set_cfg s.map_set_cfg_first in
    if ltb 0 (length item.setkey)
    then record s {
      map_set_cfg_first =
          insert item.setkey (configure item (lookup_or item.setkey init_set_cfg sets)) sets;
      map_set_ip_cfg = assign_ips item.setkey item.iplist s.map_set_ip_cfg;
    }
    else s

unfoldable pub apply_items : List SetItem → Server → Server
unfolding apply_item
apply_items [] s = s
apply_items (item ∷ items) s = apply_items items (apply_item item s)

-- The loaded files, the time of the last look, and the server.
pub record Config : Type 0 where
  pub last : ℕ
  pub g_map_set_file : Dict (Arr SetFileInfo)
  pub g_map_set : Dict (Arr SetMacInfo)
  pub server : Server

-- The file system during a call, the formats of the two kinds of files, and what new items hold.
pub record Files : Type 0 where
  pub read_file : Bytes → Reading
  pub file_format : Format SetFileInfo
  pub set_format : Format SetMacInfo
  pub fresh_file : Item SetFileInfo
  pub fresh_set : Item SetMacInfo

-- SET_CFG_PATH and SET_CFG_FILENAME
abbrev pub set_cfg_path : Bytes
set_cfg_path = bytes "/data/website/appsweb/cfg/ams/set/"

abbrev pub set_cfg_filename : Bytes
set_cfg_filename = bytes "set_config"

-- The data of a file that was loaded now.
abbrev pub if_new : {A : Type 0} → Loaded A → Option A
if_new r =
    if eqb_ℤ r.ret (pos 0) && ((r.flag == 1) || (r.flag == 2))
    then elim r.found [ none ↦ none | some (index, a) ↦ some a ]
    else none

-- One file of the list.
unfoldable pub load_set : Files → Bytes → Bytes → Config → Config
unfolding apply_items
load_set files path keyname c =
    let r =
      load files.set_format files.fresh_set keyname (files.read_file (path ++ keyname))
        c.g_map_set in
    let c2 : Config = record c { g_map_set = r.gmap } in
    if ltb 0 (length keyname)
    then elim (if_new r) [
      | none ↦ c2
      | some info ↦ record c2 { server = apply_items info.itemlist c.server }
    ]
    else c

unfoldable pub load_sets : Files → Bytes → List Bytes → Config → Config
unfolding load_set
load_sets files path [] c = c
load_sets files path (name ∷ names) c = load_sets files path names (load_set files path name c)

-- The files that a list names.
unfoldable pub follow : Files → Loaded SetFileInfo → Config → Config
unfolding load_sets
follow files r c = elim r.found [
  | none ↦ c
  | some (index, info) ↦
      if r.flag == 4
      then c
      else load_sets files (if ltb 0 (length info.fpath) then info.fpath else set_cfg_path)
          info.fname c
]

-- LoadSETInfoWrap
unfoldable pub load_set_info_wrap : Files → ℕ → Config → Config
unfolding follow
load_set_info_wrap files now c =
    let reading = files.read_file (set_cfg_path ++ set_cfg_filename) in
    let r = load files.file_format files.fresh_file set_cfg_filename reading c.g_map_set_file in
    if ltb (now - c.last) 60
    then c
    else follow files r (record c { last = now; g_map_set_file = r.gmap })
