-- ===== src/Config.antt =====
-- Configuration files, QuaServer/FileDataMeta.h: TmlptActLoadFile, and the loader that
-- TMPLT_DEFINE_FUNC makes, which keeps two copies of each file's data. MD5, the parser, the file system
-- and the clock are parameters. The log texts, the measured time (`delta`) and the string `md5`, which
-- nothing writes, are left out.
pub mod Intact
pub mod Current
pub mod Sets
pub mod Erase
use modern_flux.Base.{
  ℕ, ◌+◌, ◌-◌, ◌*◌, ◌%◌, ◌^◌, Bool, true, false, not, ◌&&◌, Option, none, some, List, [], ◌∷◌, ltb,
  leb, ◌==◌, if◌then◌else◌, length, take, drop, get_or, set,
}
use modern_flux.Base.Int.{ℤ, pos, negsuc}
use modern_flux.Base.Word.{mod32}
use modern_flux.Base.Bytes.{Bytes, eq_bytes}
use modern_flux.Base.Dict.{Dict, lookup, insert}
use modern_flux.Packet.{ntohl}

-- The size of `s_file_buff`, MD5_BIN_LEN, and INDEX_DIFF_TIME of ServiceQua.cpp.
abbrev pub buffer_size : ℕ
buffer_size = 1024 * 1024 * 10

abbrev pub md5_bin_len : ℕ
md5_bin_len = 16

abbrev pub index_diff_time : ℕ
index_diff_time = 180

-- How a file becomes data: OI_Md5HashBuffer and ParseFromArray.
pub record Format (A : Type 0) : Type 0 where
  pub md5 : Bytes → Bytes
  pub parse : Bytes → Option A

-- TmlptActLoadFile, on the content of the file, or `none` where it cannot be opened. The result is
-- `none` where the code returns false.
unfoldable pub load_file : {A : Type 0} → Format A → Option Bytes → Option A
load_file format none = none
load_file format (some file) =
    let size = length file % mod32 in
    let data_len = ntohl file in
    let pdata = take data_len (drop (4 + md5_bin_len) file) in
    if leb buffer_size size
    then none
    else if leb size (4 + md5_bin_len)
    then none
    else if not (size == ((4 + md5_bin_len + data_len) % mod32))
    then none
    else if not (eq_bytes (format.md5 pdata) (take md5_bin_len (drop 4 file)))
    then none
    else format.parse pdata

-- TMPLT_DEFINE_ITEM
pub record Item (A : Type 0) : Type 0 where
  pub cfg_data : A
  pub file_time : ℕ
  pub load_time : ℕ
  pub update_time : ℕ

-- TMPLT_DEFINE_ARR, with GROUP_NUM items.
pub record Arr (A : Type 0) : Type 0 where
  pub data_arr : List (Item A)
  pub cur : ℕ

abbrev pub group_num : ℕ
group_num = 2

-- `init`, with what the other fields of a new array hold.
abbrev pub init_arr : {A : Type 0} → Item A → Arr A
init_arr fresh =
    let item = record fresh { file_time = 0; load_time = 0 } in
    record { data_arr = item ∷ item ∷ []; cur = 0 }

-- What a call of the loader finds: the modification time (`none` where `stat` fails), the content, and
-- the clock.
pub record Reading : Type 0 where
  pub file_time : Option ℕ
  pub content : Option Bytes
  pub time : ℕ

-- The return code, the flag, the data that `pdata` points at with its index, and the map.
pub record Loaded (A : Type 0) : Type 0 where
  pub ret : ℤ
  pub flag : ℕ
  pub found : Option (ℕ × A)
  pub gmap : Dict (Arr A)

-- New data in one of the two items.
abbrev pub write_item : {A : Type 0} → ℕ → A → ℕ → ℕ → Arr A → Arr A
write_item index cfg_data file_time time arr = record {
  data_arr =
      set arr.data_arr index (record {
        cfg_data = cfg_data;
        file_time = file_time;
        load_time = time;
        update_time = time;
      });
  cur = index;
}

-- A file that is not in the map.
unfoldable pub load_first :
    {A : Type 0} → Item A → Bytes → ℕ → ℕ → Option A → Dict (Arr A) → ℕ × Dict (Arr A)
load_first fresh key file_time time none gmap = (6, gmap)
load_first fresh key file_time time (some cfg_data) gmap =
    (1, insert key (write_item 0 cfg_data file_time time (init_arr fresh)) gmap)

-- An entry of the map.
unfoldable pub load_again : {A : Type 0} → Item A → ℕ → ℕ → Option A → Arr A → ℕ × Arr A
load_again fresh file_time time cfg_data arr =
    let item = get_or arr.data_arr arr.cur fresh in
    if ltb item.file_time file_time
    then if ltb (time - item.load_time) index_diff_time then (3, arr) else elim cfg_data [
      | none ↦ (5, arr)
      | some new ↦ (2, write_item ((arr.cur + 1) % group_num) new file_time time arr)
    ]
    else (4, arr)

-- The flag, and the map with the file's new data.
unfoldable pub refresh :
    {A : Type 0} → Item A → Bytes → ℕ → ℕ → Option A → Dict (Arr A) → ℕ × Dict (Arr A)
unfolding load_first load_again
refresh fresh key file_time time cfg_data gmap = elim (lookup key gmap) [
  | none ↦ load_first fresh key file_time time cfg_data gmap
  | some arr ↦ let r = load_again fresh file_time time cfg_data arr in (r.0, insert key r.1 gmap)
]

-- The end of the loader: the current data, if the file has any.
unfoldable pub point_at : {A : Type 0} → Item A → Bytes → ℕ × Dict (Arr A) → Loaded A
point_at fresh key (flag, gmap) = elim (lookup key gmap) [
  | none ↦ record { ret = pos 1; flag = flag; found = none; gmap = gmap }
  | some arr ↦ record {
    ret = pos 0;
    flag = flag;
    found = some (arr.cur, (get_or arr.data_arr arr.cur fresh).cfg_data);
    gmap = gmap;
  }
]

-- The loader; `fresh` is what a new item holds.
unfoldable pub load : {A : Type 0} → Format A → Item A → Bytes → Reading → Dict (Arr A) → Loaded A
unfolding load_file refresh point_at
load format fresh key r gmap = elim r.file_time [
  | none ↦ record { ret = negsuc 0; flag = 0; found = none; gmap = gmap }
  | some file_time ↦
      point_at fresh key (refresh fresh key file_time r.time (load_file format r.content) gmap)
]
