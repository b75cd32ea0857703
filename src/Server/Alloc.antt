-- ===== src/Server/Alloc.antt =====
-- How GetQueryQuota (QuaServer/ServiceQua.cpp) shares a key's quota: the history of the slots that
-- are at least 20 seconds old, and the share of the process.
use modern_flux.Base.{
  ℕ, zero, suc, ◌+◌, ◌-◌, ◌*◌, ◌/◌, ◌%◌, Bool, ◌&&◌, List, ltb, leb, if◌then◌else◌, length, get_or,
  set,
}
use modern_flux.Base.Int.{ℤ, pos, ltb_ℤ, positive, ◌+ℤ◌}
use modern_flux.Base.Word.{mod32, i32, u32}
use modern_flux.Base.Bytes.{Bytes}
use modern_flux.Base.Dict.{emplace, lookup_or}
use modern_flux.Quota.Times.{num_per_min}
use modern_flux.Quota.Slot.{TimeItem, empty_item, no_data}

abbrev pub fine_interval : ℕ
fine_interval = 20

abbrev pub quota_alloc_min : ℤ
quota_alloc_min = pos 10

pub record History : Type 0 where
  pub historyself : ℤ
  pub historytotal : ℤ
  pub parternum : ℕ
  pub validnum : ℕ

abbrev pub no_history : History
no_history = record { historyself = pos 0; historytotal = pos 0; parternum = 0; validnum = 0 }

abbrev pub is_past : ℕ → TimeItem → Bool
is_past nowkey t = ltb t.timekey nowkey && leb fine_interval (nowkey - t.timekey)

-- One slot: an old one gets an entry for the process, and counts if the process has a sum there.
unfoldable pub read_slot : ℕ → Bytes → TimeItem → History → TimeItem × History
read_slot nowkey procid t h =
    if is_past nowkey t
    then (let m = emplace procid no_data t.mapidnum in
        let d = lookup_or procid no_data m in
        (
          record t { mapidnum = m },
          if positive d.sum
              then record {
                historyself = i32 (h.historyself +ℤ d.sum);
                historytotal = i32 (h.historytotal +ℤ t.sum);
                parternum = length m;
                validnum = suc h.validnum;
              }
              else h,
        ))
    else (t, h)

-- The loop over all slots, backwards from `beindex`.
unfoldable pub read_slots : ℕ → ℕ → ℕ → Bytes → List TimeItem → History → List TimeItem × History
unfolding read_slot
read_slots zero beindex nowkey procid slots h = (slots, h)
read_slots (suc l) beindex nowkey procid slots h =
    let r = read_slot nowkey procid (get_or slots beindex empty_item) h in
    read_slots l ((beindex + num_per_min - 1) % num_per_min) nowkey procid (set slots beindex r.0)
      r.1

-- `alloctype` 0: nothing, 1: average, 2: by history, 3: the server has just started, 4: too little
-- history.
pub record Alloc : Type 0 where
  pub alloctype : ℤ
  pub aquota : ℕ
  pub allocpartnum : ℤ
  pub alloctime : ℕ
  pub self : ℤ
  pub total : ℤ

abbrev pub no_alloc : Alloc
no_alloc = record {
  alloctype = pos 0;
  aquota = 0;
  allocpartnum = pos 0;
  alloctime = 0;
  self = pos 0;
  total = pos 0;
}

-- Enough history: the process had a sum in two slots at least, and the key more than 10 requests.
abbrev pub is_enough : History → Bool
is_enough h = leb 2 h.validnum && ltb_ℤ quota_alloc_min h.historytotal

-- The share, in uint32_t; `time` is the key of the running slot.
unfoldable pub allocate : ℕ → ℕ → History → Alloc
allocate actquota time h =
    if is_enough h
    then (if positive h.historyself
        then record {
          alloctype = pos 2;
          aquota = ((actquota * u32 h.historyself) % mod32) / u32 h.historytotal;
          allocpartnum = i32 (pos h.parternum);
          alloctime = time;
          self = h.historyself;
          total = h.historytotal;
        }
        else record no_alloc {
          alloctype = pos 1;
          aquota = actquota / h.parternum;
          allocpartnum = i32 (pos h.parternum);
          alloctime = time;
        })
    else record no_alloc {
      alloctype = pos 4;
      allocpartnum = i32 (pos h.parternum);
      alloctime = time;
    }

-- For five minutes after the start of the server nothing is assigned.
unfoldable pub startup : ℕ → ℕ → Alloc → Alloc
startup now uptime a =
    if ltb uptime now && ltb (60 * 5) (now - uptime)
    then a
    else record a { alloctype = pos 3; aquota = 0 }
