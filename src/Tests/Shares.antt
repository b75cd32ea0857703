-- ===== src/Tests/Shares.antt =====
-- Concrete runs of the first server: a key with two old slots and a request of its process.
use modern_flux.Base.{
  ℕ, ◌*◌, ◌/◌, ◌≤◌, ◌<◌, ◌≡◌, refl, Option, none, some, List, [], ◌∷◌, replicate, arith, true,
}
use modern_flux.Base.Int.{pos}
use modern_flux.Base.Word.{mod32}
use modern_flux.Base.Bytes.{eq_bytes}
use modern_flux.Base.Dict.{lookup, lookup_or, sum_by}
use modern_flux.Message.{ReportItem, QuotaReq, SetQuotaReq, SetQuotaRsp}
use modern_flux.Quota.Slot.{TimeItem, empty_item, no_data}
use modern_flux.Quota.Record.{QData, init_qdata}
use modern_flux.Server.{Server}
use modern_flux.Server.Books.{Books}
use modern_flux.Server.Alloc.{History, allocate}
use modern_flux.Server.Share.{IsSound}
use modern_flux.Server.Bound.{allocate-share}
use modern_flux.Server.Ledger.{IsLedger, AreLedgers, empty-IsLedger}
use modern_flux.Server.Query.{Context, QExtInfo, act_quota, act_key, get_query_quota}
use modern_flux.Server.Reply.{get_query_quota-le, flux_quota_startup}
use modern_flux.Client.Exchange.{flux_quota}

-- Ten seconds from `timekey`, in which process "p_1" has counted 7.
abbrev counted : ℕ → TimeItem
counted timekey = record {
  timekey = timekey;
  sum = pos 7;
  refuse = pos 0;
  setrefuse = pos 0;
  mapidnum = (112 ∷ 95 ∷ 49 ∷ [], record no_data { sum = pos 7 }) ∷ [];
}

counted-IsLedger : (timekey : ℕ) → IsLedger 7 (counted timekey)
unfolding sum_by lookup_or lookup
counted-IsLedger timekey = record {
  retired = 0;
  balanced = record { sum_eq = refl; nonneg = λ k. ground arith };
  below = omega arith;
}

abbrev pub slots : List TimeItem
slots = counted 960 ∷ counted 970 ∷ replicate 4 empty_item

pub slots-AreLedgers : AreLedgers 7 slots
slots-AreLedgers = (
  counted-IsLedger 960,
  (
    counted-IsLedger 970,
    (empty-IsLedger 7, (empty-IsLedger 7, (empty-IsLedger 7, (empty-IsLedger 7, tt)))),
  ),
)

abbrev pub key_data : QData
key_data = record {
  titem = slots;
  mapalloq = [];
  mapworker = [];
  updatetime = 990;
  setvalid = 0;
  setquota = 0;
  setrefuse = 0;
  setnowsum = 0;
  workernum = 0;
  setfirstvalid = true;
}

abbrev pub server : Server
server = record {
  s_map_quota = (107 ∷ [], key_data) ∷ [];
  s_map_proc_quota = [];
  map_set_ip_cfg = [];
  map_set_cfg_first = [];
  s_setproc = [];
}

abbrev context : ℕ → Context
context now = record { now = now; time = now; junk = 0; group = pos 1 }

abbrev info : QExtInfo
info = record { remoteip = 112 ∷ []; uptime = 500 }

abbrev pub reports : List ReportItem
reports = record { timekey = pos 990; reportnum = pos 5; refuse = pos 0; setrefuse = pos 0 } ∷ []

abbrev pub request : QuotaReq
request = record {
  key = 107 ∷ [];
  referkey = [];
  reportitem = reports;
  localquota = pos 0;
  id = pos 1;
  serial = [];
  totalquota = pos 100;
  nowsum = pos 3;
  workernum = pos 2;
  setkey = [];
}

-- No second server.
abbrev silent : SetQuotaReq → Option SetQuotaRsp
silent req = none

key_slots : AreLedgers 7 (lookup_or (act_key request) (init_qdata 0) server.s_map_quota).titem
unfolding act_key lookup_or lookup eq_bytes
key_slots = slots-AreLedgers

get_query_quota-le_example :
    (n : ℕ) × ((get_query_quota silent (context 1000) info request none server).0.localq ≡ pos n)
    × ((get_query_quota silent (context 1000) info request none server).0.totalq
        ≡ pos (act_quota none request))
    × (n ≤ act_quota none request)
get_query_quota-le_example =
    get_query_quota-le silent (context 1000) info request none 7 server key_slots (omega arith)

abbrev history : History
history = record { historyself = pos 7; historytotal = pos 21; parternum = 2; validnum = 2 }

abbrev sound_history : IsSound 100 history
sound_history = record {
  self = 7;
  total = 21;
  self_eq = refl;
  total_eq = refl;
  le = omega arith;
  limited = omega arith;
  parters = λ v. omega arith;
}

flux_quota_startup_example :
    flux_quota
      (λ req. some (get_query_quota silent (context 800) info req none server).0)
      (107 ∷ [])
      (pos 100)
    ≡ pos 2
flux_quota_startup_example =
    flux_quota_startup silent (context 800) info none server (107 ∷ []) (pos 100) (omega arith)

allocate-share_example :
    ((allocate 100 990 history).aquota ≤ 100 * 7 / 21)
    × (100 * 7 < mod32 → (allocate 100 990 history).aquota ≡ 100 * 7 / 21)
    × (mod32 ≤ 100 * 7 → (allocate 100 990 history).aquota < 100 * 7 / 21)
allocate-share_example =
    allocate-share 100 990 100 history sound_history (omega arith) refl (omega arith)

abbrev books : Books
books = record { act = slots; group = none; procs = [] }
