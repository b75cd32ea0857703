-- ===== src/Tests/Calls.antt =====
-- Concrete runs of several processes of a key, and of a client's call over packets.
use modern_flux.Base.{ℕ, ◌+◌, ◌≤◌, ◌<◌, ◌≡◌, refl, some, [], ◌∷◌, replicate, arith, length}
use modern_flux.Base.Int.{pos, ◌+ℤ◌}
use modern_flux.Base.Word.{i32, u32}
use modern_flux.Base.Bytes.{Bytes, eq_bytes}
use modern_flux.Base.Dict.{Dict, emplace, lookup, lookup_or, insert, sum_by}
use modern_flux.Message.{QuotaRsp}
use modern_flux.Text.{make_procid, digits, split_string, split_loop, find}
use modern_flux.Quota.Slot.{init_all, TimeItem, empty_item, no_data}
use modern_flux.Quota.Times.{get_time_key}
use modern_flux.Quota.Record.{QData, init_key_qua_alloc, init_qdata}
use modern_flux.Quota.Peer.{
  IdInfo, judge, valid_id, init_id_info_map, clean_report_id, clean_ids, add_worker_item,
  get_worker_num, get_last_quota,
}
use modern_flux.Server.{get_set_key, get_set_cfg_first}
use modern_flux.Server.Alloc.{startup, read_slots, read_slot, allocate}
use modern_flux.Server.Books.{report_items}
use modern_flux.Server.Ledger.{IsLedger, AreLedgers, empty-IsLedger}
use modern_flux.Server.Query.{
  Context, get_query_quota, act_quota, proc_id, serve_key, act_key, response, count_workers,
  allocate_key, host_workers, store_set,
}
use modern_flux.Server.Together.Sums.{sum_over}
use modern_flux.Server.Together.Quota.{AllComplete, allocate_key-together}
use modern_flux.Route.Send.{Network}
use modern_flux.Dispatch.{Call, Process, reply_base, ask_quota, handle_process}
use modern_flux.Dispatch.Second.{first_reply}
use modern_flux.Dispatch.Check.{check_exchange, check_exchange-answers}
use modern_flux.Client.{init_local}
use modern_flux.Client.Check.{Client, Request, Begun, check_finish}
use modern_flux.Client.Judge.{Env}
use modern_flux.Client.Exchange.{Exchange}
use modern_flux.Dispatch.Second.{quota_buff_len}
use modern_flux.Tests.Codecs.{to_codec-IsLawful, cmd_base, quota_req, quota_rsp}
use modern_flux.Tests.Wires.{wire, process, call}
use modern_flux.Tests.Shares.{key_data, request, server}

abbrev proc : ℕ → Bytes
proc n = 112 ∷ 95 ∷ (48 + n) ∷ []

-- Ten seconds in which the first process has counted 3 and the second 4.
abbrev shared : ℕ → TimeItem
shared timekey = record {
  timekey = timekey;
  sum = pos 7;
  refuse = pos 0;
  setrefuse = pos 0;
  mapidnum =
      (proc 1, record no_data { sum = pos 3 }) ∷ (proc 2, record no_data { sum = pos 4 }) ∷ [];
}

shared-IsLedger : (timekey : ℕ) → IsLedger 7 (shared timekey)
unfolding sum_by lookup_or lookup
shared-IsLedger timekey = record {
  retired = 0;
  balanced = record { sum_eq = refl; nonneg = λ k. ground arith };
  below = omega arith;
}

abbrev two_slots : QData
two_slots = record key_data { titem = shared 960 ∷ shared 970 ∷ replicate 4 empty_item }

two_slots-AreLedgers : AreLedgers 7 two_slots.titem
two_slots-AreLedgers = (
  shared-IsLedger 960,
  (
    shared-IsLedger 970,
    (empty-IsLedger 7, (empty-IsLedger 7, (empty-IsLedger 7, (empty-IsLedger 7, tt)))),
  ),
)

abbrev moment : Context
moment = record { now = 1000; time = 1000; junk = 0; group = pos 1 }

both_complete : AllComplete (get_time_key 1000).0 two_slots.titem (proc 1 ∷ proc 2 ∷ [])
unfolding lookup_or lookup eq_bytes get_time_key
both_complete = (
  ((λ e. ground arith), ((λ e. ground arith), ((λ e. e), ((λ e. e), ((λ e. e), ((λ e. e), tt)))))),
  (
    (
      (λ e. ground arith),
      ((λ e. ground arith), ((λ e. e), ((λ e. e), ((λ e. e), ((λ e. e), tt))))),
    ),
    tt,
  ),
)

abbrev hosts : Bytes → Bytes
hosts p = p

allocate_key-together_example :
    sum_over
      (λ p. (allocate_key moment (hosts p) p 100 two_slots).0.alloc.aquota)
      (proc 1 ∷ proc 2 ∷ [])
    ≤ 100
unfolding eq_bytes
allocate_key-together_example =
    allocate_key-together moment hosts 100 7 two_slots two_slots-AreLedgers (omega arith)
      (proc 1 ∷ proc 2 ∷ []) ((refl, tt), (tt, tt)) both_complete

-- Two processes that had their requests in different slots: each is assigned the whole quota.
abbrev alone : ℕ → ℕ → TimeItem
alone n timekey = record {
  timekey = timekey;
  sum = pos 7;
  refuse = pos 0;
  setrefuse = pos 0;
  mapidnum = (proc n, record no_data { sum = pos 7 }) ∷ [];
}

abbrev ids : ℕ → Dict IdInfo
ids n = (proc n, record { aquota = 0; updatetime = 990; firsttime = 500 }) ∷ []

abbrev apart : QData
apart = record key_data {
  titem = alone 1 940 ∷ alone 1 950 ∷ alone 2 960 ∷ alone 2 970 ∷ replicate 2 empty_item;
  mapalloq = (proc 1, ids 1) ∷ (proc 2, ids 2) ∷ [];
}

apart_twice :
    sum_over
      (λ p. (allocate_key moment (hosts p) p 100 apart).0.alloc.aquota)
      (proc 1 ∷ proc 2 ∷ [])
    ≡ 200
unfolding allocate_key valid_id init_id_info_map judge read_slots read_slot allocate get_time_key
    emplace lookup lookup_or insert eq_bytes i32 u32 ◌+ℤ◌
apart_twice = refl

-- A first server that has known the process for a while.
abbrev known : QData
known = record two_slots {
  mapalloq =
      (112 ∷ [], (proc 1, record { aquota = 0; updatetime = 990; firsttime = 500 }) ∷ []) ∷ [];
}

abbrev busy : Process
busy = record process { first = record server { s_map_quota = (107 ∷ [], known) ∷ [] } }

abbrev near : Call
near = record call { remoteip = 112 ∷ []; uptime = 500 }

-- A network that delivers, and a server that answers.
abbrev direct : Network
direct = record {
  get_route = λ i q. (pos 0, q);
  send_receive = λ i ip port. pos 0;
  before = λ i. pos 100;
  after = λ i. pos 130;
  begin = pos 100;
  finish = pos 160;
}

abbrev deliver : Bytes → Bytes
deliver packet = first_reply (handle_process wire near packet busy)

abbrev env : Env
env = record { now = 1000; now_refer = 1000; minute = 3; rand_aver = 7; rand_set = 9; groups = 2 }

abbrev asking : Request
asking = record {
  keyid = 107 ∷ [];
  groupid = pos 1;
  totalquota = pos 100;
  referid = [];
  serial = [];
}

abbrev begun : Begun
begun = record { ret = pos 0; setret = pos 0; delta = pos 0; req = some request }

abbrev waiting : Client
waiting = record { s_map_local = []; s_now = 1000; s_setsum = 0 }

-- The server's answer: 6 of the 14 requests are of this process.
abbrev got : QuotaRsp
got = record {
  key = 107 ∷ [];
  localq = pos 42;
  totalq = pos 100;
  partnernum = pos 1;
  serial = [];
  ipnum = pos 1;
  alloctype = pos 2;
  allocpartnum = pos 2;
  alloctime = pos 0;
  self = pos 6;
  total = pos 14;
  nowsum = pos 3;
  totalworkernum = pos 2;
  setquota = pos 0;
  setsum = pos 0;
  procquota = pos 0;
}

answer-got : (ask_quota near request busy).0 ≡ got
unfolding get_query_quota act_quota proc_id get_set_key get_set_cfg_first serve_key act_key response
    startup init_key_qua_alloc emplace lookup lookup_or insert init_qdata make_procid digits
    report_items count_workers allocate_key valid_id init_id_info_map judge read_slots read_slot
    allocate get_time_key host_workers clean_report_id clean_ids add_worker_item get_worker_num
    get_last_quota store_set eq_bytes i32 u32 ◌+ℤ◌ init_all split_string split_loop find
answer-got = refl

abbrev reply : QuotaRsp → Bytes
reply rsp = wire.cmd_base.serialize (reply_base (wire.quota_rsp.serialize rsp))

reply_size :
    (0 < length (reply (ask_quota near request busy).0))
    × (length (reply (ask_quota near request busy).0) + 4 ≤ quota_buff_len)
reply_size = rw answer-got (omega arith, omega arith)

check_exchange-answers_example :
    (x : Exchange) × (check_exchange wire direct deliver (pos 5) (pos 6) request ≡ some x)
    × (x.rsp ≡ some (ask_quota near request busy).0)
    × (let local =
          lookup_or
            (107 ∷ [])
            init_local
            (check_finish env asking begun (some x) waiting).1.s_map_local in
        (local.localquota ≡ (ask_quota near request busy).0.localq)
        × (local.updatetime ≡ 1000)
        × (local.lock ≡ 0))
check_exchange-answers_example =
    check_exchange-answers wire (to_codec-IsLawful cmd_base) (to_codec-IsLawful quota_req)
      (to_codec-IsLawful quota_rsp) direct deliver (pos 5) (pos 6) near busy request env asking
      begun waiting refl refl refl refl refl (omega arith) reply_size.0 reply_size.1
      (rw answer-got refl) (rw answer-got refl)
