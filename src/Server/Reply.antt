-- ===== src/Server/Reply.antt =====
-- What GetQueryQuota answers.
use modern_flux.Base.{ℕ, ◌+◌, ◌≤◌, ◌<◌, ◌*◌, ◌^◌, ◌≡◌, refl, Option, none, some, arith, length}
use modern_flux.Base.Int.{ℤ, pos}
use modern_flux.Message.{QuotaReq, SetQuotaReq, SetQuotaRsp}
use modern_flux.Params.{Flux}
use modern_flux.Base.Bytes.{Bytes, eq_bytes_refl}
use modern_flux.Base.Dict.{emplace, lookup_or, lookup_or-some, lookup-emplace}
use modern_flux.Quota.Record.{QData, QDataMap, init_qdata, init_key_qua_alloc}
use modern_flux.Quota.Peer.{clean_report_id}
use modern_flux.Client.Exchange.{flux_request, flux_quota}
use modern_flux.Server.{Server, get_set_key, get_set_cfg_first}
use modern_flux.Server.Books.{Books, report_items}
use modern_flux.Server.Bound.{allocate_key-le}
use modern_flux.Server.Ledger.{AreLedgers, AreLedgers→AreFair, requests, report_items-AreLedgers}
use modern_flux.Server.Alloc.{startup}
use modern_flux.Server.Query.{
  Context, QExtInfo, act_quota, act_key, count_workers, get_query_quota, response, serve_key,
  proc_id,
}

-- For five minutes after the server's start it answers every request, whatever the state, with quota
-- 0 and type 3, and with the quota of the key as the total.
pub get_query_quota_startup :
    (net : SetQuotaReq → Option SetQuotaRsp) (c : Context) (info : QExtInfo) (req : QuotaReq)
    (flux : Option Flux) (s : Server)
    → c.now ≤ info.uptime + 300
    → let rsp = (get_query_quota net c info req flux s).0 in
      (rsp.localq ≡ pos 0) × (rsp.alloctype ≡ pos 3) × (rsp.totalq ≡ pos (act_quota flux req))
unfolding get_query_quota response startup
get_query_quota_startup net c info req flux s early = ground arith

-- More than five minutes after its start the server answers a request that has a key and a quota
-- with the share that the key assigns, and one without a key or without a quota with 0.
pub get_query_quota_running :
    (net : SetQuotaReq → Option SetQuotaRsp) (c : Context) (info : QExtInfo) (req : QuotaReq)
    (flux : Option Flux) (s : Server)
    → info.uptime + 300 < c.now
    → let rsp = (get_query_quota net c info req flux s).0 in
      let r = serve_key c info req (act_quota flux req) (act_key req) s in
      (0 < act_quota flux req
        → 0 < length (act_key req)
        → (rsp.localq ≡ pos r.0.alloc.aquota) × (rsp.key ≡ act_key req))
      × (act_quota flux req ≡ 0 → rsp.localq ≡ pos 0)
      × (length (act_key req) ≡ 0 → rsp.localq ≡ pos 0)
unfolding get_query_quota response startup
get_query_quota_running net c info req flux s late =
    (λ q k. (ground arith, ground arith), λ e. ground arith, λ e. ground arith)

entry :
    (junk : ℕ) (key : Bytes) (m : QDataMap)
    → lookup_or key (init_qdata 0) (init_key_qua_alloc junk key m)
      ≡ lookup_or key (init_qdata junk) m
unfolding init_key_qua_alloc
entry junk key m =
    lookup_or-some key (init_qdata 0) (lookup_or key (init_qdata junk) m)
      (emplace key (init_qdata junk) m)
      (rw (lookup-emplace key key (init_qdata junk) m, eq_bytes_refl key) refl)

serve_key-le :
    (c : Context) (info : QExtInfo) (req : QuotaReq) (q : ℕ) (key : Bytes) (bound : ℕ) (s : Server)
    → AreLedgers bound (lookup_or key (init_qdata c.junk) s.s_map_quota).titem
    → 6 * (bound + requests req.reportitem) < 2 ^ 31
    → (serve_key c info req q key s).0.alloc.aquota ≤ q
unfolding serve_key count_workers
serve_key-le c info req q key bound s h fits =
    let procid = proc_id info req in
    let cfg = get_set_cfg_first (get_set_key req.setkey info.remoteip s) s in
    let qdata = lookup_or key (init_qdata 0) (init_key_qua_alloc c.junk key s.s_map_quota) in
    let before : Books = record {
      act = qdata.titem;
      group = elim cfg [ none ↦ none | some g ↦ some g.timesum ];
      procs = init_key_qua_alloc c.junk procid s.s_map_proc_quota;
    } in
    let there : AreLedgers bound qdata.titem = rw (entry c.junk key s.s_map_quota) h in
    let more : ℕ = bound + requests req.reportitem in
    let reported =
      report_items-AreLedgers c.junk bound procid req.reportitem before (omega (arith, fits))
        there in
    let slots = (report_items c.junk procid req.reportitem before).act in
    let d : QData = record qdata {
      titem = slots;
      mapalloq = clean_report_id c.time info.remoteip qdata.mapalloq;
    } in
    (allocate_key-le c info.remoteip procid q more d (AreLedgers→AreFair more slots reported)
      fits).0

-- A request gets at most the quota of its key, with the reports that come with it entered: where the
-- slots of the key were balanced, no slot held more than `bound` requests, and six slots stay
-- an int32_t with the reported requests added to each. Whatever the answer of the second server.
pub get_query_quota-le :
    (net : SetQuotaReq → Option SetQuotaRsp) (c : Context) (info : QExtInfo) (req : QuotaReq)
    (flux : Option Flux) (bound : ℕ) (s : Server)
    → AreLedgers bound (lookup_or (act_key req) (init_qdata c.junk) s.s_map_quota).titem
    → 6 * (bound + requests req.reportitem) < 2 ^ 31
    → (n : ℕ) × ((get_query_quota net c info req flux s).0.localq ≡ pos n)
      × ((get_query_quota net c info req flux s).0.totalq ≡ pos (act_quota flux req))
      × (n ≤ act_quota flux req)
unfolding get_query_quota response startup
get_query_quota-le net c info req flux bound s h fits =
    let le = serve_key-le c info req (act_quota flux req) (act_key req) bound s h fits in
    (_, refl, refl, ground arith)

-- For five minutes after the server's start FluxQuota refuses every key, once the server answers it.
pub flux_quota_startup :
    (net : SetQuotaReq → Option SetQuotaRsp) (c : Context) (info : QExtInfo) (flux : Option Flux)
    (s : Server) (keyid : Bytes) (totalquota : ℤ)
    → c.now ≤ info.uptime + 300
    → flux_quota (λ req. some (get_query_quota net c info req flux s).0) keyid totalquota ≡ pos 2
unfolding flux_quota
flux_quota_startup net c info flux s keyid totalquota early =
    let rsp = get_query_quota_startup net c info (flux_request keyid totalquota) flux s early in
    rw rsp.0 refl
