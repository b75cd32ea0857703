-- ===== src/Frame/Booked.antt =====
-- What the packets and the loop of QuaServer/Frame.cpp leave of the slots: HandleProcess of
-- QuaServer/FlowMsg.cpp with its two handlers, ClearData and LoadSETInfoWrap.
use modern_flux.Base.{
  ℕ, ◌+◌, ◌^◌, ◌≤◌, ◌<◌, ◌≡◌, refl, ap, sym, false, Option, none, some, List, [], ◌∷◌, arith,
  if◌then◌else◌, ◌&&◌, ltb, ◌-◌, length, drop, Bool-cases, Option-cases, inl, inr,
}
use mathlib.Core.Path.{subst}
use modern_flux.Base.Int.{eqb_ℤ}
use modern_flux.Base.Bytes.{Bytes}
use modern_flux.Message.{QuotaReq, SetQuotaReq}
use modern_flux.Window.{s_expire}
use modern_flux.Packet.{CmdBase, body_request}
use modern_flux.Route.{quota_query_cmd, second_quota_cmd}
use modern_flux.Server.Ledger.{requests}
use modern_flux.Config.Sets.Kept.{load_set_info_wrap-KeepsBooks}
use modern_flux.Host.Clean.{clear_data, s_offline_interval, s_offline_begin}
use modern_flux.Dispatch.{
  Wire, Process, Call, second, broken_reply, pro_quota, pro_second_quota, dispatch, handle_process,
}
use modern_flux.Frame.{Worker, tables, Tick, spp_handle_loop}
use modern_flux.Frame.Ledgers.{AllLedgers, AllLedgers-grow, clear-AllLedgers}
use modern_flux.Frame.Ledgers.First.{get_query_quota-AllLedgers}
use modern_flux.Frame.Ledgers.Second.{proc_requests, pro_set_quota-AllLedgers}

-- The slots of all keys, sets and processes of sets are balanced, with at most `bound` requests each.
pub record IsBooked (bound : ℕ) (p : Process) : Type 0 where
  pub keys : AllLedgers bound p.first.s_map_quota
  pub procs : AllLedgers bound p.s_map_setprocdata
  pub sums : AllLedgers bound p.s_map_setsumdata

pub grow : (bound more : ℕ) (p : Process) → bound ≤ more → IsBooked bound p → IsBooked more p
grow bound more p le h = record {
  keys = AllLedgers-grow bound more p.first.s_map_quota le h.keys;
  procs = AllLedgers-grow bound more p.s_map_setprocdata le h.procs;
  sums = AllLedgers-grow bound more p.s_map_setsumdata le h.sums;
}

-- The requests that a message reports.
abbrev pub of_quota : Option QuotaReq → ℕ
of_quota none = 0
of_quota (some req) = requests req.reportitem

abbrev pub of_set : Option SetQuotaReq → ℕ
of_set none = 0
of_set (some req) = requests req.itemlist + proc_requests req.procitem

abbrev pub of_base : Wire → Option CmdBase → ℕ
of_base w none = 0
of_base w (some b) =
    if eqb_ℤ body_request b.type
    then if eqb_ℤ quota_query_cmd b.cmd_id
      then of_quota (w.quota_req.parse b.body)
      else if eqb_ℤ second_quota_cmd b.cmd_id
      then of_set (w.set_req.parse b.body)
      else 0
    else 0

module _ (w : Wire) (call : Call) where
  pro_quota-IsBooked :
      (bound : ℕ) (b : CmdBase) (p : Process)
      → bound + of_quota (w.quota_req.parse b.body) < 2 ^ 31
      → IsBooked bound p
      → IsBooked (bound + of_quota (w.quota_req.parse b.body)) (pro_quota w call b.type b p).1
  unfolding pro_quota
  pro_quota-IsBooked bound b p fits h = elim (Option-cases (w.quota_req.parse b.body)) [
    | inl broken ↦ rw (broken, pro_quota) (grow bound (bound + 0) p (omega arith) h)
    | inr (req, parsed) ↦
        let few : bound + requests req.reportitem < 2 ^ 31 = omega (arith, ap of_quota parsed) in
        let more : ℕ = bound + requests req.reportitem in
        rw (parsed, pro_quota)
          (record {
            keys =
                get_query_quota-AllLedgers bound call.exchange call.context
                  (record { remoteip = call.remoteip; uptime = call.uptime }) req none p.first few
                  h.keys;
            procs = AllLedgers-grow bound more p.s_map_setprocdata (omega arith) h.procs;
            sums = AllLedgers-grow bound more p.s_map_setsumdata (omega arith) h.sums;
          })
  ]

  pro_second_quota-IsBooked :
      (bound : ℕ) (b : CmdBase) (p : Process)
      → bound + of_set (w.set_req.parse b.body) < 2 ^ 31
      → IsBooked bound p
      → IsBooked (bound + of_set (w.set_req.parse b.body)) (pro_second_quota w call b.type b p).1
  unfolding pro_second_quota
  pro_second_quota-IsBooked bound b p fits h = elim (Option-cases (w.set_req.parse b.body)) [
    | inl broken ↦ rw (broken, pro_second_quota) (grow bound (bound + 0) p (omega arith) h)
    | inr (req, parsed) ↦
        let n : ℕ = requests req.itemlist + proc_requests req.procitem in
        let few : bound + requests req.itemlist + proc_requests req.procitem < 2 ^ 31 =
          omega (arith, ap of_set parsed) in
        let c = call.context in
        let done =
          pro_set_quota-AllLedgers bound c.now c.time c.junk req call.remoteip (second p) few
            h.procs h.sums in
        rw (parsed, pro_second_quota)
          (record {
            keys = AllLedgers-grow bound (bound + n) p.first.s_map_quota (omega arith) h.keys;
            procs = AllLedgers-grow _ (bound + n) _ (omega arith) done.0;
            sums = AllLedgers-grow _ (bound + n) _ (omega arith) done.1;
          })
  ]

  dispatch-IsBooked :
      (bound : ℕ) (b : CmdBase) (p : Process)
      → bound + of_base w (some b) < 2 ^ 31
      → IsBooked bound p
      → IsBooked (bound + of_base w (some b)) (dispatch w call b p).1
  unfolding dispatch
  dispatch-IsBooked bound b p fits h =
      let idle = grow bound (bound + 0) p (omega arith) h in
      elim (Bool-cases (eqb_ℤ body_request b.type)) [
        | inl request ↦ elim (Bool-cases (eqb_ℤ quota_query_cmd b.cmd_id)) [
          | inl query ↦
              rw (request, query) (pro_quota-IsBooked bound b p (ground (arith, request, query)) h)
          | inr other ↦ elim (Bool-cases (eqb_ℤ second_quota_cmd b.cmd_id)) [
            | inl set ↦
                rw (request, other, set)
                  (pro_second_quota-IsBooked bound b p (ground (arith, request, other, set)) h)
            | inr unknown ↦ rw (request, other, unknown) idle
          ]
        ]
        | inr none_eq ↦ rw none_eq idle
      ]

-- A packet that holds its header is handled without a fault.
pub handle_process-IsBooked :
    (w : Wire) (call : Call) (bound : ℕ) (raw : Bytes) (p : Process)
    → 4 ≤ length raw
    → let n = of_base w (w.cmd_base.parse (drop 4 raw)) in
      bound + n < 2 ^ 31
      → IsBooked bound p
      → (r : List Bytes × Process) × (handle_process w call raw p ≡ some r)
        × IsBooked (bound + n) r.1
unfolding handle_process
handle_process-IsBooked w call bound raw p header fits h =
    let whole : ltb (length raw) 4 ≡ false = ground (arith, header) in
    elim (Option-cases (w.cmd_base.parse (drop 4 raw))) [
      | inl broken ↦ (
        (broken_reply w ∷ [], p),
        rw (whole, broken) refl,
        rw broken (grow bound (bound + 0) p (omega arith) h),
      )
      | inr (b, parsed) ↦ (
        dispatch w call b p,
        rw (whole, parsed) refl,
        rw parsed (dispatch-IsBooked w call bound b p (omega (arith, ap (of_base w) parsed)) h),
      )
    ]

-- The loop cleans the maps, and leaves what is in the entries.
clear_data-IsBooked :
    (bound now hour : ℕ) (worker : Worker)
    → IsBooked bound worker.process
    → let t = clear_data now hour (tables worker) in
      AllLedgers bound t.s_map_quota
      × AllLedgers bound t.s_map_setprocdata
      × AllLedgers bound t.s_map_setsumdata
unfolding clear_data
clear_data-IsBooked bound now hour worker h =
    elim (Bool-cases
      (ltb s_offline_interval (now - worker.lasterase) && ltb s_offline_begin hour)) [
        | inl due ↦ rw due (
          clear-AllLedgers bound s_expire now worker.process.first.s_map_quota h.keys,
          clear-AllLedgers bound s_expire now worker.process.s_map_setprocdata h.procs,
          clear-AllLedgers bound s_expire now worker.process.s_map_setsumdata h.sums,
        )
        | inr early ↦ rw early (h.keys, h.procs, h.sums)
      ]

pub spp_handle_loop-IsBooked :
    (bound : ℕ) (t : Tick) (worker : Worker)
    → IsBooked bound worker.process
    → IsBooked bound (spp_handle_loop t worker).process
unfolding spp_handle_loop
spp_handle_loop-IsBooked bound t worker h =
    let cleaned = clear_data-IsBooked bound t.now t.hour worker h in
    record {
      keys =
          subst (AllLedgers bound) (sym (load_set_info_wrap-KeepsBooks t.files t.loadtime _).quotas)
            cleaned.0;
      procs = cleaned.1;
      sums = cleaned.2;
    }
