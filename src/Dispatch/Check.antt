-- ===== src/Dispatch/Check.antt =====
-- A client's exchange with the first server, from `CheckQuota` (QuaServer/ServiceQua.cpp) over packets,
-- mt_tcpsendrcv_route and HandleProcess back to the client. What L5 and the network do is a
-- parameter; that the network delivers the server's reply is a condition of the theorems.
use modern_flux.Base.{
  ℕ, ◌+◌, ◌≤◌, ◌<◌, ◌≡◌, refl, ap, ◌∙◌, true, false, Option, none, some, [], arith, if◌then◌else◌,
  length, drop, get_or, ◌==◌, Bool-cases, inl, inr,
}
use modern_flux.Base.Int.{ℤ, pos, eqb_ℤ, positive}
use modern_flux.Base.Bytes.{Bytes, eq_bytes, eq_bytes_refl}
use modern_flux.Base.Dict.{lookup_or, lookup_or-insert}
use modern_flux.Message.{QuotaReq, QuotaRsp}
use modern_flux.Packet.{
  IsLawful, CmdBase, empty_base, parsed_ok, body_request, frame, set_binary_pack, parse_rsp_tmplt,
}
use modern_flux.Route.{quota_query_cmd}
use modern_flux.Route.Send.{
  Network, L5Router, Sending, init_item, init_info, mt_tcpsendrcv_route, send_rounds, send_round,
  route_round, exchange_round, is_final,
}
use modern_flux.Client.{LocalData, init_local}
use modern_flux.Client.Judge.{Env}
use modern_flux.Client.Exchange.{
  Exchange, apply_exchange, apply_answer, ring_quota, set_aver, set_numbers,
}
use modern_flux.Client.Check.{
  Client, Request, Begun, check_finish, finish_local, end_exchange, stat_exchange, stat_delta,
  stat_vary, stat_minute,
}
use modern_flux.Dispatch.{Wire, Process, Call, reply_base, ask_quota, handle_process}
use modern_flux.Dispatch.Replies.{handle_process-answers}
use modern_flux.Dispatch.Second.{quota_buff_len, packed_request, first_reply}

-- The message of a request.
abbrev pub quota_base : Wire → QuotaReq → CmdBase
quota_base w req = record empty_base {
  cmd_id = quota_query_cmd;
  type = body_request;
  body = w.quota_req.serialize req;
}

-- The router of `CheckQuota`: L5ROUTER::Init and the ids of L5.
abbrev pub check_router : ℤ → ℤ → L5Router
check_router modid cmd = record {
  qos = record { modid = modid; cmd = cmd; host_ip = []; host_port = pos 0 };
  ip = [];
  port = pos 0;
  sendinfo = init_info;
  num = pos 1;
}

-- What `CheckQuota` makes of the end of mt_tcpsendrcv_route, with `buf` in the buffer.
abbrev read_end : Wire → Bytes → Option Sending → Option Exchange
read_end w buf none = none
read_end w buf (some s) = some (record {
  sent = true;
  perdelta = (get_or s.info.senditem 0 init_item).perdelta;
  rsp =
      if eqb_ℤ (pos 0) s.ret
      then parsed_ok (parse_rsp_tmplt w.cmd_base w.cmd_base_resp w.quota_rsp (drop 4 buf))
      else none;
})

abbrev then_send : Wire → Network → (Bytes → Bytes) → ℤ → ℤ → Option Bytes → Option Exchange
then_send w net deliver modid cmd none =
    some (record { sent = false; perdelta = pos 0; rsp = none })
then_send w net deliver modid cmd (some packet) =
    read_end w (deliver packet) (mt_tcpsendrcv_route net (check_router modid cmd))

-- The exchange of `CheckQuota`; `deliver` gives what is in the buffer after a packet was sent. `none` is
-- a write behind the array of mt_tcpsendrcv_route.
unfoldable pub check_exchange :
    Wire → Network → (Bytes → Bytes) → ℤ → ℤ → QuotaReq → Option Exchange
check_exchange w net deliver modid cmd req =
    then_send w net deliver modid cmd
      (set_binary_pack quota_buff_len (w.cmd_base.serialize (quota_base w req)))

-- A call of one round that L5 routes and that the server answers.
one_round :
    (net : Network) (modid cmd : ℤ)
    → let r = check_router modid cmd in
      positive modid ≡ true
      → positive cmd ≡ true
      → (net.get_route 0 r.qos).0 ≡ pos 0
      → net.send_receive 0 (net.get_route 0 r.qos).1.host_ip (net.get_route 0 r.qos).1.host_port
        ≡ pos 0
      → (s : Sending) × (mt_tcpsendrcv_route net r ≡ some s) × (s.ret ≡ pos 0)
unfolding mt_tcpsendrcv_route send_rounds send_round route_round exchange_round is_final
one_round net modid cmd m c routed answered = rw (m, c, routed, answered) (_, refl, refl)

-- The answer's quota, the time of the call and an open lock.
abbrev Took : ℤ → ℕ → LocalData → Type 0
Took localq now l = (l.localquota ≡ localq) × (l.updatetime ≡ now) × (l.lock ≡ 0)

-- The statistics leave these fields.
module _ (localq : ℤ) (now : ℕ) (l : LocalData) where
  stat_exchange-Took :
      (x : Exchange) → Took localq now l → Took localq now (stat_exchange (some x) l)
  unfolding stat_exchange
  stat_exchange-Took x h = elim (Bool-cases x.sent) [ inl on ↦ rw on h | inr off ↦ rw off h ]

  stat_minute-Took : (nowmin : ℕ) → Took localq now l → Took localq now (stat_minute nowmin l)
  unfolding stat_minute
  stat_minute-Took nowmin h = elim (Bool-cases (l.lastreport == nowmin)) [
    | inl on ↦ rw on h
    | inr off ↦ rw off h
  ]

-- The entry of the key after a call whose exchange brought an answer with a quota.
apply_answer-Took :
    (keyid : Bytes) (now : ℕ) (rsp : QuotaRsp) (old : LocalData)
    → rsp.key ≡ keyid
    → positive rsp.localq ≡ true
    → Took rsp.localq now (record (apply_answer keyid now rsp old) { lock = 0 })
unfolding apply_answer set_numbers set_aver ring_quota
apply_answer-Took keyid now rsp old key given =
    let named : eq_bytes rsp.key keyid ≡ true = rw key (eq_bytes_refl keyid) in
    rw (named, given) (refl, refl, refl)

finish-Took :
    (e : Env) (q : Request) (b : Begun) (perdelta : ℤ) (rsp : QuotaRsp) (old : LocalData)
    → rsp.key ≡ q.keyid
    → positive rsp.localq ≡ true
    → let x : Exchange = record { sent = true; perdelta = perdelta; rsp = some rsp } in
      Took rsp.localq e.now (finish_local e q b (some x) old)
unfolding finish_local end_exchange apply_exchange stat_delta stat_vary
finish-Took e q b perdelta rsp old key given =
    let x : Exchange = record { sent = true; perdelta = perdelta; rsp = some rsp } in
    let taken = apply_answer-Took q.keyid e.now rsp old key given in
    stat_minute-Took rsp.localq e.now _ e.minute
      (stat_exchange-Took rsp.localq e.now (end_exchange q e.now (some x) old) x taken)

check_finish-local :
    (e : Env) (q : Request) (b : Begun) (x : Option Exchange) (s : Client)
    → lookup_or q.keyid init_local (check_finish e q b x s).1.s_map_local
      ≡ finish_local e q b x (lookup_or q.keyid init_local s.s_map_local)
unfolding check_finish
check_finish-local e q b x s =
    let v = finish_local e q b x (lookup_or q.keyid init_local s.s_map_local) in
    ground
      (arith, lookup_or-insert q.keyid q.keyid v init_local s.s_map_local, eq_bytes_refl q.keyid)

module _ (w : Wire) (lawful : IsLawful w.cmd_base) (lawful_req : IsLawful w.quota_req)
    (lawful_rsp : IsLawful w.quota_rsp) (net : Network) (deliver : Bytes → Bytes) (modid cmd : ℤ)
    (call : Call) (p : Process) where
  -- A request of `CheckQuota` that fits into 4 KiB, which L5 routes under ids above 0, the server
  -- answers with a reply of some bytes within 4 KiB and the network delivers both ways, with codecs
  -- that read what they have written, brings back the very answer of GetQueryQuota. If that is for
  -- the key and has a quota, then after the call the key's entry has this quota and the time of the
  -- call, and its lock is open.
  pub check_exchange-answers :
      (req : QuotaReq) (e : Env) (q : Request) (b : Begun) (s : Client)
      → let r = check_router modid cmd in
        let route = net.get_route 0 r.qos in
        let sent = w.cmd_base.serialize (quota_base w req) in
        let answer = (ask_quota call req p).0 in
        let reply = w.cmd_base.serialize (reply_base (w.quota_rsp.serialize answer)) in
        positive modid ≡ true
        → positive cmd ≡ true
        → route.0 ≡ pos 0
        → net.send_receive 0 route.1.host_ip route.1.host_port ≡ pos 0
        → deliver (frame sent) ≡ first_reply (handle_process w call (frame sent) p)
        → length sent + 4 < quota_buff_len
        → 0 < length reply
        → length reply + 4 ≤ quota_buff_len
        → answer.key ≡ q.keyid
        → positive answer.localq ≡ true
        → (x : Exchange) × (check_exchange w net deliver modid cmd req ≡ some x)
          × (x.rsp ≡ some answer)
          × (let local =
                lookup_or q.keyid init_local (check_finish e q b (some x) s).1.s_map_local in
              (local.localquota ≡ answer.localq) × (local.updatetime ≡ e.now) × (local.lock ≡ 0))
  unfolding check_exchange
  check_exchange-answers req e q b s m c routed reached delivered small some_byte fits key given =
      let base = quota_base w req in
      let (packet, handled, found, parsed) =
        handle_process-answers w lawful call base req p lawful_req lawful_rsp refl refl refl
          some_byte (omega arith) in
      let (end, returned, good) = one_round net modid cmd m c routed reached in
      let buf : deliver (frame (w.cmd_base.serialize base)) ≡ packet =
        delivered ∙ ap first_reply handled in
      let x : Exchange = record {
        sent = true;
        perdelta = (get_or end.info.senditem 0 init_item).perdelta;
        rsp = some (ask_quota call req p).0;
      } in
      let same = check_finish-local e q b (some x) s in
      let old = lookup_or q.keyid init_local s.s_map_local in
      let took = finish-Took e q b x.perdelta (ask_quota call req p).0 old key given in
      (
        x,
        ap (then_send w net deliver modid cmd) (packed_request (w.cmd_base.serialize base) small)
            ∙ rw (returned, buf, good, parsed) refl,
        refl,
        rw same took,
      )
