-- ===== src/Dispatch/Second.antt =====
-- The first server's exchange with the second, over packets: the request of GetQueryQuota
-- (QuaServer/ServiceQua.cpp) through mt_tcpsendrcv_route, the second server's HandleProcess, and the
-- parser of the answer. The network is a parameter; that it delivers the server's reply is a condition
-- of the theorems.
use modern_flux.Base.{
  ℕ, ◌+◌, ◌*◌, ◌^◌, ◌≤◌, ◌<◌, ◌≡◌, refl, ap, ◌∙◌, true, false, if◌then◌else◌, ◌==◌, Option, none,
  some, List, [], ◌∷◌, arith, length, drop,
}
use modern_flux.Base.Int.{ℤ, pos, eqb_ℤ}
use modern_flux.Base.Bytes.{Bytes}
use modern_flux.Message.{SetQuotaReq, SetQuotaRsp}
use modern_flux.Server.{Server, SetCfgFirst}
use modern_flux.Server.Second.{access_second, may_ask, set_request, touch_procs}
use modern_flux.Base.Dict.{lookup, lookup-insert_self}
use modern_flux.SetServer.{pro_set_quota}
use modern_flux.Packet.{
  IsLawful, CmdBase, empty_base, parsed_ok, ok, body_request, frame, set_binary_pack,
  parse_rsp_tmplt, parse_body,
}
use modern_flux.Packet.Stream.{drop-frame}
use modern_flux.Route.{second_quota_cmd}
use modern_flux.Route.Send.{
  Network, L5Router, Sending, init_info, mt_tcpsendrcv_route, send_rounds, send_round, route_round,
  route_item, exchange_round, is_final,
}
use modern_flux.Dispatch.{
  Wire, Process, Call, second, reply_base, set_reply, pro_second_quota, dispatch, handle_process,
}
use modern_flux.Dispatch.Replies.{packed, handle_process-frame}

-- QUOTA_BUFF_LEN
abbrev pub quota_buff_len : ℕ
quota_buff_len = 1024 * 4

-- The message of a request to the second server.
abbrev pub second_base : Wire → SetQuotaReq → CmdBase
second_base w req = record empty_base {
  cmd_id = second_quota_cmd;
  type = body_request;
  body = w.set_req.serialize req;
}

-- The router of the request: L5ROUTER::Init, and the second server's address on the same host.
abbrev pub second_router : Bytes → L5Router
second_router localhost = record {
  qos = record { modid = pos 0; cmd = pos 0; host_ip = []; host_port = pos 0 };
  ip = localhost;
  port = pos 19106;
  sendinfo = init_info;
  num = pos 1;
}

-- What GetQueryQuota reads at the end of mt_tcpsendrcv_route, with `buf` in the buffer. There is one
-- round, and so no write behind the array of mt_tcpsendrcv_route.
unfoldable pub read_replies : Wire → Bytes → Option Sending → Option SetQuotaRsp
read_replies w buf none = none
read_replies w buf (some s) =
    if eqb_ℤ (pos 0) s.ret
    then parsed_ok (parse_rsp_tmplt w.cmd_base w.cmd_base_resp w.set_rsp (drop 4 buf))
    else none

abbrev then_read : Wire → Network → (Bytes → Bytes) → Bytes → Option Bytes → Option SetQuotaRsp
then_read w net deliver localhost none = none
then_read w net deliver localhost (some packet) =
    read_replies w (deliver packet) (mt_tcpsendrcv_route net (second_router localhost))

-- The exchange with the second server; `deliver` gives what is in the buffer after a packet was sent.
unfoldable pub second_exchange :
    Wire → Network → (Bytes → Bytes) → Bytes → SetQuotaReq → Option SetQuotaRsp
unfolding read_replies
second_exchange w net deliver localhost req =
    then_read w net deliver localhost
      (set_binary_pack quota_buff_len (w.cmd_base.serialize (second_base w req)))

-- The first packet that a handler replies with.
abbrev pub first_reply : Option (List Bytes × Process) → Bytes
first_reply none = []
first_reply (some ([], p)) = []
first_reply (some (packet ∷ packets, p)) = packet

-- One round to an address of its own, without L5.
local_round :
    (net : Network) (localhost : Bytes)
    → 0 < length localhost
    → net.send_receive 0 localhost (pos 19106) ≡ pos 0
    → (s : Sending) × (mt_tcpsendrcv_route net (second_router localhost) ≡ some s) × (s.ret ≡ pos 0)
unfolding mt_tcpsendrcv_route send_rounds send_round route_round route_item exchange_round is_final
local_round net localhost named reached =
    let some_ip : (0 == length localhost) ≡ false = ground (arith, named) in
    rw (some_ip, reached) (_, refl, refl)

-- The answer of the second server.
abbrev pub ask_second : Call → SetQuotaReq → Process → SetQuotaRsp
ask_second call req p =
    (pro_set_quota call.context.now call.context.time call.context.junk req call.remoteip
      (second p)).0

pub packed_request :
    (body : Bytes)
    → length body + 4 < quota_buff_len
    → set_binary_pack quota_buff_len body ≡ some (frame body)
unfolding set_binary_pack
packed_request body small = ground arith

module _ (w : Wire) (lawful : IsLawful w.cmd_base) (net : Network) (deliver : Bytes → Bytes)
    (localhost : Bytes) (call : Call) (p : Process) where
  parse_set_reply :
      (rsp : SetQuotaRsp)
      → IsLawful w.set_rsp
      → 0 < length (w.cmd_base.serialize (reply_base (w.set_rsp.serialize rsp)))
      → parse_rsp_tmplt w.cmd_base w.cmd_base_resp w.set_rsp
          (drop 4 (frame (w.cmd_base.serialize (reply_base (w.set_rsp.serialize rsp)))))
        ≡ ok rsp
  unfolding parse_rsp_tmplt parse_body
  parse_set_reply rsp lawful_rsp some_byte =
      let base = reply_base (w.set_rsp.serialize rsp) in
      rw (drop-frame (w.cmd_base.serialize base), lawful base, lawful_rsp rsp) (ground arith)

  dispatch-second :
      (req : SetQuotaReq)
      → IsLawful w.set_req
      → let reply =
          w.cmd_base.serialize (reply_base (w.set_rsp.serialize (ask_second call req p))) in
        length reply + 4 < 32768 → (dispatch w call (second_base w req) p).0 ≡ frame reply ∷ []
  unfolding dispatch pro_second_quota set_reply
  dispatch-second req lawful_req fits =
      let reply = w.cmd_base.serialize (reply_base (w.set_rsp.serialize (ask_second call req p))) in
      rw (lawful_req req, pro_second_quota, packed reply 32768 fits (omega arith)) refl

  -- A request of GetQueryQuota to the second server that fits into 4 KiB, is sent to a nonempty address,
  -- and that the second server answers with a reply of some bytes within 4 KiB and the network
  -- delivers both ways, with codecs that read what they have written, brings back the very answer
  -- of ProSETQuota.
  pub second_exchange-answers :
      (req : SetQuotaReq)
      → IsLawful w.set_req
      → IsLawful w.set_rsp
      → let sent = w.cmd_base.serialize (second_base w req) in
        let reply =
          w.cmd_base.serialize (reply_base (w.set_rsp.serialize (ask_second call req p))) in
        0 < length localhost
        → net.send_receive 0 localhost (pos 19106) ≡ pos 0
        → deliver (frame sent) ≡ first_reply (handle_process w call (frame sent) p)
        → length sent + 4 < quota_buff_len
        → 0 < length reply
        → length reply + 4 ≤ quota_buff_len
        → second_exchange w net deliver localhost req ≡ some (ask_second call req p)
  unfolding second_exchange read_replies
  second_exchange-answers req lawful_req lawful_rsp named reached delivered small some_byte fits =
      let base = second_base w req in
      let reply = w.cmd_base.serialize (reply_base (w.set_rsp.serialize (ask_second call req p))) in
      let parsed = parse_set_reply (ask_second call req p) lawful_rsp some_byte in
      let (end, returned, good) = local_round net localhost named reached in
      let answered : (dispatch w call base p).0 ≡ frame reply ∷ [] =
        dispatch-second req lawful_req (omega arith) in
      let buf : deliver (frame (w.cmd_base.serialize base)) ≡ frame reply =
        delivered
        ∙ ap first_reply (handle_process-frame w lawful call base p)
        ∙ ap (λ (ps : List Bytes). first_reply (some (ps, (dispatch w call base p).1))) answered in
      ap (then_read w net deliver localhost) (packed_request (w.cmd_base.serialize base) small)
      ∙ rw (returned, buf, good) (ap parsed_ok parsed)

  -- A request that does not fit is never sent.
  pub second_exchange-too_long :
      (req : SetQuotaReq)
      → quota_buff_len ≤ length (w.cmd_base.serialize (second_base w req)) + 4
      → length (w.cmd_base.serialize (second_base w req)) + 4 < 2 ^ 32
      → second_exchange w net deliver localhost req ≡ none
  unfolding second_exchange set_binary_pack
  second_exchange-too_long req large fits = ground arith

  -- Where the request for a set does not fit into 4 KiB, the access of the first server still empties the list
  -- of processes to report on, and of the set it only notes the time.
  pub access_second-too_long :
      (group : ℤ) (now : ℕ) (k : Bytes) (cfg : SetCfgFirst) (s : Server)
      → may_ask now s.s_setproc cfg ≡ true
      → let procs = touch_procs s.s_setproc s.s_map_proc_quota in
        let asked : SetCfgFirst = record cfg { updatetime = now } in
        let req = set_request group k asked procs s.s_setproc in
        quota_buff_len ≤ length (w.cmd_base.serialize (second_base w req)) + 4
        → length (w.cmd_base.serialize (second_base w req)) + 4 < 2 ^ 32
        → let t = access_second (second_exchange w net deliver localhost) group now k cfg s in
          (t.s_setproc ≡ [])
          × (t.s_map_proc_quota ≡ procs)
          × (lookup k t.map_set_cfg_first ≡ some (record asked { lock = 0 }))
  unfolding access_second
  access_second-too_long group now k cfg s asks large fits =
      let procs = touch_procs s.s_setproc s.s_map_proc_quota in
      let asked : SetCfgFirst = record cfg { updatetime = now } in
      let lost =
        second_exchange-too_long (set_request group k asked procs s.s_setproc) large fits in
      rw (asks, lost)
        (refl, refl, lookup-insert_self k (record asked { lock = 0 }) s.map_set_cfg_first)
