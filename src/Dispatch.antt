-- ===== src/Dispatch.antt =====
-- From a packet to a handler and back: HandleProcess, ProQuota, ProSecondQuota and ErrorRsp of
-- QuaServer/FlowMsg.cpp. SendToClient is modelled by the list of the replies, and the handlers are
-- those of Server.Query and SetServer. Logging is left out. Messages serialise without failure.
pub mod Replies
pub mod Second
pub mod Check
use modern_flux.Base.{
  ℕ, Bool, true, false, Option, none, some, List, [], ◌∷◌, ltb, if◌then◌else◌, length, drop,
}
use modern_flux.Base.Int.{ℤ, pos, negsuc, eqb_ℤ, leb_ℤ}
use modern_flux.Base.Word.{i32}
use modern_flux.Base.Bytes.{Bytes, bytes}
use modern_flux.Base.Dict.{Dict}
use modern_flux.Message.{QuotaReq, QuotaRsp, SetQuotaReq, SetQuotaRsp}
use modern_flux.Quota.Record.{QDataMap}
use modern_flux.Server.{SetCfgFirst, Server}
use modern_flux.Server.Query.{Context, QExtInfo, get_query_quota}
use modern_flux.SetServer.{SetServer, pro_set_quota}
use modern_flux.Packet.{
  Codec, CmdBase, CmdBaseResp, empty_base, body_request, body_response, frame, set_binary_pack_int,
}
use modern_flux.Route.{quota_query_cmd, second_quota_cmd}

-- The messages of Protocol/open_app_desc.proto on the wire.
pub record Wire : Type 0 where
  pub cmd_base : Codec CmdBase
  pub cmd_base_resp : Codec CmdBaseResp
  pub quota_req : Codec QuotaReq
  pub quota_rsp : Codec QuotaRsp
  pub set_req : Codec SetQuotaReq
  pub set_rsp : Codec SetQuotaRsp

-- The data of a process. Both handlers read the sets of `first`.
pub record Process : Type 0 where
  pub first : Server
  pub s_map_setprocdata : QDataMap
  pub s_map_setsumdata : QDataMap

-- What a call meets: the readings of the handlers, the address of the client, the start of the
-- process, and the exchange with the second server.
pub record Call : Type 0 where
  pub context : Context
  pub remoteip : Bytes
  pub uptime : ℕ
  pub exchange : SetQuotaReq → Option SetQuotaRsp

-- The data that ProSETQuota works on.
abbrev pub second : Process → SetServer
second p = record {
  s_map_setprocdata = p.s_map_setprocdata;
  s_map_setsumdata = p.s_map_setsumdata;
  map_set_cfg_first = p.first.map_set_cfg_first;
}

-- AMS_LOTTERY_BUFF_SIZE and AMS_RSP_BUFF_SIZE
abbrev pub reply_size : ℤ
reply_size = pos 32768

abbrev pub error_size : ℤ
error_size = pos 65535

-- A packed reply is sent; one that does not fit is not.
abbrev pub send_packed : Option Bytes → List Bytes
send_packed none = []
send_packed (some packet) = packet ∷ []

abbrev pub error_body : ℤ → Bytes → CmdBaseResp
error_body ret msg = record { ret = ret; err_msg = msg; resp = [] }

-- The head of an error's reply: that of the request.
abbrev pub error_base : Wire → CmdBase → ℤ → Bytes → CmdBase
error_base w head ret msg = record head {
  type = body_response;
  body = w.cmd_base_resp.serialize (error_body ret msg);
}

-- ErrorRsp
unfoldable pub error_rsp : Wire → CmdBase → ℤ → Bytes → List Bytes
unfolding set_binary_pack_int
error_rsp w head ret msg =
    send_packed (set_binary_pack_int error_size (w.cmd_base.serialize (error_base w head ret msg)))

-- The reply that carries a message.
abbrev pub reply_base : Bytes → CmdBase
reply_base body = record empty_base { type = body_response; body = body }

-- The reply of ProQuota to a message of the type `bodytype`.
unfoldable pub quota_reply : Wire → ℤ → QuotaRsp → CmdBase
quota_reply w bodytype rsp =
    let strrsp = w.quota_rsp.serialize rsp in
    if eqb_ℤ body_request bodytype
    then reply_base strrsp
    else reply_base
        (w.cmd_base_resp.serialize (record { ret = pos 0; err_msg = []; resp = strrsp }))

-- The call of GetQueryQuota, which passes no Flux.
abbrev pub ask_quota : Call → QuotaReq → Process → QuotaRsp × Server
ask_quota call req p =
    let info : QExtInfo = record { remoteip = call.remoteip; uptime = call.uptime } in
    get_query_quota call.exchange call.context info req none p.first

-- ProQuota
unfoldable pub pro_quota : Wire → Call → ℤ → CmdBase → Process → List Bytes × Process
unfolding error_rsp quota_reply
pro_quota w call bodytype base p = elim (w.quota_req.parse base.body) [
  | none ↦ (error_rsp w base (negsuc 0) (bytes "Invalid reqbody"), p)
  | some req ↦
      let r = ask_quota call req p in
      (
        send_packed
            (set_binary_pack_int reply_size (w.cmd_base.serialize (quota_reply w bodytype r.0))),
        record p { first = r.1 },
      )
]

-- The reply of ProSecondQuota: empty for a message that is no request.
unfoldable pub set_reply : Wire → ℤ → SetQuotaRsp → CmdBase
set_reply w bodytype rsp =
    if eqb_ℤ body_request bodytype then reply_base (w.set_rsp.serialize rsp) else empty_base

-- ProSecondQuota
unfoldable pub pro_second_quota : Wire → Call → ℤ → CmdBase → Process → List Bytes × Process
unfolding error_rsp set_reply
pro_second_quota w call bodytype base p = elim (w.set_req.parse base.body) [
  | none ↦ (error_rsp w base (negsuc 0) (bytes "Invalid reqbody"), p)
  | some req ↦
      let c = call.context in
      let r = pro_set_quota c.now c.time c.junk req call.remoteip (second p) in
      (
        send_packed
            (set_binary_pack_int reply_size (w.cmd_base.serialize (set_reply w bodytype r.0))),
        record p {
          s_map_setprocdata = r.1.s_map_setprocdata;
          s_map_setsumdata = r.1.s_map_setsumdata;
        },
      )
]

-- The reply to a packet that does not parse.
unfoldable pub broken_reply : Wire → Bytes
broken_reply w = frame (
    w.cmd_base.serialize
      (error_base w empty_base (negsuc 3) (bytes "broker parse packet in protobuf fail")))

-- The switch of HandleProcess.
unfoldable pub dispatch : Wire → Call → CmdBase → Process → List Bytes × Process
unfolding pro_quota pro_second_quota
dispatch w call b p =
    if eqb_ℤ body_request b.type
    then if eqb_ℤ quota_query_cmd b.cmd_id
      then pro_quota w call b.type b p
      else if eqb_ℤ second_quota_cmd b.cmd_id
      then pro_second_quota w call b.type b p
      else ([], p)
    else ([], p)

-- HandleProcess: the replies and the data after it. `none` for a packet of less than four bytes,
-- where `packet.length() - sizeof(int)` wraps.
unfoldable pub handle_process : Wire → Call → Bytes → Process → Option (List Bytes × Process)
unfolding dispatch broken_reply
handle_process w call packet p =
    if ltb (length packet) 4 then none else elim (w.cmd_base.parse (drop 4 packet)) [
      | none ↦ some (broken_reply w ∷ [], p)
      | some b ↦ some (dispatch w call b p)
    ]
