-- ===== src/Tests/Wires.antt =====
-- Concrete runs of packets, routes and the dispatch.
use modern_flux.Server.Query.{
  get_query_quota, act_quota, proc_id, serve_key, act_key, response, count_workers, allocate_key,
  host_workers, store_set,
}
use modern_flux.Server.{get_set_key, get_set_cfg_first}
use modern_flux.Server.Alloc.{startup, read_slots, read_slot, allocate}
use modern_flux.Quota.Record.{init_key_qua_alloc, init_qdata}
use modern_flux.Base.Dict.{emplace, lookup, lookup_or, insert}
use modern_flux.Text.{make_procid, digits}
use modern_flux.Quota.Peer.{
  valid_id, init_id_info_map, clean_report_id, clean_ids, add_worker_item, get_worker_num,
  get_last_quota,
}
use modern_flux.Quota.Times.{get_time_key}
use modern_flux.Base.Bytes.{eq_bytes}
use modern_flux.Base.Word.{i32, u32}
use modern_flux.Base.{
  ℕ, List, zero, suc, ◌+◌, ◌<◌, ◌≡◌, ◌≤◌, refl, none, some, [], ◌∷◌, ◌++◌, arith, length, take,
  drop, get_or,
}
use modern_flux.Base.Int.{pos, negsuc, ◌+ℤ◌}
use modern_flux.Quota.Peer.{judge}
use modern_flux.Server.Books.{report_items}
use modern_flux.Base.Bytes.{Bytes, bytes}
use modern_flux.Message.{QuotaReq}
use modern_flux.Packet.{
  htonl, ntohl, CmdBase, ok, or_err, frame, set_binary_pack, protocol_check, parse_rsp_tmplt,
  body_request,
}
use modern_flux.Packet.Stream.{protocol_check-packs}
use modern_flux.Route.{
  base_route, spp_bin_route, handle_route, key_route, handle_routes, quota_query_cmd,
}
use modern_flux.Route.Groups.{handle_routes-all_groups, handle_route-request}
use modern_flux.Route.Send.{Network, L5Router, Sending, init_info, mt_tcpsendrcv_route}
use modern_flux.Route.Send.Retries.{IsOutcome, mt_tcpsendrcv_route-returns}
use modern_flux.Dispatch.{
  Wire, Process, Call, reply_base, error_base, error_body, ask_quota, handle_process,
}
use modern_flux.Dispatch.Replies.{handle_process-answers, handle_process-error}
use modern_flux.Tests.Codecs.{
  to_codec, to_codec-IsLawful, cmd_base, cmd_base_resp, quota_req, quota_rsp,
}

protocol_check-packs_example :
    (protocol_check (frame (1 ∷ 2 ∷ []) ++ (3 ∷ [])) ≡ pos (length (frame (1 ∷ 2 ∷ []))))
    × (protocol_check (take 5 (frame (1 ∷ 2 ∷ []))) ≡ pos 0)
protocol_check-packs_example =
    protocol_check-packs 100 (1 ∷ 2 ∷ []) (frame (1 ∷ 2 ∷ [])) (3 ∷ []) 5 (omega arith)
      (unfold set_binary_pack in refl) (omega arith) (unfold frame htonl in omega arith)

abbrev pub wire : Wire
wire = record {
  cmd_base = to_codec cmd_base;
  cmd_base_resp = to_codec cmd_base_resp;
  quota_req = to_codec quota_req;
  quota_rsp = to_codec quota_rsp;
  set_req = record { serialize = λ r. []; parse = λ s. none };
  set_rsp = record { serialize = λ r. []; parse = λ s. none };
}

-- A request for the key `a`.
abbrev ask : QuotaReq
ask = record {
  key = 97 ∷ [];
  referkey = [];
  reportitem = [];
  localquota = pos 0;
  id = pos 1;
  serial = [];
  totalquota = pos 50;
  nowsum = pos 3;
  workernum = pos 1;
  setkey = [];
}

abbrev pub head : CmdBase
head = record {
  seq_id = pos 9;
  cmd_id = quota_query_cmd;
  type = body_request;
  body = wire.quota_req.serialize ask;
}

-- Three packets of a header only.
abbrev loose : List Bytes
loose = (0 ∷ 0 ∷ 0 ∷ 4 ∷ []) ∷ (0 ∷ 0 ∷ 0 ∷ 0 ∷ []) ∷ (0 ∷ 0 ∷ 0 ∷ 0 ∷ []) ∷ []

handle_routes-all_groups_example :
    (gs : List ℕ) × (handle_routes wire.cmd_base wire.quota_req 3 7 loose ≡ some gs)
    × ((g : ℕ) → 1 ≤ g → g ≤ 3 → (i : ℕ) × (i < 3) × (get_or gs i 0 ≡ g))
handle_routes-all_groups_example =
    handle_routes-all_groups wire.cmd_base wire.quota_req 3 loose 7
      (unfold spp_bin_route in (refl, (refl, (refl, tt)))) refl (omega arith)

handle_route-request_example :
    (handle_route wire.cmd_base wire.quota_req 3 7 (frame (wire.cmd_base.serialize head))
      ≡ some (key_route 3 ask.key, 7))
    × (2 ≤ key_route 3 ask.key)
    × (key_route 3 ask.key ≤ 3)
handle_route-request_example =
    handle_route-request wire.cmd_base wire.quota_req 3 head ask 7 (to_codec-IsLawful cmd_base)
      (to_codec-IsLawful quota_req) (omega arith) (omega arith) (omega arith) refl refl
      (omega arith) (omega arith)

-- A command that is a request for a quota only in its low 32 bits is routed by its key, too.
wide_command :
    base_route wire.quota_req 3 (record head { cmd_id = pos 4294967446 }) ≡ key_route 3 ask.key
unfolding base_route i32
wide_command = refl

-- A packet that is shorter than its header says is read behind its end.
short_packet : spp_bin_route wire.cmd_base wire.quota_req 3 (0 ∷ 0 ∷ 0 ∷ 9 ∷ 1 ∷ []) ≡ none
unfolding spp_bin_route ntohl
short_packet = refl

-- A first server that does not answer, a second that does, and L5 knows both.
abbrev pub network : Network
network = record {
  get_route = λ i q. (pos 0, q);
  send_receive = λ i ip port. elim i [ zero ↦ negsuc 3 | suc j ↦ pos 0 ];
  before = λ i. pos 100;
  after = λ i. pos 130;
  begin = pos 100;
  finish = pos 160;
}

abbrev router : L5Router
router = record {
  qos = record { modid = pos 5; cmd = pos 6; host_ip = bytes "10.0.0.1"; host_port = pos 80 };
  ip = [];
  port = pos 0;
  sendinfo = init_info;
  num = pos 2;
}

mt_tcpsendrcv_route-returns_example :
    (end : Sending) × (mt_tcpsendrcv_route network router ≡ some end) × IsOutcome 2 end
mt_tcpsendrcv_route-returns_example =
    mt_tcpsendrcv_route-returns network router 1 refl (omega arith) refl

abbrev pub process : Process
process = record {
  first = record {
    s_map_quota = [];
    s_map_proc_quota = [];
    map_set_ip_cfg = [];
    map_set_cfg_first = [];
    s_setproc = [];
  };
  s_map_setprocdata = [];
  s_map_setsumdata = [];
}

abbrev pub call : Call
call = record {
  context = record { now = 1000; time = 1000; junk = 0; group = pos 1 };
  remoteip = bytes "10.0.0.2";
  uptime = 10;
  exchange = λ r. none;
}

handle_process-error_example :
    let base = error_base wire (record head { body = [] }) (negsuc 0) (bytes "Invalid reqbody") in
    (packet : Bytes) × (handle_process wire call
        (frame (wire.cmd_base.serialize (record head { body = [] })))
        process
      ≡ some (packet ∷ [], process))
    × (parse_rsp_tmplt wire.cmd_base wire.cmd_base_resp wire.quota_rsp (drop 4 packet)
        ≡ or_err
            (wire.quota_rsp.parse
              (wire.cmd_base_resp.serialize (error_body (negsuc 0) (bytes "Invalid reqbody"))))
            (negsuc 4))
handle_process-error_example =
    handle_process-error wire (to_codec-IsLawful cmd_base) call (record head { body = [] }) process
      refl refl refl (omega arith) (omega arith)

reply_fits :
    length (
        wire.cmd_base.serialize
          (reply_base (wire.quota_rsp.serialize (ask_quota call ask process).0)))
      + 4
    < 32768
unfolding get_query_quota act_quota proc_id get_set_key get_set_cfg_first serve_key act_key response
    startup init_key_qua_alloc emplace lookup lookup_or insert init_qdata make_procid digits
    report_items count_workers allocate_key valid_id init_id_info_map judge read_slots read_slot
    allocate get_time_key host_workers clean_report_id clean_ids add_worker_item get_worker_num
    get_last_quota store_set eq_bytes i32 u32 ◌+ℤ◌
reply_fits = omega arith

handle_process-answers_example :
    let r = ask_quota call ask process in
    let after : Process = record process { first = r.1 } in
    (packet : Bytes) × (handle_process wire call (frame (wire.cmd_base.serialize head)) process
      ≡ some (packet ∷ [], after))
    × ((rest : Bytes) → protocol_check (packet ++ rest) ≡ pos (length packet))
    × (parse_rsp_tmplt wire.cmd_base wire.cmd_base_resp wire.quota_rsp (drop 4 packet) ≡ ok r.0)
handle_process-answers_example =
    handle_process-answers wire (to_codec-IsLawful cmd_base) call head ask process
      (to_codec-IsLawful quota_req) (to_codec-IsLawful quota_rsp) refl refl refl (omega arith)
      reply_fits
