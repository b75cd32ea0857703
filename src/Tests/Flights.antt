-- ===== src/Tests/Flights.antt =====
-- Concrete runs of the first server's accesses to the second.
use modern_flux.Base.{◌≡◌, refl, ap, some, [], ◌∷◌, replicate, none, arith}
use modern_flux.Base.Int.{pos, negsuc, pos_part}
use modern_flux.Base.Bytes.{Bytes, bytes, eq_bytes}
use modern_flux.Base.Dict.{lookup, lookup_or, sum_by}
use modern_flux.Message.{SetQuotaReq, SetQuotaRsp}
use modern_flux.Server.{Server}
use modern_flux.Server.Second.{access_second, may_ask, set_request, touch_procs}
use modern_flux.Server.Overlap.{begin_access, end_access}
use modern_flux.Server.Overlap.Flight.{
  waiting, Steps, stay, step, ask, answer, IsOneFlight, Steps-IsOneFlight,
}
use modern_flux.Config.Sets.{init_set_cfg}
use modern_flux.SetServer.{pro_set_quota, serve_procs, proc_answers}
use modern_flux.Dispatch.{Wire, Process, Call, handle_process}
use modern_flux.Route.Send.{Network}
use modern_flux.Dispatch.Second.{
  second_exchange, ask_second, first_reply, second_exchange-answers, access_second-too_long,
}
use modern_flux.Tests.Codecs.{
  to_codec, to_codec-IsLawful, cmd_base, cmd_base_resp, quota_req, quota_rsp, set_req, set_rsp,
}
use modern_flux.Report.{Socket, Sockets, map_send_udp}
use modern_flux.Report.Descriptors.{IsTidy, not_zero, map_send_udp-IsTidy}

abbrev key : Bytes
key = 115 ∷ []

abbrev server : Server
server = record {
  s_map_quota = [];
  s_map_proc_quota = [];
  map_set_ip_cfg = [];
  map_set_cfg_first = (key, init_set_cfg) ∷ [];
  s_setproc = [];
}

abbrev rsp : SetQuotaRsp
rsp = record { setkey = key; setsum = pos 40; procq = [] }

-- The server while it waits.
abbrev asked : Server
asked = (begin_access (pos 1) 10 key init_set_cfg server).1

one : Steps (server, []) (asked, key ∷ [])
unfolding begin_access may_ask lookup eq_bytes
one =
    step (server, []) (server, []) (asked, key ∷ []) (stay (server, []))
      (ask (pos 1) 10 key init_set_cfg
        (set_request (pos 1) key (record init_set_cfg { updatetime = 10; lock = 1 })
          (touch_procs [] []) [])
        server asked [] refl refl)

two : Steps (server, []) (end_access 10 key (some rsp) asked, [])
two =
    step (server, []) (asked, key ∷ []) (end_access 10 key (some rsp) asked, []) one
      (answer 10 key (some rsp) asked [] [])

free : IsOneFlight (server, [])
unfolding waiting lookup_or lookup
free k = ground arith

Steps-IsOneFlight_example : IsOneFlight (end_access 10 key (some rsp) asked, [])
Steps-IsOneFlight_example =
    Steps-IsOneFlight (server, []) (end_access 10 key (some rsp) asked, []) two free

-- An address whose datagram is not sent.
abbrev socket : Socket
socket = record { socket = pos 7; send = λ fd src. pos 0 }

-- The process holds a descriptor for another address.
abbrev two_addresses : Sockets
two_addresses = record {
  mapfd = (bytes "10.0.0.2_80", pos 5) ∷ (bytes "10.0.0.1_80", pos 0) ∷ [];
  held = pos 5 ∷ [];
}

addresses-IsTidy : IsTidy two_addresses
unfolding sum_by
addresses-IsTidy d other = let none_of = not_zero d other in (omega (arith, none_of), ground arith)

map_send_udp-IsTidy_example :
    IsTidy (map_send_udp socket (bytes "10.0.0.1") (pos 80) (1 ∷ []) two_addresses).1
map_send_udp-IsTidy_example =
    map_send_udp-IsTidy socket (bytes "10.0.0.1") (pos 80) (1 ∷ []) two_addresses
      (λ e. absurd (omega (arith, ap pos_part e))) refl addresses-IsTidy

-- A wire whose requests for sets are longer than the buffer.
abbrev wide_wire : Wire
wide_wire = record {
  cmd_base = to_codec cmd_base;
  cmd_base_resp = to_codec cmd_base_resp;
  quota_req = to_codec quota_req;
  quota_rsp = to_codec quota_rsp;
  set_req = record { serialize = λ r. replicate 4100 0; parse = λ b. none };
  set_rsp = to_codec set_rsp;
}

abbrev wire : Wire
wire = record wide_wire { set_req = to_codec set_req }

abbrev process : Process
process = record { first = server; s_map_setprocdata = []; s_map_setsumdata = [] }

abbrev call : Call
call = record {
  context = record { now = 1000; time = 1000; junk = 0; group = pos 1 };
  remoteip = bytes "10.0.0.2";
  uptime = 10;
  exchange = λ r. none;
}

-- A request without a set.
abbrev no_set : SetQuotaReq
no_set = record { setkey = []; itemlist = []; workernum = pos 1; id = pos 1; procitem = [] }

-- A network that reaches every address.
abbrev network : Network
network = record {
  get_route = λ i q. (negsuc 0, q);
  send_receive = λ i ip port. pos 0;
  before = λ i. pos 100;
  after = λ i. pos 130;
  begin = pos 100;
  finish = pos 160;
}

abbrev deliver : Bytes → Bytes
deliver packet = first_reply (handle_process wire call packet process)

second_exchange-answers_example :
    second_exchange wire network deliver (bytes "127.0.0.1") no_set
    ≡ some (ask_second call no_set process)
second_exchange-answers_example =
    second_exchange-answers wire (to_codec-IsLawful cmd_base) network deliver (bytes "127.0.0.1")
      call process no_set (to_codec-IsLawful set_req) (to_codec-IsLawful set_rsp) (omega arith) refl
      refl (omega arith) (omega arith)
      (unfold pro_set_quota serve_procs proc_answers in omega arith)

access_second-too_long_example :
    let t =
      access_second
        (second_exchange wide_wire network deliver (bytes "127.0.0.1"))
        (pos 1)
        10
        key
        init_set_cfg
        server in
    (t.s_setproc ≡ [])
    × (t.s_map_proc_quota ≡ touch_procs server.s_setproc server.s_map_proc_quota)
    × (lookup key t.map_set_cfg_first ≡ some (record init_set_cfg { updatetime = 10 }))
access_second-too_long_example =
    access_second-too_long wide_wire (to_codec-IsLawful cmd_base) network deliver
      (bytes "127.0.0.1") call process (pos 1) 10 key init_set_cfg server (unfold may_ask in refl)
      (omega arith) (omega arith)
