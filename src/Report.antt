-- ===== src/Report.antt =====
-- Reports over UDP: MapSendUDP and SendUDP of QuaServer/UDPAPI.cpp, and RealReport and QuotaReport of
-- QuaServer/ServiceQua.cpp. Sockets and L5 are parameters. `s_report_shutdown`, which is true in the
-- source, is a parameter here, and so the handlers leave these calls out.
pub mod Descriptors
pub mod Local
pub mod Routing
pub mod Address
use modern_flux.Base.{
  ℕ, ◌+◌, ◌%◌, ◌^◌, Bool, true, false, ◌&&◌, ◌||◌, Option, none, some, List, [], ◌∷◌, ◌++◌, ltb,
  ◌==◌, if◌then◌else◌, length,
}
use modern_flux.Base.Int.{ℤ, pos, negsuc, positive, eqb_ℤ, ◌+ℤ◌, ltb_ℤ, ◌-ℤ◌}
use modern_flux.Base.Word.{i32}
use modern_flux.Base.Bytes.{Bytes, bytes}
use modern_flux.Base.Dict.{Dict, lookup_or, insert, emplace}
use modern_flux.Text.{digits, underscore}
use modern_flux.Quota.Slot.{TimeItem, ProData, real}
use modern_flux.Packet.{Codec, CmdBase, empty_base}

-- What the system does for one call: the descriptor of a new socket, and what `send` returns for a
-- descriptor.
pub record Socket : Type 0 where
  pub socket : ℤ
  pub send : ℤ → Bytes → ℤ

-- The descriptors by address, and those that the process holds: what `socket` has returned and `close`
-- has not been called for.
pub record Sockets : Type 0 where
  pub mapfd : Dict ℤ
  pub held : List ℤ

-- `close`
abbrev pub close : ℤ → List ℤ → List ℤ
close fd [] = []
close fd (d ∷ ds) = let rest = close fd ds in if eqb_ℤ d fd then ds else d ∷ rest

-- `ss << port`
unfoldable pub show_int : ℤ → Bytes
show_int (pos n) = digits 20 n
show_int (negsuc n) = 45 ∷ digits 20 (n + 1)

unfoldable pub address_key : Bytes → ℤ → Bytes
unfolding show_int
address_key ip port = ip ++ underscore ++ show_int port

-- The descriptor of an address, opened where there is none.
unfoldable pub connect_udp : Socket → Bytes → Sockets → ℤ × Sockets
connect_udp io key s =
    let m = emplace key (pos 0) s.mapfd in
    let fd = lookup_or key (pos 0) m in
    if eqb_ℤ (pos 0) fd
    then (io.socket, record s { mapfd = insert key io.socket m; held = io.socket ∷ s.held })
    else (fd, record s { mapfd = m })

-- MapSendUDP: what `send` returned, and the descriptors after it.
unfoldable pub map_send_udp : Socket → Bytes → ℤ → Bytes → Sockets → ℤ × Sockets
unfolding address_key connect_udp
map_send_udp io ip port src s =
    let key = address_key ip port in
    let (fd, t) = connect_udp io key s in
    let len = io.send fd src in
    if positive len
    then (len, t)
    else (len, record t { mapfd = insert key (pos 0) t.mapfd; held = close fd t.held })

-- SendUDP, for one descriptor: what `send` returned, and the descriptor after it.
unfoldable pub send_udp : Socket → Bytes → ℤ → ℤ × ℤ
send_udp io src fd =
    let used = if eqb_ℤ (pos 0) fd then io.socket else fd in
    let len = io.send used src in (len, if positive len then used else pos 0)

-- The messages RealReport and QReport of Protocol/open_app_desc.proto.
pub record RealMessage : Type 0 where
  pub keytype : ℤ
  pub keyname : Bytes
  pub timekey : ℤ
  pub setname : Bytes
  pub total : ℤ
  pub refuse : ℤ
  pub setrefuse : ℤ
  pub real : ℤ
  pub quota : ℤ

pub record QReport : Type 0 where
  pub actid : Bytes
  pub ip : Bytes
  pub procid : ℤ
  pub timekey : ℤ
  pub setname : Bytes
  pub actquota : ℤ
  pub setquota : ℤ
  pub total : ℤ
  pub refuse : ℤ
  pub setrefuse : ℤ
  pub real : ℤ

-- The static variables of a reporting function: its counter and the address it sends to.
pub record Sender : Type 0 where
  pub num : ℕ
  pub ip : Bytes
  pub port : ℤ

-- REAL_REPORT_CMD and QUOTA_REPORT_CMD
abbrev pub real_report_cmd : ℤ
real_report_cmd = pos 153

abbrev pub quota_report_cmd : ℤ
quota_report_cmd = pos 154

-- Every hundredth report, and as long as there is no port, the address comes from L5.
unfoldable pub find_address : (Sender → Bytes × ℤ) → Sender → Sender
find_address l5 sender =
    let num = (sender.num + 1) % 100 in
    let (ip, port) = l5 sender in
    if eqb_ℤ (pos 0) sender.port || (0 == num)
    then record { num = num; ip = ip; port = port }
    else record sender { num = num }

-- What both functions do with a message: `total` is its text, which is not sent where it is empty.
unfoldable pub send_report :
    Socket → (Sender → Bytes × ℤ) → Bytes → Sender × Sockets → Sender × Sockets
unfolding find_address map_send_udp
send_report io l5 total (sender, s) =
    let next = find_address l5 sender in
    if ltb 0 (length total)
    then (
      next,
      if ltb 0 (length next.ip) && positive next.port
          then (map_send_udp io next.ip next.port total s).1
          else s,
    )
    else (record sender { num = (sender.num + 1) % 100 }, s)

-- RealReport
unfoldable pub real_report :
    Bool
    → Codec CmdBase
    → Codec RealMessage
    → Socket
    → (Sender → Bytes × ℤ)
    → ℤ
    → Bytes
    → ℤ
    → Bytes
    → TimeItem
    → ℤ
    → Sender × Sockets
    → Sender × Sockets
unfolding send_report
real_report shutdown base codec io l5 keytype keyname timekey setname titem quota s =
    let message : RealMessage = record {
      keytype = keytype;
      keyname = keyname;
      timekey = timekey;
      setname = setname;
      total = i32 (titem.sum +ℤ titem.refuse);
      refuse = titem.refuse;
      setrefuse = titem.setrefuse;
      real = real titem;
      quota = quota;
    } in
    let head : CmdBase = record empty_base {
      cmd_id = real_report_cmd;
      body = codec.serialize message;
    } in
    if shutdown then s else send_report io l5 (base.serialize head) s

-- QuotaReport
unfoldable pub quota_report :
    Bool
    → Codec CmdBase
    → Codec QReport
    → Socket
    → (Sender → Bytes × ℤ)
    → Bytes
    → Bytes
    → ℤ
    → Bytes
    → ℤ
    → ℤ
    → ProData
    → ℤ
    → Sender × Sockets
    → Sender × Sockets
unfolding send_report
quota_report shutdown base codec io l5 actkey ip id setkey aquota squota report timekey s =
    let message : QReport = record {
      actid = actkey;
      ip = ip;
      procid = id;
      timekey = timekey;
      setname = setkey;
      actquota = aquota;
      setquota = squota;
      total = i32 (report.sum +ℤ report.refuse);
      refuse = report.refuse;
      setrefuse = report.setrefuse;
      real =
          if ltb_ℤ report.setrefuse report.sum then i32 (report.sum -ℤ report.setrefuse) else pos 0;
    } in
    let head : CmdBase = record empty_base {
      cmd_id = quota_report_cmd;
      body = codec.serialize message;
    } in
    if shutdown then s else send_report io l5 (base.serialize head) s
