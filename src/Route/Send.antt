-- ===== src/Route/Send.antt =====
-- Sending a request to a remote server with retries: mt_tcpsendrcv_route and L5TransString of
-- QuaServer/SppApi.cpp, and the structures of QuaServer/SppApi.h. The L5 client, the clock and the
-- exchange itself are parameters. The log text (`ss`) and the binary form of the address (`addr`,
-- which repeats `ip` and `port`) are left out.
pub mod Retries
use modern_flux.Base.{
  ℕ, zero, suc, ◌+◌, ◌-◌, ◌≡◌, Bool, true, false, ◌&&◌, ◌||◌, not, Option, none, some, List, [],
  ◌∷◌, ◌++◌, ltb, ◌==◌, if◌then◌else◌, length, get_or, set,
}
use modern_flux.Base.Int.{ℤ, pos, negsuc, eqb_ℤ, ltb_ℤ, positive, ◌+ℤ◌, ◌-ℤ◌}
use modern_flux.Base.Word.{i32, i64, u64}
use modern_flux.Base.Bytes.{Bytes}
use modern_flux.Text.{digits}

-- SEND_TRY_NUM
abbrev pub send_try_num : ℕ
send_try_num = 2

-- The part of an L5 request that the code uses.
pub record Qos : Type 0 where
  pub modid : ℤ
  pub cmd : ℤ
  pub host_ip : Bytes
  pub host_port : ℤ

pub record SendItem : Type 0 where
  pub ret : ℤ
  pub send : ℤ
  pub recv : ℤ
  pub modid : ℤ
  pub cmd : ℤ
  pub ip : Bytes
  pub port : ℤ
  pub l5ret : ℤ
  pub sl5 : Bytes
  pub perdelta : ℤ

pub record SendInfo : Type 0 where
  pub senditem : List SendItem
  pub times : ℤ
  pub timeout_num : ℤ
  pub suc_num : ℤ
  pub fail_num : ℤ
  pub delta : ℤ

-- SendItem::Init and SendInfo::Init, on fresh strings.
abbrev pub init_item : SendItem
init_item = record {
  ret = pos 0;
  send = pos 0;
  recv = pos 0;
  modid = pos 0;
  cmd = pos 0;
  ip = [];
  port = pos 0;
  l5ret = pos 0;
  sl5 = [];
  perdelta = pos 0;
}

abbrev pub init_info : SendInfo
init_info = record {
  senditem = init_item ∷ init_item ∷ [];
  times = pos 0;
  timeout_num = pos 0;
  suc_num = pos 0;
  fail_num = pos 0;
  delta = pos 0;
}

-- L5ROUTER
pub record L5Router : Type 0 where
  pub qos : Qos
  pub ip : Bytes
  pub port : ℤ
  pub sendinfo : SendInfo
  pub num : ℤ

-- What the rounds meet: the route that L5 gives, the exchange with an address, and the clock before
-- and after it, and at the two ends of the call.
pub record Network : Type 0 where
  pub get_route : ℕ → Qos → ℤ × Qos
  pub send_receive : ℕ → Bytes → ℤ → ℤ
  pub before : ℕ → ℤ
  pub after : ℕ → ℤ
  pub begin : ℤ
  pub finish : ℤ

-- A call of ApiRouteResultUpdate: the return code and the time.
pub record Update : Type 0 where
  pub ret : ℤ
  pub used : ℕ

-- L5TransString; `l5` is the string before.
unfoldable pub l5_trans_string : Qos → Bytes → Bytes
l5_trans_string q l5 = elim q.modid [
  | pos (suc m) ↦ elim q.cmd [
    | pos (suc c) ↦ digits 20 (suc m) ++ (58 ∷ digits 20 (suc c))
    | pos zero ↦ l5
    | negsuc c ↦ l5
  ]
  | pos zero ↦ l5
  | negsuc m ↦ l5
]

-- The state of the loop; `stop` is a `break`.
pub record Sending : Type 0 where
  pub qos : Qos
  pub info : SendInfo
  pub ret : ℤ
  pub updates : List Update
  pub stop : Bool

-- The return codes after which no other server is tried.
unfoldable pub is_final : ℤ → Bool
is_final ret =
    eqb_ℤ ret (pos 0) || eqb_ℤ ret (negsuc 0) || eqb_ℤ ret (negsuc 5) || eqb_ℤ ret (negsuc 2)

-- `n++`, where the condition holds.
abbrev pub count_if : Bool → ℤ → ℤ
count_if b n = if b then i32 (n +ℤ pos 1) else n

-- The route of a round, and what L5 returned; -1 without an L5 id.
unfoldable pub route_round : Network → ℕ → Qos → ℤ × Qos
route_round net i q =
    let found = net.get_route i q in
    if positive q.modid && positive q.cmd then found else (negsuc 0, q)

-- The item of a round before the exchange.
unfoldable pub route_item : L5Router → ℤ → Qos → SendItem → SendItem
unfolding l5_trans_string
route_item r l5ret q item =
    let routed = eqb_ℤ l5ret (pos 0) in
    record item {
      modid = q.modid;
      cmd = q.cmd;
      l5ret = l5ret;
      sl5 = l5_trans_string q item.sl5;
      ip = if routed then q.host_ip else r.ip;
      port = if routed then q.host_port else r.port;
    }

-- No route, and no address of its own.
abbrev pub no_address : L5Router → ℤ → Bool
no_address r l5ret = not (eqb_ℤ l5ret (pos 0)) && ((0 == length r.ip) || eqb_ℤ r.port (pos 0))

-- The exchange of a round.
unfoldable pub exchange_round : Network → ℕ → ℤ → Qos → SendItem → Sending → Sending
unfolding is_final
exchange_round net i l5ret q item s =
    let ret = net.send_receive i item.ip item.port in
    let send = net.before i in
    let recv = net.after i in
    let delta = i64 (recv -ℤ send) in
    let done : SendItem = record item {
      send = send;
      recv = recv;
      ret = ret;
      perdelta = if ltb_ℤ send recv then i32 delta else item.perdelta;
    } in
    record {
      qos = q;
      info = record s.info {
        senditem = set s.info.senditem i done;
        times = i32 (s.info.times +ℤ pos 1);
        suc_num = count_if (eqb_ℤ ret (pos 0)) s.info.suc_num;
        fail_num = count_if (not (eqb_ℤ ret (pos 0))) s.info.fail_num;
        timeout_num = count_if (eqb_ℤ ret (negsuc 2)) s.info.timeout_num;
      };
      ret = ret;
      updates =
          if eqb_ℤ l5ret (pos 0)
          then s.updates ++ (record { ret = ret; used = u64 delta } ∷ [])
          else s.updates;
      stop = is_final ret;
    }

-- One round.
unfoldable pub send_round : Network → L5Router → ℕ → Sending → Sending
unfolding route_round route_item exchange_round
send_round net r i s =
    let (l5ret, q) = route_round net i s.qos in
    let item = route_item r l5ret q (get_or s.info.senditem i init_item) in
    if no_address r l5ret
    then record s {
      qos = q;
      info = record s.info { senditem = set s.info.senditem i item };
      ret = negsuc 8;
      stop = true;
    }
    else exchange_round net i l5ret q item s

-- The loop, with the rounds that are left. `none` is a write behind the array `senditem`.
unfoldable pub send_rounds : Network → L5Router → ℕ → ℕ → Sending → Option Sending
send_rounds net r zero i s = some s
send_rounds net r (suc n) i s =
    let next = send_round net r i s in
    let rest = send_rounds net r n (suc i) next in
    if ltb i send_try_num then (if next.stop then some next else rest) else none

-- The number of rounds of `for (int i = 0; i < num; i++)`.
abbrev pub rounds_of : ℤ → ℕ
rounds_of (pos n) = n
rounds_of (negsuc n) = 0

-- The time of the whole call.
abbrev pub timed : Network → Option Sending → Option Sending
timed net none = none
timed net (some s) =
    some (record s { info = record s.info { delta = i64 (net.finish -ℤ net.begin) } })

-- mt_tcpsendrcv_route
unfoldable pub mt_tcpsendrcv_route : Network → L5Router → Option Sending
unfolding send_rounds
mt_tcpsendrcv_route net r =
    let start : Sending = record {
      qos = r.qos;
      info = r.sendinfo;
      ret = pos 0;
      updates = [];
      stop = false;
    } in
    timed net (send_rounds net r (rounds_of r.num) 0 start)
