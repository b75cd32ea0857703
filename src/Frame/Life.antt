-- ===== src/Frame/Life.antt =====
-- The life of a process: packets and rounds of the loop in any order (QuaServer/Frame.cpp). Each
-- handler is one step, as in Dispatch.
use modern_flux.Base.{
  ℕ, suc, ◌+◌, ◌*◌, ◌^◌, ◌≤◌, ◌<◌, ◌≡◌, refl, ap, none, some, List, [], ◌∷◌, arith, length, drop,
  take, ◌-◌,
}
use modern_flux.Base.Int.{pos}
use modern_flux.Base.Bytes.{Bytes}
use modern_flux.Message.{QuotaReq}
use modern_flux.Base.Word.{i32, u32}
use modern_flux.Packet.{ntohl}
use modern_flux.Server.Ledger.{requests}
use modern_flux.Server.Query.{act_quota, act_key}
use modern_flux.Server.Reply.{get_query_quota-le}
use modern_flux.Dispatch.{Wire, Call, ask_quota}
use modern_flux.Frame.{
  Worker, started, my_protocol_check, spp_handle_input, spp_handle_loop, spp_handle_process, Event,
  packet, loop, happen, live,
}
use modern_flux.Frame.Ledgers.{lookup_or-HasLedgers}
use modern_flux.Frame.Booked.{
  IsBooked, grow, of_base, handle_process-IsBooked, spp_handle_loop-IsBooked,
}

-- The requests that the packets of a life report.
abbrev pub reported : Wire → List Event → ℕ
reported w [] = 0
reported w (packet call raw ∷ es) = of_base w (w.cmd_base.parse (drop 4 raw)) + reported w es
reported w (loop t ∷ es) = reported w es

-- What the framework hands over as a packet: the bytes that spp_handle_input counts at the head of
-- what has arrived, where the length in the header is below 2^32 - 4. A larger one wraps around.
pub record IsCut (raw : Bytes) : Type 0 where
  pub arrived : Bytes
  pub header : ntohl arrived < 2 ^ 32 - 4
  pub counted : spp_handle_input (some arrived) ≡ pos (length raw)
  pub cut : take (length raw) arrived ≡ raw
  pub some_byte : 0 < length raw

-- Such a packet holds its header.
IsCut-length : (raw : Bytes) → IsCut raw → 4 ≤ length raw
unfolding spp_handle_input my_protocol_check i32 u32
IsCut-length raw c = ground (arith, c.header, c.counted, c.some_byte)

abbrev pub AreCut : List Event → Type 0
AreCut [] = Unit {0}
AreCut (packet call raw ∷ es) = IsCut raw × AreCut es
AreCut (loop t ∷ es) = AreCut es

happen-IsBooked :
    (w : Wire) (e : Event) (bound : ℕ) (worker : Worker)
    → AreCut (e ∷ [])
    → bound + reported w (e ∷ []) < 2 ^ 31
    → IsBooked bound worker.process
    → (r : List Bytes × Worker) × (happen w e worker ≡ some r)
      × IsBooked (bound + reported w (e ∷ [])) r.1.process
unfolding happen
happen-IsBooked w (packet call raw) bound worker (cut, rest) fits h =
    let n : ℕ = of_base w (w.cmd_base.parse (drop 4 raw)) in
    let (r, handled, booked) =
      handle_process-IsBooked w call bound raw worker.process (IsCut-length raw cut) (omega arith)
        h in
    (
      (r.0, record worker { process = r.1 }),
      rw (handled, spp_handle_process) refl,
      grow (bound + n) (bound + (n + 0)) r.1 (omega arith) booked,
    )
happen-IsBooked w (loop t) bound worker cut fits h = (
  ([], spp_handle_loop t worker),
  refl,
  grow bound (bound + 0) (spp_handle_loop t worker).process (omega arith)
      (spp_handle_loop-IsBooked bound t worker h),
)

reported_first :
    (w : Wire) (e : Event) (es : List Event)
    → reported w (e ∷ es) ≡ reported w (e ∷ []) + reported w es
reported_first w (packet call raw) es = omega arith
reported_first w (loop t) es = omega arith

cut_first : (e : Event) (es : List Event) → AreCut (e ∷ es) → AreCut (e ∷ []) × AreCut es
cut_first (packet call raw) es (cut, rest) = ((cut, tt), rest)
cut_first (loop t) es rest = (tt, rest)

live-IsBooked :
    (w : Wire) (es : List Event) (bound : ℕ) (worker : Worker)
    → AreCut es
    → bound + reported w es < 2 ^ 31
    → IsBooked bound worker.process
    → (r : List (List Bytes) × Worker) × (live w es worker ≡ some r)
      × (length r.0 ≡ length es)
      × IsBooked (bound + reported w es) r.1.process
unfolding live
live-IsBooked w [] bound worker cut fits h =
    (([], worker), refl, refl, grow bound (bound + 0) worker.process (omega arith) h)
live-IsBooked w (e ∷ es) bound worker cut fits h =
    let n : ℕ = reported w (e ∷ []) in
    let (first, more) = cut_first e es cut in
    let total = reported_first w e es in
    let (one, happened, booked) = happen-IsBooked w e bound worker first (omega arith) h in
    let (rest, lived, count, end) =
      live-IsBooked w es (bound + n) one.1 more (omega arith) booked in
    (
      (one.0 ∷ rest.0, rest.1),
      rw (happened, live, lived) refl,
      ap suc count,
      grow (bound + n + reported w es) (bound + reported w (e ∷ es)) rest.1.process (omega arith)
          end,
    )

started-IsBooked : IsBooked 0 started.process
started-IsBooked = record { keys = tt; procs = tt; sums = tt }

-- However packets and rounds of the loop follow each other in the life of a process, where each packet
-- is what spp_handle_input has counted, above 0, at the head of what arrived, with a length below
-- 2^32 - 4 in its header: if six times the requests that they report, and those of one more request,
-- stay an int32_t, it handles all of them without a fault. At the end the slots of all keys of the
-- first server, and of all sets and processes of the second, are balanced with at most these
-- requests each, and that one request is answered with at most the quota of its key.
pub live-answers :
    (w : Wire) (es : List Event) (call : Call) (req : QuotaReq)
    → AreCut es
    → 6 * (reported w es + requests req.reportitem) < 2 ^ 31
    → (r : List (List Bytes) × Worker) × (live w es started ≡ some r)
      × (length r.0 ≡ length es)
      × IsBooked (reported w es) r.1.process
      × ((n : ℕ) × ((ask_quota call req r.1.process).0.localq ≡ pos n) × (n ≤ act_quota none req))
live-answers w es call req cut fits =
    let (r, lived, count, booked) =
      live-IsBooked w es 0 started cut (omega arith) started-IsBooked in
    let end = grow (0 + reported w es) (reported w es) r.1.process (omega arith) booked in
    let slots =
      lookup_or-HasLedgers (reported w es) call.context.junk (act_key req)
        r.1.process.first.s_map_quota end.keys in
    let (n, given, total, le) =
      get_query_quota-le call.exchange call.context
        (record { remoteip = call.remoteip; uptime = call.uptime }) req none (reported w es)
        r.1.process.first slots fits in
    (r, lived, count, end, (n, given, le))
