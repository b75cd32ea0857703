-- ===== src/Tests/Lives.antt =====
-- Concrete runs of a process: its start, its packets and its loop, and a client's call over packets.
use modern_flux.Base.{
  ◌++◌, take, ℕ, ◌+◌, ◌*◌, ◌≤◌, ◌<◌, ◌≡◌, ◌^◌, refl, none, some, List, [], ◌∷◌, arith, length,
}
use modern_flux.Base.Int.{pos}
use modern_flux.Base.Word.{i32, u32}
use modern_flux.Base.Bytes.{Bytes}
use modern_flux.Packet.{frame, htonl, ntohl}
use modern_flux.Server.Ledger.{requests}
use modern_flux.Server.Query.{act_quota}
use modern_flux.Dispatch.{ask_quota, handle_process}
use modern_flux.Frame.{
  Worker, started, my_protocol_check, spp_handle_input, Tick, Event, packet, loop, live,
}
use modern_flux.Frame.Booked.{IsBooked}
use modern_flux.Frame.Life.{IsCut, reported, live-answers}
use modern_flux.Tests.Wires.{wire, head, process, call}
use modern_flux.Tests.Shares.{request}
use modern_flux.Tests.Hosts.{files}

abbrev raw : Bytes
raw = frame (wire.cmd_base.serialize (record head { body = wire.quota_req.serialize request }))

-- It arrives with one more byte.
raw-IsCut : IsCut raw
unfolding spp_handle_input my_protocol_check frame htonl ntohl i32 u32
raw-IsCut = record {
  arrived = raw ++ 7 ∷ [];
  header = omega arith;
  counted = refl;
  cut = refl;
  some_byte = omega arith;
}

-- A header from 2^32 - 3 on is counted as a packet that is shorter than it, and HandleProcess then reads
-- behind the packet.
abbrev wrapped : Bytes
wrapped = 255 ∷ 255 ∷ 255 ∷ 253 ∷ []

wrapped_counted : spp_handle_input (some wrapped) ≡ pos 1
unfolding spp_handle_input my_protocol_check ntohl i32 u32
wrapped_counted = refl

wrapped_fault : handle_process wire call (take 1 wrapped) process ≡ none
unfolding handle_process
wrapped_fault = refl

abbrev tick : Tick
tick = record { now = 500000; hour = 17; files = files; loadtime = 500000; ttime = pos 1000 }

abbrev events : List Event
events = packet call raw ∷ loop tick ∷ packet call raw ∷ []

events_few : 6 * (reported wire events + requests request.reportitem) < 2 ^ 31
unfolding frame htonl
events_few = omega arith

live-answers_example :
    (r : List (List Bytes) × Worker) × (live wire events started ≡ some r)
    × (length r.0 ≡ length events)
    × IsBooked (reported wire events) r.1.process
    × ((n : ℕ) × ((ask_quota call request r.1.process).0.localq ≡ pos n)
        × (n ≤ act_quota none request))
live-answers_example = live-answers wire events call request (raw-IsCut, (raw-IsCut, tt)) events_few
