-- ===== src/Lib.antt =====
-- Verification of the flow control of ModernFlux.
--
-- ModernFlux limits the requests of activities. A client asks, for each request of a key, whether it
-- may pass: `CheckQuota` decides from the quota that the quota server last assigned to this process,
-- and every five seconds it reports its counts and gets a new quota. The server shares a key's quota
-- among the processes that report (`GetQueryQuota`), and a second server shares a set's quota
-- (`ProSETQuota`). Independent of quotas, `CheckQos` refuses calls of a key that failed too often in
-- the last seconds. The code is that of QuaServer.
--
-- Base: native numbers, integers, machine words, bytes and maps. A signed integer that overflows
--   keeps its low bits, as an unsigned one does in C.
-- Params: the limits of an activity (QuaServer/ServiceQua.cpp: GetWinLen, GetErrNum, HitProba;
--   ServiceQua.h: FluxSwitch, ManagerQueryLimit).
-- Window: QUAITEM, QUAWIN, UpdateQos, CheckQos and ClearKey. Window/History compares the ring with
--   the list of all calls, Window/Sum what CheckQos adds up, Window/Verdict its answer.
-- Text: SplitString and others of QuaServer/StringProcess.cpp, and process ids. A loop over a text
--   runs on fuel that its length gives, one round for each byte at least.
-- Message: the messages of Protocol/open_app_desc.proto, after parsing.
-- Quota: the server's data. Times: GetTimeKey; Slot: PRODATA, TIMEITEM and the additions of reports;
--   Peer: IDINFO, ValidID and CleanReportId; Record: QDATA and the shares of a quota.
-- Client: LOCALDATA. Judge: ProcessByRefer, ProcessByAver and the verdict of CheckQuota; Exchange:
--   the counts, the request and the answer; Check: CheckQuota in two parts. The network and the time
--   are parameters: what comes back from `mt_tcpsendrcv_route` is an argument of the second part, and
--   the clock and `rand()` are in `Env`. Cycle: the calls as steps that overlap while one waits;
--   Enforced, Restraint, Answer, Admission: what follows for quotas and answers.
-- Server: the first quota server. Books enters the reports of a request; Alloc reads the history
--   and computes the share; Second is the access to the second server, whose answer is a parameter;
--   Query is the handler GetQueryQuota. Share, Bound, Ledger and Reply: what follows for the share
--   of a process, for the slots and for the answer.
-- SetServer: the second quota server, with its handler ProSETQuota; SetServer/Ledger: its slots.
-- Packet: the packets of QuaServer/ProtoTemplate.h; Packet/Stream: packets in a stream of bytes.
-- Route: the group of processes for a packet (SppBinRoute of QuaServer/SppApi.cpp, spp_handle_route
--   of QuaServer/Frame.cpp), with Route/Groups; Route/Send: mt_tcpsendrcv_route, with Route/Send/Retries.
-- Dispatch: HandleProcess and the replies of QuaServer/FlowMsg.cpp. It calls the handlers of Server and
--   SetServer, which share the map of the sets; Dispatch/Replies: what the client reads of a reply;
--   Dispatch/Second: the exchange of the first server with the second, over packets
--   and mt_tcpsendrcv_route.
-- Config: QuaServer/FileDataMeta.h, the loader of configuration files with two copies of each file's
--   data. Config/Intact: the files that are accepted; Config/Current: the two copies; Config/Sets:
--   LoadSETInfoWrap, which gives the first server its sets; Config/Sets/Kept: what a reload leaves.
-- Host: QuaServer/CpuInfo.cpp, with Host/Usage; Host/Overload: SysOverload; Host/Entry: MTEnter,
--   ReportAtt, LoopLeave and FlowEnter, with Host/Entry/Running; Host/Clean: ClearData, with
--   Host/Clean/Fresh.
-- Report: QuaServer/UDPAPI.cpp, RealReport and QuotaReport, with Report/Descriptors and Report/Local.
-- Report/Routing: GetL5IpAndPort of QuaServer/SppApi.cpp, by which the reports find their receiver.
-- Clock: QuaServer/TimeAPI.cpp; Clock/Slices: times as texts, rounded down to a slice; Clock/Distance:
--   parts of a second, with QuaServer/TimeDelta.h.
-- Config/Erase: the erasing macros of QuaServer/FileDataMeta.h. Params/Show: GetAllPara.
-- Text/Join: texts that a delimiter joins; Text/Wrap: QuaServer/DataWrap.h and ParseKV.
-- Text/Pairs and Text/Hex: the rest of QuaServer/StringProcess.cpp that is
--   modelled, and QuaServer/TypeTransform.h.
-- Frame: the hooks of QuaServer/Frame.cpp on all data of a process. Frame/Ledgers and Frame/Booked: what
--   each event leaves in the slots of both servers; Frame/Life: any sequence of packets and rounds of
--   the loop; Frame/Init: the start, with Frame/Init/Unique.
-- Dispatch/Check: a client's call, over packets and the first server's HandleProcess and back.
-- Server/Together: the shares of several processes of a key, with their sums in Server/Together/Sums
--   and the key's quota in Server/Together/Quota.
-- Report/Address: IsLocalIP, with Report/Address/Local; Report/Address/Ids: ids made from addresses.
-- Text/Number: the conversions of numbers of QuaServer/StringProcess.cpp and QuaServer/TypeTransform.h, on
--   the system's `strtoll` and others, with Text/Number/Decimal.
-- Server/Overlap: the access to the second server in two parts, between which other requests run;
--   Server/Overlap/Flight: one access at a time for each set; Server/Overlap/Split compares the two
--   parts with the access of Server/Second.
-- Tests: concrete runs. Tests/Codecs writes messages as lists of numbers, to show that the laws which
--   some theorems ask of protobuf can hold.
--
-- Not modelled: protobuf's generated code, the spp framework, L5, jsoncpp, tinyxml and MD5, which
-- QuaServer only calls; the conversions of floats; log lines; in the handlers the reports
-- over UDP, which `s_report_shutdown` switches off. The code computes with `time_t` numbers that are
-- not negative. Division by zero and accesses out of bounds are `none`.
mod Base
pub mod Params
pub mod Window
pub mod Text
pub mod Message
pub mod Quota
pub mod Packet
pub mod Route
pub mod Dispatch
pub mod Config
pub mod Host
pub mod Report
pub mod Clock
pub mod Frame
pub mod Client
pub mod Server
pub mod SetServer
mod Tests
