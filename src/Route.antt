-- ===== src/Route.antt =====
-- Where a packet goes: to a group of processes of the server (SppBinRoute of QuaServer/SppApi.cpp,
-- spp_handle_route of QuaServer/Frame.cpp), and to a remote server (mt_tcpsendrcv_route).
pub mod Groups
pub mod Send
use modern_flux.Base.{
  ℕ, suc, ◌+◌, ◌-◌, ◌*◌, ◌%◌, ◌^◌, Bool, true, false, ◌&&◌, Option, none, some, List, [], ◌∷◌, ltb,
  leb, ◌==◌, if◌then◌else◌, length, take, drop,
}
use modern_flux.Base.Int.{ℤ, pos, eqb_ℤ, positive}
use modern_flux.Base.Word.{mod32, i32}
use modern_flux.Base.Bytes.{Bytes}
use modern_flux.Message.{QuotaReq}
use modern_flux.Packet.{Codec, CmdBase, ntohl}

abbrev pub quota_query_cmd : ℤ
quota_query_cmd = pos 150

abbrev pub second_quota_cmd : ℤ
second_quota_cmd = pos 152

-- A byte as a signed `char`, widened to uint32_t.
abbrev pub char_32 : ℕ → ℕ
char_32 c = if ltb c 128 then c else mod32 - 256 + c

-- The sum of a key's characters, in uint32_t.
unfoldable pub key_sum : Bytes → ℕ → ℕ
key_sum [] num = num
key_sum (c ∷ key) num = key_sum key ((num + char_32 c) % mod32)

-- The group of a key, among `groups` groups; 0 for an empty key.
unfoldable pub key_route : ℕ → Bytes → ℕ
unfolding key_sum
key_route groups key = if ltb 0 (length key) then key_sum key 0 % (groups - 1) + 2 else 0

-- `cmd` of SppBinRoute: an int32_t, which stays 0 where the message has no command above 0.
abbrev pub cmd_of : CmdBase → ℤ
cmd_of b = if positive b.cmd_id then i32 b.cmd_id else pos 0

-- The group of a message, or 0.
unfoldable pub base_route : Codec QuotaReq → ℕ → CmdBase → ℕ
base_route quota_req groups b =
    if eqb_ℤ quota_query_cmd (cmd_of b) && ltb 0 (length b.body)
    then elim (quota_req.parse b.body) [ none ↦ 0 | some req ↦ key_route groups req.key ]
    else if eqb_ℤ second_quota_cmd (cmd_of b)
    then 1
    else 0

-- The packet behind its header; `none` where the header's length goes behind the blob.
abbrev pub parsed_route : Codec CmdBase → Codec QuotaReq → ℕ → Bytes → Option ℕ
parsed_route base quota_req groups blob =
    if ltb (length (drop 4 blob)) (ntohl blob)
    then none
    else elim (base.parse (take (ntohl blob) (drop 4 blob))) [
      | none ↦ some 0
      | some b ↦ some (base_route quota_req groups b)
    ]

-- SppBinRoute; `groups` is `GetGroupsSum()`. `none` is a read behind the blob: of a header of four
-- bytes, which is read before the test of the length, or of the packet.
unfoldable pub spp_bin_route : Codec CmdBase → Codec QuotaReq → ℕ → Bytes → Option ℕ
spp_bin_route base quota_req groups blob =
    if ltb groups 2
    then some 0
    else if ltb (length blob) 4
    then none
    else if leb 5 (length blob)
    then parsed_route base quota_req groups blob
    else some 0

-- The group of a packet whose own group is `route`, and the counter of the packets without one.
abbrev pub turn_route : ℕ → ℕ → ℕ → ℕ × ℕ
turn_route groups adds route =
    if ltb 0 route then (route, adds) else (adds % groups + 1, (adds + 1) % mod32)

-- spp_handle_route: the group, and the counter of the packets without one.
unfoldable pub handle_route : Codec CmdBase → Codec QuotaReq → ℕ → ℕ → Bytes → Option (ℕ × ℕ)
handle_route base quota_req groups adds blob = elim (spp_bin_route base quota_req groups blob) [
  | none ↦ none
  | some route ↦ some (turn_route groups adds route)
]

-- The groups of packets in the order of their arrival.
unfoldable pub handle_routes : Codec CmdBase → Codec QuotaReq → ℕ → ℕ → List Bytes → Option (List ℕ)
handle_routes base quota_req groups adds [] = some []
handle_routes base quota_req groups adds (blob ∷ blobs) =
    elim (handle_route base quota_req groups adds blob) [
      | none ↦ none
      | some (group, next) ↦ elim (handle_routes base quota_req groups next blobs) [
        | none ↦ none
        | some rest ↦ some (group ∷ rest)
      ]
    ]
