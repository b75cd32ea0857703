-- ===== src/Packet.antt =====
-- Packets of QuaServer/ProtoTemplate.h: four bytes with the length of a message, in network order,
-- and the message. The functions of protobuf that write and read a message are parameters.
pub mod Stream
use modern_flux.Base.{
  ℕ, zero, suc, ◌+◌, ◌*◌, ◌/◌, ◌%◌, ◌^◌, ◌≡◌, Bool, true, false, ◌||◌, Option, none, some, List, [],
  ◌∷◌, ◌++◌, ltb, leb, ◌==◌, if◌then◌else◌, length, take, drop,
}
use modern_flux.Base.Int.{ℤ, pos, negsuc, leb_ℤ, eqb_ℤ, ◌+ℤ◌}
use modern_flux.Base.Word.{mod32, i32, u32}
use modern_flux.Base.Bytes.{Bytes}

-- SerializeToString and ParseFromArray of a message type.
pub record Codec (A : Type 0) : Type 0 where
  pub serialize : A → Bytes
  pub parse : Bytes → Option A

-- What was written can be read.
abbrev pub IsLawful : {A : Type 0} → Codec A → Type 0
IsLawful {A} c = (a : A) → c.parse (c.serialize a) ≡ some a

-- The messages of Protocol/open_app_desc.proto that carry the others.
pub record CmdBase : Type 0 where
  pub seq_id : ℤ
  pub cmd_id : ℤ
  pub type : ℤ
  pub body : Bytes

pub record CmdBaseResp : Type 0 where
  pub ret : ℤ
  pub err_msg : Bytes
  pub resp : Bytes

abbrev pub empty_base : CmdBase
empty_base = record { seq_id = pos 0; cmd_id = pos 0; type = pos 0; body = [] }

-- BODY_TYPE
abbrev pub body_request : ℤ
body_request = pos 1

abbrev pub body_response : ℤ
body_response = pos 2

-- `htonl` of a uint32_t, as the bytes in memory.
unfoldable pub htonl : ℕ → Bytes
htonl n = (n / 2 ^ 24) % 256 ∷ (n / 2 ^ 16) % 256 ∷ (n / 2 ^ 8) % 256 ∷ n % 256 ∷ []

-- `ntohl` of the first four bytes.
unfoldable pub ntohl : Bytes → ℕ
ntohl (a ∷ b ∷ c ∷ d ∷ rest) = a * 2 ^ 24 + b * 2 ^ 16 + c * 2 ^ 8 + d
ntohl _ = 0

-- A message behind its length.
unfoldable pub frame : Bytes → Bytes
unfolding htonl
frame body = htonl (length body % mod32) ++ body

-- SetBinaryPack with a uint32_t length; `tlen` is the size of the buffer. `none` where it returns
-- false; else the bytes that it writes, as many as `total` then says.
unfoldable pub set_binary_pack : ℕ → Bytes → Option Bytes
unfolding frame
set_binary_pack tlen body = if leb tlen ((length body + 4) % mod32) then none else some (frame body)

-- SetBinaryPack with an int length. The sum can wrap to a negative number, and passes the test then.
unfoldable pub set_binary_pack_int : ℤ → Bytes → Option Bytes
unfolding frame
set_binary_pack_int tlen body =
    if leb_ℤ tlen (i32 (pos (length body + 4))) then none else some (frame body)

-- ProtocolCheck, on what has arrived. Above 0 it is the length of the first packet, and 0 asks for
-- more.
unfoldable pub protocol_check : Bytes → ℤ
unfolding ntohl
protocol_check arrived =
    let all = i32 (pos (ntohl arrived + 4)) in
    if ltb (length arrived) 4
    then pos 0
    else if leb_ℤ all (pos (length arrived))
    then all
    else pos 0

-- What a parser returns: the message, or the error code.
pub data Parsed (A : Type 0) : Type 0 where
  ok : A → Parsed A
  err : ℤ → Parsed A

-- The message, where there is one.
abbrev pub parsed_ok : {A : Type 0} → Parsed A → Option A
parsed_ok (ok m) = some m
parsed_ok (err e) = none

-- `err` with the code where the option is `none`.
abbrev pub or_err : {A : Type 0} → Option A → ℤ → Parsed A
or_err (some a) code = ok a
or_err none code = err code

-- ProtoPack::ParseReqTmplt
unfoldable pub parse_req_tmplt : {R : Type 0} → Codec CmdBase → Codec R → Bytes → Parsed R
parse_req_tmplt base req raw = if 0 == length raw then err (negsuc 4) else elim (base.parse raw) [
  | none ↦ err (negsuc 0)
  | some b ↦ or_err (req.parse b.body) (negsuc 1)
]

-- The body of an answer: itself, or within a CmdBaseResp.
unfoldable pub parse_body : {R : Type 0} → Codec CmdBaseResp → Codec R → CmdBase → Parsed R
parse_body resp rsp b =
    if eqb_ℤ body_response b.type
    then or_err (rsp.parse b.body) (negsuc 4)
    else elim (resp.parse b.body) [
      | none ↦ err (negsuc 1)
      | some code ↦ or_err (rsp.parse code.resp) (negsuc 2)
    ]

-- ProtoPack::ParseRspTmplt
unfoldable pub parse_rsp_tmplt :
    {R : Type 0} → Codec CmdBase → Codec CmdBaseResp → Codec R → Bytes → Parsed R
unfolding parse_body
parse_rsp_tmplt base resp rsp raw =
    if 0 == length raw
    then err (negsuc 4)
    else elim (base.parse raw) [ none ↦ err (negsuc 0) | some b ↦ parse_body resp rsp b ]
