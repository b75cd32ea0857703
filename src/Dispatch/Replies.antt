-- ===== src/Dispatch/Replies.antt =====
-- What the client reads of a reply.
use modern_flux.Base.{
  ℕ, ◌+◌, ◌^◌, ◌<◌, ◌≡◌, refl, ap, sym, ◌∙◌, Option, none, some, [], ◌∷◌, ◌++◌, arith, length, drop,
}
use modern_flux.Base.Int.{pos, negsuc}
use modern_flux.Base.Word.{i32_fits}
use modern_flux.Base.Bytes.{Bytes, bytes}
use modern_flux.Message.{QuotaReq, QuotaRsp}
use modern_flux.Packet.{
  IsLawful, CmdBase, ok, or_err, body_request, body_response, frame, set_binary_pack_int,
  parse_rsp_tmplt, parse_body, protocol_check,
}
use modern_flux.Packet.Stream.{length-frame, drop-frame, protocol_check-frame}
use modern_flux.Route.{quota_query_cmd}
use modern_flux.Dispatch.{
  Wire, Process, Call, error_rsp, error_base, reply_base, ask_quota, pro_quota, dispatch,
  handle_process, error_body,
}

-- A message that is shorter than the buffer is packed.
pub packed :
    (body : Bytes) (size : ℕ)
    → length body + 4 < size
    → size < 2 ^ 31
    → set_binary_pack_int (pos size) body ≡ some (frame body)
unfolding set_binary_pack_int
packed body size fits small = rw (i32_fits (pos (length body + 4)) (omega arith)) (ground arith)

module _ (w : Wire) (lawful : IsLawful w.cmd_base) where
  -- A packed request reaches the switch.
  pub handle_process-frame :
      (call : Call) (b : CmdBase) (p : Process)
      → handle_process w call (frame (w.cmd_base.serialize b)) p ≡ some (dispatch w call b p)
  unfolding handle_process
  handle_process-frame call b p =
      let body = w.cmd_base.serialize b in
      rw (drop-frame body, lawful b) (ground (arith, length-frame body))

  dispatch-quota :
      (call : Call) (b : CmdBase) (p : Process)
      → b.type ≡ body_request
      → b.cmd_id ≡ quota_query_cmd
      → dispatch w call b p ≡ pro_quota w call body_request b p
  unfolding dispatch
  dispatch-quota call b p request cmd = rw (request, cmd) refl

  -- The client's view of a reply of the type BODY_RESPONSE.
  parse_reply :
      (b : CmdBase)
      → b.type ≡ body_response
      → 0 < length (w.cmd_base.serialize b)
      → parse_rsp_tmplt w.cmd_base w.cmd_base_resp w.quota_rsp
          (drop 4 (frame (w.cmd_base.serialize b)))
        ≡ or_err (w.quota_rsp.parse b.body) (negsuc 4)
  unfolding parse_rsp_tmplt parse_body
  parse_reply b response some_byte =
      rw (drop-frame (w.cmd_base.serialize b), lawful b, response) (ground arith)

  -- A packed request for a quota, whose answer fits into the buffer of 32 KiB, is answered by exactly one
  -- packet. The client's check of the stream finds its exact end, its parser reads the very answer of
  -- GetQueryQuota, and the state is the one after GetQueryQuota.
  pub handle_process-answers :
      (call : Call) (b : CmdBase) (req : QuotaReq) (p : Process)
      → IsLawful w.quota_req
      → IsLawful w.quota_rsp
      → b.type ≡ body_request
      → b.cmd_id ≡ quota_query_cmd
      → b.body ≡ w.quota_req.serialize req
      → let r = ask_quota call req p in
        let after : Process = record p { first = r.1 } in
        let reply = w.cmd_base.serialize (reply_base (w.quota_rsp.serialize r.0)) in
        0 < length reply
        → length reply + 4 < 32768
        → (packet : Bytes) × (handle_process w call (frame (w.cmd_base.serialize b)) p
            ≡ some (packet ∷ [], after))
          × ((rest : Bytes) → protocol_check (packet ++ rest) ≡ pos (length packet))
          × (parse_rsp_tmplt w.cmd_base w.cmd_base_resp w.quota_rsp (drop 4 packet) ≡ ok r.0)
  unfolding pro_quota frame
  handle_process-answers call b req p lawful_req lawful_rsp request cmd body some_byte fits =
      let r = ask_quota call req p in
      let parsed : w.quota_req.parse b.body ≡ some req = rw body (lawful_req req) in
      let base = reply_base (w.quota_rsp.serialize r.0) in
      let reply = w.cmd_base.serialize base in
      (
        frame reply,
        handle_process-frame call b p
            ∙ ap some (
                dispatch-quota call b p request cmd
                ∙ rw (pro_quota, parsed, packed reply 32768 fits (omega arith)) refl),
        λ rest. protocol_check-frame reply rest (omega arith) ∙ ap pos (sym (length-frame reply)),
        parse_reply base refl some_byte
            ∙ ap (λ (o : Option QuotaRsp). or_err o (negsuc 4)) (lawful_rsp r.0),
      )

  -- A request for a quota that does not parse changes nothing, and its error is answered with one packet
  -- whose code the client does not read: it takes the CmdBaseResp for a QuotaRsp.
  pub handle_process-error :
      (call : Call) (b : CmdBase) (p : Process)
      → b.type ≡ body_request
      → b.cmd_id ≡ quota_query_cmd
      → w.quota_req.parse b.body ≡ none
      → let msg = bytes "Invalid reqbody" in
        let reply = w.cmd_base.serialize (error_base w b (negsuc 0) msg) in
        0 < length reply
        → length reply + 4 < 65535
        → (packet : Bytes) × (handle_process w call (frame (w.cmd_base.serialize b)) p
            ≡ some (packet ∷ [], p))
          × (parse_rsp_tmplt w.cmd_base w.cmd_base_resp w.quota_rsp (drop 4 packet)
              ≡ or_err
                  (w.quota_rsp.parse (w.cmd_base_resp.serialize (error_body (negsuc 0) msg)))
                  (negsuc 4))
  unfolding pro_quota frame
  handle_process-error call b p request cmd broken some_byte fits =
      let base = error_base w b (negsuc 0) (bytes "Invalid reqbody") in
      let reply = w.cmd_base.serialize base in
      (
        frame reply,
        handle_process-frame call b p
            ∙ ap some (
                dispatch-quota call b p request cmd
                ∙ rw (pro_quota, broken, error_rsp, packed reply 65535 fits (omega arith)) refl),
        parse_reply base refl some_byte,
      )
