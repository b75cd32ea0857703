-- ===== src/Report/Routing.antt =====
-- GetL5IpAndPort of QuaServer/SppApi.cpp, by which the reports find their receiver. The calls of L5 are
-- parameters; the message text, which nothing reads, is left out.
use modern_flux.Base.{
  ◌+◌, ◌%◌, ◌<◌, ◌≡◌, refl, ◌∙◌, true, Bool, [], arith, ltb, ◌==◌, ◌||◌, length, if◌then◌else◌,
  Bool-cases, inl, inr,
}
use modern_flux.Base.Int.{ℤ, pos, ltb_ℤ, eqb_ℤ}
use modern_flux.Base.Bytes.{Bytes}
use modern_flux.Route.Send.{Qos}
use modern_flux.Report.{Socket, Sockets, Sender, find_address, send_report}

-- ApiInitRoute and ApiGetRoute, which fills the request.
pub record L5Api : Type 0 where
  pub api_init_route : ℤ → ℤ → ℤ
  pub api_get_route : Qos → ℤ × Qos

-- What the call returns, and what it leaves in its arguments.
pub record Destination : Type 0 where
  pub ret : ℤ
  pub qos_req : Qos
  pub destip : Bytes
  pub destport : ℤ

-- GetL5IpAndPort with a request and a default destination.
unfoldable pub get_l5_destination : L5Api → Qos → ℤ → ℤ → Bytes → ℤ → Destination
get_l5_destination l5 qos_req modid cmdid default_destip default_destport =
    let init = l5.api_init_route modid cmdid in
    let asked = record qos_req { modid = modid; cmd = cmdid } in
    let r = l5.api_get_route asked in
    if ltb_ℤ init (pos 0)
    then record {
      ret = init;
      qos_req = qos_req;
      destip = default_destip;
      destport = default_destport;
    }
    else if ltb_ℤ r.0 (pos 0)
    then record { ret = r.0; qos_req = r.1; destip = default_destip; destport = default_destport }
    else record { ret = pos 0; qos_req = r.1; destip = r.1.host_ip; destport = r.1.host_port }

-- GetL5IpAndPort for an address alone; `qos` is its uninitialised local variable. It returns 0 always.
unfoldable pub get_l5_ip_and_port : L5Api → Qos → ℤ → ℤ → Bytes × ℤ
unfolding get_l5_destination
get_l5_ip_and_port l5 qos modid cmdid =
    let d = get_l5_destination l5 qos modid cmdid [] (pos 0) in (d.destip, d.destport)

-- L5 knows no destination: one of its two calls fails.
abbrev pub IsUnrouted : L5Api → Qos → ℤ → ℤ → Type 0
IsUnrouted l5 qos modid cmdid =
    (ltb_ℤ (l5.api_init_route modid cmdid) (pos 0)
      || ltb_ℤ (l5.api_get_route (record qos { modid = modid; cmd = cmdid })).0 (pos 0))
    ≡ true

unrouted-nowhere :
    (l5 : L5Api) (qos : Qos) (modid cmdid : ℤ)
    → IsUnrouted l5 qos modid cmdid
    → get_l5_ip_and_port l5 qos modid cmdid ≡ ([], pos 0)
unfolding get_l5_destination get_l5_ip_and_port
unrouted-nowhere l5 qos modid cmdid h =
    let r = l5.api_get_route (record qos { modid = modid; cmd = cmdid }) in
    elim (Bool-cases (ltb_ℤ (l5.api_init_route modid cmdid) (pos 0))) [
      | inl on ↦ rw on refl
      | inr off ↦ let lost : ltb_ℤ r.0 (pos 0) ≡ true = ground (arith, off) in rw (off, lost) refl
    ]

-- The report asks for its receiver.
abbrev pub asks : Sender → Bool
asks sender = eqb_ℤ (pos 0) sender.port || (0 == ((sender.num + 1) % 100))

send_report-lost :
    (io : Socket) (find : Sender → Bytes × ℤ) (total : Bytes) (sender : Sender) (s : Sockets)
    → find sender ≡ ([], pos 0)
    → asks sender ≡ true
    → ((send_report io find total (sender, s)).1 ≡ s)
      × (0 < length total → (send_report io find total (sender, s)).0.port ≡ pos 0)
unfolding send_report find_address
send_report-lost io find total sender s nowhere due = elim (Bool-cases (ltb 0 (length total))) [
  | inl on ↦ rw (on, nowhere, due) (refl, λ h. refl)
  | inr off ↦ rw off (refl, λ h. absurd (ground (arith, off)))
]

-- A report with a message that asks L5 for its receiver, where L5 knows none, is not sent, and the
-- receiver that was used before is forgotten: the next report asks again and, if L5 still knows
-- none, is not sent either.
pub send_report_unrouted :
    (io : Socket) (l5 : L5Api) (qos : Qos) (modid cmdid : ℤ) (total more : Bytes) (sender : Sender)
    (s : Sockets)
    → let find = λ (old : Sender). get_l5_ip_and_port l5 qos modid cmdid in
      let after = send_report io find total (sender, s) in
      IsUnrouted l5 qos modid cmdid
      → 0 < length total
      → asks sender ≡ true
      → (after.1 ≡ s) × (asks after.0 ≡ true) × ((send_report io find more after).1 ≡ s)
send_report_unrouted io l5 qos modid cmdid total more sender s h some_byte due =
    let nowhere = unrouted-nowhere l5 qos modid cmdid h in
    let find = λ (old : Sender). get_l5_ip_and_port l5 qos modid cmdid in
    let (kept, forgot) = send_report-lost io find total sender s nowhere due in
    let after = send_report io find total (sender, s) in
    let again : asks after.0 ≡ true = rw (forgot some_byte) refl in
    (kept, again, (send_report-lost io find more after.0 after.1 nowhere again).0 ∙ kept)
