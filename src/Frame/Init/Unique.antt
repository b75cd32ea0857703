-- ===== src/Frame/Init/Unique.antt =====
-- The ids under which first servers ask the second server.
use modern_flux.Base.{
  ℕ, ◌+◌, ◌*◌, ◌≤◌, ◌<◌, ◌≡◌, ◌≢◌, refl, ap, sym, ◌∙◌, false, not, ◌&&◌, ◌||◌, Option, none, some,
  arith, length, Bool-cases, inl, inr,
}
use modern_flux.Base.Int.{ℤ, pos, negsuc, ltb_ℤ, eqb_ℤ, ◌+ℤ◌, ◌*ℤ◌}
use modern_flux.Base.Word.{i32, u32, i32_fits, u32_fits}
use modern_flux.Base.Bytes.{Bytes}
use modern_flux.Text.{make_procid}
use modern_flux.Report.Local.{get_local_normal_ip}
use modern_flux.Report.Address.{InAddr, inet_ntoa}
use modern_flux.Report.Address.Ids.{IsInAddr, make_procid_unique}
use modern_flux.Frame.Init.{
  Startup, Globals, get_first_port, init_port, check_host, check_port, spp_handle_init, request_id,
}

-- A port in the range and an address.
pub record IsReady (g : Globals) : Type 0 where
  pub port : ℕ
  pub port_eq : g.g_proxy_port ≡ pos port
  pub low : 19100 ≤ port
  pub high : port ≤ 19900
  pub host : 0 < length g.g_host

in_range :
    (port : ℤ)
    → (ltb_ℤ port (pos 19100) || ltb_ℤ (pos 19900) port) ≡ false
    → (n : ℕ) × (port ≡ pos n) × (19100 ≤ n) × (n ≤ 19900)
in_range (pos n) h = (n, refl, ground arith, ground arith)
in_range (negsuc n) h = absurd (ground arith)

check_host-IsReady :
    (g h : Globals) (found : Option (ℤ × Bytes)) (n : ℕ)
    → g.g_proxy_port ≡ pos n
    → 19100 ≤ n
    → n ≤ 19900
    → check_host g found ≡ some (pos 0, h)
    → IsReady h
check_host-IsReady g h none n port low high e = absurd (ground arith)
check_host-IsReady g h (some (ret, ip)) n port low high e = record {
  port = n;
  port_eq = ground arith;
  low = low;
  high = high;
  host = ground arith;
}

check_port-IsReady :
    (s : Startup) (g h : Globals) (port : Option ℤ)
    → check_port s g port ≡ some (pos 0, h)
    → IsReady h
check_port-IsReady s g h none e = absurd (ground arith)
check_port-IsReady s g h (some port) e =
    elim (Bool-cases (ltb_ℤ port (pos 19100) || ltb_ℤ (pos 19900) port)) [
      | inl outside ↦ absurd (ground arith)
      | inr inside ↦
          let (n, same, low, high) = in_range port inside in
          let on : check_host (record g { g_proxy_port = port }) (get_local_normal_ip s.interfaces)
              ≡ some (pos 0, h) =
            ground arith in
          check_host-IsReady (record g { g_proxy_port = port }) h _ n same low high on
    ]

spp_handle_init-IsReady :
    (s : Startup) (g h : Globals) → spp_handle_init s g ≡ some (pos 0, h) → IsReady h
unfolding spp_handle_init init_port
spp_handle_init-IsReady s g h e =
    let begun : Globals = record g { g_groups_num = s.groups_sum; g_uptime = s.time } in
    elim (Bool-cases (not (eqb_ℤ s.setrlimit (pos 0)))) [
      | inl failed ↦ absurd (ground arith)
      | inr limited ↦ elim (Bool-cases (s.is_worker && ltb_ℤ s.init_frame (pos 0))) [
        | inl failed ↦ absurd (ground arith)
        | inr framed ↦ check_port-IsReady s begun h (get_first_port s.proxy) (ground arith)
      ]
    ]

-- The id of a group of a process that is ready.
request_id-pos :
    (g : Globals) (r : IsReady g) (group : ℕ)
    → group < 1000
    → u32 (request_id g group) ≡ r.port * 1000 + group
unfolding request_id ◌*ℤ◌ ◌+ℤ◌
request_id-pos g r group h =
    let product : pos r.port *ℤ pos 1000 ≡ pos (r.port * 1000) = ground arith in
    let kept : i32 (pos (r.port * 1000)) ≡ pos (r.port * 1000) =
      i32_fits (pos (r.port * 1000)) (omega (arith, r.high), omega arith) in
    let whole : pos (r.port * 1000) +ℤ pos group ≡ pos (r.port * 1000 + group) = ground arith in
    let fits : i32 (pos (r.port * 1000 + group)) ≡ pos (r.port * 1000 + group) =
      i32_fits (pos (r.port * 1000 + group)) (omega (arith, r.high), omega arith) in
    rw (r.port_eq, product, kept, whole, fits)
      (u32_fits (r.port * 1000 + group) (omega (arith, r.high)))

-- Two processes that have started, with addresses of four bytes and group ids below 1000: they ask
-- the second server under different ids, unless they run on the same host, for the same proxy and
-- in the same group.
pub spp_handle_init_unique :
    (s t : Startup) (g0 g h0 h : Globals) (i j : InAddr) (a b : ℕ)
    → spp_handle_init s g0 ≡ some (pos 0, g)
    → spp_handle_init t h0 ≡ some (pos 0, h)
    → IsInAddr i
    → IsInAddr j
    → a < 1000
    → b < 1000
    → (i ≡ j → g.g_proxy_port ≡ h.g_proxy_port → a ≢ b)
    → make_procid (inet_ntoa i) (u32 (request_id g a))
      ≢ make_procid (inet_ntoa j) (u32 (request_id h b))
spp_handle_init_unique s t g0 g h0 h i j a b e f hi hj small tiny differ =
    let r = spp_handle_init-IsReady s g0 g e in
    let q = spp_handle_init-IsReady t h0 h f in
    let m : ℕ = r.port * 1000 + a in
    let n : ℕ = q.port * 1000 + b in
    let apart : i ≡ j → m ≢ n = λ same eq.
      let ports : r.port ≡ q.port = omega arith in
      differ same (r.port_eq ∙ ap pos ports ∙ sym q.port_eq) (omega arith) in
    rw (request_id-pos g r a small, request_id-pos h q b tiny)
      (make_procid_unique i j m n hi hj (omega (arith, r.high)) (omega (arith, q.high)) apart)
