-- ===== src/Route/Groups.antt =====
-- The groups that packets are sent to.
use native.Mathlib.Nat.{add-mul-mod_self_right, mod-add-div', mod-lt, mod-eq_of_lt}
use modern_flux.Base.{
  ℕ, zero, suc, ◌+◌, ◌-◌, ◌*◌, ◌/◌, ◌%◌, ◌≤◌, ◌<◌, ◌≡◌, inl, inr, refl, ◌∙◌, some, List, [], ◌∷◌,
  arith, ltb, length, get_or, Bool-cases,
}
use modern_flux.Base.Word.{mod32, i32}
use modern_flux.Base.Bytes.{Bytes}
use modern_flux.Message.{QuotaReq}
use modern_flux.Packet.{Codec, IsLawful, CmdBase, frame}
use modern_flux.Packet.Stream.{length-frame, ntohl-frame, drop-frame, take_all}
use modern_flux.Route.{
  key_route, base_route, spp_bin_route, handle_route, handle_routes, quota_query_cmd,
}

key_route_range : (groups : ℕ) (key : Bytes) → 2 ≤ groups → key_route groups key ≤ groups
unfolding key_route
key_route_range groups key h = grind arith

-- A key has a group of its own, which is not the first.
key_route_bounds :
    (groups : ℕ) (key : Bytes)
    → 2 ≤ groups
    → 0 < length key
    → (2 ≤ key_route groups key) × (key_route groups key ≤ groups)
unfolding key_route
key_route_bounds groups key h k = grind arith

land : (n g x k : ℕ) → 1 ≤ g → g ≤ n → x ≡ g - 1 + k * n → x % n + 1 ≡ g
land n g x k one le e =
    rw (e, add-mul-mod_self_right (g - 1) k n, mod-eq_of_lt {n = g - 1} {m = n} (omega arith))
      (omega arith)

-- The turn of group `g` within `n` packets from counter `a`.
turn : (n a g : ℕ) → 1 ≤ g → g ≤ n → (i : ℕ) × (i < n) × ((a + i) % n + 1 ≡ g)
turn n a g one le =
    let r = a % n in
    let small : r < n = mod-lt a (omega arith) in
    elim (Bool-cases (ltb r g)) [
      | inl after ↦
          (g - 1 - r, ground arith, land n g _ (a / n) one le (ground (arith, mod-add-div' a n)))
      | inr before ↦ (
        g - 1 + n - r,
        ground arith,
        land n g _ (suc (a / n)) one le (ground (arith, mod-add-div' a n)),
      )
    ]

next_turn :
    (gs : List ℕ) (groups adds i n : ℕ)
    → i < suc n
    → ((j : ℕ) → j < n → get_or gs j 0 ≡ (adds + 1 + j) % groups + 1)
    → get_or ((adds % groups + 1) ∷ gs) i 0 ≡ (adds + i) % groups + 1
next_turn gs groups adds zero n lt turns = let same : adds + 0 ≡ adds = omega arith in rw same refl
next_turn gs groups adds (suc i) n lt turns =
    let same : adds + 1 + i ≡ adds + suc i = omega arith in turns i (omega arith) ∙ rw same refl

module _ (base : Codec CmdBase) (quota_req : Codec QuotaReq) (groups : ℕ) where
  -- The route of a packed message.
  bin_route-frame :
      (b : CmdBase)
      → IsLawful base
      → 2 ≤ groups
      → 0 < length (base.serialize b)
      → length (base.serialize b) < mod32
      → spp_bin_route base quota_req groups (frame (base.serialize b))
        ≡ some (base_route quota_req groups b)
  unfolding spp_bin_route
  bin_route-frame b lawful two some_byte fits =
      let body = base.serialize b in
      rw (ntohl-frame body fits, drop-frame body, take_all body, lawful b, length-frame body)
        (ground arith)

  -- With two groups or more, and codecs that read what they have written, a packed request for a quota,
  -- of some bytes below 2^32, with a body and a key, goes to the group of its key, which is one from
  -- 2 to the last, and leaves the counter of the other packets.
  pub handle_route-request :
      (b : CmdBase) (req : QuotaReq) (adds : ℕ)
      → IsLawful base
      → IsLawful quota_req
      → 2 ≤ groups
      → 0 < length (base.serialize b)
      → length (base.serialize b) < mod32
      → b.cmd_id ≡ quota_query_cmd
      → b.body ≡ quota_req.serialize req
      → 0 < length b.body
      → 0 < length req.key
      → (handle_route base quota_req groups adds (frame (base.serialize b))
          ≡ some (key_route groups req.key, adds))
        × (2 ≤ key_route groups req.key)
        × (key_route groups req.key ≤ groups)
  unfolding handle_route base_route
  handle_route-request b req adds lawful lawful_req two some_byte fits cmd body n k =
      let bounds = key_route_bounds groups req.key two k in
      let narrow : i32 quota_query_cmd ≡ quota_query_cmd = unfold i32 in refl in
      let parsed : quota_req.parse b.body ≡ some req = rw body (lawful_req req) in
      let route : base_route quota_req groups b ≡ key_route groups req.key =
        rw (base_route, cmd, narrow, parsed) (ground arith) in
      let routed = bin_route-frame b lawful two some_byte fits in
      (rw (handle_route, routed, route) (ground (arith, bounds)), bounds.0, bounds.1)

  -- Packets that SppBinRoute reads within their bounds and finds no group for.
  abbrev pub AreLoose : List Bytes → Type 0
  AreLoose [] = Unit
  AreLoose (blob ∷ blobs) = (spp_bin_route base quota_req groups blob ≡ some 0) × AreLoose blobs

  -- Packets without a group take turns: the packet that comes `i` packets after the first one.
  abbrev TakeTurns : List Bytes → ℕ → Type 0
  TakeTurns blobs adds =
      (gs : List ℕ) × (handle_routes base quota_req groups adds blobs ≡ some gs)
      × ((i : ℕ) → i < length blobs → get_or gs i 0 ≡ (adds + i) % groups + 1)

  first_turn :
      (blob : Bytes) (blobs : List Bytes) (adds : ℕ)
      → spp_bin_route base quota_req groups blob ≡ some 0
      → adds + 1 < mod32
      → TakeTurns blobs (adds + 1)
      → TakeTurns (blob ∷ blobs) adds
  unfolding handle_routes handle_route
  first_turn blob blobs adds loose fits (gs, e, turns) =
      let step : handle_route base quota_req groups adds blob ≡ some (adds % groups + 1, adds + 1) =
        rw (handle_route, loose, mod-eq_of_lt {n = adds + 1} {m = mod32} fits) refl in
      (
        (adds % groups + 1) ∷ gs,
        rw (handle_routes, step, e) refl,
        λ i lt. next_turn gs groups adds i (length blobs) lt turns,
      )

  handle_routes-turns :
      (blobs : List Bytes) (adds : ℕ)
      → AreLoose blobs
      → adds + length blobs < mod32
      → TakeTurns blobs adds
  unfolding handle_routes
  handle_routes-turns [] adds loose fits = ([], refl, λ i lt. absurd (omega (arith, lt)))
  handle_routes-turns (blob ∷ blobs) adds (l, loose) fits =
      first_turn blob blobs adds l (omega arith)
        (handle_routes-turns blobs (adds + 1) loose (omega arith))

  -- As many packets in a row as there are groups, each of which SppBinRoute reads within its bounds
  -- and finds no group for, are all given a group, and each group gets one of them, unless the
  -- counter wraps on the way.
  pub handle_routes-all_groups :
      (blobs : List Bytes) (adds : ℕ)
      → AreLoose blobs
      → length blobs ≡ groups
      → adds + groups < mod32
      → (gs : List ℕ) × (handle_routes base quota_req groups adds blobs ≡ some gs)
        × ((g : ℕ) → 1 ≤ g → g ≤ groups → (i : ℕ) × (i < groups) × (get_or gs i 0 ≡ g))
  handle_routes-all_groups blobs adds loose all fits =
      let (gs, e, turns) = handle_routes-turns blobs adds loose (omega arith) in
      (
        gs,
        e,
        λ g one le.
            let (i, lt, at) = turn groups adds g one le in (i, lt, turns i (omega arith) ∙ at),
      )
