-- ===== src/Server/Together/Quota.antt =====
-- The processes of a key get together no more than its quota.
use modern_flux.Base.{
  ℕ, zero, suc, ◌+◌, ◌-◌, ◌*◌, ◌/◌, ◌%◌, ◌^◌, ◌≤◌, ◌<◌, ◌≡◌, refl, ap, ◌∙◌, true, false, List, [],
  ◌∷◌, arith, ltb, get_or, ltb→lt, Bool-cases, inl, inr,
}
use native.Mathlib.Nat.{mod-le}
use modern_flux.Base.Int.{pos, positive}
use modern_flux.Base.Word.{mod32, u32, u32_fits}
use modern_flux.Base.Bytes.{Bytes}
use modern_flux.Quota.Slot.{TimeItem, empty_item}
use modern_flux.Quota.Peer.{valid_id}
use modern_flux.Quota.Times.{get_time_key}
use modern_flux.Quota.Record.{QData}
use modern_flux.Quota.Record.Shares.{div_mono}
use modern_flux.Server.Alloc.{History, no_history, read_slots, allocate, is_enough}
use modern_flux.Server.Query.{Context, allocate_key}
use modern_flux.Server.Ledger.{AreLedgers, AreLedgers→AreFair}
use modern_flux.Server.Share.{AreFair, get_or-IsFair}
use modern_flux.Server.Together.{
  own, all_sum, slots_total, old-le, IsExact, AreComplete, get_or-IsComplete, read_slots-IsExact,
}
use modern_flux.Server.Together.Sums.{sum_over, AreDistinct, slots_total-le}

-- One process gets at most its part, rounded down.
allocate-le_share :
    (q time self total : ℕ) (h : History)
    → IsExact self total h
    → self ≤ total
    → total < 2 ^ 31
    → ((allocate q time h).aquota ≤ q * self / total) × (total ≡ 0 → (allocate q time h).aquota ≡ 0)
unfolding allocate
allocate-le_share q time self total h x le small =
    let self_word : u32 h.historyself ≡ self = rw x.self_eq (u32_fits self (omega arith)) in
    let total_word : u32 h.historytotal ≡ total = rw x.total_eq (u32_fits total (omega arith)) in
    elim (Bool-cases (is_enough h)) [
      | inl on ↦
          let some_self : positive h.historyself ≡ true = ground (arith, x.self_eq, x.some_own) in
          rw (on, some_self, self_word, total_word)
            (
              div_mono ((q * self) % mod32) (q * self) total (ground (arith, x.total_eq))
                  (mod-le (q * self) mod32),
              λ none_eq. absurd (ground (arith, x.total_eq)),
            )
      | inr off ↦ rw off (omega arith, λ none_eq. refl)
    ]

weighted :
    (q v : ℕ) (g : Bytes → ℕ) (ps : List Bytes)
    → 0 < v
    → sum_over (λ p. q * g p / v) ps * v ≤ q * sum_over g ps
weighted q v g [] h = omega arith
weighted q v g (p ∷ ps) h = grind (arith, weighted q v g ps h)

parts_bounded :
    (q v : ℕ) (g : Bytes → ℕ) (ps : List Bytes)
    → 0 < v
    → sum_over g ps ≤ v
    → sum_over (λ p. q * g p / v) ps ≤ q
parts_bounded q v g ps h le = grind (arith, weighted q v g ps h)

slots_total-le_bound :
    (bound rounds beindex nowkey : ℕ) (slots : List TimeItem)
    → AreFair bound slots
    → slots_total rounds beindex nowkey all_sum slots ≤ rounds * bound
slots_total-le_bound bound zero beindex nowkey slots f = omega arith
slots_total-le_bound bound (suc l) beindex nowkey slots f =
    let fair = get_or-IsFair bound beindex slots f in
    grind (
      arith,
      old-le bound nowkey [] (get_or slots beindex empty_item) fair,
      slots_total-le_bound bound l ((beindex + 6 - 1) % 6) nowkey slots f,
    )

not_positive : (n : ℕ) → ltb 0 n ≡ false → n ≡ 0
not_positive n h = ground arith

-- The slots are complete for several processes.
abbrev pub AllComplete : ℕ → List TimeItem → List Bytes → Type 0
AllComplete nowkey slots [] = Unit {0}
AllComplete nowkey slots (p ∷ ps) = AreComplete nowkey p slots × AllComplete nowkey slots ps

module _ (c : Context) (ip : Bytes → Bytes) (q bound : ℕ) (d : QData)
    (ledgers : AreLedgers bound d.titem) (fits : 6 * bound < 2 ^ 31) where
  abbrev part : Bytes → ℕ
  part p = slots_total 6 (get_time_key c.now).1 (get_time_key c.now).0 (own p) d.titem

  abbrev whole : ℕ
  whole = slots_total 6 (get_time_key c.now).1 (get_time_key c.now).0 all_sum d.titem

  allocate_key-le_share :
      (host p : Bytes)
      → AreComplete (get_time_key c.now).0 p d.titem
      → ((allocate_key c host p q d).0.alloc.aquota ≤ q * part p / whole)
        × (whole ≡ 0 → (allocate_key c host p q d).0.alloc.aquota ≡ 0)
  unfolding allocate_key
  allocate_key-le_share host p complete =
      let key = get_time_key c.now in
      let fair = AreLedgers→AreFair bound d.titem ledgers in
      let small = slots_total-le_bound bound 6 key.1 key.0 d.titem fair in
      let le : part p ≤ whole =
        omega (arith, slots_total-le bound 6 key.1 key.0 d.titem (p ∷ []) ledgers (tt, tt)) in
      let x =
        read_slots-IsExact bound 6 key.1 key.0 0 0 p d.titem no_history fair
          (λ i. get_or-IsComplete key.0 p i d.titem complete)
          (record { self_eq = refl; total_eq = refl; some_own = λ v. absurd (omega arith) })
          (omega arith) (omega arith) in
      let r = read_slots 6 key.1 key.0 p d.titem no_history in
      let plain : IsExact (part p) whole r.1 = record {
        self_eq = x.self_eq ∙ ap pos (omega arith);
        total_eq = x.total_eq ∙ ap pos (omega arith);
        some_own = λ v. omega (arith, x.some_own v);
      } in
      let time = (get_or r.0 key.1 empty_item).timekey in
      let share = allocate-le_share q time (part p) whole r.1 plain le (omega arith) in
      elim (Bool-cases (valid_id d.mapalloq host p c.now).0) [
        | inl on ↦ rw on share
        | inr off ↦ rw off (omega arith, λ e. refl)
      ]

  assigned-le :
      (ps : List Bytes)
      → AllComplete (get_time_key c.now).0 d.titem ps
      → (sum_over (λ p. (allocate_key c (ip p) p q d).0.alloc.aquota) ps
          ≤ sum_over (λ p. q * part p / whole) ps)
        × (whole ≡ 0 → sum_over (λ p. (allocate_key c (ip p) p q d).0.alloc.aquota) ps ≡ 0)
  assigned-le [] h = (omega arith, λ e. refl)
  assigned-le (p ∷ ps) h =
      let one = allocate_key-le_share (ip p) p h.0 in
      let rest = assigned-le ps h.1 in
      (omega (arith, one.0, rest.0), λ e. omega (arith, one.1 e, rest.1 e))

  -- Different processes of a key, each of which the server would answer at one moment: together
  -- they get at most the quota of the key, if the key's slots are balanced with at most `bound`
  -- requests each, six times `bound` is below 2^31, and each of the processes has requests in every
  -- old slot that has any.
  pub allocate_key-together :
      (ps : List Bytes)
      → AreDistinct ps
      → AllComplete (get_time_key c.now).0 d.titem ps
      → sum_over (λ p. (allocate_key c (ip p) p q d).0.alloc.aquota) ps ≤ q
  allocate_key-together ps distinct complete =
      let key = get_time_key c.now in
      let bounded = assigned-le ps complete in
      let parts = slots_total-le bound 6 key.1 key.0 d.titem ps ledgers distinct in
      elim (Bool-cases (ltb 0 whole)) [
        | inl some_requests ↦
            omega
              (arith, bounded.0, parts_bounded q whole part ps (ltb→lt 0 whole some_requests) parts)
        | inr no_requests ↦ omega (arith, bounded.1 (not_positive whole no_requests))
      ]
