-- ===== src/Server/Bound.antt =====
-- What GetQueryQuota assigns, against the quota of the key.
use modern_flux.Base.{
  ℕ, ◌+◌, ◌*◌, ◌/◌, ◌%◌, ◌^◌, ◌≤◌, ◌<◌, ◌≡◌, refl, ap, true, [], arith, get_or, Bool-cases, inl,
  inr,
}
use native.Mathlib.Nat.{mod-le}
use modern_flux.Base.Word.{mod32, u32, u32_fits}
use modern_flux.Base.Bytes.{Bytes, eq_bytes_refl}
use modern_flux.Base.Dict.{lookup_or, insert, lookup_or-insert}
use modern_flux.Quota.Slot.{empty_item}
use modern_flux.Quota.Peer.{IdMap, IdInfo, no_info, id_info, set_id_info, valid_id}
use modern_flux.Quota.Times.{get_time_key}
use modern_flux.Quota.Record.{QData}
use modern_flux.Quota.Record.Shares.{div_mono, div_next}
use modern_flux.Server.Alloc.{History, no_history, read_slots, allocate, is_enough}
use modern_flux.Server.Query.{Context, allocate_key}
use modern_flux.Server.Share.{
  AreFair, IsSound, read_slots-IsSound, read_slots-AreFair, no_history-IsSound,
}

share_le : (q s t : ℕ) → s ≤ t → 0 < t → ((q * s) % mod32) / t ≤ q
share_le q s t le p = grind (arith, mod-le (q * s) mod32)

sound_words :
    (limit : ℕ) (h : History) (s : IsSound limit h)
    → limit < 2 ^ 31
    → (u32 h.historyself ≡ s.self) × (u32 h.historytotal ≡ s.total)
sound_words limit h s fits = (
  rw s.self_eq (u32_fits s.self (omega (arith, s.le, s.limited))),
  rw s.total_eq (u32_fits s.total (omega (arith, s.limited))),
)

allocate_le :
    (q time limit : ℕ) (h : History)
    → IsSound limit h
    → limit < 2 ^ 31
    → (allocate q time h).aquota ≤ q
unfolding allocate
allocate_le q time limit h s fits =
    let words = sound_words limit h s fits in
    elim (Bool-cases (is_enough h)) [
      | inl on ↦
          let total : 0 < s.total = ground (arith, s.total_eq) in
          let parters : 0 < h.parternum = ground (arith, s.parters) in
          let average : q / h.parternum ≤ q = grind arith in
          ground (arith, share_le q s.self s.total s.le total)
      | inr off ↦ rw off (omega arith)
    ]

id_info-set_id_info :
    (ip id : Bytes) (info : IdInfo) (m : IdMap) → id_info ip id (set_id_info ip id info m) ≡ info
id_info-set_id_info ip id info m =
    let inner = insert id info (lookup_or ip [] m) in
    rw (lookup_or-insert ip ip inner [] m, eq_bytes_refl ip)
      (rw (lookup_or-insert id id info no_info (lookup_or ip [] m), eq_bytes_refl id) refl)

allocate_eq :
    (q time limit : ℕ) (h : History) (s : IsSound limit h)
    → limit < 2 ^ 31
    → is_enough h ≡ true
    → 0 < s.self
    → ((allocate q time h).aquota ≡ ((q * s.self) % mod32) / s.total)
      × (0 < s.total)
      × (s.total ≤ mod32)
unfolding allocate
allocate_eq q time limit h s fits on some_self =
    let words = sound_words limit h s fits in
    (ground (arith, s.self_eq), omega (arith, s.le), omega (arith, s.limited))

-- For a history that is long enough, with requests of the process in it, at most as many as all
-- requests, and fewer than 2^31 of these: the process gets at most its share, the quota times its
-- part of the requests rounded down; exactly that where the product fits uint32_t, and less where
-- it does not.
pub allocate-share :
    (q time limit : ℕ) (h : History) (s : IsSound limit h)
    → limit < 2 ^ 31
    → is_enough h ≡ true
    → 0 < s.self
    → ((allocate q time h).aquota ≤ q * s.self / s.total)
      × (q * s.self < mod32 → (allocate q time h).aquota ≡ q * s.self / s.total)
      × (mod32 ≤ q * s.self → (allocate q time h).aquota < q * s.self / s.total)
unfolding u32
allocate-share q time limit h s fits on some_self =
    let (eq, total, small) = allocate_eq q time limit h s fits on some_self in
    let n : ℕ = q * s.self in
    rw eq (
      div_mono (n % mod32) n s.total total (mod-le n mod32),
      λ fit. ap (λ (k : ℕ). k / s.total) (u32_fits n fit),
      λ over. div_next (n % mod32) n s.total total (grind arith),
    )

-- What a key assigns to a process is at most the key's quota, and it is what the key's data then
-- hold for the process; that holds where no process has counted more in a slot than the slot, and
-- six slots together stay an int32_t, and the slots keep that property.
pub allocate_key-le :
    (c : Context) (ip procid : Bytes) (q bound : ℕ) (d : QData)
    → AreFair bound d.titem
    → 6 * bound < 2 ^ 31
    → let r = allocate_key c ip procid q d in
      (r.0.alloc.aquota ≤ q)
      × ((id_info ip procid r.1.mapalloq).aquota ≡ r.0.alloc.aquota)
      × AreFair bound r.1.titem
unfolding allocate_key
allocate_key-le c ip procid q bound d f fits =
    let v = valid_id d.mapalloq ip procid c.now in
    let nowkey = (get_time_key c.now).0 in
    let nowindex = (get_time_key c.now).1 in
    let sound =
      read_slots-IsSound bound 0 6 nowindex nowkey procid d.titem no_history f no_history-IsSound
        (omega (arith, fits)) in
    let r = read_slots 6 nowindex nowkey procid d.titem no_history in
    let later = read_slots-AreFair bound 6 nowindex nowkey procid d.titem no_history f in
    elim (Bool-cases v.0) [
      | inl on ↦ (
        rw on (
            allocate_le q (get_or r.0 nowindex empty_item).timekey (0 + 6 * bound) r.1 sound
              (omega (arith, fits))),
        ap (λ (i : IdInfo). i.aquota) (id_info-set_id_info ip procid _ v.1),
        rw on later,
      )
      | inr off ↦ (
        rw off (omega arith),
        ap (λ (i : IdInfo). i.aquota) (id_info-set_id_info ip procid _ v.1),
        rw off f,
      )
    ]
