-- ===== src/Server/Together.antt =====
-- The shares of several processes of a key at one moment, as GetQueryQuota (QuaServer/ServiceQua.cpp)
-- computes each of them: what the history of one process adds up.
pub mod Sums
pub mod Quota
use modern_flux.Base.{
  ℕ, zero, suc, ◌+◌, ◌-◌, ◌*◌, ◌%◌, ◌^◌, ◌≤◌, ◌<◌, ◌≡◌, refl, ap, sym, ◌∙◌, true, false, List, [],
  ◌∷◌, arith, ◌&&◌, get_or, set, if◌then◌else◌, Bool-cases, inl, inr,
}
use modern_flux.Base.Int.{pos, pos_part, positive, ◌+ℤ◌}
use modern_flux.Base.Word.{i32, i32_fits}
use modern_flux.Base.Bytes.{Bytes}
use modern_flux.Base.Dict.{lookup_or, emplace, lookup_or-emplace}
use modern_flux.Quota.Slot.{no_data, TimeItem, empty_item}
use modern_flux.Quota.Slot.Balance.{count_of}
use modern_flux.Server.Alloc.{History, no_history, read_slot, read_slots, is_past}
use modern_flux.Server.Share.{
  IsFair, AreFair, get_or-IsFair, set-AreFair, read_slot-IsFair, add_fits,
}

-- The requests of a process in a slot, and those of all.
abbrev pub own : Bytes → TimeItem → ℕ
own procid t = count_of (lookup_or procid no_data t.mapidnum)

abbrev pub all_sum : TimeItem → ℕ
all_sum t = pos_part t.sum

-- A number of a slot that is old enough to count.
abbrev pub old : ℕ → (TimeItem → ℕ) → TimeItem → ℕ
old nowkey f t = if is_past nowkey t then f t else 0

-- Its sum over the slots that `rounds` rounds read, backwards from `beindex`.
abbrev pub slots_total : ℕ → ℕ → ℕ → (TimeItem → ℕ) → List TimeItem → ℕ
slots_total zero beindex nowkey f slots = 0
slots_total (suc l) beindex nowkey f slots =
    old nowkey f (get_or slots beindex empty_item)
    + slots_total l ((beindex + 6 - 1) % 6) nowkey f slots

-- In an old slot where the process has no requests nobody has.
abbrev pub IsComplete : ℕ → Bytes → TimeItem → Type 0
IsComplete nowkey procid t = old nowkey (own procid) t ≡ 0 → old nowkey all_sum t ≡ 0

-- A slot is replaced by one with the same number.
get_or-set_same :
    (g : TimeItem → ℕ) (v : TimeItem) (i j : ℕ) (slots : List TimeItem)
    → g v ≡ g (get_or slots i empty_item)
    → g (get_or (set slots i v) j empty_item) ≡ g (get_or slots j empty_item)
get_or-set_same g v i j [] e = refl
get_or-set_same g v zero zero (t ∷ ts) e = e
get_or-set_same g v zero (suc j) (t ∷ ts) e = refl
get_or-set_same g v (suc i) zero (t ∷ ts) e = refl
get_or-set_same g v (suc i) (suc j) (t ∷ ts) e = get_or-set_same g v i j ts e

slots_total-set :
    (rounds beindex nowkey : ℕ) (f : TimeItem → ℕ) (v : TimeItem) (i : ℕ) (slots : List TimeItem)
    → old nowkey f v ≡ old nowkey f (get_or slots i empty_item)
    → slots_total rounds beindex nowkey f (set slots i v)
      ≡ slots_total rounds beindex nowkey f slots
slots_total-set zero beindex nowkey f v i slots e = refl
slots_total-set (suc l) beindex nowkey f v i slots e = omega (
  arith,
  get_or-set_same (old nowkey f) v i beindex slots e,
  slots_total-set l ((beindex + 6 - 1) % 6) nowkey f v i slots e,
)

-- The sums so far, exactly.
pub record IsExact (self total : ℕ) (h : History) : Type 0 where
  pub self_eq : h.historyself ≡ pos self
  pub total_eq : h.historytotal ≡ pos total
  pub some_own : 0 < h.validnum → 0 < self

read_slot-young :
    (nowkey : ℕ) (procid : Bytes) (t : TimeItem) (h : History)
    → is_past nowkey t ≡ false
    → read_slot nowkey procid t h ≡ (t, h)
unfolding read_slot
read_slot-young nowkey procid t h off = rw off refl

-- Reading a slot adds the numbers of both, and leaves both numbers in the slot.
read_slot-old :
    (nowkey : ℕ) (procid : Bytes) (t : TimeItem) (h : History)
    → (old nowkey (own procid) (read_slot nowkey procid t h).0 ≡ old nowkey (own procid) t)
      × (old nowkey all_sum (read_slot nowkey procid t h).0 ≡ old nowkey all_sum t)
unfolding read_slot
read_slot-old nowkey procid t h =
    let same = lookup_or-emplace procid procid no_data t.mapidnum in
    elim (Bool-cases (is_past nowkey t)) [
      | inl on ↦ rw (on, on, same) (refl, refl)
      | inr off ↦
          let kept = read_slot-young nowkey procid t h off in
          (
            ap (λ (r : TimeItem × History). old nowkey (own procid) r.0) kept,
            ap (λ (r : TimeItem × History). old nowkey all_sum r.0) kept,
          )
    ]

read_slot-IsExact :
    (bound nowkey self total : ℕ) (procid : Bytes) (t : TimeItem) (h : History)
    → IsFair bound t
    → IsComplete nowkey procid t
    → IsExact self total h
    → self ≤ total
    → total + bound < 2 ^ 31
    → IsExact
        (self + old nowkey (own procid) t)
        (total + old nowkey all_sum t)
        (read_slot nowkey procid t h).1
unfolding read_slot
read_slot-IsExact bound nowkey self total procid t h f complete x le fits =
    let m = emplace procid no_data t.mapidnum in
    let d = lookup_or procid no_data m in
    let same : d ≡ lookup_or procid no_data t.mapidnum =
      lookup_or-emplace procid procid no_data t.mapidnum in
    elim (Bool-cases (is_past nowkey t)) [
      | inl on ↦ elim (Bool-cases (positive d.sum)) [
        | inl counts ↦
            let p : ℕ = pos_part d.sum in
            let part : d.sum ≡ pos p = ground arith in
            let owned : own procid t ≡ p = sym (ap count_of same) in
            let few : own procid t ≤ f.count = f.parts procid in
            rw (on, counts)
              (record {
                self_eq =
                    ground
                      (arith, add_fits self p (omega (arith, f.below)), x.self_eq, part, owned);
                total_eq =
                    ground (
                      arith,
                      add_fits total f.count (omega (arith, f.below)),
                      x.total_eq,
                      f.sum_eq,
                    );
                some_own = λ v. ground (arith, owned, counts);
              })
        | inr none_eq ↦
            let owned : own procid t ≡ 0 = ap count_of (sym same) ∙ ground arith in
            let nobody : all_sum t ≡ 0 = ground (arith, on, owned, complete) in
            rw (on, none_eq)
              (record {
                self_eq = ground (arith, x.self_eq, owned);
                total_eq = ground (arith, x.total_eq, nobody);
                some_own = λ v. ground (arith, x.some_own v);
              })
      ]
      | inr off ↦ rw off (record {
        self_eq = ground (arith, x.self_eq);
        total_eq = ground (arith, x.total_eq);
        some_own = λ v. ground (arith, x.some_own v);
      })
    ]

-- All slots are complete for a process.
abbrev pub AreComplete : ℕ → Bytes → List TimeItem → Type 0
AreComplete nowkey procid [] = Unit {0}
AreComplete nowkey procid (t ∷ ts) = IsComplete nowkey procid t × AreComplete nowkey procid ts

empty-IsComplete : (nowkey : ℕ) (procid : Bytes) → IsComplete nowkey procid empty_item
empty-IsComplete nowkey procid e = ground arith

pub get_or-IsComplete :
    (nowkey : ℕ) (procid : Bytes) (i : ℕ) (slots : List TimeItem)
    → AreComplete nowkey procid slots
    → IsComplete nowkey procid (get_or slots i empty_item)
get_or-IsComplete nowkey procid i [] h = empty-IsComplete nowkey procid
get_or-IsComplete nowkey procid zero (t ∷ ts) h = h.0
get_or-IsComplete nowkey procid (suc i) (t ∷ ts) h = get_or-IsComplete nowkey procid i ts h.1

old-le :
    (bound nowkey : ℕ) (procid : Bytes) (t : TimeItem)
    → IsFair bound t
    → (old nowkey (own procid) t ≤ old nowkey all_sum t) × (old nowkey all_sum t ≤ bound)
old-le bound nowkey procid t f = ground (arith, f.sum_eq, f.below, f.parts procid)

-- The loop over the slots adds up what the process and what all have in the old slots.
pub read_slots-IsExact :
    (bound rounds beindex nowkey self total : ℕ) (procid : Bytes) (slots : List TimeItem)
    (h : History)
    → AreFair bound slots
    → ((i : ℕ) → IsComplete nowkey procid (get_or slots i empty_item))
    → IsExact self total h
    → self ≤ total
    → total + rounds * bound < 2 ^ 31
    → IsExact
        (self + slots_total rounds beindex nowkey (own procid) slots)
        (total + slots_total rounds beindex nowkey all_sum slots)
        (read_slots rounds beindex nowkey procid slots h).1
unfolding read_slots
read_slots-IsExact bound zero beindex nowkey self total procid slots h f c x le fits = record {
  self_eq = x.self_eq ∙ ap pos (omega arith);
  total_eq = x.total_eq ∙ ap pos (omega arith);
  some_own = λ v. omega (arith, x.some_own v);
}
read_slots-IsExact bound (suc l) beindex nowkey self total procid slots h f c x le fits =
    let t = get_or slots beindex empty_item in
    let fair = get_or-IsFair bound beindex slots f in
    let r = read_slot nowkey procid t h in
    let next = (beindex + 6 - 1) % 6 in
    let s : ℕ = self + old nowkey (own procid) t in
    let u : ℕ = total + old nowkey all_sum t in
    let same = read_slot-old nowkey procid t h in
    let later = set slots beindex r.0 in
    let few = old-le bound nowkey procid t fair in
    let one =
      read_slot-IsExact bound nowkey self total procid t h fair (c beindex) x le (grind arith) in
    let complete : (j : ℕ) → IsComplete nowkey procid (get_or later j empty_item) = λ j none_own.
      get_or-set_same (old nowkey all_sum) r.0 beindex j slots same.1
      ∙ c j
          (sym (get_or-set_same (old nowkey (own procid)) r.0 beindex j slots same.0) ∙ none_own) in
    let rest =
      read_slots-IsExact bound l next nowkey s u procid later r.1
        (set-AreFair bound beindex r.0 slots f (read_slot-IsFair bound nowkey procid t h fair))
        complete one (omega (arith, few.0)) (grind (arith, few.1)) in
    let owns = slots_total-set l next nowkey (own procid) r.0 beindex slots same.0 in
    let alls = slots_total-set l next nowkey all_sum r.0 beindex slots same.1 in
    record {
      self_eq = rest.self_eq ∙ ap pos (omega (arith, owns));
      total_eq = rest.total_eq ∙ ap pos (omega (arith, alls));
      some_own = λ v. omega (arith, rest.some_own v, owns);
    }
