-- ===== src/Server/Share.antt =====
-- The share that GetQueryQuota computes against the quota of the key.
use modern_flux.Base.{
  ℕ, zero, suc, ◌+◌, ◌-◌, ◌*◌, ◌%◌, ◌^◌, ◌≤◌, ◌<◌, ◌≡◌, refl, true, List, [], ◌∷◌, arith, length,
  get_or, set, Bool-cases, inl, inr,
}
use modern_flux.Base.Int.{ℤ, pos, pos_part, positive, ◌+ℤ◌}
use modern_flux.Base.Word.{i32, i32_fits}
use modern_flux.Base.Bytes.{Bytes}
use modern_flux.Base.Dict.{Dict, lookup, lookup_or, emplace, lookup_or-emplace, le-sum_by}
use modern_flux.Quota.Slot.{ProData, no_data, TimeItem, empty_item}
use modern_flux.Quota.Slot.Balance.{count_of, IsBalanced}
use modern_flux.Server.Alloc.{History, no_history, read_slot, read_slots, is_past}

-- No process of the slot has counted more than the slot, which has counted at most `bound`.
pub record IsFair (bound : ℕ) (t : TimeItem) : Type 0 where
  pub count : ℕ
  pub sum_eq : t.sum ≡ pos count
  pub below : count ≤ bound
  pub parts : (k : Bytes) → pos_part (lookup_or k no_data t.mapidnum).sum ≤ count

-- A balanced slot is fair.
pub IsBalanced→IsFair :
    (bound retired n : ℕ) (t : TimeItem)
    → IsBalanced retired t
    → t.sum ≡ pos n
    → n ≤ bound
    → IsFair bound t
IsBalanced→IsFair bound retired n t b e le = record {
  count = n;
  sum_eq = e;
  below = le;
  parts = λ k. ground (arith, b.sum_eq, le-sum_by count_of k no_data t.mapidnum refl);
}

abbrev pub AreFair : ℕ → List TimeItem → Type 0
AreFair bound [] = Unit {0}
AreFair bound (t ∷ ts) = IsFair bound t × AreFair bound ts

empty-IsFair : (bound : ℕ) → IsFair bound empty_item
unfolding lookup_or lookup
empty-IsFair bound = record {
  count = 0;
  sum_eq = refl;
  below = omega arith;
  parts = λ k. ground arith;
}

pub get_or-IsFair :
    (bound i : ℕ) (ts : List TimeItem) → AreFair bound ts → IsFair bound (get_or ts i empty_item)
get_or-IsFair bound i [] h = empty-IsFair bound
get_or-IsFair bound zero (t ∷ ts) h = h.0
get_or-IsFair bound (suc i) (t ∷ ts) h = get_or-IsFair bound i ts h.1

pub set-AreFair :
    (bound i : ℕ) (v : TimeItem) (ts : List TimeItem)
    → AreFair bound ts
    → IsFair bound v
    → AreFair bound (set ts i v)
set-AreFair bound i v [] h one = h
set-AreFair bound zero v (t ∷ ts) h one = (one, h.1)
set-AreFair bound (suc i) v (t ∷ ts) h one = (h.0, set-AreFair bound i v ts h.1 one)

-- What holds of the sums so far, which are at most `limit`.
pub record IsSound (limit : ℕ) (h : History) : Type 0 where
  pub self : ℕ
  pub total : ℕ
  pub self_eq : h.historyself ≡ pos self
  pub total_eq : h.historytotal ≡ pos total
  pub le : self ≤ total
  pub limited : total ≤ limit
  pub parters : 0 < h.validnum → 0 < h.parternum

pub add_fits : (a b : ℕ) → a + b < 2 ^ 31 → i32 (pos a +ℤ pos b) ≡ pos (a + b)
unfolding ◌+ℤ◌
add_fits a b h =
    let inside : pos a +ℤ pos b ≡ pos (a + b) = ground arith in
    rw inside (i32_fits (pos (a + b)) (omega arith))

positive→length :
    (k : Bytes) (m : Dict ProData) → positive (lookup_or k no_data m).sum ≡ true → 0 < length m
unfolding lookup_or lookup
positive→length k [] h = ground arith
positive→length k (x ∷ m) h = omega arith

pub read_slot-IsFair :
    (bound nowkey : ℕ) (procid : Bytes) (t : TimeItem) (h : History)
    → IsFair bound t
    → IsFair bound (read_slot nowkey procid t h).0
unfolding read_slot
read_slot-IsFair bound nowkey procid t h f = elim (Bool-cases (is_past nowkey t)) [
  | inl on ↦ rw on (record {
    count = f.count;
    sum_eq = f.sum_eq;
    below = f.below;
    parts = λ k. rw (lookup_or-emplace procid k no_data t.mapidnum) (f.parts k);
  })
  | inr off ↦ rw off f
]

IsSound-grow : (limit more : ℕ) (h : History) → IsSound limit h → limit ≤ more → IsSound more h
IsSound-grow limit more h s le = record {
  self = s.self;
  total = s.total;
  self_eq = s.self_eq;
  total_eq = s.total_eq;
  le = s.le;
  limited = omega (arith, s.limited);
  parters = s.parters;
}

-- A slot in which the process has `p` of `n` requests.
IsSound-add :
    (bound limit p n parternum : ℕ) (h : History) (d t : ℤ)
    → IsSound limit h
    → d ≡ pos p
    → t ≡ pos n
    → p ≤ n
    → n ≤ bound
    → 0 < parternum
    → limit + bound < 2 ^ 31
    → IsSound (limit + bound) (record {
      historyself = i32 (h.historyself +ℤ d);
      historytotal = i32 (h.historytotal +ℤ t);
      parternum = parternum;
      validnum = suc h.validnum;
    })
IsSound-add bound limit p n parternum h d t s ep en le below some_parter fits = record {
  self = s.self + p;
  total = s.total + n;
  self_eq = rw (s.self_eq, ep) (add_fits s.self p (omega (arith, s.le, s.limited)));
  total_eq = rw (s.total_eq, en) (add_fits s.total n (omega (arith, s.limited)));
  le = omega (arith, s.le);
  limited = omega (arith, s.limited);
  parters = λ v. some_parter;
}

read_slot-IsSound :
    (bound limit nowkey : ℕ) (procid : Bytes) (t : TimeItem) (h : History)
    → IsFair bound t
    → IsSound limit h
    → limit + bound < 2 ^ 31
    → IsSound (limit + bound) (read_slot nowkey procid t h).1
unfolding read_slot
read_slot-IsSound bound limit nowkey procid t h f s fits =
    let kept = IsSound-grow limit (limit + bound) h s (omega arith) in
    let m = emplace procid no_data t.mapidnum in
    let d = lookup_or procid no_data m in
    let same : d ≡ lookup_or procid no_data t.mapidnum =
      lookup_or-emplace procid procid no_data t.mapidnum in
    elim (Bool-cases (is_past nowkey t)) [
      | inl on ↦ elim (Bool-cases (positive d.sum)) [
        | inl counts ↦
            let part : d.sum ≡ pos (pos_part d.sum) = ground arith in
            let share : pos_part d.sum ≤ f.count = rw same (f.parts procid) in
            rw (on, counts)
              (IsSound-add bound limit (pos_part d.sum) f.count (length m) h d.sum t.sum s part
                f.sum_eq share f.below (positive→length procid m counts) fits)
        | inr off ↦ rw (on, off) kept
      ]
      | inr off ↦ rw off kept
    ]

pub read_slots-IsSound :
    (bound limit rounds beindex nowkey : ℕ) (procid : Bytes) (slots : List TimeItem) (h : History)
    → AreFair bound slots
    → IsSound limit h
    → limit + rounds * bound < 2 ^ 31
    → IsSound (limit + rounds * bound) (read_slots rounds beindex nowkey procid slots h).1
unfolding read_slots
read_slots-IsSound bound limit zero beindex nowkey procid slots h f s fits =
    IsSound-grow limit (limit + 0 * bound) h s (omega arith)
read_slots-IsSound bound limit (suc l) beindex nowkey procid slots h f s fits =
    let t = get_or slots beindex empty_item in
    let fair = get_or-IsFair bound beindex slots f in
    let r = read_slot nowkey procid t h in
    let rest =
      read_slots-IsSound bound (limit + bound) l ((beindex + 6 - 1) % 6) nowkey procid
        (set slots beindex r.0) r.1
        (set-AreFair bound beindex r.0 slots f (read_slot-IsFair bound nowkey procid t h fair))
        (read_slot-IsSound bound limit nowkey procid t h fair s (grind arith)) (grind arith) in
    IsSound-grow (limit + bound + l * bound) (limit + suc l * bound) _ rest (grind arith)

pub no_history-IsSound : IsSound 0 no_history
no_history-IsSound = record {
  self = 0;
  total = 0;
  self_eq = refl;
  total_eq = refl;
  le = omega arith;
  limited = omega arith;
  parters = λ v. absurd (omega arith);
}

pub read_slots-AreFair :
    (bound rounds beindex nowkey : ℕ) (procid : Bytes) (slots : List TimeItem) (h : History)
    → AreFair bound slots
    → AreFair bound (read_slots rounds beindex nowkey procid slots h).0
unfolding read_slots
read_slots-AreFair bound zero beindex nowkey procid slots h f = f
read_slots-AreFair bound (suc l) beindex nowkey procid slots h f =
    let t = get_or slots beindex empty_item in
    let r = read_slot nowkey procid t h in
    read_slots-AreFair bound l ((beindex + 6 - 1) % 6) nowkey procid (set slots beindex r.0) r.1 (
      set-AreFair bound beindex r.0 slots f
        (read_slot-IsFair bound nowkey procid t h (get_or-IsFair bound beindex slots f)))
