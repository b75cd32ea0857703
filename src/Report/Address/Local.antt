-- ===== src/Report/Address/Local.antt =====
-- Which addresses are local.
use modern_flux.Base.{
  ℕ, zero, suc, ◌+◌, ◌-◌, ◌/◌, ◌%◌, ◌≤◌, ◌<◌, ◌≡◌, ◌≢◌, refl, ap, sym, ◌∙◌, Bool, ◌&&◌, ◌||◌, [],
  ◌∷◌, ◌++◌, arith, ltb, ◌==◌, take, drop, length, length-append, Bool-cases, inl, inr,
}
use modern_flux.Base.Int.{pos}
use modern_flux.Base.Word.{i32_fits}
use modern_flux.Base.Bytes.{Bytes, eq_bytes, eq_bytes_iff, eq_bytes_refl}
use modern_flux.Text.{starts, digits}
use modern_flux.Text.Number.{decimal, signed, skip_spaces, atoi, strtoll}
use modern_flux.Text.Number.Decimal.{
  StartsPlain, first-append, digits-StartsPlain, signed-plain, decimal-digits, decimal-all,
}
use modern_flux.Report.Address.{InAddr, inet_ntoa, is_local_ip, second_between}

abbrev pub IsDotless : Bytes → Type 0
IsDotless [] = Unit {0}
IsDotless (c ∷ s) = (48 ≤ c) × IsDotless s

IsDotless-append : (s t : Bytes) → IsDotless s → IsDotless t → IsDotless (s ++ t)
IsDotless-append [] t p q = q
IsDotless-append (c ∷ s) t p q = (p.0, IsDotless-append s t p.1 q)

pub digits-IsDotless : (fuel n : ℕ) → IsDotless (digits fuel n)
unfolding digits
digits-IsDotless zero n = tt
digits-IsDotless (suc fuel) n = elim (Bool-cases (ltb n 10)) [
  | inl small ↦ rw small (omega arith, tt)
  | inr large ↦ rw large (
      IsDotless-append (digits fuel (n / 10)) ((n % 10 + 48) ∷ []) (digits-IsDotless fuel (n / 10))
        (omega arith, tt))
]

length-digits : (fuel n : ℕ) → length (digits fuel n) ≤ fuel
unfolding digits
length-digits zero n = omega arith
length-digits (suc fuel) n =
    ground (
      arith,
      length-digits fuel (n / 10),
      length-append (digits fuel (n / 10)) ((n % 10 + 48) ∷ []),
    )

-- A prefix that ends with a dot.
starts-dot :
    (u v q t : Bytes)
    → IsDotless u
    → IsDotless v
    → starts (u ++ (46 ∷ q)) (v ++ (46 ∷ t)) ≡ (eq_bytes u v && starts q t)
unfolding eq_bytes
starts-dot [] [] q t p r = refl
starts-dot [] (y ∷ v) q t p r = ground arith
starts-dot (x ∷ u) [] q t p r = ground arith
starts-dot (x ∷ u) (y ∷ v) q t p r = ground (arith, starts-dot u v q t)

eq_bytes-digits : (k a : ℕ) → k < 1000 → a < 1000 → eq_bytes (digits 3 k) (digits 3 a) ≡ (k == a)
eq_bytes-digits k a h g =
    let back = decimal-all 3 k (omega arith) in
    let again = decimal-all 3 a (omega arith) in
    elim (Bool-cases (eq_bytes (digits 3 k) (digits 3 a))) [
      | inl same ↦
          let equal : digits 3 k ≡ digits 3 a = (eq_bytes_iff (digits 3 k) (digits 3 a)).0 same in
          let e : k ≡ a = sym back ∙ ap (decimal 0) equal ∙ again in rw same (ground arith)
      | inr other ↦
          let ne : k ≢ a = λ e. absurd (
            ground (
              arith,
              eq_bytes_refl (digits 3 a),
              ap (λ (n : ℕ). eq_bytes (digits 3 n) (digits 3 a)) e,
            )) in
          rw other (ground arith)
    ]

-- Three bytes from the second number on read as that number.
take-append : (k : ℕ) (u t : Bytes) → length u ≤ k → take k (u ++ t) ≡ u ++ take (k - length u) t
take-append k [] t h = ap (λ (j : ℕ). take j t) (omega arith)
take-append zero (x ∷ u) t h = absurd (omega arith)
take-append (suc k) (x ∷ u) t h =
    ap (◌∷◌ x) (take-append k u t (omega arith) ∙ ap (λ (j : ℕ). u ++ take j t) (omega arith))

stops : (k n : ℕ) (t : Bytes) → decimal n (take k (46 ∷ t)) ≡ n
unfolding decimal
stops zero n t = refl
stops (suc k) n t = refl

stops_first : (k : ℕ) (t : Bytes) → StartsPlain (take k (46 ∷ t))
stops_first zero t = tt
stops_first (suc k) t = (omega arith, omega arith)

atoi-second : (b : ℕ) (t : Bytes) → b < 256 → atoi (take 3 (digits 3 b ++ (46 ∷ t))) ≡ pos b
unfolding atoi strtoll
atoi-second b t h =
    let u = digits 3 b in
    let rest = take (3 - length u) (46 ∷ t) in
    let plain : StartsPlain (u ++ rest) =
      first-append u rest (digits-StartsPlain 3 b) (stops_first (3 - length u) t) in
    let read : signed (skip_spaces (u ++ rest)) ≡ pos b =
      signed-plain (u ++ rest) plain
      ∙ ap pos (decimal-digits 3 b rest (omega arith) ∙ stops (3 - length u) b t) in
    rw (take-append 3 u (46 ∷ t) (length-digits 3 b), read)
      (ground (arith, i32_fits (pos b) (omega arith, omega arith)))

-- The text of an address starts with the text of its first number.
starts-first :
    (k : ℕ) (i : InAddr)
    → k < 1000
    → i.s1 < 256
    → starts (digits 3 k ++ (46 ∷ [])) (inet_ntoa i) ≡ (k == i.s1)
unfolding inet_ntoa
starts-first k i h g =
    starts-dot (digits 3 k) (digits 3 i.s1) [] _ (digits-IsDotless 3 k) (digits-IsDotless 3 i.s1)
    ∙ rw (eq_bytes-digits k i.s1 h (omega arith)) (ground arith)

starts-two :
    (k l : ℕ) (i : InAddr)
    → k < 1000
    → l < 1000
    → i.s1 < 256
    → i.s2 < 256
    → starts (digits 3 k ++ (46 ∷ digits 3 l ++ (46 ∷ []))) (inet_ntoa i)
      ≡ ((k == i.s1) && (l == i.s2))
unfolding inet_ntoa
starts-two k l i h hl g gl =
    let second : eq_bytes (digits 3 l) (digits 3 i.s2) ≡ (l == i.s2) =
      eq_bytes-digits l i.s2 hl (omega arith) in
    let first : eq_bytes (digits 3 k) (digits 3 i.s1) ≡ (k == i.s1) =
      eq_bytes-digits k i.s1 h (omega arith) in
    let tail = digits 3 i.s3 ++ (46 ∷ digits 3 i.s4) in
    let inner =
      starts-dot (digits 3 l) (digits 3 i.s2) [] tail (digits-IsDotless 3 l)
        (digits-IsDotless 3 i.s2)
      ∙ rw second (ground arith) in
    starts-dot (digits 3 k) (digits 3 i.s1) (digits 3 l ++ (46 ∷ [])) (digits 3 i.s2 ++ (46 ∷ tail))
      (digits-IsDotless 3 k) (digits-IsDotless 3 i.s1)
    ∙ rw (first, inner) refl

drop-three : (u t : Bytes) → length u ≡ 3 → drop 4 (u ++ (46 ∷ t)) ≡ t
drop-three [] t h = absurd (omega arith)
drop-three (x ∷ []) t h = absurd (omega arith)
drop-three (x ∷ y ∷ []) t h = absurd (omega arith)
drop-three (x ∷ y ∷ z ∷ []) t h = refl
drop-three (x ∷ y ∷ z ∷ w ∷ u) t h = absurd (omega arith)

-- After a number of three digits the second number is read.
second-three :
    (low high k : ℕ) (i : InAddr)
    → length (digits 3 k) ≡ 3
    → i.s2 < 256
    → ((k == i.s1) && second_between (pos low) (pos high) (inet_ntoa i))
      ≡ ((k == i.s1) && (ltb low i.s2 && ltb i.s2 high))
unfolding inet_ntoa
second-three low high k i three h = elim (Bool-cases (k == i.s1)) [
  | inl same ↦
      let first : i.s1 ≡ k = ground arith in
      let size : length (digits 3 i.s1) ≡ 3 = rw first three in
      let number : atoi (take 3 (drop 4 (inet_ntoa i))) ≡ pos i.s2 =
        ap (λ (s : Bytes). atoi (take 3 s)) (drop-three (digits 3 i.s1) _ size)
        ∙ atoi-second i.s2 (digits 3 i.s3 ++ (46 ∷ digits 3 i.s4)) h in
      rw (same, number) (ground arith)
  | inr other ↦ rw other refl
]

-- The networks that IsLocalIP names: 10/8, 192.168/16, 169.254/16, 172.16/12, 100.64/10 and 9/8.
abbrev pub in_local_net : InAddr → Bool
in_local_net i =
    (i.s1 == 10)
    || ((i.s1 == 192) && (i.s2 == 168))
    || ((i.s1 == 169) && (i.s2 == 254))
    || ((i.s1 == 172) && (i.s2 / 16 == 1))
    || ((i.s1 == 100) && (i.s2 / 64 == 1))
    || (i.s1 == 9)

-- IsLocalIP, which compares texts, names exactly the addresses of the networks 10/8, 192.168/16,
-- 169.254/16, 172.16/12, 100.64/10 and 9/8, for first two bytes below 256.
pub is_local_ip-inet_ntoa :
    (i : InAddr) → i.s1 < 256 → i.s2 < 256 → is_local_ip (inet_ntoa i) ≡ in_local_net i
unfolding is_local_ip digits
is_local_ip-inet_ntoa i h1 h2 =
    rw
      (
        starts-first 10 i (omega arith) h1,
        starts-two 192 168 i (omega arith) (omega arith) h1 h2,
        starts-two 169 254 i (omega arith) (omega arith) h1 h2,
        starts-first 172 i (omega arith) h1,
        second-three 15 32 172 i refl h2,
        starts-first 100 i (omega arith) h1,
        second-three 63 128 100 i refl h2,
        starts-first 9 i (omega arith) h1,
      )
      (ground arith)
