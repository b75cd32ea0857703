-- ===== src/Report/Address/Ids.antt =====
-- The ids of processes, made from the address of their host and their group (QuaServer/ServiceQua.cpp), as
-- the servers get the address from `inet_ntoa`.
use modern_flux.Base.{
  ℕ, ◌^◌, ◌<◌, ◌≡◌, ◌≢◌, refl, ap, sym, ◌∙◌, true, none, some, [], ◌∷◌, ◌++◌, arith, if◌then◌else◌,
  ltb, length, length-append, Bool-cases, inl, inr, ltb→lt,
}
use modern_flux.Base.Word.{mod32}
use modern_flux.Base.Bytes.{Bytes}
use modern_flux.Text.{digits, underscore, make_procid, get_report_ip}
use modern_flux.Text.ProcId.{
  IsPlain, IsPlain-append, digits-IsPlain, get_report_ip-make_procid, get_report_ip-no_group,
}
use modern_flux.Text.Number.{decimal}
use modern_flux.Text.Number.Decimal.{decimal-all}
use modern_flux.Report.Address.{InAddr, inet_ntoa}
use modern_flux.Report.Address.Local.{IsDotless, digits-IsDotless}

abbrev pub IsInAddr : InAddr → Type 0
IsInAddr i = (i.s1 < 256) × (i.s2 < 256) × (i.s3 < 256) × (i.s4 < 256)

inet_ntoa-IsPlain : (i : InAddr) → IsPlain (inet_ntoa i)
unfolding inet_ntoa
inet_ntoa-IsPlain i =
    let number = digits-IsPlain 3 in
    let dot : (s : Bytes) → IsPlain s → IsPlain (46 ∷ s) =
      λ s p. ((λ e. absurd (omega arith)), p) in
    IsPlain-append _ _ (number i.s1) (
      dot _ (
        IsPlain-append _ _ (number i.s2)
          (dot _ (IsPlain-append _ _ (number i.s3) (dot _ (number i.s4))))))

inet_ntoa_nonempty : (i : InAddr) → 0 < length (inet_ntoa i)
unfolding inet_ntoa
inet_ntoa_nonempty i = omega (
  arith,
  length-append (digits 3 i.s1)
      (46 ∷ digits 3 i.s2 ++ (46 ∷ digits 3 i.s3 ++ (46 ∷ digits 3 i.s4))),
)

-- Two texts with a dot behind numbers agree on both sides of the dot.
dot_cancel :
    (u v q t : Bytes)
    → IsDotless u
    → IsDotless v
    → u ++ (46 ∷ q) ≡ v ++ (46 ∷ t)
    → (u ≡ v) × (q ≡ t)
dot_cancel [] [] q t p r e = (refl, cc)
dot_cancel [] (y ∷ v) q t p r e = absurd (ground arith)
dot_cancel (x ∷ u) [] q t p r e = absurd (ground arith)
dot_cancel (x ∷ u) (y ∷ v) q t p r e =
    let rest : u ++ (46 ∷ q) ≡ v ++ (46 ∷ t) = cc in
    let (same, tail) = dot_cancel u v q t p.1 r.1 rest in (ground arith, tail)

digits_injective : (a b : ℕ) → a < 256 → b < 256 → digits 3 a ≡ digits 3 b → a ≡ b
digits_injective a b h g e =
    sym (decimal-all 3 a (omega arith)) ∙ ap (decimal 0) e ∙ decimal-all 3 b (omega arith)

append_cancel : (s x y : Bytes) → s ++ x ≡ s ++ y → x ≡ y
append_cancel [] x y e = e
append_cancel (c ∷ s) x y e = append_cancel s x y (cc)

InAddr_eq : (i j : InAddr) → i.s1 ≡ j.s1 → i.s2 ≡ j.s2 → i.s3 ≡ j.s3 → i.s4 ≡ j.s4 → i ≡ j
InAddr_eq i j e1 e2 e3 e4 = cc

inet_ntoa_injective : (i j : InAddr) → IsInAddr i → IsInAddr j → inet_ntoa i ≡ inet_ntoa j → i ≡ j
unfolding inet_ntoa
inet_ntoa_injective i j (i1, i2, i3, i4) (j1, j2, j3, j4) e =
    let number = digits-IsDotless 3 in
    let from_third = λ (k : InAddr). digits 3 k.s3 ++ (46 ∷ digits 3 k.s4) in
    let from_second = λ (k : InAddr). digits 3 k.s2 ++ (46 ∷ from_third k) in
    let one = dot_cancel _ _ (from_second i) (from_second j) (number i.s1) (number j.s1) e in
    let two = dot_cancel _ _ (from_third i) (from_third j) (number i.s2) (number j.s2) one.1 in
    let three = dot_cancel _ _ (digits 3 i.s4) (digits 3 j.s4) (number i.s3) (number j.s3) two.1 in
    let e1 : i.s1 ≡ j.s1 = digits_injective i.s1 j.s1 i1 j1 one.0 in
    let e2 : i.s2 ≡ j.s2 = digits_injective i.s2 j.s2 i2 j2 two.0 in
    let e3 : i.s3 ≡ j.s3 = digits_injective i.s3 j.s3 i3 j3 three.0 in
    let e4 : i.s4 ≡ j.s4 = digits_injective i.s4 j.s4 i4 j4 three.1 in InAddr_eq i j e1 e2 e3 e4

-- The address that an id is traced back to: that of its host, if it has a group.
traced :
    (i : InAddr) (id : ℕ)
    → get_report_ip (make_procid (inet_ntoa i) id) ≡ (if ltb 0 id then some (inet_ntoa i) else none)
traced i id = elim (Bool-cases (ltb 0 id)) [
  | inl group ↦ rw group (
      get_report_ip-make_procid (inet_ntoa i) id (inet_ntoa-IsPlain i) (inet_ntoa_nonempty i)
        (ltb→lt 0 id group))
  | inr none_eq ↦
      let zero_id : id ≡ 0 = ground arith in
      rw (none_eq, zero_id) (get_report_ip-no_group (inet_ntoa i) (inet_ntoa-IsPlain i))
]

make_procid-group :
    (ip : Bytes) (id : ℕ) → ltb 0 id ≡ true → make_procid ip id ≡ ip ++ underscore ++ digits 10 id
unfolding make_procid
make_procid-group ip id group = rw group refl

same_id :
    (i j : InAddr) (id jd : ℕ)
    → IsInAddr i
    → IsInAddr j
    → id < 10 ^ 10
    → jd < 10 ^ 10
    → make_procid (inet_ntoa i) id ≡ make_procid (inet_ntoa j) jd
    → (i ≡ j) × (id ≡ jd)
unfolding make_procid
same_id i j id jd hi hj h k e =
    let back = sym (traced i id) ∙ ap get_report_ip e ∙ traced j jd in
    elim (Bool-cases (ltb 0 id)) [
      | inl group ↦ elim (Bool-cases (ltb 0 jd)) [
        | inl other_group ↦
            let host : inet_ntoa i ≡ inet_ntoa j = ground (arith, back, group, other_group) in
            let front : inet_ntoa j ++ underscore ≡ inet_ntoa i ++ underscore =
              ap (λ (s : Bytes). s ++ underscore) (sym host) in
            let same_text : (inet_ntoa i ++ underscore) ++ digits 10 id
                ≡ (inet_ntoa i ++ underscore) ++ digits 10 jd =
              sym (make_procid-group (inet_ntoa i) id group)
              ∙ e
              ∙ make_procid-group (inet_ntoa j) jd other_group
              ∙ ap (λ (s : Bytes). s ++ digits 10 jd) front in
            let number : digits 10 id ≡ digits 10 jd =
              append_cancel (inet_ntoa i ++ underscore) _ _ same_text in
            (
              inet_ntoa_injective i j hi hj host,
              sym (decimal-all 10 id h) ∙ ap (decimal 0) number ∙ decimal-all 10 jd k,
            )
        | inr no_group ↦ absurd (ground (arith, back, group, no_group))
      ]
      | inr no_group ↦ elim (Bool-cases (ltb 0 jd)) [
        | inl group ↦ absurd (ground (arith, back, group, no_group))
        | inr neither ↦ (
          inet_ntoa_injective i j hi hj (ground (arith, e, no_group, neither)),
          ground (arith, no_group, neither),
        )
      ]
    ]

-- Two different processes never have the same id: neither on two hosts, nor in two groups of a host,
-- one of which may be the group 0 that the id leaves out. The groups are uint32_t.
pub make_procid_unique :
    (i j : InAddr) (id jd : ℕ)
    → IsInAddr i
    → IsInAddr j
    → id < mod32
    → jd < mod32
    → (i ≡ j → id ≢ jd)
    → make_procid (inet_ntoa i) id ≢ make_procid (inet_ntoa j) jd
make_procid_unique i j id jd hi hj h k differ e =
    let same = same_id i j id jd hi hj (omega arith) (omega arith) e in differ same.0 same.1
