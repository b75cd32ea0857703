-- ===== src/Report/Descriptors.antt =====
-- The descriptors of the reports.
use modern_flux.Base.{
  ℕ, ◌+◌, ◌-◌, ◌≤◌, ◌≡◌, ◌≢◌, refl, ap, sym, ◌∙◌, true, false, List, [], ◌∷◌, arith, if◌then◌else◌,
  Bool-cases, Option-cases, inl, inr,
}
use modern_flux.Base.Int.{ℤ, pos, eqb_ℤ, positive, eq_of_parts}
use modern_flux.Base.Bytes.{Bytes, eq_bytes_refl}
use modern_flux.Base.Dict.{
  Dict, lookup, lookup_or, lookup_or-insert, lookup_or-none, emplace, sum_by, sum_by-insert,
}
use modern_flux.Report.{Socket, Sockets, close, address_key, connect_udp, map_send_udp}

-- 1 for the descriptor `d`.
abbrev pub is_fd : ℤ → ℤ → ℕ
is_fd d fd = if eqb_ℤ fd d then 1 else 0

-- How often the process holds it.
abbrev pub times_held : ℤ → List ℤ → ℕ
times_held d [] = 0
times_held d (fd ∷ fds) = is_fd d fd + times_held d fds

-- Every descriptor that is held stands in the map, for exactly one address, and no other number but 0
-- stands there.
abbrev pub IsTidy : Sockets → Type 0
IsTidy s =
    (d : ℤ)
    → d ≢ pos 0
    → (sum_by (is_fd d) s.mapfd ≡ times_held d s.held) × (times_held d s.held ≤ 1)

eqb_ℤ_refl : (d : ℤ) → eqb_ℤ d d ≡ true
eqb_ℤ_refl d = ground arith

eqb_ℤ_eq : (a b : ℤ) → eqb_ℤ a b ≡ true → a ≡ b
eqb_ℤ_eq a b h = eq_of_parts a b (ground (arith, h))

eqb_ℤ_ne : (a b : ℤ) → a ≢ b → eqb_ℤ a b ≡ false
eqb_ℤ_ne a b h = elim (Bool-cases (eqb_ℤ a b)) [ inl e ↦ absurd (h (eqb_ℤ_eq a b e)) | inr e ↦ e ]

pub not_zero : (d : ℤ) → d ≢ pos 0 → is_fd d (pos 0) ≡ 0
not_zero d other = rw (eqb_ℤ_ne (pos 0) d (λ z. other (sym z))) refl

sum_by-emplace :
    (d : ℤ) (key : Bytes) (m : Dict ℤ)
    → d ≢ pos 0
    → sum_by (is_fd d) (emplace key (pos 0) m) ≡ sum_by (is_fd d) m
unfolding emplace
sum_by-emplace d key m other = elim (Option-cases (lookup key m)) [
  | inl e ↦
      let none_of = not_zero d other in
      rw (e, emplace)
        (omega (
          arith,
          sum_by-insert (is_fd d) key (pos 0) (pos 0) m none_of,
          ap (is_fd d) (lookup_or-none key (pos 0) m e),
          none_of,
        ))
  | inr (fd, e) ↦ rw (e, emplace) refl
]

-- A descriptor that is held once is not held after it is closed; the others stay.
times_held-close :
    (d fd : ℤ) (fds : List ℤ)
    → times_held d (close fd fds) ≡ times_held d fds - (if eqb_ℤ fd d then 1 else 0)
times_held-close d fd [] = ground arith
times_held-close d fd (x ∷ fds) = elim (Bool-cases (eqb_ℤ x fd)) [
  | inl same ↦ let e = eqb_ℤ_eq x fd same in rw (same, e) (omega arith)
  | inr other ↦ elim (Bool-cases (eqb_ℤ fd d)) [
    | inl hit ↦
        let miss : eqb_ℤ x d ≡ false = rw (sym (eqb_ℤ_eq fd d hit)) other in
        rw (other, miss) (omega (arith, times_held-close d fd fds))
    | inr miss ↦
        let rest : times_held d (close fd fds) ≡ times_held d fds =
          times_held-close d fd fds ∙ rw miss (omega arith) in
        rw (other, miss, rest) (omega arith)
  ]
]

-- A number that the process does not hold.
abbrev IsFresh : ℤ → Sockets → Type 0
IsFresh fd s = (fd ≢ pos 0) × (times_held fd s.held ≡ 0)

fresh_once :
    (d fd : ℤ) (s : Sockets)
    → IsFresh fd s
    → times_held d s.held ≤ 1
    → is_fd d fd + times_held d s.held ≤ 1
fresh_once d fd s fresh le = elim (Bool-cases (eqb_ℤ fd d)) [
  | inl same ↦
      let none_held : times_held d s.held ≡ 0 = rw (sym (eqb_ℤ_eq fd d same)) fresh.1 in
      rw same (omega (arith, none_held))
  | inr other ↦ rw other (omega (arith, le))
]

connect_udp-IsTidy :
    (io : Socket) (key : Bytes) (s : Sockets)
    → IsFresh io.socket s
    → IsTidy s
    → IsTidy (connect_udp io key s).1
      × (lookup_or key (pos 0) (connect_udp io key s).1.mapfd ≡ (connect_udp io key s).0)
unfolding connect_udp
connect_udp-IsTidy io key s fresh tidy =
    let m = emplace key (pos 0) s.mapfd in
    elim (Bool-cases (eqb_ℤ (pos 0) (lookup_or key (pos 0) m))) [
      | inl zero ↦
          let empty : lookup_or key (pos 0) m ≡ pos 0 =
            sym (eqb_ℤ_eq (pos 0) (lookup_or key (pos 0) m) zero) in
          rw zero (
            λ d other.
                let same = sum_by-emplace d key s.mapfd other in
                let moved = sum_by-insert (is_fd d) key io.socket (pos 0) m (not_zero d other) in
                let before : is_fd d (lookup_or key (pos 0) m) ≡ 0 =
                  ap (is_fd d) empty ∙ not_zero d other in
                let (held, once) = tidy d other in
                (omega (arith, same, moved, before, held), fresh_once d io.socket s fresh once),
            lookup_or-insert key key io.socket (pos 0) m ∙ rw (eq_bytes_refl key) refl,
          )
      | inr there ↦ rw there (
        λ d other.
            let (held, once) = tidy d other in (sum_by-emplace d key s.mapfd other ∙ held, once),
        refl,
      )
    ]

-- MapSendUDP keeps account of its descriptors: whether the message is sent or not, each descriptor that
-- the process then holds stands in the map for exactly one address, and each number of the map
-- but 0 is one that it holds; if that was so before, and `socket` gives a number that is not 0 and
-- not held.
pub map_send_udp-IsTidy :
    (io : Socket) (ip : Bytes) (port : ℤ) (src : Bytes) (s : Sockets)
    → io.socket ≢ pos 0
    → times_held io.socket s.held ≡ 0
    → IsTidy s
    → IsTidy (map_send_udp io ip port src s).1
unfolding map_send_udp
map_send_udp-IsTidy io ip port src s some_fd unheld tidy =
    let key = address_key ip port in
    let fd = (connect_udp io key s).0 in
    let t = (connect_udp io key s).1 in
    let (open_tidy, known) = connect_udp-IsTidy io key s (some_fd, unheld) tidy in
    elim (Bool-cases (positive (io.send fd src))) [
      | inl sent ↦ rw sent open_tidy
      | inr failed ↦ rw failed (λ d other.
          let moved = sum_by-insert (is_fd d) key (pos 0) (pos 0) t.mapfd (not_zero d other) in
          let none_of = not_zero d other in
          let was : is_fd d (lookup_or key (pos 0) t.mapfd) ≡ is_fd d fd = ap (is_fd d) known in
          let closed = times_held-close d fd t.held in
          let (held, once) = open_tidy d other in
          (omega (arith, moved, none_of, was, closed, held), omega (arith, closed, once)))
    ]
