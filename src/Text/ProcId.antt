-- ===== src/Text/ProcId.antt =====
-- The process id `ip_group` and GetReportIP of QuaServer/ServiceQua.cpp.
use modern_flux.Base.{
  ℕ, zero, suc, ◌+◌, ◌/◌, ◌%◌, ◌<◌, ◌≡◌, ◌≢◌, refl, none, some, [], ◌∷◌, ◌++◌, arith, lt→ltb,
  length, length-append,
}
use modern_flux.Base.Bytes.{Bytes}
use modern_flux.Text.{underscore, digits, get_report_ip, make_procid}
use modern_flux.Text.Split.{fields, nonempty, split_string-fields}

-- No byte of the text is `_`.
abbrev pub IsPlain : Bytes → Type 0
IsPlain [] = Unit {0}
IsPlain (x ∷ s) = (x ≢ 95) × IsPlain s

pub IsPlain-append : (s t : Bytes) → IsPlain s → IsPlain t → IsPlain (s ++ t)
IsPlain-append [] t p q = q
IsPlain-append (x ∷ s) t p q = (p.0, IsPlain-append s t p.1 q)

pub digits-IsPlain : (fuel n : ℕ) → IsPlain (digits fuel n)
unfolding digits
digits-IsPlain zero n = tt
digits-IsPlain (suc fuel) n = ground (
  arith,
  digits-IsPlain fuel (n / 10),
  IsPlain-append (digits fuel (n / 10)) ((n % 10 + 48) ∷ []),
)

digits_nonempty : (fuel n : ℕ) → 0 < length (digits (suc fuel) n)
unfolding digits
digits_nonempty fuel n = ground (arith, length-append (digits fuel (n / 10)) ((n % 10 + 48) ∷ []))

fields_plain : (s : Bytes) → IsPlain s → fields 95 s ≡ s ∷ []
unfolding fields
fields_plain [] p = refl
fields_plain (x ∷ s) p = ground (arith, fields_plain s p.1)

fields-append : (s t : Bytes) → IsPlain s → fields 95 (s ++ underscore ++ t) ≡ s ∷ fields 95 t
unfolding fields
fields-append [] t p = refl
fields-append (x ∷ s) t p = ground (arith, fields-append s t p.1)

nonempty_two : (s t : Bytes) → 0 < length s → 0 < length t → nonempty (s ∷ t ∷ []) ≡ s ∷ t ∷ []
unfolding nonempty
nonempty_two [] t p q = absurd (omega arith)
nonempty_two (x ∷ s) [] p q = absurd (omega arith)
nonempty_two (x ∷ s) (y ∷ t) p q = refl

-- A process of a host whose address has a byte and no `_` is traced back to that address, if its
-- group id is above 0.
pub get_report_ip-make_procid :
    (ip : Bytes) (id : ℕ)
    → IsPlain ip
    → 0 < length ip
    → 0 < id
    → get_report_ip (make_procid ip id) ≡ some ip
unfolding get_report_ip make_procid
get_report_ip-make_procid ip id p q r =
    let tail = digits 10 id in
    rw (
      lt→ltb 0 id r,
      split_string-fields 95 (ip ++ underscore ++ tail),
      fields-append ip tail p,
      fields_plain tail (digits-IsPlain 10 id),
      nonempty_two ip tail q (digits_nonempty 9 id),
      lt→ltb 0 (length ip) q,
    )

-- With group id 0 the process id is the bare address, and it is traced back to no address.
pub get_report_ip-no_group : (ip : Bytes) → IsPlain ip → get_report_ip (make_procid ip 0) ≡ none
unfolding get_report_ip make_procid
get_report_ip-no_group [] p = unfold nonempty fields in rw (split_string-fields 95 [])
get_report_ip-no_group (x ∷ s) p =
    unfold nonempty in rw (split_string-fields 95 (x ∷ s), fields_plain (x ∷ s) p)
