-- ===== src/Tests/Strings.antt =====
-- Concrete runs of the functions on text.
use modern_flux.Base.{[], ◌∷◌, arith}
use modern_flux.Base.Bytes.{Bytes}
use modern_flux.Text.ProcId.{IsPlain}

-- "a||b" and "1.2"
abbrev text : Bytes
text = 97 ∷ 124 ∷ 124 ∷ 98 ∷ []

abbrev address : Bytes
address = 49 ∷ 46 ∷ 50 ∷ []

address-IsPlain : IsPlain address
address-IsPlain = ground arith
