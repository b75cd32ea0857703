-- ===== src/Report/Local.antt =====
-- The address of this host: GetLocalNormalIp of QuaServer/UDPAPI.cpp, on the interfaces that the system
-- lists.
use modern_flux.Base.{Bool, ◌||◌, Option, none, some, List, [], ◌∷◌, if◌then◌else◌}
use modern_flux.Base.Int.{ℤ, pos, negsuc}
use modern_flux.Base.Bytes.{Bytes, bytes}
use modern_flux.Text.{starts}
use modern_flux.Text.Pairs.{is_sub_string}

-- An interface: its name, and `none` for a null pointer as its address, else the text of an IPv4 address, or
-- `none` for another family.
pub record Interface : Type 0 where
  pub ifa_name : Bytes
  pub ifa_addr : Option (Option Bytes)

-- A tunnel, the loopback device or a loopback address.
unfoldable pub is_inner : Bytes → Bytes → Bool
is_inner name ip =
    is_sub_string name (bytes "tunl")
    || is_sub_string name (bytes "lo")
    || is_sub_string name (bytes "tunnat")
    || starts (bytes "127.0.0.") ip

-- The loop: the return code and the address; `none` where a null pointer is followed.
unfoldable pub first_normal : List Interface → Option (ℤ × Bytes)
unfolding is_inner
first_normal [] = some (negsuc 1, [])
first_normal (i ∷ is) =
    let rest = first_normal is in
    elim i.ifa_addr [
      | none ↦ none
      | some none ↦ rest
      | some (some ip) ↦ if is_inner i.ifa_name ip then rest else some (pos 0, ip)
    ]

-- GetLocalNormalIp; `none` is a failure of `getifaddrs`.
unfoldable pub get_local_normal_ip : Option (List Interface) → Option (ℤ × Bytes)
unfolding first_normal
get_local_normal_ip none = some (negsuc 0, [])
get_local_normal_ip (some interfaces) = first_normal interfaces
