-- ===== src/Frame/Init.antt =====
-- The start of a process: spp_handle_init and GetFirstPort of QuaServer/Frame.cpp, on the document that
-- tinyxml has read and on what the system and the framework return.
pub mod Unique
use modern_flux.Base.{
  ℕ, ◌+◌, ◌*◌, ◌^◌, ◌≤◌, ◌<◌, ◌≡◌, refl, ap, sym, ◌∙◌, Bool, true, false, not, ◌&&◌, ◌||◌, Option,
  none, some, List, [], ◌∷◌, arith, ltb, ◌==◌, if◌then◌else◌, length, Option-cases, Bool-cases, inl,
  inr,
}
use modern_flux.Base.Int.{ℤ, pos, negsuc, pos_part, neg_part, ltb_ℤ, eqb_ℤ, ◌+ℤ◌, ◌*ℤ◌, positive}
use modern_flux.Base.Word.{i32, u32, i32_fits}
use modern_flux.Base.Bytes.{Bytes, bytes}
use modern_flux.Text.{starts}
use modern_flux.Text.Number.{atoi}
use modern_flux.Report.Local.{Interface, get_local_normal_ip}

-- An element below the root: its name and, for each of its children, the attribute `port`, which is
-- `none` where the child has none.
pub record Element : Type 0 where
  pub value : Bytes
  pub ports : List (Option Bytes)

-- A document: it cannot be loaded, has no root, or has elements below the root.
pub data Document : Type 0 where
  unreadable : Document
  no_root : Document
  elements : List Element → Document

-- The first child of an acceptor; `none` where its port is a null pointer.
abbrev port_of_first : List (Option Bytes) → Option ℤ
port_of_first [] = some (pos 0)
port_of_first (none ∷ rest) = none
port_of_first (some port ∷ rest) = some (atoi port)

unfoldable pub find_acceptor : List Element → Option ℤ
find_acceptor [] = some (pos 0)
find_acceptor (e ∷ es) =
    let rest = find_acceptor es in
    if starts (bytes "acceptor") e.value then port_of_first e.ports else rest

-- GetFirstPort; `none` is a null pointer that `atoi` follows.
unfoldable pub get_first_port : Document → Option ℤ
unfolding find_acceptor
get_first_port unreadable = some (negsuc 0)
get_first_port no_root = some (negsuc 1)
get_first_port (elements es) = find_acceptor es

-- What the start meets.
pub record Startup : Type 0 where
  pub groups_sum : ℕ
  pub setrlimit : ℤ
  pub is_worker : Bool
  pub init_frame : ℤ
  pub time : ℕ
  pub proxy : Document
  pub interfaces : Option (List Interface)

-- The globals that it sets.
pub record Globals : Type 0 where
  pub g_groups_num : ℕ
  pub g_uptime : ℕ
  pub g_proxy_port : ℤ
  pub g_host : Bytes

-- What GetLocalNormalIp leaves in `g_host` decides; it leaves the text alone where it fails.
abbrev pub check_host : Globals → Option (ℤ × Bytes) → Option (ℤ × Globals)
check_host g none = none
check_host g (some (ret, ip)) =
    let host : Bytes = if eqb_ℤ ret (pos 0) then ip else g.g_host in
    some (if 0 == length host then negsuc 5 else pos 0, record g { g_host = host })

abbrev pub check_port : Startup → Globals → Option ℤ → Option (ℤ × Globals)
check_port s g none = none
check_port s g (some port) =
    let ported : Globals = record g { g_proxy_port = port } in
    if ltb_ℤ port (pos 19100) || ltb_ℤ (pos 19900) port
    then some (negsuc 0, ported)
    else check_host ported (get_local_normal_ip s.interfaces)

-- The part from GetFirstPort on.
unfoldable pub init_port : Startup → Globals → Option (ℤ × Globals)
unfolding get_first_port
init_port s g = check_port s g (get_first_port s.proxy)

-- spp_handle_init: what it returns, and the globals. `none` is a null pointer that is followed.
unfoldable pub spp_handle_init : Startup → Globals → Option (ℤ × Globals)
unfolding init_port
spp_handle_init s g =
    let counted : Globals = record g { g_groups_num = s.groups_sum } in
    if not (eqb_ℤ s.setrlimit (pos 0))
    then some (negsuc 0, counted)
    else if s.is_worker && ltb_ℤ s.init_frame (pos 0)
    then some (negsuc 0, counted)
    else init_port s (record counted { g_uptime = s.time })

-- `g_proxy_port * 1000 + GetGroupId()`, the id under which the first server asks the second.
unfoldable pub request_id : Globals → ℕ → ℤ
request_id g group_id = i32 (i32 (g.g_proxy_port *ℤ pos 1000) +ℤ pos group_id)
