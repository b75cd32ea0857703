-- ===== src/Host.antt =====
-- The load of the host, QuaServer/CpuInfo.cpp. The files /proc/stat and /proc/meminfo are input: the
-- seven numbers of the one, the lines of the other.
pub mod Usage
pub mod Entry
pub mod Overload
pub mod Clean
use modern_flux.Base.{
  ℕ, zero, suc, ◌+◌, ◌-◌, ◌*◌, ◌/◌, ◌%◌, ◌^◌, Bool, true, false, ◌&&◌, ◌||◌, not, Option, none,
  some, List, [], ◌∷◌, ltb, leb, ◌==◌, if◌then◌else◌, length, get_or, set, take,
}
use modern_flux.Base.Int.{ℤ, pos}
use modern_flux.Base.Word.{mod64}
use modern_flux.Base.Bytes.{Bytes, bytes}
use modern_flux.Text.{starts}

-- `a - b` in uint64_t.
abbrev pub sub_u64 : ℕ → ℕ → ℕ
sub_u64 a b = (a + (mod64 - b)) % mod64

-- The first line of /proc/stat.
pub record Stat : Type 0 where
  pub user : ℕ
  pub nice : ℕ
  pub system : ℕ
  pub idle : ℕ
  pub iowait : ℕ
  pub irq : ℕ
  pub softirq : ℕ

-- CpuInfo: cpu_time[0] and cpu_time[1], the memory and the two percentages.
pub record CpuInfo : Type 0 where
  pub worktime : ℕ
  pub totaltime : ℕ
  pub memory : List ℕ
  pub cpu_usage : ℕ
  pub mem_usage : ℕ

abbrev pub work_of : Stat → ℕ
work_of s = (s.user + s.nice + s.system + s.irq + s.softirq) % mod64

abbrev pub total_of : Stat → ℕ
total_of s = (work_of s + s.idle) % mod64

-- GetWorkTimeInfo: the two times, or `none` where it does not return 0. The test `<= 0` of an unsigned
-- difference asks whether it is 0.
unfoldable pub get_work_time_info : CpuInfo → Option Stat → Option (ℕ × ℕ)
get_work_time_info c none = none
get_work_time_info c (some s) =
    if (0 == sub_u64 (work_of s) c.worktime) || (0 == sub_u64 (total_of s) c.totaltime)
    then none
    else some (work_of s, total_of s)

-- The digits of a line, and their value, as `strtol` limits it.
unfoldable pub digits_of : Bytes → Bytes
digits_of [] = []
digits_of (c ∷ line) = let rest = digits_of line in if leb 48 c && leb c 57 then c ∷ rest else rest

unfoldable pub number : Bytes → ℕ → ℕ
number [] n = n
number (c ∷ line) n = number line (n * 10 + (c - 48))

unfoldable pub strtol : Bytes → ℕ
unfolding number
strtol line = let n = number line 0 in if ltb n (2 ^ 63) then n else 2 ^ 63 - 1

-- The place of a line in `mem_data`; an empty line keeps `index` at 0.
unfoldable pub mem_index : Bytes → Option ℕ
mem_index line =
    if 0 == length line
    then some 0
    else if starts (bytes "MemTotal") line
    then some 0
    else if starts (bytes "MemFree") line
    then some 1
    else if starts (bytes "Buffers") line
    then some 2
    else if starts (bytes "Cached") line
    then some 3
    else none

-- Row `i` is behind `meminfo_num`, which has four: each digit of the line is written there, and
-- `strtol` reads there, with digits or without.
abbrev pub outside : ℕ → Bool
outside i = leb 4 i

-- Line `i` in the loop of GetMEMInfo; `none` is an access out of bounds: a write
-- and a read where the line has a digit, else a read only.
unfoldable pub read_line : ℕ → Bytes → List ℕ → Option (List ℕ)
unfolding mem_index digits_of strtol
read_line i line mem_data = elim (mem_index line) [
  | none ↦ some mem_data
  | some index ↦ if outside i then none else some (set mem_data index (strtol (digits_of line)))
]

-- The loop, from line `i` on.
unfoldable pub read_lines : ℕ → List Bytes → List ℕ → Option (List ℕ)
unfolding read_line
read_lines i [] mem_data = some mem_data
read_lines i (line ∷ lines) mem_data = elim (read_line i line mem_data) [
  | none ↦ none
  | some filled ↦ read_lines (suc i) lines filled
]

-- The buffers after `n` calls of `fgets`: at the end of the file a call leaves the buffer, which is
-- `last`, and it is copied again.
unfoldable pub fill : ℕ → Bytes → List Bytes → List Bytes
fill zero last lines = []
fill (suc n) last [] = last ∷ fill n last []
fill (suc n) last (line ∷ lines) = line ∷ fill n line lines

-- GetMEMInfo; without the file `mem_data` stays as it was. `none` is an access out of bounds, or, for an
-- empty file, a copy of the buffer that nothing was written to.
unfoldable pub get_mem_info : Option (List Bytes) → List ℕ → Option (List ℕ)
unfolding read_lines fill
get_mem_info none mem_data = some mem_data
get_mem_info (some []) mem_data = none
get_mem_info (some (line ∷ lines)) mem_data = read_lines 0 (fill 5 line (line ∷ lines)) mem_data

-- The percentage of memory that is neither free nor buffers nor cache.
unfoldable pub mem_percent : List ℕ → ℕ
mem_percent m =
    let m0 = get_or m 0 0 in
    let used = sub_u64 (sub_u64 (sub_u64 m0 (get_or m 1 0)) (get_or m 2 0)) (get_or m 3 0) in
    (used * 100) % mod64 / m0

-- The percentage of the time since the last reading that was work.
unfoldable pub cpu_percent : CpuInfo → ℕ → ℕ → ℕ
cpu_percent c worktime totaltime =
    (sub_u64 worktime c.worktime * 100) % mod64 / sub_u64 totaltime c.totaltime

-- The memory of a new reading.
unfoldable pub set_memory : List ℕ → CpuInfo → CpuInfo
unfolding mem_percent
set_memory m c =
    if ltb 0 (get_or m 0 0) && not (0 == sub_u64 (get_or m 0 0) (get_or m 1 0))
    then record c { memory = m; mem_usage = mem_percent m }
    else c

-- InitCpuInfo, with what `mem_data` holds before; the return code and the object, or `none` for the
-- access out of bounds.
unfoldable pub init_cpu_info :
    CpuInfo → Option Stat → Option (List Bytes) → List ℕ → Option (ℕ × CpuInfo)
unfolding get_work_time_info get_mem_info mem_percent
init_cpu_info c stat lines junk = elim (get_work_time_info c stat) [
  | none ↦ some (1, c)
  | some (worktime, totaltime) ↦ elim (get_mem_info lines junk) [
    | none ↦ none
    | some m ↦ some (
      0,
      record {
        worktime = worktime;
        totaltime = totaltime;
        memory = m;
        cpu_usage = 0;
        mem_usage = if ltb 0 (get_or m 0 0) then mem_percent m else 0;
      },
    )
  ]
]

-- GetCpuInfo. GetWorkTimeInfo has compared both times already, so its own test always holds.
unfoldable pub get_cpu_info :
    CpuInfo → Option Stat → Option (List Bytes) → List ℕ → Option (ℕ × CpuInfo)
unfolding get_work_time_info get_mem_info set_memory cpu_percent
get_cpu_info c stat lines junk = elim (get_work_time_info c stat) [
  | none ↦ some (1, c)
  | some (worktime, totaltime) ↦
      let timed : CpuInfo = record c {
        worktime = worktime;
        totaltime = totaltime;
        cpu_usage = cpu_percent c worktime totaltime;
      } in
      elim (get_mem_info lines junk) [ none ↦ none | some m ↦ some (0, set_memory m timed) ]
]
