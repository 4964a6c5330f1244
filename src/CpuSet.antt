-- ===== src/CpuSet.antt =====
-- runtime/cpuset/cpuset_builder.go: the builder of a CPU set, and the texts that it builds. The slices
-- of a builder are those of Go: the copies of a builder share their arrays.
pub mod ListFormat
pub mod Chains
pub mod Forks
pub mod Calls
use abschlussarbeit.Common.{ℕ, ◌+◌, List, [], ◌∷◌, ◌++◌, map}
use abschlussarbeit.Common.Bytes.{Bytes, codes}
use abschlussarbeit.Common.Decimal.{itoa}
use abschlussarbeit.Common.Slices.{Slice, nil, Store, read, append}
use abschlussarbeit.Proto.{Int64, positive, negative}

-- `Builder`
pub record Builder : Type 0 where
  pub cpus : Slice
  pub cpu_ranges : Slice
  pub mems : Slice
  pub mem_ranges : Slice

-- `_range`
pub record Range : Type 0 where
  pub min : Int64
  pub max : Int64

-- `CPUSet`
pub record CpuSet : Type 0 where
  pub cpus : Bytes
  pub mems : Bytes

-- The arrays of numbers and those of ranges.
pub record Heap : Type 0 where
  pub ints : Store Int64
  pub ranges : Store Range

-- `Builder{}`
abbrev pub empty : Builder
empty = record { cpus = nil; cpu_ranges = nil; mems = nil; mem_ranges = nil }

-- `strconv.Itoa` of an `int`
abbrev pub int_text : Int64 → Bytes
int_text (positive n) = itoa n
int_text (negative n) = codes "-" ++ itoa (n + 1)

-- `_range.String`
unfoldable pub range_text : Range → Bytes
range_text r = int_text r.min ++ (codes "-" ++ int_text r.max)

-- `strings.Join(strs, ",")`
abbrev pub join_from : Bytes → List Bytes → Bytes
join_from p [] = p
join_from p (q ∷ ps) = p ++ (codes "," ++ join_from q ps)

abbrev pub join : List Bytes → Bytes
join [] = []
join (p ∷ ps) = join_from p ps

-- `stringify`
unfoldable pub stringify : List Int64 → List Range → Bytes
unfolding range_text
stringify elems ranges = join (map int_text elems ++ map range_text ranges)

module _ (grow : ℕ → ℕ) where
  -- `AddCPU`
  unfoldable pub add_cpu : Int64 → Builder → Heap → Builder × Heap
  add_cpu cpu b h =
      let (cpus, ints) = append grow cpu b.cpus h.ints in
      (record b { cpus = cpus }, record h { ints = ints })

  -- `AddCPURange`
  unfoldable pub add_cpu_range : Int64 → Int64 → Builder → Heap → Builder × Heap
  add_cpu_range min max b h =
      let (cpu_ranges, ranges) =
        append grow (record { min = min; max = max }) b.cpu_ranges h.ranges in
      (record b { cpu_ranges = cpu_ranges }, record h { ranges = ranges })

  -- `AddMem`
  unfoldable pub add_mem : Int64 → Builder → Heap → Builder × Heap
  add_mem mem b h =
      let (mems, ints) = append grow mem b.mems h.ints in
      (record b { mems = mems }, record h { ints = ints })

  -- `AddMemRange`
  unfoldable pub add_mem_range : Int64 → Int64 → Builder → Heap → Builder × Heap
  add_mem_range min max b h =
      let (mem_ranges, ranges) =
        append grow (record { min = min; max = max }) b.mem_ranges h.ranges in
      (record b { mem_ranges = mem_ranges }, record h { ranges = ranges })

-- `Build`
unfoldable pub build : Builder → Heap → CpuSet
unfolding stringify
build b h = record {
  cpus = stringify (read h.ints b.cpus) (read h.ranges b.cpu_ranges);
  mems = stringify (read h.ints b.mems) (read h.ranges b.mem_ranges);
}
