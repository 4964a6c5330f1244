-- ===== src/CpuSet/Calls.antt =====
-- runtime/cpuset/cpuset_builder.go: calls in a chain, and what they add.
use mathlib.Core.List.{append_assoc}
use abschlussarbeit.Common.{ℕ, List, [], ◌∷◌, ◌++◌, map, ◌≡◌, sym, ◌∙◌, arith}
use abschlussarbeit.Common.Slices.{Slice, read, IsIn, AreApart}
use abschlussarbeit.Proto.{Int64, positive}
use abschlussarbeit.CpuSet.{Builder, Heap, Range, empty}
use abschlussarbeit.CpuSet.ListFormat.{range}

-- A call on the builder that the one before returned; the numbers are not negative.
pub data Call : Type 0 where
  cpu mem : ℕ → Call
  cpu_range mem_range : ℕ → ℕ → Call

-- What the calls add, in their order.
abbrev pub cpus_of : List Call → List ℕ
cpus_of [] = []
cpus_of (cpu n ∷ cs) = n ∷ cpus_of cs
cpus_of (mem n ∷ cs) = cpus_of cs
cpus_of (cpu_range a b ∷ cs) = cpus_of cs
cpus_of (mem_range a b ∷ cs) = cpus_of cs

abbrev pub cpu_ranges_of : List Call → List (ℕ × ℕ)
cpu_ranges_of [] = []
cpu_ranges_of (cpu n ∷ cs) = cpu_ranges_of cs
cpu_ranges_of (mem n ∷ cs) = cpu_ranges_of cs
cpu_ranges_of (cpu_range a b ∷ cs) = (a, b) ∷ cpu_ranges_of cs
cpu_ranges_of (mem_range a b ∷ cs) = cpu_ranges_of cs

abbrev pub mems_of : List Call → List ℕ
mems_of [] = []
mems_of (cpu n ∷ cs) = mems_of cs
mems_of (mem n ∷ cs) = n ∷ mems_of cs
mems_of (cpu_range a b ∷ cs) = mems_of cs
mems_of (mem_range a b ∷ cs) = mems_of cs

abbrev pub mem_ranges_of : List Call → List (ℕ × ℕ)
mem_ranges_of [] = []
mem_ranges_of (cpu n ∷ cs) = mem_ranges_of cs
mem_ranges_of (mem n ∷ cs) = mem_ranges_of cs
mem_ranges_of (cpu_range a b ∷ cs) = mem_ranges_of cs
mem_ranges_of (mem_range a b ∷ cs) = (a, b) ∷ mem_ranges_of cs

-- The slices of a builder lie in the heap, and none shares an array with another.
pub record IsOwner (b : Builder) (h : Heap) : Type 0 where
  pub cpus_in : IsIn b.cpus h.ints
  pub mems_in : IsIn b.mems h.ints
  pub cpu_ranges_in : IsIn b.cpu_ranges h.ranges
  pub mem_ranges_in : IsIn b.mem_ranges h.ranges
  pub ints_apart : AreApart b.cpus b.mems
  pub ranges_apart : AreApart b.cpu_ranges b.mem_ranges

pub new-IsOwner : (h : Heap) → IsOwner empty h
new-IsOwner h = record {
  cpus_in = record { fits = omega arith; made = λ p. omega arith };
  mems_in = record { fits = omega arith; made = λ p. omega arith };
  cpu_ranges_in = record { fits = omega arith; made = λ p. omega arith };
  mem_ranges_in = record { fits = omega arith; made = λ p. omega arith };
  ints_apart = λ p q. absurd (omega arith);
  ranges_apart = λ p q. absurd (omega arith);
}

-- What a builder holds.
pub record Contents : Type 0 where
  pub cpus : List Int64
  pub mems : List Int64
  pub cpu_ranges : List Range
  pub mem_ranges : List Range

abbrev pub contents : Builder → Heap → Contents
contents b h = record {
  cpus = read h.ints b.cpus;
  mems = read h.ints b.mems;
  cpu_ranges = read h.ranges b.cpu_ranges;
  mem_ranges = read h.ranges b.mem_ranges;
}

pub AreApart-sym : (s t : Slice) → AreApart s t → AreApart t s
AreApart-sym s t h p q e = h q p (sym e)

abbrev pub added : Call → Contents → Contents
added (cpu n) c = record c { cpus = c.cpus ++ positive n ∷ [] }
added (mem n) c = record c { mems = c.mems ++ positive n ∷ [] }
added (cpu_range a b) c = record c { cpu_ranges = c.cpu_ranges ++ range (a, b) ∷ [] }
added (mem_range a b) c = record c { mem_ranges = c.mem_ranges ++ range (a, b) ∷ [] }

-- What a builder holds behind what a chain began with.
abbrev pub AreAdded : Contents → List Call → Contents → Type 0
AreAdded x cs y =
    (y.cpus ≡ x.cpus ++ map positive (cpus_of cs))
    × (y.mems ≡ x.mems ++ map positive (mems_of cs))
    × (y.cpu_ranges ≡ x.cpu_ranges ++ map range (cpu_ranges_of cs))
    × (y.mem_ranges ≡ x.mem_ranges ++ map range (mem_ranges_of cs))

pub added-AreAdded :
    (c : Call) (cs : List Call) (x y : Contents) → AreAdded (added c x) cs y → AreAdded x (c ∷ cs) y
added-AreAdded (cpu n) cs x y h = (h.0 ∙ append_assoc x.cpus _ _, h.1, h.2, h.3)
added-AreAdded (mem n) cs x y h = (h.0, h.1 ∙ append_assoc x.mems _ _, h.2, h.3)
added-AreAdded (cpu_range a b) cs x y h = (h.0, h.1, h.2 ∙ append_assoc x.cpu_ranges _ _, h.3)
added-AreAdded (mem_range a b) cs x y h = (h.0, h.1, h.2, h.3 ∙ append_assoc x.mem_ranges _ _)
