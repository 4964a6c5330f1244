-- ===== src/CpuSet/Chains.antt =====
-- runtime/cpuset/cpuset_builder.go: what a chain of calls on a new builder builds.
use mathlib.Core.List.{append-nil}
use abschlussarbeit.Common.{ℕ, some, List, [], ◌∷◌, ◌++◌, map, ◌≡◌, sym, subst, ap₂, ◌∙◌}
use abschlussarbeit.Common.Slices.{
  Slice, Store, read, append, IsIn, AreApart, Grows, read-append, append-IsIn, append-keeps,
}
use abschlussarbeit.Proto.{positive}
use abschlussarbeit.CpuSet.{
  Builder, Heap, empty, add_cpu, add_cpu_range, add_mem, add_mem_range, build, stringify, stringify,
}
use abschlussarbeit.CpuSet.ListFormat.{parse_list, parse_list-stringify, range, single}
use abschlussarbeit.CpuSet.Calls.{
  AreAdded, AreApart-sym, Call, IsOwner, added, added-AreAdded, contents, cpu, cpu_range,
  cpu_ranges_of, cpus_of, mem, mem_range, mem_ranges_of, mems_of, new-IsOwner,
}

module _ (grow : ℕ → ℕ) where
  unfoldable pub call : Call → Builder → Heap → Builder × Heap
  unfolding add_cpu add_mem add_cpu_range add_mem_range
  call (cpu n) = add_cpu grow (positive n)
  call (mem n) = add_mem grow (positive n)
  call (cpu_range a b) = add_cpu_range grow (positive a) (positive b)
  call (mem_range a b) = add_mem_range grow (positive a) (positive b)

  unfoldable pub chain : List Call → Builder → Heap → Builder × Heap
  chain [] b h = (b, h)
  chain (c ∷ cs) b h = let (b', h') = call c b h in chain cs b' h'

  module _ (grows : Grows grow) where
    -- An append to one of two slices that lie apart.
    beside :
        {A : Type 0} (x : A) (s t : Slice) (st : Store A)
        → IsIn s st
        → IsIn t st
        → AreApart s t
        → IsIn (append grow x s st).0 (append grow x s st).1
          × IsIn t (append grow x s st).1
          × AreApart (append grow x s st).0 t
          × (read (append grow x s st).1 (append grow x s st).0 ≡ read st s ++ x ∷ [])
          × (read (append grow x s st).1 t ≡ read st t)
    beside x s t st in_s in_t apart =
        let (kept, inside, apart') = append-keeps grow grows x s st in_s t in_t apart in
        (
          append-IsIn grow grows x s st in_s,
          inside,
          apart',
          read-append grow grows x s st in_s,
          kept,
        )

    call_lem :
        (c : Call) (b : Builder) (h : Heap)
        → IsOwner b h
        → IsOwner (call c b h).0 (call c b h).1
          × (contents (call c b h).0 (call c b h).1 ≡ added c (contents b h))
    unfolding call
    call_lem (cpu n) b h o =
        let (p, q, r, e, k) =
          beside (positive n) b.cpus b.mems h.ints o.cpus_in o.mems_in o.ints_apart in
        (
          record {
            cpus_in = p;
            mems_in = q;
            cpu_ranges_in = o.cpu_ranges_in;
            mem_ranges_in = o.mem_ranges_in;
            ints_apart = r;
            ranges_apart = o.ranges_apart;
          },
          ap₂ (λ x y. record (contents b h) { cpus = x; mems = y }) e k,
        )
    call_lem (mem n) b h o =
        let (p, q, r, e, k) =
          beside (positive n) b.mems b.cpus h.ints o.mems_in o.cpus_in
            (AreApart-sym b.cpus b.mems o.ints_apart) in
        (
          record {
            cpus_in = q;
            mems_in = p;
            cpu_ranges_in = o.cpu_ranges_in;
            mem_ranges_in = o.mem_ranges_in;
            ints_apart = λ i j e. r j i (sym e);
            ranges_apart = o.ranges_apart;
          },
          ap₂ (λ x y. record (contents b h) { mems = x; cpus = y }) e k,
        )
    call_lem (cpu_range a c) b h o =
        let (p, q, r, e, k) =
          beside (range (a, c)) b.cpu_ranges b.mem_ranges h.ranges o.cpu_ranges_in o.mem_ranges_in
            o.ranges_apart in
        (
          record {
            cpus_in = o.cpus_in;
            mems_in = o.mems_in;
            cpu_ranges_in = p;
            mem_ranges_in = q;
            ints_apart = o.ints_apart;
            ranges_apart = r;
          },
          ap₂ (λ x y. record (contents b h) { cpu_ranges = x; mem_ranges = y }) e k,
        )
    call_lem (mem_range a c) b h o =
        let (p, q, r, e, k) =
          beside (range (a, c)) b.mem_ranges b.cpu_ranges h.ranges o.mem_ranges_in o.cpu_ranges_in
            (AreApart-sym b.cpu_ranges b.mem_ranges o.ranges_apart) in
        (
          record {
            cpus_in = o.cpus_in;
            mems_in = o.mems_in;
            cpu_ranges_in = q;
            mem_ranges_in = p;
            ints_apart = o.ints_apart;
            ranges_apart = λ i j e. r j i (sym e);
          },
          ap₂ (λ x y. record (contents b h) { mem_ranges = x; cpu_ranges = y }) e k,
        )

    -- A chain adds behind what the builder holds.
    chain_lem :
        (cs : List Call) (b : Builder) (h : Heap)
        → IsOwner b h
        → AreAdded (contents b h) cs (contents (chain cs b h).0 (chain cs b h).1)
    unfolding chain
    chain_lem [] b h o =
        (sym (append-nil _), sym (append-nil _), sym (append-nil _), sym (append-nil _))
    chain_lem (c ∷ cs) b h o =
        let (o', e) = call_lem c b h o in
        let (b', h') = call c b h in
        added-AreAdded c cs (contents b h) _ (
          subst (λ x. AreAdded x cs (contents (chain cs b' h').0 (chain cs b' h').1)) e
            (chain_lem cs b' h' o'))

  -- Whatever chain of calls with numbers that are not negative is made on a new builder, and however
  -- the runtime grows arrays: the kernel's list format reads the text of the CPUs as the CPUs that
  -- were added, in order, and behind them the ranges of CPUs; and so for the memory nodes. No call
  -- touches what another one added.
  pub build-chain :
      Grows grow
      → (cs : List Call) (h : Heap)
      → let (b, h') = chain cs empty h in
        (parse_list (build b h').cpus ≡ some (map single (cpus_of cs) ++ cpu_ranges_of cs))
        × (parse_list (build b h').mems ≡ some (map single (mems_of cs) ++ mem_ranges_of cs))
  unfolding build
  build-chain grows cs h =
      let (cpus, mems, cpu_ranges, mem_ranges) = chain_lem grows cs empty h (new-IsOwner h) in
      (
        ap₂ (λ x y. parse_list (stringify x y)) cpus cpu_ranges
            ∙ parse_list-stringify (cpus_of cs) (cpu_ranges_of cs),
        ap₂ (λ x y. parse_list (stringify x y)) mems mem_ranges
            ∙ parse_list-stringify (mems_of cs) (mem_ranges_of cs),
      )
