-- ===== src/CpuSet/Forks.antt =====
-- runtime/cpuset/cpuset_builder.go: two builders that are made from one. `AddCPU` takes and returns a
-- builder by value, but the copies share the array of CPUs.
use abschlussarbeit.Common.{
  ℕ, [], ◌∷◌, ◌++◌, ◌≡◌, sym, ap, ◌∙◌, ltb, if◌then◌else◌, Bool-cases, inl, inr,
}
use abschlussarbeit.Common.Slices.{
  read, append, IsIn, Grows, read-append, append-IsIn, append-keeps, append_self, append_again,
  append_moves,
}
use abschlussarbeit.Proto.{Int64}
use abschlussarbeit.CpuSet.{Builder, Heap, add_cpu}

module _ (grow : ℕ → ℕ) (grows : Grows grow) where
  -- Of a builder `b`, make `b.AddCPU(x)` and then `b.AddCPU(y)`, and look at both. The second is `b`
  -- with `y`. The first is `b` with `x` only where the array of `b` was full; where it had room, the
  -- second call wrote `y` over the `x` of the first.
  pub add_cpu_twice :
      (x y : Int64) (b : Builder) (h : Heap)
      → IsIn b.cpus h.ints
      → let (b1, h1) = add_cpu grow x b h in
        let (b2, h2) = add_cpu grow y b h1 in
        (read h2.ints b2.cpus ≡ read h.ints b.cpus ++ y ∷ [])
        × (read h2.ints b1.cpus
            ≡ read h.ints b.cpus ++ (if ltb b.cpus.len b.cpus.cap then y else x) ∷ [])
  unfolding add_cpu
  add_cpu_twice x y b h o =
      let st = append grow x b.cpus h.ints in
      let (kept, inside) = append_self grow grows x b.cpus h.ints o in
      let second = read-append grow grows y b.cpus st.1 inside ∙ ap (λ l. l ++ y ∷ []) kept in
      (
        second,
        elim (Bool-cases (ltb b.cpus.len b.cpus.cap)) [
          | inl room ↦ rw room (
              ap (λ s. read (append grow y b.cpus st.1).1 s)
                (sym (append_again grow grows x b.cpus h.ints o y room))
              ∙ second)
          | inr full ↦ rw full (
              (append-keeps grow grows y b.cpus st.1 inside st.0
                (append-IsIn grow grows x b.cpus h.ints o)
                (append_moves grow grows x b.cpus h.ints o full)).0
              ∙ read-append grow grows x b.cpus h.ints o)
        ],
      )
