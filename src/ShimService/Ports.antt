-- ===== src/ShimService/Ports.antt =====
-- runtime/service.go: the vsock ports that a shim gives to the three streams of each process.
use abschlussarbeit.Common.{
  ℕ, zero, suc, ◌+◌, ◌%◌, ◌<◌, ◌≤◌, ◌≡◌, refl, sym, ap, subst, ◌∙◌, Option, none, some, List, [],
  ◌∷◌, arith, eqb, if◌then◌else◌, Bool-cases, inl, inr,
}
use abschlussarbeit.Common.Bytes.{Bytes}
use abschlussarbeit.Proto.{ExtraData}

infixl 10 ◌>>=◌
abbrev ◌>>=◌ : {A B : Type 0} → Option A → (A → Option B) → Option B
none >>= f = none
some a >>= f = f a

abbrev pub min_vsock_io_port : ℕ
min_vsock_io_port = 11000

abbrev pub max_uint32 : ℕ
max_uint32 = 4294967295

-- `nextVSockPort`, on the `uint32` count of the ports given so far; nothing where it panics.
unfoldable pub next_vsock_port : ℕ → Option (ℕ × ℕ)
next_vsock_port count =
    let port = (min_vsock_io_port + count) % 4294967296 in
    if eqb port max_uint32 then none else some (port, (count + 1) % 4294967296)

abbrev extra_data : {Any : Type 0} → Bytes → Option Any → ℕ → ℕ → ℕ → ExtraData Any
extra_data json options stdin stdout stderr = record {
  json_spec = json;
  runc_options = options;
  stdin_port = stdin;
  stdout_port = stdout;
  stderr_port = stderr;
}

-- `generateExtraData`; a copy of the options is the options.
unfoldable pub generate_extra_data :
    {Any : Type 0} → Bytes → Option Any → ℕ → Option (ExtraData Any × ℕ)
generate_extra_data json options count = do
  (stdin, count1) ← next_vsock_port count
  (stdout, count2) ← next_vsock_port count1
  (stderr, count3) ← next_vsock_port count2
  some (extra_data json options stdin stdout stderr, count3)

next_vsock_port_lem :
    (count port count' : ℕ)
    → min_vsock_io_port + count ≤ max_uint32
    → next_vsock_port count ≡ some (port, count')
    → (port ≡ min_vsock_io_port + count)
      × (count' ≡ count + 1)
      × (min_vsock_io_port + count' ≤ max_uint32)
unfolding next_vsock_port
next_vsock_port_lem count port count' b h =
    elim (Bool-cases (eqb ((min_vsock_io_port + count) % 4294967296) max_uint32)) [
      | inl q ↦ absurd (ground arith)
      | inr q ↦ (ground arith, ground arith, ground arith)
    ]

-- A bind that ends with something had something at its first step.
some_first :
    {A B : Type 0} (o : Option A) (f : A → Option B) (b : B)
    → (o >>= f) ≡ some b
    → (a : A) × (o ≡ some a) × (f a ≡ some b)
some_first none f b h = absurd (ground arith)
some_first (some a) f b h = (a, refl, h)

last_step :
    {Any : Type 0} (json : Bytes) (options : Option Any) (p1 p2 p3 c3 count' : ℕ)
    (e : ExtraData Any)
    → ◌≡◌ {A = Option (ExtraData Any × ℕ)}
        (some (extra_data json options p1 p2 p3, c3))
        (some (e, count'))
    → (e.stdin_port ≡ p1) × (e.stdout_port ≡ p2) × (e.stderr_port ≡ p3) × (count' ≡ c3)
last_step json options p1 p2 p3 c3 count' e h =
    (ground arith, ground arith, ground arith, ground arith)

generate_extra_data_lem :
    {Any : Type 0} (json : Bytes) (options : Option Any) (count count' : ℕ) (e : ExtraData Any)
    → min_vsock_io_port + count ≤ max_uint32
    → generate_extra_data json options count ≡ some (e, count')
    → (e.stdin_port ≡ min_vsock_io_port + count)
      × (e.stdout_port ≡ min_vsock_io_port + count + 1)
      × (e.stderr_port ≡ min_vsock_io_port + count + 2)
      × (count' ≡ count + 3)
      × (min_vsock_io_port + count' ≤ max_uint32)
unfolding generate_extra_data
generate_extra_data_lem json options count count' e b h =
    let ((p1, c1), q1, h1) = some_first (next_vsock_port count) _ (e, count') h in
    let (x1, y1, b1) = next_vsock_port_lem count p1 c1 b q1 in
    let ((p2, c2), q2, h2) = some_first (next_vsock_port c1) _ (e, count') h1 in
    let (x2, y2, b2) = next_vsock_port_lem c1 p2 c2 b1 q2 in
    let ((p3, c3), q3, h3) = some_first (next_vsock_port c2) _ (e, count') h2 in
    let (x3, y3, b3) = next_vsock_port_lem c2 p3 c3 b2 q3 in
    let (s1, s2, s3, s4) = last_step json options p1 p2 p3 c3 count' e h3 in
    (
      s1 ∙ x1,
      s2 ∙ x2 ∙ ap (λ c. min_vsock_io_port + c) y1 ∙ omega arith,
      s3 ∙ x3 ∙ ap (λ c. min_vsock_io_port + c) (y2 ∙ ap (λ c. c + 1) y1) ∙ omega arith,
      s4 ∙ y3 ∙ ap (λ c. c + 1) (y2 ∙ ap (λ c. c + 1) y1) ∙ omega arith,
      subst (λ c. min_vsock_io_port + c ≤ max_uint32) (sym s4) b3,
    )

-- The ports of n requests in a row, in the order in which they are given.
unfoldable pub ports_from : ℕ → ℕ → Option (List ℕ)
ports_from zero count = some []
ports_from (suc n) count = do
  (e, count') ← generate_extra_data {Any = Unit {0}} [] none count
  ports ← ports_from n count'
  some (e.stdin_port ∷ e.stdout_port ∷ e.stderr_port ∷ ports)

abbrev pub Ascending : ℕ → List ℕ → Type 0
Ascending bound [] = Unit
Ascending bound (p ∷ ps) = (bound ≤ p) × (p < max_uint32) × Ascending (p + 1) ps

-- From a count that does not overflow: if n requests in a row all get their ports, then the ports
-- ascend from 11000 and the count on, so that no port is given twice, and all are below the largest
-- `uint32`.
pub ports_from-Ascending :
    (n count : ℕ) (ps : List ℕ)
    → min_vsock_io_port + count ≤ max_uint32
    → ports_from n count ≡ some ps
    → Ascending (min_vsock_io_port + count) ps
unfolding ports_from
ports_from-Ascending zero count ps b h =
    let eq : [] ≡ ps = ground arith in subst (Ascending (min_vsock_io_port + count)) eq tt
ports_from-Ascending (suc n) count ps b h =
    let ((e, count'), q, h1) = some_first (generate_extra_data [] none count) _ ps h in
    let (rest, r, h2) = some_first (ports_from n count') _ ps h1 in
    let (x, y, z, c, b') = generate_extra_data_lem [] none count count' e b q in
    let eq : e.stdin_port ∷ e.stdout_port ∷ e.stderr_port ∷ rest ≡ ps = ground arith in
    let up = ports_from-Ascending n count' rest b' r in
    subst (Ascending (min_vsock_io_port + count)) eq (
      omega arith,
      omega arith,
      (
        omega arith,
        omega arith,
        (omega arith, omega arith, subst (λ k. Ascending k rest) (omega arith) up),
      ),
    )
