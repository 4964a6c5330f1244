-- ===== src/Jailer/Namespaces.antt =====
-- runtime/runc_jailer.go: the network namespace of the jail, from `BuildJailedMachine` to the
-- specification that `overwriteConfig` writes.
use abschlussarbeit.Common.{
  Bool, true, false, List, [], ◌∷◌, ◌≡◌, refl, ap, ◌∙◌, if◌then◌else◌, ◌==◌, ◌||◌, arith,
  Bool-cases, inl, inr,
}
use abschlussarbeit.Common.Bytes.{Bytes}
use abschlussarbeit.Jailer.Spec.{Namespace, net_ns_of, set_net_ns, if_given}
use abschlussarbeit.Jailer.Machine.{Machine, build_jailed_machine, ns_or}

abbrev pub has_network : List Namespace → Bool
has_network [] = false
has_network (ns ∷ rest) = (ns.kind == "network") || has_network rest

-- The namespaces of other kinds.
abbrev pub others : List Namespace → List Namespace
others [] = []
others (ns ∷ rest) = let kept = others rest in if ns.kind == "network" then kept else ns ∷ kept

set_net_ns_lem :
    (path : Bytes) (l : List Namespace)
    → (net_ns_of (set_net_ns path l) ≡ (if has_network l then path else []))
      × (others (set_net_ns path l) ≡ others l)
unfolding net_ns_of set_net_ns
set_net_ns_lem path [] = (refl, refl)
set_net_ns_lem path (ns ∷ rest) = elim (Bool-cases (ns.kind == "network")) [
  | inl same ↦ rw same (rw same (refl, refl))
  | inr other ↦ let (a, b) = set_net_ns_lem path rest in rw other (rw other (a, ap (λ l. ns ∷ l) b))
]

-- Setting the path that stands there changes nothing.
set_net_ns_self : (l : List Namespace) → set_net_ns (net_ns_of l) l ≡ l
unfolding net_ns_of set_net_ns
set_net_ns_self [] = refl
set_net_ns_self (ns ∷ rest) = elim (Bool-cases (ns.kind == "network")) [
  | inl same ↦ ground arith
  | inr other ↦
      let e : net_ns_of (ns ∷ rest) ≡ net_ns_of rest = rw other refl in
      rw other (ap (λ p. ns ∷ set_net_ns p rest) e ∙ ap (λ l. ns ∷ l) (set_net_ns_self rest))
]

if_given-net_ns_of :
    (path : Bytes) (l : List Namespace) → set_net_ns path l ≡ l → if_given path l ≡ l
if_given-net_ns_of [] l h = refl
if_given-net_ns_of (c ∷ path) l h = h

kept_for :
    (asked : Bytes) (l : List Namespace)
    → has_network l ≡ true
    → (if_given (ns_or asked (net_ns_of l)) l ≡ if_given asked l)
      × (net_ns_of (if_given (ns_or asked (net_ns_of l)) l) ≡ ns_or asked (net_ns_of l))
      × (others (if_given (ns_or asked (net_ns_of l)) l) ≡ others l)
kept_for [] l there =
    let same = if_given-net_ns_of (net_ns_of l) l (set_net_ns_self l) in
    (same, ap net_ns_of same, ap others same)
kept_for (c ∷ path) l there =
    let (a, b) = set_net_ns_lem (c ∷ path) l in (refl, a ∙ rw there refl, b)

-- For a specification with a network namespace: the namespace that `BuildJailedMachine` settles on is
-- the one that is read back from the specification once it is overwritten, and no namespace of
-- another kind changes. Settling on the specification's own, because the machine asked for none,
-- overwrites nothing.
pub net_ns-kept :
    (m : Machine) (l : List Namespace)
    → has_network l ≡ true
    → let settled = (build_jailed_machine (net_ns_of l) m).net_ns in
      (if_given settled l ≡ if_given m.net_ns l)
      × (net_ns_of (if_given settled l) ≡ settled)
      × (others (if_given settled l) ≡ others l)
unfolding build_jailed_machine
net_ns-kept m l there = kept_for m.net_ns l there
