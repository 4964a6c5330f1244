-- ===== src/Examples/Runtime.antt =====
-- CPU sets and events on concrete inputs.
use abschlussarbeit.Common.{
  ℕ, ◌+◌, String, false, none, some, List, [], ◌∷◌, ◌++◌, map, ◌≡◌, refl, arith, ok, All,
}
use abschlussarbeit.Common.Slices.{Grows, IsIn, read}
use abschlussarbeit.Proto.{positive}
use abschlussarbeit.CpuSet.{Builder, Heap, empty, add_cpu, build}
use abschlussarbeit.CpuSet.ListFormat.{parse_list, single}
use abschlussarbeit.CpuSet.Chains.{chain, build-chain}
use abschlussarbeit.CpuSet.Calls.{
  Call, cpu, mem, cpu_range, cpus_of, cpu_ranges_of, mems_of, mem_ranges_of,
}
use abschlussarbeit.CpuSet.Forks.{add_cpu_twice}
use abschlussarbeit.EventBridge.{
  Envelope, received, attach, republish, get_event, client_get_event, Republishing,
}
use abschlussarbeit.EventBridge.Delivery.{
  Link, turn_of, IsHonest, events_of, cases_of, AreDecoded, events-delivered,
}
use abschlussarbeit.EventBridge.Mixes.{IsPrefix, Mix, nothing, from_left, from_right}

-- Go doubles small arrays.
abbrev doubling : ℕ → ℕ
doubling n = n + n + 1

doubling-Grows : Grows doubling
doubling-Grows n = omega arith

abbrev heap : Heap
heap = record {
  ints = record { cells = λ a i. positive 0; next = 0 };
  ranges = record { cells = λ a i. record { min = positive 0; max = positive 0 }; next = 0 };
}

abbrev calls : List Call
calls = cpu 3 ∷ cpu_range 8 11 ∷ mem 0 ∷ cpu 12 ∷ []

build-chain_example :
    (parse_list (build (chain doubling calls empty heap).0 (chain doubling calls empty heap).1).cpus
      ≡ some (map single (cpus_of calls) ++ cpu_ranges_of calls))
    × (parse_list
          (build (chain doubling calls empty heap).0 (chain doubling calls empty heap).1).mems
        ≡ some (map single (mems_of calls) ++ mem_ranges_of calls))
build-chain_example = build-chain doubling doubling-Grows calls heap

-- A builder with room for one more CPU.
abbrev roomy : Builder
roomy = record empty { cpus = record { array = 0; len = 2; cap = 3 } }

abbrev used : Heap
used = record heap { ints = record { cells = λ a i. positive i; next = 1 } }

roomy-IsIn : IsIn roomy.cpus used.ints
roomy-IsIn = record { fits = omega arith; made = λ p. omega arith }

add_cpu_twice_example :
    (read
        (add_cpu doubling (positive 8) roomy (add_cpu doubling (positive 7) roomy used).1).1.ints
        (add_cpu doubling (positive 8) roomy (add_cpu doubling (positive 7) roomy used).1).0.cpus
      ≡ positive 0 ∷ positive 1 ∷ positive 8 ∷ [])
    × (read
          (add_cpu doubling (positive 8) roomy (add_cpu doubling (positive 7) roomy used).1).1.ints
          (add_cpu doubling (positive 7) roomy used).0.cpus
        ≡ positive 0 ∷ positive 1 ∷ positive 8 ∷ [])
add_cpu_twice_example =
    add_cpu_twice doubling doubling-Grows (positive 7) (positive 8) roomy used roomy-IsIn

abbrev started_event : Envelope String
started_event = record {
  timestamp = 5;
  namespace = "default";
  topic = "/tasks/start";
  event = "id";
}

abbrev links : List (Link String)
links =
    record {
      ended = false;
      ctx_err = none;
      case = received started_event;
      server_ctx_err = none;
      reply = ok started_event;
      answer = none;
    }
    ∷ []

-- An event of the shim itself.
abbrev vm_start : Envelope String
vm_start = record {
  timestamp = 4;
  namespace = "default";
  topic = "/firecracker-vm/start";
  event = "vm";
}

abbrev turns : List (Republishing String)
turns =
    record { case = received vm_start; ctx_err = none; answer = none }
    ∷ record { case = received started_event; ctx_err = none; answer = none }
    ∷ []

links-IsHonest : All IsHonest links
unfolding get_event
links-IsHonest = (λ e h. ground arith, tt)

handed_out : started_event ∷ [] ≡ (attach (map turn_of links)).0
unfolding attach client_get_event
handed_out = refl

events-delivered_example :
    (es mine theirs : List (Envelope String)) × IsPrefix mine (vm_start ∷ [])
    × IsPrefix theirs (events_of (cases_of links))
    × Mix mine theirs es
    × AreDecoded (λ any. ok any) (republish (λ any. ok any) turns).0 es
events-delivered_example =
    events-delivered (λ any. ok any) links turns (vm_start ∷ []) (started_event ∷ []) links-IsHonest
      ([], handed_out) (from_left vm_start (from_right started_event nothing))
