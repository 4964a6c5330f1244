-- ===== src/ShimService/History/Orderly.antt =====
-- runtime/service.go: what is kept of the life of a shim: whether the VM was started and cleaned up, and
-- the calls that are to be made once.
use abschlussarbeit.Common.{
  ℕ, ◌+◌, ◌≡◌, Bool, true, false, Option, none, some, List, [], ◌∷◌, Error, Result, if◌then◌else◌,
}
use abschlussarbeit.ShimService.{ShimCall, jailer_close, publish_vm_start, publish_vm_stop, Service}

abbrev pub is_vm_start : ShimCall → Bool
is_vm_start publish_vm_start = true
is_vm_start _ = false

abbrev pub is_vm_stop : ShimCall → Bool
is_vm_stop publish_vm_stop = true
is_vm_stop _ = false

abbrev pub is_jailer_close : ShimCall → Bool
is_jailer_close jailer_close = true
is_jailer_close _ = false

abbrev pub count : (ShimCall → Bool) → List ShimCall → ℕ
count test [] = 0
count test (c ∷ cs) = if test c then 1 + count test cs else count test cs

-- What the invariant speaks of.
pub record Summary : Type 0 where
  pub started : Bool
  pub ready : Bool
  pub cleaned : Option (Option Error)
  pub vm_starts : ℕ
  pub vm_stops : ℕ
  pub closes : ℕ

abbrev pub summary : Service → Summary
summary s = record {
  started = s.start_once;
  ready = s.vm_ready;
  cleaned = s.cleanup_once;
  vm_starts = count is_vm_start s.calls;
  vm_stops = count is_vm_stop s.calls;
  closes = count is_jailer_close s.calls;
}

-- The jailer was closed, and the end of the VM published, once if the shim was cleaned up and else
-- never; the start was published at most once, and only of a VM that became ready.
abbrev pub IsCleaned : Option (Option Error) → ℕ → ℕ → Type 0
IsCleaned none stops closes = (stops ≡ 0) × (closes ≡ 0)
IsCleaned (some e) stops closes = (stops ≡ 1) × (closes ≡ 1)

abbrev pub IsStarted : Bool → Bool → ℕ → Type 0
IsStarted false ready starts = (ready ≡ false) × (starts ≡ 0)
IsStarted true ready starts = starts ≡ (if ready then 1 else 0)

pub record IsOrderly (m : Summary) : Type 0 where
  pub once_cleaned : IsCleaned m.cleaned m.vm_stops m.closes
  pub once_started : IsStarted m.started m.ready m.vm_starts

-- What the invariant says of a VM that is being created, and of one that was not asked for.
pub none_yet : (started ready : Bool) (n : ℕ) → IsStarted started ready n → ready ≡ false → n ≡ 0
none_yet true true n h r = cc
none_yet true false n h r = h
none_yet false ready n h r = h.1

pub not_ready :
    (started ready : Bool) (n : ℕ) → IsStarted started ready n → started ≡ false → ready ≡ false
not_ready true ready n h r = cc
not_ready false ready n h r = h.0

pub begun :
    (started ready : Bool) (n : ℕ)
    → IsStarted started ready n
    → started ≡ false
    → IsStarted true ready n
begun true ready n h r = cc
begun false ready n (p, q) r = rw p q

pub uncleaned :
    (cleaned : Option (Option Error)) (stops closes : ℕ)
    → IsCleaned cleaned stops closes
    → cleaned ≡ none
    → (stops ≡ 0) × (closes ≡ 0)
uncleaned none stops closes h e = h
uncleaned (some x) stops closes h e = cc

pub either-IsOrderly :
    (b : Bool) (x y : Result (Unit {0}) × Service)
    → IsOrderly (summary x.1)
    → IsOrderly (summary y.1)
    → IsOrderly (summary (if b then x else y).1)
either-IsOrderly true x y p q = p
either-IsOrderly false x y p q = q

-- Before anything was done.
pub no_clean_up :
    (cleaned : Option (Option Error)) (stops closes : ℕ)
    → cleaned ≡ none
    → stops ≡ 0
    → closes ≡ 0
    → IsCleaned cleaned stops closes
no_clean_up none stops closes e p q = (p, q)
no_clean_up (some x) stops closes e p q = cc

pub no_start :
    (started ready : Bool) (n : ℕ)
    → started ≡ false
    → ready ≡ false
    → n ≡ 0
    → IsStarted started ready n
no_start true ready n e r p = cc
no_start false ready n e r p = (r, p)
