-- ===== src/Control/Cleanup/Opening.antt =====
-- The calls of `CreateVM` of firecracker-control/local.go that open what it needs.
use abschlussarbeit.Common.{
  Option-cases, inl, inr, none, List, String, ◌≡◌, refl, subst, true, ◌∷◌, arith, Result, ok, err,
  is_err,
}
use abschlussarbeit.Common.Act.{Act, pure, attempt, lift, wrapping, continue, ◌>>=◌, ◌>>◌}
use abschlussarbeit.Common.Bytes.{Bytes, codes}
use abschlussarbeit.Control.{
  dir_removed, HostCall, remove_dir, ask, listen, mkdir, connect, remove_all, Resource, socket,
  directory, client, Local, Host, obtain, shim_firecracker_client, fc_control_socket_address,
}
use abschlussarbeit.Control.Vm.{listened, open_shim_socket, make_base}
use abschlussarbeit.Control.Cleanup.{Unmoved, here, Holds, Keeps, Obtains, Returns, bind-Obtains}
use abschlussarbeit.Control.Cleanup.Resources.{free-Returns, obtain-Obtains}

module _ {A : Type 0} where
  then_pure :
      {s t : Local} (q : Result (Unit {0})) (a b : A) (r : A → Resource)
      → ((u : Unit {0}) → q ≡ ok u → Holds (r a) s t)
      → (continue q (λ _. pure a) t).0 ≡ ok b
      → Holds (r b) s (continue q (λ _. pure a) t).1
  then_pure {s} {t} (ok u) a b r o h =
      let eq : a ≡ b = ground arith in subst (λ x. Holds (r x) s t) eq (o u refl)
  then_pure (err e) a b r o h = absurd (ground arith)

  or_pure :
      {s t : Local} (q : Result (Unit {0})) (a : A)
      → (is_err q ≡ true → Unmoved s t)
      → is_err (continue q (λ _. pure a) t).0 ≡ true
      → Unmoved s (continue q (λ _. pure a) t).1
  or_pure (ok u) a o h = absurd (ground arith)
  or_pure (err e) a o h = o refl

  pure-Obtains :
      (m : Act Local (Unit {0})) (a : A) (r : A → Resource)
      → Obtains m (λ _. r a)
      → Obtains (m >> pure a) r
  pure-Obtains m a r o = record {
    on_ok = λ s b h. then_pure (m s).0 a b r (o.on_ok s) h;
    or_clean = λ s h. or_pure (m s).0 a (o.or_clean s) h;
  }

module _ (host : Host) where
  pub client-Obtains : (vm_id : String) → Obtains (shim_firecracker_client host vm_id) client
  unfolding shim_firecracker_client
  client-Obtains vm_id =
      let last : Bytes → Act Local Bytes =
        λ address. obtain host (connect address) (client address) >> pure address in
      bind-Obtains (wrapping "invalid id" (attempt (host.validate vm_id)))
        (λ _.
          wrapping "failed to get shim's fccontrol socket address"
            (lift (fc_control_socket_address host vm_id))
          >>= last)
        client (λ s. here s)
        λ _.
          bind-Obtains
            (wrapping "failed to get shim's fccontrol socket address"
              (lift (fc_control_socket_address host vm_id)))
            last client (λ s. here s)
            λ address.
              pure-Obtains (obtain host (connect address) (client address)) address client
                (obtain-Obtains host (connect address) (client address))

  listened_err :
      (vm_id address : String) (r : Result (Unit {0}))
      → is_err (listened host vm_id address r) ≡ is_err r
  listened_err vm_id address (ok tt) = refl
  listened_err vm_id address (err e) = ground arith

  listened_ok :
      (vm_id address : String) (r : Result (Unit {0})) (u : Unit {0})
      → listened host vm_id address r ≡ ok u
      → r ≡ ok u
  listened_ok vm_id address (ok tt) u h = refl
  listened_ok vm_id address (err e) u h = absurd (ground arith)

  pub open-Obtains :
      (vm_id address : String)
      → Obtains (open_shim_socket host vm_id address) (λ _. socket (codes address))
  unfolding open_shim_socket
  open-Obtains vm_id address =
      let o = obtain-Obtains host (listen (codes address)) (socket (codes address)) in
      let m = obtain host (listen (codes address)) (socket (codes address)) in
      record {
        on_ok = λ s u h. o.on_ok s u (listened_ok vm_id address (m s).0 u h);
        or_clean = λ s h. o.or_clean s (rw (← listened_err vm_id address (m s).0) h);
      }

  pub make_base-Keeps : (base : Bytes) → Keeps (make_base host base)
  unfolding make_base ask
  make_base-Keeps base s = elim (Option-cases (host.answers s.calls (mkdir base))) [
    | inl made ↦ rw made (record { same_processes = refl; same_held = refl })
    | inr (e, failed) ↦ rw failed (record { same_processes = refl; same_held = refl })
  ]

  pub remove_dir-Returns :
      ((calls : List HostCall) (dir : Bytes) → host.answers calls (remove_all dir) ≡ none)
      → (dir : Bytes) → Returns (remove_dir host dir) (directory dir)
  unfolding remove_dir
  remove_dir-Returns removes dir s t h =
      rw (removes t.calls dir, dir_removed)
        (free-Returns (directory dir) s (record t { calls = remove_all dir ∷ t.calls })
          (record { same_processes = h.same_processes; now_held = h.now_held }))
