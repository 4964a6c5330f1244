-- ===== src/ShimTasks/Rounds.antt =====
-- runtime/service.go: a `Create` and the `Delete` of its task, one after the other.
use abschlussarbeit.Common.{
  String, true, false, Option, none, some, List, [], ◌∷◌, ◌++◌, ◌==◌, eq_iff, ◌≡◌, refl, sym, ◌∙◌,
  ap, ap₂, subst, inl, inr, Error, join-none, error_of, Result, ok, err, is_err, if◌then◌else◌,
  arith, Result-cases, ◌&&◌,
}
use abschlussarbeit.Common.Act.{continue}
use abschlussarbeit.Common.Assoc.{Assoc, lookup, insert, remove, lookup-insert, lookup-remove}
use abschlussarbeit.Common.Bytes.{Bytes}
use abschlussarbeit.TaskManager.{TaskManager, Launch, delete_process}
use abschlussarbeit.TaskManager.View.{proc_at, may_add, fresh}
use abschlussarbeit.TaskManager.Launching.{delete_process_lem}
use abschlussarbeit.StubDrive.Create.{StubDrive}
use abschlussarbeit.StubDrive.Handler.{StubDriveHandler, release}
use abschlussarbeit.StubDrive.Handler.Outcomes.{mounted, taken, returned, release_outcome}
use abschlussarbeit.Proto.{TaskRequest}
use abschlussarbeit.IoProxy.{IoProxy}
use abschlussarbeit.ShimTasks.{ShimTasks, ShimHost, managing, create}
use abschlussarbeit.ShimTasks.Deletion.{delete, delete_container, replied, wrapped}
use abschlussarbeit.ShimTasks.Drives.{create_outcome, vm_path}

module _ (host : ShimHost) where
  replied_ok :
      {A : Type 0} (resp : A) (x : Option Error × ShimTasks)
      → is_err (replied host resp x).0 ≡ false
      → (x.0 ≡ none) × ((replied host resp x).1 ≡ x.1)
  replied_ok resp (none, s) h = (refl, refl)
  replied_ok resp (some e, s) h = absurd (cc)

  wrapped-none :
      (msg : String) {A : Type 0} (r : Result A)
      → wrapped host msg (error_of r) ≡ none
      → is_err r ≡ false
  wrapped-none msg (ok a) h = refl
  wrapped-none msg (err e) h = absurd (cc)

  -- A container's directory is taken away with no error only if its drive was given back.
  delete_container_ok :
      (ident : String) (s : ShimTasks)
      → (delete_container host ident s).0 ≡ none
      → is_err (release host.vm_answers ident s.drives).0 ≡ false
  unfolding delete_container
  delete_container_ok ident s h =
      wrapped-none "failed to release stub drive for container: %s"
        (release host.vm_answers ident s.drives).0
        (join-none _ _ (join-none _ _ (join-none _ _ h).0).0).0

  -- What a container that was deleted with no error leaves: its drive is behind the free ones.
  abbrev Freed : String → ShimTasks → ShimTasks → Type 0
  Freed ident s t =
      (t.manager ≡ s.manager)
      × (d : StubDrive) × (lookup ident s.drives.handler.used_drives ≡ some d)
      × (t.drives.handler ≡ returned host.vm_answers ident d s.drives.handler)

  container-Freed :
      (ident : String) (s : ShimTasks)
      → (delete_container host ident s).0 ≡ none
      → Freed ident s (delete_container host ident s).1
  unfolding delete_container
  container-Freed ident s h = elim (release_outcome host.vm_answers ident s.drives) [
    | inl (bad, _) ↦ absurd (cc (delete_container_ok ident s h))
    | inr (d, _, used, e) ↦ (refl, d, used, e)
  ]

  replied-Freed :
      {A : Type 0} (resp : A) (ident : String) (s : ShimTasks)
      → is_err (replied host resp (delete_container host ident s)).0 ≡ false
      → Freed ident s (replied host resp (delete_container host ident s)).1
  replied-Freed resp ident s h =
      let k = replied_ok resp (delete_container host ident s) h in
      subst (Freed ident s) (sym k.1) (container-Freed ident s k.0)

  module _ {B : Type 0} (ident : String) (service : Result B) where
    delete_ok :
        (s : ShimTasks)
        → is_err (delete host ident "" service s).0 ≡ false
        → (is_err (delete_process ident "" service s.manager).0 ≡ false)
          × Freed ident
              (managing (delete_process ident "" service) s).1
              (delete host ident "" service s).1
    unfolding delete
    delete_ok s h = elim (Result-cases (delete_process ident "" service s.manager).0) [
      | inl (a, good) ↦
          let t = (managing (delete_process ident "" service) s).1 in
          (rw good refl, rw (good, continue) (replied-Freed a ident t (rw (good, continue) at h)))
      | inr (x, bad) ↦ absurd (cc (rw (bad, continue) at h))
    ]

-- A map that had no such key is the same once the key was put in and taken out.
lookup-remove-insert :
    {V : Type 0} (key asked : String) (val : V) (dict : Assoc V)
    → lookup key dict ≡ none
    → lookup asked (remove key (insert key val dict)) ≡ lookup asked dict
lookup-remove-insert key asked val dict h = ground (
  arith,
  lookup-remove key asked (insert key val dict),
  lookup-insert key asked val dict,
  eq_iff key asked,
)

module _ (host : ShimHost) (ident : String) (source vm : Bytes) where
  abbrev used_as : StubDrive → StubDrive
  used_as = mounted host.vm_answers ident source vm "ext4" []

  handlers_round :
      (h h1 h2 : StubDriveHandler) (d d' : StubDrive) (rest : List StubDrive)
      → lookup ident h.used_drives ≡ none
      → h1 ≡ taken host.vm_answers ident source vm "ext4" [] d rest h
      → lookup ident h1.used_drives ≡ some d'
      → h2 ≡ returned host.vm_answers ident d' h1
      → (h2.free_drives ≡ rest ++ used_as d ∷ [])
        × ((key : String) → lookup key h2.used_drives ≡ lookup key h.used_drives)
  handlers_round h h1 h2 d d' rest unused e1 used e2 =
      let before = h.used_drives in
      let found : lookup ident (insert ident (used_as d) before) ≡ some d' =
        sym (ap (λ (x : StubDriveHandler). lookup ident x.used_drives) e1) ∙ used in
      let same : d' ≡ used_as d =
        ground (arith, lookup-insert ident ident (used_as d) before, eq_iff ident ident) in
      (
        ap (λ (x : StubDriveHandler). x.free_drives) e2
            ∙ ap₂ (λ (x : StubDriveHandler) (y : StubDrive). x.free_drives ++ y ∷ []) e1 same,
        λ key.
            ap (λ (x : StubDriveHandler). lookup key x.used_drives) e2
            ∙ ap (λ (x : StubDriveHandler). lookup key (remove ident x.used_drives)) e1
            ∙ lookup-remove-insert ident key (used_as d) before unused,
      )

procs_round :
    {B : Type 0} (t : String) (service : Result B) (m n : TaskManager) (u f : String)
    → may_add t "" m ≡ true
    → proc_at u f n ≡ (if t == u && "" == f then some (fresh t "" m) else proc_at u f m)
    → is_err (delete_process t "" service n).0 ≡ false
    → proc_at u f (delete_process t "" service n).1 ≡ proc_at u f m
procs_round t service m n u f may there good =
    let k = delete_process_lem t "" service n in
    ground (arith, k.0, k.1 u f, eq_iff t u, eq_iff "" f)

module _ (host : ShimHost) {A B : Type 0} (launch : TaskRequest → IoProxy → Launch A)
    (req : TaskRequest) (service : Result B) where
  -- The state in which a task was created and deleted again.
  abbrev pub afterwards : ShimTasks → ShimTasks
  afterwards s = (delete host req.id "" service (create host launch req s).1).1

  -- If a `Create` and the `Delete` of its task both succeed, then the drive that the `Create` took,
  -- the first free one, stands behind the other free drives, the drives in use are the ones that
  -- were in use, and every process of every task is where it was.
  pub create-delete :
      (s : ShimTasks)
      → is_err (create host launch req s).0 ≡ false
      → is_err (delete host req.id "" service (create host launch req s).1).0 ≡ false
      → (source : Bytes) × (d : StubDrive) × (rest : List StubDrive) × (s.drives.handler.free_drives
          ≡ d ∷ rest)
        × ((afterwards s).drives.handler.free_drives
            ≡ rest
              ++ mounted host.vm_answers req.id source (vm_path host launch req) "ext4" [] d ∷ [])
        × ((key : String)
            → lookup key (afterwards s).drives.handler.used_drives
              ≡ lookup key s.drives.handler.used_drives)
        × ((u f : String) → proc_at u f (afterwards s).manager ≡ proc_at u f s.manager)
  create-delete s h k =
      let t = (create host launch req s).1 in
      let (good, (managed, d', used, returns)) = delete_ok host req.id service t k in
      elim (create_outcome host launch req s) [
        | inl (bad, _, _) ↦ absurd (cc)
        | inr (source, r, failed, landed) ↦
            let drives =
              handlers_round host req.id source (vm_path host launch req) s.drives.handler
                t.drives.handler (afterwards s).drives.handler r.drive d' r.rest r.unused r.result
                used returns in
            let (may, there) = landed h in
            (
              source,
              r.drive,
              r.rest,
              r.was_free,
              drives.0,
              drives.1,
              λ u f.
                  ap (λ m. proc_at u f m) managed
                  ∙ procs_round req.id service s.manager t.manager u f may (there u f) good,
            )
      ]
