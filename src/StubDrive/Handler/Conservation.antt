-- ===== src/StubDrive/Handler/Conservation.antt =====
-- Drives are neither lost nor made up by `Reserve` and `Release`.
use mathlib.Core.List.{Perm, Nodup, map-append, append_assoc, perm_append_singleton}
use mathlib.Core.List.Perm
use abschlussarbeit.Common.{
  String, ◌≡◌, refl, ap, some, List, [], ◌∷◌, ◌++◌, map, arith, eq_iff, ◌==◌, Bool-cases, inl, inr,
}
use abschlussarbeit.Common.Assoc.{
  Assoc, IsMap, lookup, remove, values, insert-new, insert-IsMap, remove-IsMap, remove-absent,
}
use abschlussarbeit.Common.Bytes.{Bytes}
use abschlussarbeit.Common.Calls.{Answers}
use abschlussarbeit.StubDrive.Create.{StubDrive, with_mount_config}
use abschlussarbeit.StubDrive.Handler.{VmCall, StubDriveHandler, Vm, reserve, release}
use abschlussarbeit.StubDrive.Handler.Outcomes.{mounted, reserve_outcome, release_outcome}

abbrev pub ids : List StubDrive → List Bytes
ids = map (λ (d : StubDrive). d.drive_id)

-- The drives of a handler, by ID: the free ones, then those in use.
abbrev pub drives : StubDriveHandler → List Bytes
drives h = ids h.free_drives ++ ids (values h.used_drives)

values-append : (m n : Assoc StubDrive) → values (m ++ n) ≡ values m ++ values n
values-append [] n = refl
values-append ((k, v) ∷ m) n = ap (λ l. v ∷ l) (values-append m n)

-- A removal takes one value out.
values-remove-perm :
    (k : String) (v : StubDrive) (m : Assoc StubDrive)
    → IsMap m
    → lookup k m ≡ some v
    → Perm (ids (values m)) (v.drive_id ∷ ids (values (remove k m)))
unfolding lookup remove
values-remove-perm k v [] h e = cc
values-remove-perm k v ((j, w) ∷ m) h e = elim (Bool-cases (j == k)) [
  | inl same ↦
      let j≡k : j ≡ k = (eq_iff j k).0 same in
      let w≡v : w ≡ v = ground arith in
      rw (same, remove-absent k m (rw j≡k at h.0), w≡v) (Perm.refl (v.drive_id ∷ ids (values m)))
  | inr other ↦
      let e' : lookup k m ≡ some v = ground arith in
      rw other (
        Perm.trans (Perm.cons w.drive_id (values-remove-perm k v m h.1 e'))
          (Perm.swap v.drive_id w.drive_id (ids (values (remove k m)))))
]

map_ids-append : (xs ys : List StubDrive) → ids (xs ++ ys) ≡ ids xs ++ ids ys
map_ids-append xs ys = map-append (λ (d : StubDrive). d.drive_id) xs ys

last_first : (a : Bytes) (xs ys : List Bytes) → Perm (a ∷ (xs ++ ys)) (xs ++ (ys ++ a ∷ []))
last_first a xs ys = rw (← append_assoc) (Perm.symm (perm_append_singleton a (xs ++ ys)))

-- An element may move from behind one list to behind the other.
move_between :
    (a : Bytes) (xs ys zs : List Bytes) → Perm ys (a ∷ zs) → Perm (xs ++ ys) ((xs ++ a ∷ []) ++ zs)
move_between a xs ys zs h = rw append_assoc (Perm.append_left xs h)

module _ (answers : Answers VmCall) (ident : String) (host vm : Bytes) (fs : String)
    (options : List String) (v : Vm) where
  reserve-perm :
      Perm (drives v.handler) (drives (reserve answers ident host vm fs options v).1.handler)
  reserve-perm = elim (reserve_outcome answers ident host vm fs options v) [
    | inl (bad, same) ↦ rw same (Perm.refl (drives v.handler))
    | inr (good, r) ↦
        rw
          (
            r.result,
            r.was_free,
            insert-new ident (mounted answers ident host vm fs options r.drive)
                v.handler.used_drives r.unused,
            values-append v.handler.used_drives _,
            map_ids-append (values v.handler.used_drives) _,
          )
          (unfold with_mount_config in
            last_first r.drive.drive_id (ids r.rest) (ids (values v.handler.used_drives)))
  ]

  reserve-IsMap :
      IsMap v.handler.used_drives
      → IsMap (reserve answers ident host vm fs options v).1.handler.used_drives
  reserve-IsMap h = elim (reserve_outcome answers ident host vm fs options v) [
    | inl (bad, same) ↦ rw same h
    | inr (good, r) ↦ rw r.result (
        insert-IsMap ident (mounted answers ident host vm fs options r.drive) v.handler.used_drives
          h)
  ]

module _ (answers : Answers VmCall) (ident : String) (v : Vm)
    (h : IsMap v.handler.used_drives) where
  release-perm : Perm (drives v.handler) (drives (release answers ident v).1.handler)
  release-perm = elim (release_outcome answers ident v) [
    | inl (bad, same) ↦ rw same (Perm.refl (drives v.handler))
    | inr (d, good, at, result) ↦
        rw (result, map_ids-append v.handler.free_drives (d ∷ []))
          (move_between d.drive_id (ids v.handler.free_drives) (ids (values v.handler.used_drives))
            (ids (values (remove ident v.handler.used_drives)))
            (values-remove-perm ident d v.handler.used_drives h at))
  ]

  release-IsMap : IsMap (release answers ident v).1.handler.used_drives
  release-IsMap = elim (release_outcome answers ident v) [
    | inl (bad, same) ↦ rw same h
    | inr (d, good, at, result) ↦ rw result (remove-IsMap ident v.handler.used_drives h)
  ]

-- A request to a handler. The mutex makes each call one step.
pub data Request : Type 0 where
  reserve_for : String → Bytes → Bytes → String → List String → Request
  release_of : String → Request

unfoldable pub serve : Answers VmCall → List Request → Vm → Vm
serve answers [] v = v
serve answers (reserve_for ident host vm fs options ∷ rs) v =
    serve answers rs (reserve answers ident host vm fs options v).1
serve answers (release_of ident ∷ rs) v = serve answers rs (release answers ident v).1

-- When no ID is listed twice as in use: whatever requests a handler serves, and however its
-- calls are answered, its drives are those that it had, each as often, and still no ID is listed
-- twice as in use.
pub serve-perm :
    (answers : Answers VmCall) (rs : List Request) (v : Vm)
    → IsMap v.handler.used_drives
    → Perm (drives v.handler) (drives (serve answers rs v).handler)
      × IsMap (serve answers rs v).handler.used_drives
unfolding serve
serve-perm answers [] v h = (Perm.refl (drives v.handler), h)
serve-perm answers (reserve_for ident host vm fs options ∷ rs) v h =
    let v' = (reserve answers ident host vm fs options v).1 in
    let later = serve-perm answers rs v' (reserve-IsMap answers ident host vm fs options v h) in
    (Perm.trans (reserve-perm answers ident host vm fs options v) later.0, later.1)
serve-perm answers (release_of ident ∷ rs) v h =
    let v' = (release answers ident v).1 in
    let later = serve-perm answers rs v' (release-IsMap answers ident v h) in
    (Perm.trans (release-perm answers ident v h) later.0, later.1)

-- When no ID is listed twice as in use and the drives have distinct IDs: whatever requests are
-- served, no drive is both free and in use, or in use by two containers.
pub serve-Nodup :
    (answers : Answers VmCall) (rs : List Request) (v : Vm)
    → IsMap v.handler.used_drives
    → Nodup (drives v.handler)
    → Nodup (drives (serve answers rs v).handler)
serve-Nodup answers rs v h n = Perm.nodup (serve-perm answers rs v h).0 n
