-- ===== src/AgentService/Cleanups.antt =====
-- agent/service.go: the clean-ups of a process, and what they are when `Create` or `Exec` fails.
use abschlussarbeit.Common.{
  String, true, false, List, [], ◌∷◌, ◌++◌, map, ◌≡◌, refl, sym, ◌∙◌, ap, Result, ok, err, is_err,
  if◌then◌else◌, All,
}
use abschlussarbeit.Common.Act.{Act, continue}
use abschlussarbeit.Common.Bytes.{Bytes, bytes_eq}
use abschlussarbeit.TaskManager.View.{proc_at}
use abschlussarbeit.AgentService.{
  Cleanup, AgentCall, cleaned, TaskService, Agent, run_cleanups, do_cleanup,
}
use mathlib.Core.List.{append_assoc, append-nil}

module _ (agent : Agent) where
  pub run_cleanups-calls :
      (cs : List Cleanup) (calls : List AgentCall)
      → (run_cleanups agent cs calls).1 ≡ map cleaned cs ++ calls
  unfolding run_cleanups
  run_cleanups-calls [] calls = refl
  run_cleanups-calls (c ∷ cs) calls = ap (λ l. cleaned c ∷ l) (run_cleanups-calls cs calls)

  -- `doCleanup` runs every clean-up of its process, the newest first (the list of calls has the
  -- newest call at its head, and the clean-ups the oldest), whichever of them fail; it forgets
  -- them, and touches neither another process's clean-ups nor the tasks.
  pub do_cleanup_lem :
      (key : Bytes) (s : TaskService)
      → ((do_cleanup agent key s).1.calls ≡ map cleaned (s.exec_cleanups key) ++ s.calls)
        × ((other : Bytes)
            → (do_cleanup agent key s).1.exec_cleanups other
              ≡ (if bytes_eq key other then [] else s.exec_cleanups other))
        × ((do_cleanup agent key s).1.manager ≡ s.manager)
  unfolding do_cleanup
  do_cleanup_lem key s = (run_cleanups-calls (s.exec_cleanups key) s.calls, λ other. refl, refl)

-- A call that is no clean-up.
abbrev pub IsStep : AgentCall → Type 0
IsStep (cleaned c) = ⊥
IsStep _ = Unit

-- From one list of calls to another, calls were made, and none of them ran a clean-up.
abbrev pub IsMore : List AgentCall → List AgentCall → Type 0
IsMore before after = (steps : List AgentCall) × (after ≡ steps ++ before) × All IsStep steps

-- A step that registers these clean-ups of one process, and runs none.
pub record IsQuiet (key : Bytes) (more : List Cleanup) (s t : TaskService) : Type 0 where
  pub registered : t.exec_cleanups key ≡ s.exec_cleanups key ++ more
  pub others :
      (other : Bytes) → bytes_eq key other ≡ false → t.exec_cleanups other ≡ s.exec_cleanups other
  pub kept : t.manager ≡ s.manager
  pub called : IsMore s.calls t.calls

-- ... and one that shows no change of the tasks if it fails.
pub record IsUndone {A : Type 0} (key : Bytes) (more : List Cleanup) (s : TaskService)
    (x : Result A × TaskService) : Type 0 where
  pub registered : x.1.exec_cleanups key ≡ s.exec_cleanups key ++ more
  pub others :
      (other : Bytes) → bytes_eq key other ≡ false → x.1.exec_cleanups other ≡ s.exec_cleanups other
  pub undone : is_err x.0 ≡ true → (t e : String) → proc_at t e x.1.manager ≡ proc_at t e s.manager
  pub called : IsMore s.calls x.1.calls

-- The clean-ups of a step that comes after a result.
abbrev pub if_ok : {A : Type 0} → Result A → (A → List Cleanup) → List Cleanup
if_ok (ok a) more = more a
if_ok (err e) more = []

steps-append : (xs ys : List AgentCall) → All IsStep xs → All IsStep ys → All IsStep (xs ++ ys)
steps-append [] ys h k = k
steps-append (x ∷ xs) ys h k = (h.0, steps-append xs ys h.1 k)

pub trans-IsMore : (a b c : List AgentCall) → IsMore a b → IsMore b c → IsMore a c
trans-IsMore a b c (xs, e, h) (ys, f, k) =
    (ys ++ xs, f ∙ ap (λ l. ys ++ l) e ∙ sym (append_assoc ys xs a), steps-append ys xs k h)

pub no_call : (a : List AgentCall) → IsMore a a
no_call a = ([], refl, tt)

module _ (key : Bytes) where
  pub still :
      (s t : TaskService)
      → t.exec_cleanups ≡ s.exec_cleanups
      → t.manager ≡ s.manager
      → IsMore s.calls t.calls
      → IsQuiet key [] s t
  still s t h k c = record {
    registered =
        ap (λ (f : Bytes → List Cleanup). f key) h ∙ sym (append-nil (s.exec_cleanups key));
    others = λ other d. ap (λ (f : Bytes → List Cleanup). f other) h;
    kept = k;
    called = c;
  }

  pub after-IsQuiet :
      {A : Type 0} (xs ys : List Cleanup) (s t : TaskService) (x : Result A × TaskService)
      → IsQuiet key xs s t
      → IsUndone key ys t x
      → IsUndone key (xs ++ ys) s x
  after-IsQuiet xs ys s t x q u = record {
    registered = u.registered ∙ (rw (q.registered) (append_assoc (s.exec_cleanups key) xs ys));
    others = λ other d. u.others other d ∙ q.others other d;
    undone = λ h a e. u.undone h a e ∙ ap (λ m. proc_at a e m) q.kept;
    called = trans-IsMore s.calls t.calls x.1.calls q.called u.called;
  }

  -- A chain whose first step is quiet is undone if the rest is.
  pub continue-IsUndone :
      {A B : Type 0} (xs : List Cleanup) (ys : A → List Cleanup) (r : Result A) (t : TaskService)
      (g : A → Act TaskService B) (s : TaskService)
      → IsQuiet key xs s t
      → ((a : A) → IsUndone key (ys a) t (g a t))
      → IsUndone key (xs ++ if_ok r ys) s (continue r g t)
  continue-IsUndone xs ys (ok a) t g s q u = after-IsQuiet xs (ys a) s t (g a t) q (u a)
  continue-IsUndone xs ys (err e) t g s q u = record {
    registered = q.registered ∙ ap (λ l. s.exec_cleanups key ++ l) (sym (append-nil xs));
    others = q.others;
    undone = λ h a f. ap (λ m. proc_at a f m) q.kept;
    called = q.called;
  }
