-- ===== src/AgentService/Registering.antt =====
-- agent/service.go: the steps that register clean-ups, and which they register.
use abschlussarbeit.Common.{
  String, [], ◌∷◌, ◌++◌, ◌≡◌, refl, ◌∙◌, Result, ok, err, Bool, true, false, List,
}
use abschlussarbeit.Common.Act.{wrap_result}
use abschlussarbeit.Common.Bytes.{Bytes, bytes_eq_iff}
use abschlussarbeit.Proto.{TaskRequest}
use abschlussarbeit.AgentService.{
  Cleanup, remove_all, unmount_all, FifoSet, TaskService, add_cleanup, fifo_cleanup,
}
use abschlussarbeit.AgentService.Cleanups.{IsQuiet, if_ok, trans-IsMore, no_call, still}
use mathlib.Core.List.{append_assoc}

pub if_ok-nil : {A : Type 0} (r : Result A) → if_ok r (λ _. []) ≡ []
if_ok-nil (ok a) = refl
if_ok-nil (err e) = refl

pub if_ok-wrap :
    {A : Type 0} (msg : String) (r : Result A) (f : A → List Cleanup)
    → if_ok (wrap_result msg r) f ≡ if_ok r f
if_ok-wrap msg (ok a) f = refl
if_ok-wrap msg (err e) f = refl

-- The clean-ups that `Create` registers at its second step, by what `os.Stat` answers.
abbrev pub rootfs_cleanups : Bytes → Result Bool → List Cleanup
rootfs_cleanups path (ok true) = unmount_all path ∷ []
rootfs_cleanups path (ok false) = []
rootfs_cleanups path (err e) = []

-- The clean-up for a FIFO, if the request names a path for the stream.
abbrev pub fifo_removal : Bytes → Bytes → List Cleanup
fifo_removal [] fifo = []
fifo_removal (c ∷ path) fifo = remove_all fifo ∷ []

abbrev pub fifo_removals : TaskRequest → FifoSet → List Cleanup
fifo_removals req fifos =
    fifo_removal req.stdin fifos.stdin
    ++ (fifo_removal req.stdout fifos.stdout ++ fifo_removal req.stderr fifos.stderr)

module _ (key : Bytes) where
  pub add_cleanup-IsQuiet :
      (c : Cleanup) (s : TaskService) → IsQuiet key (c ∷ []) s (add_cleanup key c s)
  unfolding add_cleanup
  add_cleanup-IsQuiet c s = record {
    registered = rw ((bytes_eq_iff key key).1 refl) refl;
    others = λ other d. rw d refl;
    kept = refl;
    called = no_call s.calls;
  }

  pub trans-IsQuiet :
      (xs ys : List Cleanup) (s t u : TaskService)
      → IsQuiet key xs s t
      → IsQuiet key ys t u
      → IsQuiet key (xs ++ ys) s u
  trans-IsQuiet xs ys s t u q p = record {
    registered = p.registered ∙ (rw (q.registered) (append_assoc (s.exec_cleanups key) xs ys));
    others = λ other d. p.others other d ∙ q.others other d;
    kept = p.kept ∙ q.kept;
    called = trans-IsMore s.calls t.calls u.calls q.called p.called;
  }

  pub fifo_cleanup-IsQuiet :
      (path fifo : Bytes) (s : TaskService)
      → IsQuiet key (fifo_removal path fifo) s (fifo_cleanup key path fifo s)
  unfolding fifo_cleanup
  fifo_cleanup-IsQuiet [] fifo s = still key s s refl refl (no_call s.calls)
  fifo_cleanup-IsQuiet (c ∷ path) fifo s = add_cleanup-IsQuiet (remove_all fifo) s
