-- ===== src/Executor/Pool/Shutdown.antt =====
-- The pool of a ProcessPoolWorker does not outlive its loop.
use distro_sync.Prelude.{◌≡◌, refl, Bool, true, Option, List, [], ◌∷◌, ◌++◌}
use distro_sync.Dict.{is_some}
use distro_sync.Broker.{Message}
use distro_sync.Worker
use distro_sync.Worker.{BaseWorker, Answer, Phase, Event, step, connect}
use distro_sync.Worker.Shutdown.{IsActive, IsResponse, shutdown-IsStopped}
use distro_sync.Executor.Pool.{Pool, ProcessPoolWorker, is_over, execute, run}

abbrev pub stopping : List Event
stopping = Event.shutdown ∷ Event.loop ∷ Event.loop ∷ Event.loop ∷ []

module _ {S P : Type 0} (ask : S → Message P → S × Answer P) (works : P → Bool) where
  run-append :
      (es fs : List Event) (x : BaseWorker P × S)
      → Worker.run ask works (es ++ fs) x ≡ Worker.run ask works fs (Worker.run ask works es x)
  unfolding Worker.run
  run-append [] fs x = refl
  run-append (e ∷ es) fs x = run-append es fs (step ask works e x)

  module _ (responds : (s : S) (m : Message P) → IsResponse (ask s m).1) where
    stops : (x : BaseWorker P × S) → is_over (Worker.run ask works stopping x).0.phase ≡ true
    stops (w, s) = go w.phase refl
      where
        ended : IsActive w.phase → is_over (Worker.run ask works stopping (w, s)).0.phase ≡ true
        ended a = rw ((shutdown-IsStopped ask works responds w s a).phase) refl

        stays :
            (p : Phase P)
            → w.phase ≡ p
            → is_over p ≡ true
            → is_over (Worker.run ask works stopping (w, s)).0.phase ≡ true
        stays Phase.returned e h = unfold Worker.run step in rw e refl
        stays Phase.raised e h = unfold Worker.run step in rw e refl
        stays other e h = cc

        go :
            (p : Phase P)
            → w.phase ≡ p
            → is_over (Worker.run ask works stopping (w, s)).0.phase ≡ true
        go Phase.polling e = ended (rw e tt)
        go (Phase.holding d) e = ended (rw e tt)
        go (Phase.failing d) e = ended (rw e tt)
        go Phase.returned e = stays Phase.returned e refl
        go Phase.raised e = stays Phase.raised e refl

module _ {S P R : Type 0} (ask : S → Message P → S × Answer P) (task_func : P → Option R)
    (responds : (s : S) (m : Message P) → IsResponse (ask s m).1) where
  -- Whatever a ProcessPoolWorker has gone through, after `shutdown` its pool is shut down within three
  -- rounds of its loop, if its sends all get a response.
  pub run-shut_down :
      (es : List Event) (w : ProcessPoolWorker P) (s : S)
      → (run task_func ask (es ++ stopping) (w, s)).0.executor ≡ Pool.shut_down
  unfolding run
  run-shut_down es w s =
      let works = λ (p : P). is_some (execute task_func (Pool.running w.max_workers) p) in
      let x = connect ask works (w.worker, s) in
      rw (run-append ask works es stopping x, stops ask works responds (Worker.run ask works es x))
        refl
