-- ===== src/Safety/Updates.antt =====
-- The requests that the manager hands to `Reconcile`, one after the other, and the updates that the
-- API server receives from them: controllers/specialresource_controller.go.
use special_resource_operato.Prelude.{◌≡◌, refl, List, [], All}
use special_resource_operato.Exec.Safe.{Ends}
use special_resource_operato.Value.{Fields}
use special_resource_operato.State.{State, initial}
use special_resource_operato.Env.{Env}
use special_resource_operato.Cluster.Log.{LogsUpdates}
use special_resource_operato.Reconcile.{reconciler_special_resources}
use special_resource_operato.Safety.{IsPermitted, PollsInRounds, KeepsKind, IsGuarded, On}
use special_resource_operato.Safety.Requests.{Safe-reconciler_special_resources}

-- What the operator comes to when the process starts in the world `w`, handles requests and is
-- started again, while the world moves on without being sent updates by the operator.
pub data Serves {W : Type 0} (env : Env W) (log : W → List Fields) (w : W) : State W → Type 0 where
  started : Serves env log w (initial w)
  reconciled :
      {s : State W} → Serves env log w s → Serves env log w (reconciler_special_resources env s).1
  restarted : {s : State W} → Serves env log w s → Serves env log w (initial s.world)
  moved :
      {s : State W} (w' : W)
      → Serves env log w s
      → log w' ≡ log s.world
      → Serves env log w (record s { world = w' })

module _ {W : Type 0} (env : Env W) (log : W → List Fields) where
  abbrev IsClean : W → Type 0
  IsClean w = All (IsPermitted env) (log w)

  IsClean-same : (w w' : W) → log w' ≡ log w → IsClean w → IsClean w'
  IsClean-same w w' e h = rw e h

  IsClean-IsGuarded : LogsUpdates env log → IsGuarded env IsClean
  IsClean-IsGuarded laws = record {
    get = λ o k w. IsClean-same _ _ (laws.get o k w);
    list = λ version kind o w. IsClean-same _ _ (laws.list version kind o w);
    create = λ o w. IsClean-same _ _ (laws.create o w);
    update = λ o permitted w h. rw (laws.update o w) (permitted, h);
    update_status = λ r w. IsClean-same _ _ (laws.update_status r w);
    list_special_resources = λ w. IsClean-same _ _ (laws.list_special_resources w);
    cluster_version = λ w. IsClean-same _ _ (laws.cluster_version w);
    secret = λ k w. IsClean-same _ _ (laws.secret k w);
    open_logs = λ k w. IsClean-same _ _ (laws.open_logs k w);
  }

  module _ (laws : LogsUpdates env log) (polls : PollsInRounds env)
      (kinds : KeepsKind env.unstructured) where
    Serves-On : {w : W} {s : State W} → IsClean w → Serves env log w s → On env IsClean s
    Serves-On h started = (h, refl, tt)
    Serves-On h (reconciled r) =
        (Safe-reconciler_special_resources env polls kinds (IsClean-IsGuarded laws)).keeps _
          (Serves-On h r)
    Serves-On h (restarted r) = ((Serves-On h r).0, refl, tt)
    Serves-On h (moved w' r e) = let p = Serves-On h r in (IsClean-same _ w' e p.0, p.1, p.2)

    -- From a world whose log is empty, over any number of requests and restarts, each update that
    -- the server was sent is of one of three kinds: of an object with the operator's owner reference
    -- (or a SpecialResource), no ServiceAccount, Pod or BuildConfig, that the server has answered
    -- under its name, with what is copied from the answer; of a node that was listed, with one label
    -- more than it has, that of a state; or of the role binding for image pullers that was read, with
    -- one subject more than it has.
    pub Serves-IsPermitted :
        (w : W) (s : State W)
        → log w ≡ []
        → Serves env log w s
        → All (IsPermitted env) (log s.world)
    Serves-IsPermitted w s e r = (Serves-On (rw e tt) r).0

    -- Each of these requests is handled to its end: no loop of the model is cut off by its fuel.
    pub Serves-Ends :
        (w : W) (s : State W)
        → log w ≡ []
        → Serves env log w s
        → Ends (reconciler_special_resources env s).0
    Serves-Ends w s e r =
        (Safe-reconciler_special_resources env polls kinds (IsClean-IsGuarded laws)).ends s
          (Serves-On (rw e tt) r)
