-- ===== src/Instance/Serve.antt =====
-- What the requests of the instance service leave alone: a request for one data engine does not touch
-- the other one's service.
use longhorn_instance_manage.Base.{
  ℤ, Text, ◌≡◌, refl, Bool, true, false, Option, none, some, Dict, Error, Result, ok, err,
}
use longhorn_instance_manage.Bitmap.{PortBitmap}
use longhorn_instance_manage.Manager.{Manager}
use longhorn_instance_manage.Manager.Handlers.{Env}
use longhorn_instance_manage.Instance.{InstanceResponse, DataEngine, v1, v2, ops_of, SpdkClient}
use longhorn_instance_manage.Instance.Client.{Connection}
use longhorn_instance_manage.Instance.Server.{
  Backends, Request, create, delete, get, list, replace, suspend, resume, switch_over,
  delete_target, Answer, engine_of, serve, dispatch, list_second,
}

module _ {B S : Type 0} where
  dispatch-v2 :
      (o : Option DataEngine) (refuse : Error → Answer)
      (first second : Backends B S → Backends B S × Answer) (w : Backends B S)
      → o ≡ some v2
      → (second w).0.processes ≡ w.processes
      → (dispatch o refuse first second w).0.processes ≡ w.processes
  unfolding dispatch
  dispatch-v2 none refuse first second w e s = refl
  dispatch-v2 (some v1) refuse first second w e s = cc
  dispatch-v2 (some v2) refuse first second w e s = s

  dispatch-v1 :
      (o : Option DataEngine) (refuse : Error → Answer)
      (first second : Backends B S → Backends B S × Answer) (w : Backends B S)
      → o ≡ some v1
      → (first w).0.spdk ≡ w.spdk
      → (dispatch o refuse first second w).0.spdk ≡ w.spdk
  unfolding dispatch
  dispatch-v1 none refuse first second w e s = refl
  dispatch-v1 (some v1) refuse first second w e s = s
  dispatch-v1 (some v2) refuse first second w e s = cc

  list_second-processes :
      (spdk : SpdkClient S) (enabled : Bool) (w : Backends B S)
      (res : Manager B × Result (Dict InstanceResponse))
      → (list_second spdk enabled w res).0.processes ≡ res.0
  unfolding list_second
  list_second-processes spdk true w (m, ok instances) = refl
  list_second-processes spdk false w (m, ok instances) = refl
  list_second-processes spdk enabled w (m, err e) = refl

engine_named : (a n : ℤ) (d : DataEngine) → some a ≡ some n → ops_of n ≡ some d → ops_of a ≡ some d
engine_named a n d e h = cc

module _ {B S : Type 0} (bm : PortBitmap B) (spdk : SpdkClient S) (c : Connection)
    (is_engine : Text → Bool) (enabled : Bool) (env : Env B) where
  -- A request that names the second data engine does not change the process manager.
  pub serve-processes :
      (request : Request) (w : Backends B S) (n : ℤ)
      → engine_of request ≡ some n
      → ops_of n ≡ some v2
      → (serve bm spdk c is_engine enabled env request w).0.processes ≡ w.processes
  unfolding serve
  serve-processes (create layout spec) w n names given =
      dispatch-v2 (ops_of spec.data_engine) _ _ _ w (engine_named _ n v2 names given) refl
  serve-processes (delete engine name uuid type cleanup) w n names given =
      dispatch-v2 (ops_of engine) _ _ _ w (engine_named _ n v2 names given) refl
  serve-processes (get engine name type) w n names given =
      dispatch-v2 (ops_of engine) _ _ _ w (engine_named _ n v2 names given) refl
  serve-processes list w n names given = cc
  serve-processes (replace spec terminate) w n names given =
      dispatch-v2 (ops_of spec.data_engine) _ _ _ w (engine_named _ n v2 names given) refl
  serve-processes (suspend engine name type) w n names given =
      dispatch-v2 (ops_of engine) _ _ _ w (engine_named _ n v2 names given) refl
  serve-processes (resume engine name type) w n names given =
      dispatch-v2 (ops_of engine) _ _ _ w (engine_named _ n v2 names given) refl
  serve-processes (switch_over engine name type engine_name address phase) w n names given =
      dispatch-v2 (ops_of engine) _ _ _ w (engine_named _ n v2 names given) refl
  serve-processes (delete_target engine name type) w n names given =
      dispatch-v2 (ops_of engine) _ _ _ w (engine_named _ n v2 names given) refl

  -- A request that names the first data engine does not change the SPDK service.
  pub serve-spdk :
      (request : Request) (w : Backends B S) (n : ℤ)
      → engine_of request ≡ some n
      → ops_of n ≡ some v1
      → (serve bm spdk c is_engine enabled env request w).0.spdk ≡ w.spdk
  unfolding serve
  serve-spdk (create layout spec) w n names given =
      dispatch-v1 (ops_of spec.data_engine) _ _ _ w (engine_named _ n v1 names given) refl
  serve-spdk (delete engine name uuid type cleanup) w n names given =
      dispatch-v1 (ops_of engine) _ _ _ w (engine_named _ n v1 names given) refl
  serve-spdk (get engine name type) w n names given =
      dispatch-v1 (ops_of engine) _ _ _ w (engine_named _ n v1 names given) refl
  serve-spdk list w n names given = cc
  serve-spdk (replace spec terminate) w n names given =
      dispatch-v1 (ops_of spec.data_engine) _ _ _ w (engine_named _ n v1 names given) refl
  serve-spdk (suspend engine name type) w n names given =
      dispatch-v1 (ops_of engine) _ _ _ w (engine_named _ n v1 names given) refl
  serve-spdk (resume engine name type) w n names given =
      dispatch-v1 (ops_of engine) _ _ _ w (engine_named _ n v1 names given) refl
  serve-spdk (switch_over engine name type engine_name address phase) w n names given =
      dispatch-v1 (ops_of engine) _ _ _ w (engine_named _ n v1 names given) refl
  serve-spdk (delete_target engine name type) w n names given =
      dispatch-v1 (ops_of engine) _ _ _ w (engine_named _ n v1 names given) refl
