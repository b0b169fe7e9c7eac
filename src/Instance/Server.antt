-- ===== src/Instance/Server.antt =====
-- pkg/instance/instance.go: the instance service, over the process manager and the SPDK service.
use longhorn_instance_manage.Base.{
  ℤ, Text, Bool, Option, none, some, [], Dict, Error, status, unimplemented, Result, ok, err,
  if◌then◌else◌,
}
use longhorn_instance_manage.Bitmap.{PortBitmap}
use longhorn_instance_manage.Manager.{Manager}
use longhorn_instance_manage.Manager.Handlers.{Env}
use longhorn_instance_manage.Instance.{
  InstanceSpec, InstanceResponse, DataLayout, DataEngine, v1, v2, ops_of, SpdkClient,
}
use longhorn_instance_manage.Instance.Client.{Connection}
use longhorn_instance_manage.Instance.V1.{v1_create, v1_delete, v1_get, v1_list, v1_replace}
use longhorn_instance_manage.Instance.V2.{
  v2_create, v2_delete, v2_get, v2_list, v2_suspend, v2_resume, v2_switch_over, v2_delete_target,
}

-- What the service works on: the process manager, and the SPDK service.
pub record Backends (B S : Type 0) : Type 0 where
  pub processes : Manager B
  pub spdk : S

pub data Request : Type 0 where
  create : DataLayout → InstanceSpec → Request
  delete : ℤ → Text → Text → Text → Bool → Request
  get : ℤ → Text → Text → Request
  list : Request
  replace : InstanceSpec → Text → Request
  suspend resume : ℤ → Text → Text → Request
  switch_over : ℤ → Text → Text → Text → Text → Text → Request
  delete_target : ℤ → Text → Text → Request

pub data Answer : Type 0 where
  instance_answer : Result InstanceResponse → Answer
  list_answer : Result (Dict InstanceResponse) → Answer
  empty_answer : Result (Unit {0}) → Answer

-- The engine's number that a request names; `none` for a list, which is for both.
abbrev pub engine_of : Request → Option ℤ
engine_of (create layout spec) = some spec.data_engine
engine_of (delete engine name uuid type cleanup) = some engine
engine_of (get engine name type) = some engine
engine_of list = none
engine_of (replace spec terminate) = some spec.data_engine
engine_of (suspend engine name type) = some engine
engine_of (resume engine name type) = some engine
engine_of (switch_over engine name type engine_name address phase) = some engine
engine_of (delete_target engine name type) = some engine

abbrev pub no_instance : Error → Answer
no_instance e = instance_answer (err e)

abbrev pub not_empty : Error → Answer
not_empty e = empty_answer (err e)

module _ {B S : Type 0} where
  unfoldable pub on_processes :
      {A : Type 0} → (A → Answer) → Backends B S → Manager B × A → Backends B S × Answer
  on_processes wrap w (m, answer) = (record w { processes = m }, wrap answer)

  unfoldable pub on_spdk :
      {A : Type 0} → (A → Answer) → Backends B S → S × A → Backends B S × Answer
  on_spdk wrap w (s, answer) = (record w { spdk = s }, wrap answer)

  unfoldable pub dispatch :
      Option DataEngine
      → (Error → Answer)
      → (Backends B S → Backends B S × Answer)
      → (Backends B S → Backends B S × Answer)
      → Backends B S
      → Backends B S × Answer
  dispatch none refuse first second w = (w, refuse (status unimplemented))
  dispatch (some v1) refuse first second w = first w
  dispatch (some v2) refuse first second w = second w

  -- The operations that the first engine does not have.
  unfoldable pub unsupported : (Error → Answer) → Backends B S → Backends B S × Answer
  unsupported refuse w = (w, refuse (status unimplemented))

  -- The second half of `InstanceList`, when the second engine is enabled.
  unfoldable pub list_second :
      SpdkClient S
      → Bool
      → Backends B S
      → Manager B × Result (Dict InstanceResponse)
      → Backends B S × Answer
  unfolding v2_list
  list_second spdk enabled w (m, err e) = (record w { processes = m }, list_answer (err e))
  list_second spdk enabled w (m, ok instances) =
      let w' = record w { processes = m } in
      if enabled
      then (w', list_answer (v2_list spdk instances w.spdk))
      else (w', list_answer (ok instances))

module _ {B S : Type 0} (bm : PortBitmap B) (spdk : SpdkClient S) (c : Connection)
    (is_engine : Text → Bool) (v2_enabled : Bool) where
  unfoldable pub serve : Env B → Request → Backends B S → Backends B S × Answer
  unfolding dispatch on_processes on_spdk unsupported list_second ops_of
  serve env (create layout spec) =
      dispatch (ops_of spec.data_engine) no_instance
        (λ w. on_processes instance_answer w (v1_create bm c env layout spec w.processes))
        (λ w. on_spdk instance_answer w (v2_create spdk layout spec w.spdk))
  serve env (delete engine name uuid type cleanup) =
      dispatch (ops_of engine) no_instance
        (λ w. on_processes instance_answer w (v1_delete bm c env name uuid type w.processes))
        (λ w. on_spdk instance_answer w (v2_delete spdk name type cleanup w.spdk))
  serve env (get engine name type) =
      dispatch (ops_of engine) no_instance
        (λ w. on_processes instance_answer w (v1_get bm c name type w.processes))
        (λ w. (w, instance_answer (v2_get spdk name type w.spdk)))
  serve env list = λ w. list_second spdk v2_enabled w (v1_list bm c is_engine [] w.processes)
  serve env (replace spec terminate) =
      dispatch (ops_of spec.data_engine) no_instance
        (λ w. on_processes instance_answer w (v1_replace bm c env spec terminate w.processes))
        (unsupported no_instance)
  serve env (suspend engine name type) =
      dispatch (ops_of engine) not_empty (unsupported not_empty)
        (λ w. on_spdk empty_answer w (v2_suspend spdk name type w.spdk))
  serve env (resume engine name type) =
      dispatch (ops_of engine) not_empty (unsupported not_empty)
        (λ w. on_spdk empty_answer w (v2_resume spdk name type w.spdk))
  serve env (switch_over engine name type engine_name address phase) =
      dispatch (ops_of engine) not_empty (unsupported not_empty) (λ w.
        on_spdk empty_answer w (v2_switch_over spdk name type engine_name address phase w.spdk))
  serve env (delete_target engine name type) =
      dispatch (ops_of engine) not_empty (unsupported not_empty)
        (λ w. on_spdk empty_answer w (v2_delete_target spdk name type w.spdk))
