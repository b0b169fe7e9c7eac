-- ===== src/Instance/Client.antt =====
-- pkg/client/process_manager.go: the client of the process manager, whose calls reach the handlers of
-- pkg/process/process_manager.go. A call may fail before the handler runs, or after it.
use longhorn_instance_manage.Base.{
  ℤ, Text, not, Option, none, some, List, Dict, failed, external, codes, text_eq, is_empty,
  if◌then◌else◌, ◌||◌, Result, ok, err, int32,
}
use longhorn_instance_manage.Bitmap.{PortBitmap}
use longhorn_instance_manage.Process.Response.{ProcessResponse}
use longhorn_instance_manage.Manager.{Manager}
use longhorn_instance_manage.Manager.Handlers.{
  Env, process_create, process_delete, process_get, process_list,
}
use longhorn_instance_manage.Manager.Replace.{process_replace}

-- What the connection does: it is not made, the call does not arrive, or its answer is lost.
pub record Connection : Type 0 where
  pub connect_error : Option Text
  pub undelivered : Option Text
  pub lost : Option Text

unfoldable pub reply : {A : Type 0} → Option Text → Result A → Result A
reply none answer = answer
reply (some e) answer = err (external e)

module _ {B : Type 0} where
  unfoldable pub call :
      {A : Type 0}
      → Connection
      → (Manager B → Manager B × Result A)
      → Manager B
      → Manager B × Result A
  unfolding reply
  call c handler m = elim c.undelivered [
    | some e ↦ (m, err (external e))
    | none ↦ let (m', answer) = handler m in (m', reply c.lost answer)
  ]

  unfoldable pub client_process_get :
      Connection → Text → Manager B → Manager B × Result ProcessResponse
  unfolding call
  client_process_get c name m =
      if is_empty name
      then (m, err (failed (codes "failed to get process: missing required parameter name")))
      else call c (λ (n : Manager B). (n, process_get name n)) m

  unfoldable pub client_process_list :
      Connection → Manager B → Manager B × Result (Dict ProcessResponse)
  unfolding call
  client_process_list c m = call c (λ (n : Manager B). (n, ok (process_list n))) m

module _ {B : Type 0} (bm : PortBitmap B) where
  unfoldable pub client_process_create :
      Connection
      → Env B
      → Text
      → Text
      → ℤ
      → List Text
      → List Text
      → Manager B
      → Manager B × Result ProcessResponse
  unfolding call
  client_process_create c env name binary port_count args port_args m =
      if is_empty name || is_empty binary
      then (m, err (failed (codes "failed to start process: missing required parameter")))
      else call c
          (process_create bm env (record {
            name = name;
            binary = binary;
            args = args;
            port_count = int32 port_count;
            port_args = port_args;
          }))
          m

  unfoldable pub client_process_delete :
      Connection → Env B → Text → Text → Manager B → Manager B × Result ProcessResponse
  unfolding call
  client_process_delete c env name uuid m =
      if is_empty name
      then (m, err (failed (codes "failed to delete process: missing required parameter name")))
      else call c (process_delete bm env name uuid) m

  unfoldable pub client_process_replace :
      Connection
      → Env B
      → Text
      → Text
      → ℤ
      → List Text
      → List Text
      → Text
      → Manager B
      → Manager B × Result ProcessResponse
  unfolding call
  client_process_replace c env name binary port_count args port_args terminate m =
      if is_empty name || is_empty binary
      then (m, err (failed (codes "failed to start process: missing required parameter")))
      else if not (text_eq terminate (codes "SIGHUP"))
      then (m, err (failed (codes "unsupported terminate signal")))
      else call c
          (process_replace bm env
            (record {
              name = name;
              binary = binary;
              args = args;
              port_count = int32 port_count;
              port_args = port_args;
            })
            terminate)
          m
