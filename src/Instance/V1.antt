-- ===== src/Instance/V1.antt =====
-- pkg/instance/instance.go: the operations of the first data engine, which call the process manager.
use longhorn_instance_manage.Base.{
  Text, Bool, none, some, Dict, status, invalid_argument, internal, if◌then◌else◌, Result, err,
}
use longhorn_instance_manage.Bitmap.{PortBitmap}
use longhorn_instance_manage.Process.Response.{ProcessResponse}
use longhorn_instance_manage.Manager.{Manager}
use longhorn_instance_manage.Manager.Handlers.{Env}
use longhorn_instance_manage.Instance.{InstanceSpec, InstanceResponse, DataLayout}
use longhorn_instance_manage.Instance.Convert.{process_response}
use longhorn_instance_manage.Instance.Client.{
  Connection, client_process_create, client_process_delete, client_process_get, client_process_list,
  client_process_replace,
}
use longhorn_instance_manage.Instance.Ops.{then_convert, insert_all, is_sharded, processes_named}

module _ {B : Type 0} (bm : PortBitmap B) (c : Connection) where
  unfoldable pub v1_create :
      Env B → DataLayout → InstanceSpec → Manager B → Manager B × Result InstanceResponse
  unfolding then_convert
  v1_create env layout spec m =
      if is_sharded layout
      then (m, err (status invalid_argument))
      else elim spec.process_instance_spec [
        | none ↦ (m, err (status invalid_argument))
        | some p ↦ elim c.connect_error [
          | some e ↦ (m, err (status internal))
          | none ↦ then_convert (process_response spec.type) (
              client_process_create bm c env spec.name p.binary spec.port_count p.args
                spec.port_args m)
        ]
      ]

  unfoldable pub v1_delete :
      Env B → Text → Text → Text → Manager B → Manager B × Result InstanceResponse
  unfolding then_convert
  v1_delete env name uuid type m = elim c.connect_error [
    | some e ↦ (m, err (status internal))
    | none ↦ then_convert (process_response type) (client_process_delete bm c env name uuid m)
  ]

  unfoldable pub v1_get : Text → Text → Manager B → Manager B × Result InstanceResponse
  unfolding then_convert
  v1_get name type m = elim c.connect_error [
    | some e ↦ (m, err (status internal))
    | none ↦ then_convert (process_response type) (client_process_get c name m)
  ]

  unfoldable pub v1_list :
      (Text → Bool) → Dict InstanceResponse → Manager B → Manager B × Result (Dict InstanceResponse)
  unfolding then_convert insert_all processes_named
  v1_list is_engine instances m = elim c.connect_error [
    | some e ↦ (m, err (status internal))
    | none ↦
        then_convert
          (λ (ps : Dict ProcessResponse). insert_all (processes_named is_engine ps) instances)
          (client_process_list c m)
  ]

  unfoldable pub v1_replace :
      Env B → InstanceSpec → Text → Manager B → Manager B × Result InstanceResponse
  unfolding then_convert
  v1_replace env spec terminate m = elim spec.process_instance_spec [
    | none ↦ (m, err (status invalid_argument))
    | some p ↦ elim c.connect_error [
      | some e ↦ (m, err (status internal))
      | none ↦ then_convert (process_response spec.type) (
          client_process_replace bm c env spec.name p.binary spec.port_count p.args spec.port_args
            terminate m)
    ]
  ]
