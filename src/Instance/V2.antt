-- ===== src/Instance/V2.antt =====
-- pkg/instance/instance.go: the operations of the second data engine, which call the SPDK service.
use longhorn_instance_manage.Base.{
  ℕ, pos, Text, Bool, true, not, Option, none, some, [], ◌∷◌, ◌++◌, Dict, Error, status, panic,
  invalid_argument, unimplemented, internal, codes, text_eq, is_empty, if◌then◌else◌, ◌&&◌, Result,
  ok, err, ◌>>=◌, int32,
}
use longhorn_instance_manage.Strings.{itoa}
use longhorn_instance_manage.Instance.{
  InstanceSpec, SpdkInstanceSpec, ShardGroupSpec, InstanceResponse, DataLayout, InstanceType,
  engine, engine_frontend, replica, shard, shard_group, unknown, instance_type, SpdkClient,
}
use longhorn_instance_manage.Instance.Convert.{
  zero_response, replica_response, engine_response, engine_frontend_response, shard_response,
  shard_group_response,
}
use longhorn_instance_manage.Instance.Ops.{
  map_result, then_convert, insert_all, named, to_spdk_grpc_error, to_spdk_layout,
}

module _ {S : Type 0} (spdk : SpdkClient S) where
  -- A nil `SpdkInstanceSpec` is dereferenced.
  unfoldable pub with_spdk_spec :
      {A : Type 0} → Option SpdkInstanceSpec → (SpdkInstanceSpec → S × Result A) → S → S × Result A
  with_spdk_spec none f s = (s, err panic)
  with_spdk_spec (some spec) f s = f spec

  -- The name of a shard, `<volume>-<slot>`.
  abbrev pub derived_name : Text → ℕ → Text
  derived_name volume slot = volume ++ b'-' ∷ itoa (pos slot)

  unfoldable pub v2_create_shard_group :
      InstanceSpec → SpdkInstanceSpec → Option ShardGroupSpec → S → S × Result InstanceResponse
  unfolding then_convert
  v2_create_shard_group spec own none s = (s, err (status invalid_argument))
  v2_create_shard_group spec own (some group) s = elim group.shards [
    | [] ↦ (s, err (status invalid_argument))
    | endpoint ∷ endpoints ↦ then_convert shard_group_response (
        spdk.shard_group_create spec.name spec.volume_name own.size group.data_chunks
          group.parity_chunks group.strip_size_kb (endpoint ∷ endpoints) spec.port_count
          group.salvage_requested s)
  ]

  unfoldable pub v2_create_as :
      InstanceType → DataLayout → InstanceSpec → SpdkInstanceSpec → S → S × Result InstanceResponse
  unfolding then_convert v2_create_shard_group to_spdk_layout
  v2_create_as engine layout spec own s = then_convert engine_response (
      spdk.engine_create spec.name spec.volume_name own.frontend own.size own.replica_address_map
        spec.port_count own.salvage_requested own.snapshot_max_count (to_spdk_layout layout) s)
  v2_create_as engine_frontend layout spec own s = then_convert engine_frontend_response (
      spdk.engine_frontend_create spec.name spec.volume_name spec.engine_name own.frontend own.size
        spec.target_address (int32 own.ublk_queue_depth) (int32 own.ublk_number_of_queue)
        (int32 own.nvme_tcp_nr_io_queues) s)
  v2_create_as replica layout spec own s = then_convert replica_response (
      spdk.replica_create spec.name own.disk_name own.disk_uuid own.size spec.port_count
        own.backing_image_name s)
  v2_create_as shard layout spec own s =
      if not (is_empty spec.name)
        && not (text_eq spec.name (derived_name spec.volume_name own.slot_index))
      then (s, err (status invalid_argument))
      else then_convert shard_response (
          spdk.shard_create spec.volume_name own.slot_index own.size own.lvs_name own.lvs_uuid
            spec.port_count s)
  v2_create_as shard_group layout spec own s = v2_create_shard_group spec own own.shard_group_spec s
  v2_create_as unknown layout spec own s = (s, err (status invalid_argument))

  unfoldable pub v2_create_typed :
      InstanceType → DataLayout → InstanceSpec → S → S × Result InstanceResponse
  unfolding v2_create_as with_spdk_spec
  v2_create_typed unknown layout spec s = (s, err (status invalid_argument))
  v2_create_typed type layout spec s =
      with_spdk_spec spec.spdk_instance_spec (λ own. v2_create_as type layout spec own s) s

  unfoldable pub v2_create : DataLayout → InstanceSpec → S → S × Result InstanceResponse
  unfolding v2_create_typed
  v2_create layout spec s = elim (spdk.connect s) [
    | some e ↦ (s, err (status internal))
    | none ↦ v2_create_typed (instance_type spec.type) layout spec s
  ]

  unfoldable pub v2_delete_as : InstanceType → Text → Bool → S → S × Option Error
  v2_delete_as engine name cleanup s = if cleanup then spdk.engine_delete name s else (s, none)
  v2_delete_as engine_frontend name cleanup s = spdk.engine_frontend_delete name s
  v2_delete_as replica name cleanup s = spdk.replica_delete name cleanup s
  v2_delete_as shard name cleanup s = spdk.shard_delete name cleanup s
  v2_delete_as shard_group name cleanup s = spdk.shard_group_delete name cleanup s
  v2_delete_as unknown name cleanup s = (s, some (status invalid_argument))

  unfoldable pub v2_deleted : Text → S × Option Error → S × Result InstanceResponse
  v2_deleted name (s, some e) = (s, err e)
  v2_deleted name (s, none) =
      (s, ok (record zero_response { name = name; state = codes "stopped"; deleted = true }))

  unfoldable pub v2_delete : Text → Text → Bool → S → S × Result InstanceResponse
  unfolding v2_deleted v2_delete_as
  v2_delete name type cleanup s = elim (spdk.connect s) [
    | some e ↦ (s, err (status internal))
    | none ↦ v2_deleted name (v2_delete_as (instance_type type) name cleanup s)
  ]

  unfoldable pub v2_get_as : InstanceType → Text → S → Result InstanceResponse
  unfolding map_result
  v2_get_as engine name s = map_result engine_response (spdk.engine_get name s)
  v2_get_as engine_frontend name s =
      map_result engine_frontend_response (spdk.engine_frontend_get name s)
  v2_get_as replica name s = map_result replica_response (spdk.replica_get name s)
  v2_get_as shard name s = map_result shard_response (spdk.shard_get name s)
  v2_get_as shard_group name s = map_result shard_group_response (spdk.shard_group_get name s)
  v2_get_as unknown name s = err (status invalid_argument)

  unfoldable pub v2_get : Text → Text → S → Result InstanceResponse
  unfolding v2_get_as
  v2_get name type s = elim (spdk.connect s) [
    | some e ↦ err (status internal)
    | none ↦ v2_get_as (instance_type type) name s
  ]

  unfoldable pub v2_list : Dict InstanceResponse → S → Result (Dict InstanceResponse)
  unfolding insert_all named
  v2_list instances s = elim (spdk.connect s) [
    | some e ↦ err (status internal)
    | none ↦ do
      replicas ← spdk.replica_list s
      engines ← spdk.engine_list s
      frontends ← spdk.engine_frontend_list s
      shards ← spdk.shard_list s
      groups ← spdk.shard_group_list s
      ok (
          insert_all (named shard_group_response groups) (
            insert_all (named shard_response shards) (
              insert_all (named engine_frontend_response frontends) (
                insert_all (named engine_response engines)
                  (insert_all (named replica_response replicas) instances)))))
  ]

  unfoldable pub answered : S × Option Error → S × Result (Unit {0})
  unfolding to_spdk_grpc_error
  answered (s, some e) = (s, err (to_spdk_grpc_error e))
  answered (s, none) = (s, ok tt)

  -- `InstanceSuspend`, `InstanceResume` and `InstanceSwitchOverTarget` are for engine frontends.
  unfoldable pub v2_frontend_only :
      InstanceType → (S → S × Option Error) → S → S × Result (Unit {0})
  unfolding answered
  v2_frontend_only engine act s = (s, err (status unimplemented))
  v2_frontend_only engine_frontend act s = answered (act s)
  v2_frontend_only _ act s = (s, err (status invalid_argument))

  unfoldable pub v2_connected : Text → (S → S × Option Error) → S → S × Result (Unit {0})
  unfolding v2_frontend_only to_spdk_grpc_error
  v2_connected type act s = elim (spdk.connect s) [
    | some e ↦ (s, err (to_spdk_grpc_error e))
    | none ↦ v2_frontend_only (instance_type type) act s
  ]

  unfoldable pub v2_suspend : Text → Text → S → S × Result (Unit {0})
  unfolding v2_connected
  v2_suspend name type s = v2_connected type (spdk.engine_frontend_suspend name) s

  unfoldable pub v2_resume : Text → Text → S → S × Result (Unit {0})
  unfolding v2_connected
  v2_resume name type s = v2_connected type (spdk.engine_frontend_resume name) s

  unfoldable pub v2_switch_over : Text → Text → Text → Text → Text → S → S × Result (Unit {0})
  unfolding v2_connected
  v2_switch_over name type engine_name address phase s =
      v2_connected type (spdk.engine_frontend_switch_over name engine_name address phase) s

  unfoldable pub target_deleted : S × Option Error → S × Result (Unit {0})
  target_deleted (s, some e) = (s, err (status internal))
  target_deleted (s, none) = (s, ok tt)

  unfoldable pub v2_delete_target_as : InstanceType → Text → S → S × Result (Unit {0})
  unfolding target_deleted
  v2_delete_target_as engine name s = target_deleted (spdk.engine_delete_target name s)
  v2_delete_target_as _ name s = (s, err (status invalid_argument))

  unfoldable pub v2_delete_target : Text → Text → S → S × Result (Unit {0})
  unfolding v2_delete_target_as
  v2_delete_target name type s = elim (spdk.connect s) [
    | some e ↦ (s, err (status internal))
    | none ↦ v2_delete_target_as (instance_type type) name s
  ]
