-- ===== src/Proxy/Snapshots/First.antt =====
-- pkg/proxy/snapshot.go: the operations of the first data engine.
use longhorn_instance_manage.Base.{Text, Bool, none, List, Dict, Result, ◌>>=◌}
use longhorn_instance_manage.Proxy.{
  ProxyEngineRequest, SnapshotDiskInfo, SnapshotCloneRequest, CloneStatus, PurgeStatus, HashStatus,
}
use longhorn_instance_manage.Proxy.Calls.{asked, acted}
use longhorn_instance_manage.Proxy.Engines.{
  EngineClients, EngineId, engine_id, with_controller, with_task,
}
use longhorn_instance_manage.Proxy.Replicas.{map_dict}
use longhorn_instance_manage.Instance.Ops.{map_result}
use longhorn_instance_manage.Proxy.Snapshots.{remove_all, clone_response, purge_response}

module _ {E : Type 0} (engines : EngineClients E) (req : ProxyEngineRequest) where
  unfoldable pub v1_volume_snapshot : Text → Dict Text → Bool → E → E × Result Text
  unfolding with_controller
  v1_volume_snapshot name labels freeze =
      with_controller engines (engine_id req)
        (λ s. engines.volume_snapshot (engine_id req) name labels freeze s)

  unfoldable pub v1_snapshot_list : E → E × Result (Dict SnapshotDiskInfo)
  unfolding with_controller asked
  v1_snapshot_list = with_controller engines (engine_id req) (λ s. asked s (do
    replicas ← engines.replica_list (engine_id req) s
    engines.get_snapshots_info replicas req.volume_name s))

  unfoldable pub v1_snapshot_clone : SnapshotCloneRequest → E → E × Result (Unit {0})
  unfolding with_controller acted
  v1_snapshot_clone q =
      let from : EngineId = record {
        address = q.from_engine_address;
        volume_name = q.from_volume_name;
        engine_name = q.from_engine_name;
      } in
      with_controller engines from (
        with_controller engines (engine_id req) (λ s. acted (
          engines.clone_snapshot (engine_id req) from req.volume_name q.from_volume_name
            q.snapshot_name q.export_backing_image_if_exist q.file_sync_http_client_timeout
            q.grpc_timeout_seconds s)))

  unfoldable pub v1_snapshot_clone_status : E → E × Result (Dict CloneStatus)
  unfolding with_controller asked map_result map_dict clone_response
  v1_snapshot_clone_status = with_controller engines (engine_id req) (λ s. asked s (
      map_result (map_dict clone_response)
        (engines.clone_status (engine_id req) req.volume_name s)))

  unfoldable pub v1_snapshot_revert : Text → E → E × Result (Unit {0})
  unfolding with_controller acted
  v1_snapshot_revert name =
      with_controller engines (engine_id req)
        (λ s. acted (engines.volume_revert (engine_id req) name s))

  unfoldable pub v1_snapshot_purge : Bool → E → E × Result (Unit {0})
  unfolding with_task acted
  v1_snapshot_purge skip =
      with_task engines (engine_id req)
        (λ s. acted (engines.purge_snapshots (engine_id req) skip s))

  unfoldable pub v1_snapshot_purge_status : E → E × Result (Dict PurgeStatus)
  unfolding with_task asked map_result map_dict purge_response
  v1_snapshot_purge_status = with_task engines (engine_id req) (λ s.
      asked s
        (map_result (map_dict purge_response) (engines.purge_snapshot_status (engine_id req) s)))

  unfoldable pub v1_snapshot_remove : List Text → E → E × Result (Unit {0})
  unfolding with_task acted remove_all
  v1_snapshot_remove names =
      with_task engines (engine_id req)
        (λ s. acted (remove_all (engines.delete_snapshot (engine_id req)) names none s))

  unfoldable pub v1_snapshot_hash : Text → Bool → E → E × Result (Unit {0})
  unfolding with_task acted
  v1_snapshot_hash name rehash =
      with_task engines (engine_id req)
        (λ s. acted (engines.hash_snapshot (engine_id req) name rehash s))

  unfoldable pub v1_snapshot_hash_status : Text → E → E × Result (Dict HashStatus)
  unfolding with_task asked
  v1_snapshot_hash_status name =
      with_task engines (engine_id req)
        (λ s. asked s (engines.hash_snapshot_status (engine_id req) name s))
