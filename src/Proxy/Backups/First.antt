-- ===== src/Proxy/Backups/First.antt =====
-- pkg/proxy/backup.go: the operations of the first data engine.
use longhorn_instance_manage.Base.{
  Text, Bool, true, false, not, ◌&&◌, none, some, List, [], ◌∷◌, Dict, is_empty, text_eq,
  if◌then◌else◌, failed, codes, Result, ok, err, ◌>>=◌,
}
use longhorn_instance_manage.Proxy.{
  ProxyEngineRequest, ControllerReplica, SnapshotBackupRequest, BackupCreated, BackupStatus,
  RestoreRequest, RestoreStatuses,
}
use longhorn_instance_manage.Proxy.Calls.{asked, acted}
use longhorn_instance_manage.Proxy.Engines.{EngineClients, engine_id, with_controller, with_task}
use longhorn_instance_manage.Proxy.Replicas.{map_dict, v1_replica_list}
use longhorn_instance_manage.Instance.Ops.{map_result}
use longhorn_instance_manage.Proxy.Backups.{
  internal_answer, backup_status_response, restore_response,
}

module _ {E : Type 0} (engines : EngineClients E) (req : ProxyEngineRequest) where
  unfoldable pub v1_snapshot_backup :
      SnapshotBackupRequest → Dict Text → List Text → E → E × Result BackupCreated
  unfolding with_task internal_answer
  v1_snapshot_backup q credential labels s = internal_answer (
      with_task engines (engine_id req)
        (λ t. engines.create_backup (engine_id req) q labels credential t) s)

  -- Whether the controller has the replica as one to read and write.
  unfoldable pub is_rw_replica : ControllerReplica → Bool
  is_rw_replica r = text_eq (engines.grpc_to_replica_mode r.mode) engines.rw_mode

  -- Whether the replica knows the backup.
  unfoldable pub has_backup : Text → ControllerReplica → E → Bool
  has_backup backup r s =
      elim (engines.new_replica_client r.address req.volume_name r.instance_name s) [
        | some e ↦ false
        | none ↦ elim (engines.fetch_backup_status backup r.address s) [
          | err e ↦ false
          | ok answer ↦ true
        ]
      ]

  -- The first loop: the address of a replica with the backup, or the empty text.
  unfoldable pub find_backup_replica : Text → List ControllerReplica → E → Text
  unfolding is_rw_replica has_backup
  find_backup_replica backup [] s = []
  find_backup_replica backup (r ∷ rs) s = elim (is_rw_replica r && has_backup backup r s) [
    | true ↦ r.address
    | false ↦ find_backup_replica backup rs s
  ]

  -- The second loop: no replica at the address is in another mode.
  unfoldable pub all_rw : Text → List ControllerReplica → Bool
  unfolding is_rw_replica
  all_rw address [] = true
  all_rw address (r ∷ rs) =
      let rest = all_rw address rs in
      if text_eq r.address address && not (is_rw_replica r) then false else rest

  unfoldable pub fetch_from : Text → Text → Text → E → Result BackupStatus
  unfolding map_result backup_status_response
  fetch_from backup name address s =
      elim (engines.new_replica_client address req.volume_name name s) [
        | some e ↦ err (failed (codes "failed to create Replica client"))
        | none ↦
            map_result (backup_status_response address)
              (engines.fetch_backup_status backup address s)
      ]

  unfoldable pub status_from : Text → Text → List ControllerReplica → Text → E → Result BackupStatus
  unfolding all_rw fetch_from
  status_from backup name replicas address s =
      if is_empty address
      then err (failed (codes "failed to find a replica with backup"))
      else if all_rw address replicas
      then fetch_from backup name address s
      else err (failed (codes "failed to get backup status on unknown replica"))

  unfoldable pub v1_status_of :
      Text → Text → Text → List ControllerReplica → E → Result BackupStatus
  unfolding find_backup_replica status_from
  v1_status_of backup name address replicas s =
      status_from backup name replicas
        (if is_empty address then find_backup_replica backup replicas s else address) s

  unfoldable pub v1_snapshot_backup_status : Text → Text → Text → E → E × Result BackupStatus
  unfolding with_controller v1_replica_list v1_status_of asked
  v1_snapshot_backup_status backup address name = with_controller engines (engine_id req) (λ s.
      asked s (do
        replicas ← (v1_replica_list engines req s).1
        v1_status_of backup name address replicas s))

  unfoldable pub v1_backup_restore : RestoreRequest → Dict Text → E → E × Result (Unit {0})
  unfolding with_task acted
  v1_backup_restore q credential = with_task engines (engine_id req) (λ s. acted (
      engines.restore_backup (engine_id req) q.url credential q.concurrent_limit
        q.need_correct_encrypted_volume_size s))

  unfoldable pub v1_backup_restore_status : E → E × Result RestoreStatuses
  unfolding with_task asked map_result map_dict restore_response
  v1_backup_restore_status = with_task engines (engine_id req) (λ s. asked s (
      map_result (λ r. record { status = map_dict restore_response r; engine_error = [] })
        (engines.restore_status (engine_id req) s)))
