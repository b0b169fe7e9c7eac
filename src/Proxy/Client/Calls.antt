-- ===== src/Proxy/Client/Calls.antt =====
-- pkg/client/proxy_volume.go, proxy_replica.go, proxy_snapshot.go, proxy_backup.go and
-- proxy_metrics.go: the calls of the client of the proxy service. What a call returns is what the
-- service answers, whose numbers are no wider than Go's `int`.
use longhorn_instance_manage.Base.{
  ℤ, Text, Bool, false, not, ◌&&◌, Option, none, some, List, [], ◌∷◌, Dict, is_empty, text_eq,
  codes, if◌then◌else◌, Error, failed, Result, ok, err, int32,
}
use longhorn_instance_manage.Strings.{itoa}
use longhorn_instance_manage.Proxy.{
  Volume, Metrics, ReplicaAddRequest, ControllerReplica, RebuildStatus, SnapshotDiskInfo,
  SnapshotCloneRequest, CloneStatus, PurgeStatus, HashStatus, SnapshotBackupRequest, BackupCreated,
  BackupStatus, RestoreRequest, RestoreStatuses,
}
use longhorn_instance_manage.Proxy.Server.{
  volume_get, volume_frontend_shutdown, metrics_get, volume_expand, volume_snapshot_max_count_set,
  volume_snapshot_max_size_set, volume_frontend_start, volume_unmap_mark_snap_chain_removed_set,
  replica_add, replica_list, replica_rebuilding_status, replica_rebuild_concurrent_sync_limit_get,
  replica_rebuilding_qos_set, replica_rebuild_concurrent_sync_limit_set, replica_verify_rebuild,
  replica_remove, replica_mode_update, volume_snapshot, snapshot_list, snapshot_clone_status,
  snapshot_purge_status, snapshot_clone, snapshot_revert, snapshot_hash_status, snapshot_purge,
  snapshot_remove, snapshot_hash, snapshot_backup, snapshot_backup_status, backup_restore,
  backup_restore_status,
}
use longhorn_instance_manage.Proxy.Client.{
  Target, ClientLibrary, Service, common, with_frontend_name, request, request_with_frontend,
  get_clone_mode, validate_proxy_method_parameters, through, send,
}

-- The labels of a snapshot: each key is a qualified name, and no value is empty.
unfoldable pub check_labels : ClientLibrary → Dict Text → Option Error
check_labels lib [] = none
check_labels lib ((key, value) ∷ labels) =
    if not (lib.is_qualified_name key)
    then some (failed (codes "invalid key for label"))
    else if is_empty value
    then some (failed (codes "invalid empty value for label"))
    else check_labels lib labels

-- The first of two checks that fails.
abbrev pub first_error : Option Error → Option Error → Option Error
first_error none e = e
first_error (some e) f = some e

-- The end of `BackupRestore`: a text in the answer is an error, whether it is JSON or not. Empty bytes
-- arrive as nil.
unfoldable pub restored : {W : Type 0} → W × Result Text → W × Result (Unit {0})
restored (w, err e) = (w, err e)
restored (w, ok text) =
    if is_empty text then (w, ok tt) else (w, err (failed (codes "restore failed")))

module _ {W : Type 0} (lib : ClientLibrary) (service : Service W) (t : Target) where
  unfoldable pub client_volume_get : W → W × Result Volume
  unfolding through
  client_volume_get = through service (common t) (request_with_frontend t) volume_get

  unfoldable pub client_volume_expand : ℤ → W → W × Result (Unit {0})
  unfolding through
  client_volume_expand size =
      through service (with_frontend_name t (common t)) (request_with_frontend t)
        (volume_expand size)

  unfoldable pub client_volume_frontend_start : Text → W → W × Result (Unit {0})
  unfolding through
  client_volume_frontend_start frontend =
      through service (frontend ∷ common t) (request t) (volume_frontend_start frontend)

  unfoldable pub client_volume_frontend_shutdown : W → W × Result (Unit {0})
  unfolding through
  client_volume_frontend_shutdown = through service (common t) (request t) volume_frontend_shutdown

  unfoldable pub client_volume_unmap_set : Bool → W → W × Result (Unit {0})
  unfolding through
  client_volume_unmap_set enabled =
      through service (codes (if enabled then "true" else "false") ∷ common t) (request t)
        (volume_unmap_mark_snap_chain_removed_set enabled)

  unfoldable pub client_volume_snapshot_max_count_set : ℤ → W → W × Result (Unit {0})
  unfolding through
  client_volume_snapshot_max_count_set count =
      through service (itoa count ∷ common t) (request t)
        (volume_snapshot_max_count_set (int32 count))

  unfoldable pub client_volume_snapshot_max_size_set : ℤ → W → W × Result (Unit {0})
  unfolding through
  client_volume_snapshot_max_size_set size =
      through service (itoa size ∷ common t) (request t) (volume_snapshot_max_size_set size)

  unfoldable pub client_metrics_get : W → W × Result Metrics
  unfolding through
  client_metrics_get = through service (t.data_engine ∷ common t) (request t) metrics_get

  unfoldable pub client_replica_add : ReplicaAddRequest → W → W × Result (Unit {0})
  unfolding through
  client_replica_add q =
      through service (q.replica_name ∷ q.replica_address ∷ common t) (request_with_frontend t) (
        replica_add
          (record q { file_sync_http_client_timeout = int32 q.file_sync_http_client_timeout }))

  unfoldable pub client_replica_list : W → W × Result (List ControllerReplica)
  unfolding through
  client_replica_list = through service (common t) (request t) replica_list

  unfoldable pub client_replica_rebuilding_status : W → W × Result (Dict RebuildStatus)
  unfolding through
  client_replica_rebuilding_status =
      through service (common t) (request t) replica_rebuilding_status

  unfoldable pub client_replica_rebuilding_qos_set : ℤ → W → W × Result (Unit {0})
  unfolding through
  client_replica_rebuilding_qos_set limit =
      through service (common t) (request t) (replica_rebuilding_qos_set limit)

  unfoldable pub client_replica_verify_rebuild : Text → Text → W → W × Result (Unit {0})
  unfolding through
  client_replica_verify_rebuild name address =
      through service (address ∷ name ∷ common t) (request t) (replica_verify_rebuild name address)

  unfoldable pub client_sync_limit_set : ℤ → W → W × Result (Unit {0})
  unfolding through
  client_sync_limit_set limit =
      through service (common t) (request t)
        (replica_rebuild_concurrent_sync_limit_set (int32 limit))

  unfoldable pub client_sync_limit_get : W → W × Result ℤ
  unfolding through
  client_sync_limit_get =
      through service (common t) (request t) replica_rebuild_concurrent_sync_limit_get

  unfoldable pub client_snapshot_list : W → W × Result (Dict SnapshotDiskInfo)
  unfolding through
  client_snapshot_list = through service (common t) (request t) snapshot_list

  unfoldable pub client_snapshot_clone_status : W → W × Result (Dict CloneStatus)
  unfolding through
  client_snapshot_clone_status = through service (common t) (request t) snapshot_clone_status

  unfoldable pub client_snapshot_purge : Bool → W → W × Result (Unit {0})
  unfolding through
  client_snapshot_purge skip =
      through service (with_frontend_name t (common t)) (request_with_frontend t)
        (snapshot_purge skip)

  unfoldable pub client_snapshot_purge_status : W → W × Result (Dict PurgeStatus)
  unfolding through
  client_snapshot_purge_status =
      through service (common t) (request_with_frontend t) snapshot_purge_status

  unfoldable pub client_snapshot_remove : List Text → W → W × Result (Unit {0})
  unfolding through
  client_snapshot_remove names =
      through service (with_frontend_name t (common t)) (request_with_frontend t)
        (snapshot_remove names)

  unfoldable pub client_snapshot_hash : Text → Bool → W → W × Result (Unit {0})
  unfolding through
  client_snapshot_hash name rehash =
      through service (common t) (request t) (snapshot_hash name rehash)

  unfoldable pub client_snapshot_hash_status : Text → W → W × Result (Dict HashStatus)
  unfolding through
  client_snapshot_hash_status name =
      through service (common t) (request t) (snapshot_hash_status name)

  unfoldable pub client_snapshot_backup : SnapshotBackupRequest → W → W × Result BackupCreated
  unfolding through
  client_snapshot_backup q =
      through service (common t) (request t)
        (snapshot_backup (record q { concurrent_limit = int32 q.concurrent_limit }))

  unfoldable pub client_snapshot_backup_status : Text → Text → Text → W → W × Result BackupStatus
  unfolding through
  client_snapshot_backup_status backup address name =
      through service (backup ∷ common t) (request t) (snapshot_backup_status backup address name)

  unfoldable pub client_backup_restore_status : W → W × Result RestoreStatuses
  unfolding through
  client_backup_restore_status = through service (common t) (request t) backup_restore_status

  -- The checks of the labels come after those of the parameters.
  unfoldable pub client_volume_snapshot : Text → Dict Text → Bool → W → W × Result Text
  unfolding send validate_proxy_method_parameters check_labels
  client_volume_snapshot name labels freeze =
      send service
        (first_error (validate_proxy_method_parameters (with_frontend_name t (common t)))
          (check_labels lib labels))
        (request_with_frontend t) (volume_snapshot name labels freeze)

  unfoldable pub client_snapshot_revert : Text → W → W × Result (Unit {0})
  unfolding send validate_proxy_method_parameters
  client_snapshot_revert name =
      send service
        (first_error (validate_proxy_method_parameters (with_frontend_name t (name ∷ common t))) (
          if text_eq name lib.volume_head_name
          then some (failed (codes "invalid operation: cannot revert to the head"))
          else none))
        (request_with_frontend t) (snapshot_revert name)

  unfoldable pub client_snapshot_clone : SnapshotCloneRequest → Text → W → W × Result (Unit {0})
  unfolding through get_clone_mode
  client_snapshot_clone q mode =
      through service
        (q.snapshot_name
          ∷ q.from_engine_address
          ∷ q.from_volume_name
          ∷ q.from_engine_name
          ∷ common t)
        (request t)
        (snapshot_clone (record q {
          export_backing_image_if_exist = false;
          file_sync_http_client_timeout = int32 q.file_sync_http_client_timeout;
          clone_mode = get_clone_mode mode;
        }))

  -- The request names no volume.
  unfoldable pub client_replica_remove : Text → Text → W → W × Result (Unit {0})
  unfolding send validate_proxy_method_parameters
  client_replica_remove name address =
      send service
        (first_error (validate_proxy_method_parameters (t.service_address ∷ t.engine_name ∷ [])) (
          if is_empty address && is_empty name
          then some (failed (codes "replica address and name are both empty"))
          else none))
        (record (request t) { volume_name = [] }) (replica_remove name address)

  -- The request names neither a volume nor an engine.
  unfoldable pub client_replica_mode_update : Text → Text → W → W × Result (Unit {0})
  unfolding through
  client_replica_mode_update address mode =
      through service (t.service_address ∷ address ∷ [])
        (record (request t) { volume_name = []; engine_name = [] })
        (replica_mode_update address (lib.replica_mode_to_grpc mode))

  unfoldable pub client_backup_restore : RestoreRequest → Text → W → W × Result (Unit {0})
  unfolding through restored
  client_backup_restore q backup_volume w = restored (
      through service (q.url ∷ q.target ∷ backup_volume ∷ common t) (request t)
        (backup_restore (record q { concurrent_limit = int32 q.concurrent_limit })) w)
