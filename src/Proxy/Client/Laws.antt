-- ===== src/Proxy/Client/Laws.antt =====
-- The state after a call of the client of the proxy service (pkg/client/proxy*.go), and what the client
-- makes of the answer to a restore.
use longhorn_instance_manage.Base.{
  Text, ◌≡◌, ◌↔◌, refl, false, is_empty, Error, Result, ok, err, arith,
}
use longhorn_instance_manage.Proxy.Server.{
  Given, task_error, restore_answered, Call, volume_get, volume_frontend_shutdown, metrics_get,
  volume_expand, volume_snapshot_max_count_set, volume_snapshot_max_size_set, volume_frontend_start,
  volume_unmap_mark_snap_chain_removed_set, replica_add, replica_list, replica_rebuilding_status,
  replica_rebuild_concurrent_sync_limit_get, replica_rebuilding_qos_set,
  replica_rebuild_concurrent_sync_limit_set, replica_verify_rebuild, replica_remove,
  replica_mode_update, volume_snapshot, snapshot_list, snapshot_clone_status, snapshot_purge_status,
  snapshot_clone, snapshot_revert, snapshot_hash_status, snapshot_purge, snapshot_remove,
  snapshot_hash, snapshot_backup, snapshot_backup_status, backup_restore, backup_restore_status,
}
use longhorn_instance_manage.Proxy.Client.{Target, ClientLibrary, Service}
use longhorn_instance_manage.Proxy.Client.Calls.{
  restored, client_volume_get, client_volume_expand, client_volume_frontend_start,
  client_volume_frontend_shutdown, client_volume_unmap_set, client_volume_snapshot_max_count_set,
  client_volume_snapshot_max_size_set, client_metrics_get, client_replica_add, client_replica_list,
  client_replica_rebuilding_status, client_replica_rebuilding_qos_set,
  client_replica_verify_rebuild, client_replica_remove, client_replica_mode_update,
  client_sync_limit_set, client_sync_limit_get, client_volume_snapshot, client_snapshot_list,
  client_snapshot_clone, client_snapshot_clone_status, client_snapshot_revert,
  client_snapshot_purge, client_snapshot_purge_status, client_snapshot_remove, client_snapshot_hash,
  client_snapshot_hash_status, client_snapshot_backup, client_snapshot_backup_status,
  client_backup_restore, client_backup_restore_status,
}

module _ {W : Type 0} (lib : ClientLibrary) (service : Service W) (t : Target) (mode : Text) where
  -- The state after the client's call of each method; `mode` stands where the client takes a text for
  -- a mode or a name.
  unfoldable pub client_state : Call → W → W
  client_state volume_get w = (client_volume_get lib service t w).0
  client_state (volume_expand n) w = (client_volume_expand lib service t n w).0
  client_state (volume_frontend_start x) w = (client_volume_frontend_start lib service t x w).0
  client_state volume_frontend_shutdown w = (client_volume_frontend_shutdown lib service t w).0
  client_state (volume_unmap_mark_snap_chain_removed_set b) w =
      (client_volume_unmap_set lib service t b w).0
  client_state (volume_snapshot_max_count_set n) w =
      (client_volume_snapshot_max_count_set lib service t n w).0
  client_state (volume_snapshot_max_size_set n) w =
      (client_volume_snapshot_max_size_set lib service t n w).0
  client_state metrics_get w = (client_metrics_get lib service t w).0
  client_state (replica_add q) w = (client_replica_add lib service t q w).0
  client_state replica_list w = (client_replica_list lib service t w).0
  client_state replica_rebuilding_status w = (client_replica_rebuilding_status lib service t w).0
  client_state (replica_rebuilding_qos_set n) w =
      (client_replica_rebuilding_qos_set lib service t n w).0
  client_state (replica_verify_rebuild x y) w =
      (client_replica_verify_rebuild lib service t x y w).0
  client_state (replica_remove x y) w = (client_replica_remove lib service t x y w).0
  client_state (replica_mode_update x m) w = (client_replica_mode_update lib service t x mode w).0
  client_state (replica_rebuild_concurrent_sync_limit_set n) w =
      (client_sync_limit_set lib service t n w).0
  client_state replica_rebuild_concurrent_sync_limit_get w =
      (client_sync_limit_get lib service t w).0
  client_state (volume_snapshot x labels b) w =
      (client_volume_snapshot lib service t x labels b w).0
  client_state snapshot_list w = (client_snapshot_list lib service t w).0
  client_state (snapshot_clone q) w = (client_snapshot_clone lib service t q mode w).0
  client_state snapshot_clone_status w = (client_snapshot_clone_status lib service t w).0
  client_state (snapshot_revert x) w = (client_snapshot_revert lib service t x w).0
  client_state (snapshot_purge b) w = (client_snapshot_purge lib service t b w).0
  client_state snapshot_purge_status w = (client_snapshot_purge_status lib service t w).0
  client_state (snapshot_remove xs) w = (client_snapshot_remove lib service t xs w).0
  client_state (snapshot_hash x b) w = (client_snapshot_hash lib service t x b w).0
  client_state (snapshot_hash_status x) w = (client_snapshot_hash_status lib service t x w).0
  client_state (snapshot_backup q) w = (client_snapshot_backup lib service t q w).0
  client_state (snapshot_backup_status x y z) w =
      (client_snapshot_backup_status lib service t x y z w).0
  client_state (backup_restore q) w = (client_backup_restore lib service t q mode w).0
  client_state backup_restore_status w = (client_backup_restore_status lib service t w).0

-- A restore that fails in the engine is an error for the client, and one that succeeds is none, where an error has a text and its JSON is not empty.
pub restored-restore_answered :
    {W : Type 0} (given : Given) (w : W) (answer : Result (Unit {0}))
    → ((e : Error) → is_empty (given.error_text e) ≡ false)
    → ((e : Error) → is_empty (given.marshal e) ≡ false)
    → ((restored (restore_answered given (w, answer))).1 ≡ ok tt) ↔ (answer ≡ ok tt)
unfolding restored restore_answered task_error
restored-restore_answered given w (ok u) texts jsons = (λ h. refl, λ h. refl)
restored-restore_answered given w (err e) texts jsons =
    (λ h. ground (arith, texts e, jsons e), λ h. cc)
