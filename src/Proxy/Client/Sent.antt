-- ===== src/Proxy/Client/Sent.antt =====
-- What the calls of the client of the proxy (pkg/client/proxy*.go) make of the state behind the
-- service.
use longhorn_instance_manage.Base.{
  Text, ◌≡◌, ◌↔◌, inl, inr, refl, false, ◌&&◌, Option, none, some, List, [], ◌∷◌, ◌++◌, is_empty,
  text_eq, codes, if◌then◌else◌, Error, failed, Result, ok, err, arith,
}
use longhorn_instance_manage.Strings.{itoa}
use longhorn_instance_manage.Proxy.{ProxyEngineRequest}
use longhorn_instance_manage.Proxy.Server.{
  Call, volume_get, volume_frontend_shutdown, metrics_get, volume_expand,
  volume_snapshot_max_count_set, volume_snapshot_max_size_set, volume_frontend_start,
  volume_unmap_mark_snap_chain_removed_set, replica_add, replica_list, replica_rebuilding_status,
  replica_rebuild_concurrent_sync_limit_get, replica_rebuilding_qos_set,
  replica_rebuild_concurrent_sync_limit_set, replica_verify_rebuild, replica_remove,
  replica_mode_update, volume_snapshot, snapshot_list, snapshot_clone_status, snapshot_purge_status,
  snapshot_clone, snapshot_revert, snapshot_hash_status, snapshot_purge, snapshot_remove,
  snapshot_hash, snapshot_backup, snapshot_backup_status, backup_restore, backup_restore_status,
}
use longhorn_instance_manage.Proxy.Client.{
  Target, ClientLibrary, Service, common, with_frontend_name, validate_proxy_method_parameters,
  through, send, get_clone_mode,
}
use longhorn_instance_manage.Proxy.Client.Calls.{
  restored, check_labels, first_error, client_volume_get, client_volume_expand,
  client_volume_frontend_start, client_volume_frontend_shutdown, client_volume_unmap_set,
  client_volume_snapshot_max_count_set, client_volume_snapshot_max_size_set, client_metrics_get,
  client_replica_add, client_replica_list, client_replica_rebuilding_status,
  client_replica_rebuilding_qos_set, client_replica_verify_rebuild, client_replica_remove,
  client_replica_mode_update, client_sync_limit_set, client_sync_limit_get, client_volume_snapshot,
  client_snapshot_list, client_snapshot_clone, client_snapshot_clone_status, client_snapshot_revert,
  client_snapshot_purge, client_snapshot_purge_status, client_snapshot_remove, client_snapshot_hash,
  client_snapshot_hash_status, client_snapshot_backup, client_snapshot_backup_status,
  client_backup_restore, client_backup_restore_status,
}
use longhorn_instance_manage.Proxy.Client.Laws.{client_state}
use longhorn_instance_manage.Proxy.Client.Expected.{request_of, written, IsSendable, IsSent}
use longhorn_instance_manage.Proxy.Client.Checks.{
  check_labels-AllLabels, validate-AllGiven, first_error-none, refused_if-none, Plain, Front,
  common-AllGiven, front-AllGiven, front_alone-AllGiven, printed-AllGiven, itoa-given, flag-given,
}

module _ {W : Type 0} (service : Service W) where
  sends :
      {S : Type 0} (e : Option Error) (req : ProxyEngineRequest) (call : Call) (w : W)
      → (e ≡ none) ↔ S
      → IsSent S (send service e req call w).0 (service req call w).0 w
  unfolding send
  sends none req call w (one, other) = inl (one refl, refl)
  sends (some e) req call w (one, other) = inr (λ h. cc (other h), refl)

module _ {W : Type 0} (lib : ClientLibrary) (service : Service W) (t : Target) (mode : Text) where
  -- The service is sent the request of `request_of` exactly where `IsSendable` holds.
  abbrev pub Outcome : Call → W → W → Type 0
  Outcome call w new =
      IsSent (IsSendable lib t mode call) new
        (service (request_of t call) (written lib mode call) w).0 w

  restored-state : (r : W × Result Text) → (restored r).0 ≡ r.0
  unfolding restored
  restored-state (w, err e) = refl
  restored-state (w, ok text) = ground arith

  plain :
      (given : List Text) (call : Call) (w : W)
      → IsSent
          (Plain t given)
          (send service
            (validate_proxy_method_parameters (given ++ common t))
            (request_of t call)
            (written lib mode call)
            w).0
          (service (request_of t call) (written lib mode call) w).0
          w
  plain given call w =
      sends service (validate_proxy_method_parameters (given ++ common t)) (request_of t call)
        (written lib mode call) w (common-AllGiven t given)

  printed :
      (value : Text) (call : Call) (w : W)
      → is_empty value ≡ false
      → IsSent
          (Plain t [])
          (send service
            (validate_proxy_method_parameters (value ∷ common t))
            (request_of t call)
            (written lib mode call)
            w).0
          (service (request_of t call) (written lib mode call) w).0
          w
  printed value call w given =
      sends service (validate_proxy_method_parameters (value ∷ common t)) (request_of t call)
        (written lib mode call) w (printed-AllGiven t value given)

  through_front :
      (call : Call) (w : W)
      → IsSent
          (Front t [] (Unit {0}))
          (send service
            (validate_proxy_method_parameters (with_frontend_name t (common t)))
            (request_of t call)
            (written lib mode call)
            w).0
          (service (request_of t call) (written lib mode call) w).0
          w
  through_front call w =
      sends service (validate_proxy_method_parameters (with_frontend_name t (common t)))
        (request_of t call) (written lib mode call) w (front_alone-AllGiven t [])

  -- A call of the client reaches the service exactly where every name and argument that it must give is given, the frontend's name too for the five methods that change the second data engine through it where the data engine is written "v2", where the labels of a snapshot are well formed, a reverted snapshot is not the head and a replica to remove is named. Then the state is what the service makes of the one request for the target, with its engine, volume and frontend where the method names them, and of the call with its numbers in 32 bits and its modes in the enums' numbers; otherwise the state is as it was.
  pub client_state-Outcome :
      (call : Call) (w : W) → Outcome call w (client_state lib service t mode call w)
  unfolding client_state through get_clone_mode client_volume_get client_volume_expand
      client_volume_frontend_start client_volume_frontend_shutdown client_volume_unmap_set
      client_volume_snapshot_max_count_set client_volume_snapshot_max_size_set client_metrics_get
      client_replica_add client_replica_list client_replica_rebuilding_status
      client_replica_rebuilding_qos_set client_replica_verify_rebuild client_replica_remove
      client_replica_mode_update client_sync_limit_set client_sync_limit_get client_volume_snapshot
      client_snapshot_list client_snapshot_clone client_snapshot_clone_status client_snapshot_revert
      client_snapshot_purge client_snapshot_purge_status client_snapshot_remove client_snapshot_hash
      client_snapshot_hash_status client_snapshot_backup client_snapshot_backup_status
      client_backup_restore client_backup_restore_status
  client_state-Outcome volume_get w = plain [] volume_get w
  client_state-Outcome (volume_expand n) w = through_front (volume_expand n) w
  client_state-Outcome (volume_frontend_start x) w = plain (x ∷ []) (volume_frontend_start x) w
  client_state-Outcome volume_frontend_shutdown w = plain [] volume_frontend_shutdown w
  client_state-Outcome (volume_unmap_mark_snap_chain_removed_set b) w =
      printed (codes (if b then "true" else "false")) (volume_unmap_mark_snap_chain_removed_set b) w
        (flag-given b)
  client_state-Outcome (volume_snapshot_max_count_set n) w =
      printed (itoa n) (volume_snapshot_max_count_set n) w (itoa-given n)
  client_state-Outcome (volume_snapshot_max_size_set n) w =
      printed (itoa n) (volume_snapshot_max_size_set n) w (itoa-given n)
  client_state-Outcome metrics_get w = plain (t.data_engine ∷ []) metrics_get w
  client_state-Outcome (replica_add q) w =
      plain (q.replica_name ∷ q.replica_address ∷ []) (replica_add q) w
  client_state-Outcome replica_list w = plain [] replica_list w
  client_state-Outcome replica_rebuilding_status w = plain [] replica_rebuilding_status w
  client_state-Outcome (replica_rebuilding_qos_set n) w = plain [] (replica_rebuilding_qos_set n) w
  client_state-Outcome (replica_verify_rebuild x y) w =
      plain (y ∷ x ∷ []) (replica_verify_rebuild x y) w
  client_state-Outcome (replica_remove x y) w =
      let (one, other) =
        first_error-none (validate_proxy_method_parameters (t.service_address ∷ t.engine_name ∷ []))
          (if is_empty y && is_empty x
            then some (failed (codes "replica address and name are both empty"))
            else none)
          (validate-AllGiven (t.service_address ∷ t.engine_name ∷ []))
          (refused_if-none (is_empty y && is_empty x) _) in
      sends service
        (first_error (validate_proxy_method_parameters (t.service_address ∷ t.engine_name ∷ [])) (
          if is_empty y && is_empty x
          then some (failed (codes "replica address and name are both empty"))
          else none))
        (request_of t (replica_remove x y)) (written lib mode (replica_remove x y)) w
        (
          λ h. let ((a, (e, u)), f) = one h in (a, e, tt, tt, tt, f),
          λ (a, e, u, u', u'', f). other ((a, (e, tt)), f),
        )
  client_state-Outcome (replica_mode_update x m) w =
      let (one, other) = validate-AllGiven (t.service_address ∷ x ∷ []) in
      sends service (validate_proxy_method_parameters (t.service_address ∷ x ∷ []))
        (request_of t (replica_mode_update x m)) (written lib mode (replica_mode_update x m)) w
        (
          λ h. let (a, (y, u)) = one h in (a, tt, tt, tt, (y, tt), tt),
          λ (a, u, u', u'', (y, v), v'). other (a, (y, tt)),
        )
  client_state-Outcome (replica_rebuild_concurrent_sync_limit_set n) w =
      plain [] (replica_rebuild_concurrent_sync_limit_set n) w
  client_state-Outcome replica_rebuild_concurrent_sync_limit_get w =
      plain [] replica_rebuild_concurrent_sync_limit_get w
  client_state-Outcome (volume_snapshot x labels b) w =
      sends service
        (first_error (validate_proxy_method_parameters (with_frontend_name t (common t)))
          (check_labels lib labels))
        (request_of t (volume_snapshot x labels b)) (written lib mode (volume_snapshot x labels b))
        w (front-AllGiven t [] (check_labels lib labels) (check_labels-AllLabels lib labels))
  client_state-Outcome snapshot_list w = plain [] snapshot_list w
  client_state-Outcome (snapshot_clone q) w =
      plain (q.snapshot_name ∷ q.from_engine_address ∷ q.from_volume_name ∷ q.from_engine_name ∷ [])
        (snapshot_clone q) w
  client_state-Outcome snapshot_clone_status w = plain [] snapshot_clone_status w
  client_state-Outcome (snapshot_revert x) w =
      sends service
        (first_error (validate_proxy_method_parameters (with_frontend_name t (x ∷ common t))) (
          if text_eq x lib.volume_head_name
          then some (failed (codes "invalid operation: cannot revert to the head"))
          else none))
        (request_of t (snapshot_revert x)) (written lib mode (snapshot_revert x)) w
        (front-AllGiven t (x ∷ [])
          (if text_eq x lib.volume_head_name
            then some (failed (codes "invalid operation: cannot revert to the head"))
            else none)
          (refused_if-none (text_eq x lib.volume_head_name) _))
  client_state-Outcome (snapshot_purge b) w = through_front (snapshot_purge b) w
  client_state-Outcome snapshot_purge_status w = plain [] snapshot_purge_status w
  client_state-Outcome (snapshot_remove xs) w = through_front (snapshot_remove xs) w
  client_state-Outcome (snapshot_hash x b) w = plain [] (snapshot_hash x b) w
  client_state-Outcome (snapshot_hash_status x) w = plain [] (snapshot_hash_status x) w
  client_state-Outcome (snapshot_backup q) w = plain [] (snapshot_backup q) w
  client_state-Outcome (snapshot_backup_status x y z) w =
      plain (x ∷ []) (snapshot_backup_status x y z) w
  client_state-Outcome (backup_restore q) w =
      rw
        (restored-state (
          through service ((q.url ∷ q.target ∷ mode ∷ []) ++ common t)
            (request_of t (backup_restore q)) (written lib mode (backup_restore q)) w))
        (plain (q.url ∷ q.target ∷ mode ∷ []) (backup_restore q) w)
  client_state-Outcome backup_restore_status w = plain [] backup_restore_status w
