-- ===== src/Proxy/Replicas.antt =====
-- pkg/proxy/replica.go: the operations on the replicas of a volume, for both data engines. A loop over
-- a map runs in the order of the list that stands for it, which may be any.
use longhorn_instance_manage.Base.{
  ℤ, Text, Bool, true, false, not, ◌&&◌, Option, none, some, List, [], ◌∷◌, Dict, lookup, insert,
  map, is_empty, text_eq, if◌then◌else◌, Error, status, internal, Result, ok, err, ◌>>=◌, int32,
}
use longhorn_instance_manage.Strings.{or_text, trim_prefix}
use longhorn_instance_manage.Proxy.{
  ProxyEngineRequest, ReplicaMode, wo, rw, err_mode, ControllerReplica, ReplicaAddRequest,
  RebuildStatus,
}
use longhorn_instance_manage.Proxy.Address.{add_tcp_prefix, tcp_address_prefix}
use longhorn_instance_manage.Proxy.Calls.{internal_of, asked, acted, acted_internal}
use longhorn_instance_manage.Proxy.Engines.{
  EngineClients, engine_id, ReplicaInfo, with_controller, with_task,
}
use longhorn_instance_manage.Proxy.Spdk.{
  SpdkClients, Mode, mode_wo, mode_rw, mode_err, other_mode, ShallowCopy, with_spdk,
  client_from_address,
}
use longhorn_instance_manage.Instance.Ops.{map_result}

unfoldable pub map_dict : {A A' : Type 0} → (A → A') → Dict A → Dict A'
map_dict f [] = []
map_dict f ((k, a) ∷ rest) = (k, f a) ∷ map_dict f rest

unfoldable pub rebuild_response : RebuildStatus → RebuildStatus
rebuild_response v = record v { progress = int32 v.progress }

unfoldable pub snapshot_names : {A : Type 0} → (A → Text) → Dict A → List Text
snapshot_names name [] = []
snapshot_names name ((k, a) ∷ rest) = name a ∷ snapshot_names name rest

module _ {E : Type 0} (engines : EngineClients E) (req : ProxyEngineRequest) where
  unfoldable pub v1_replica_add : ReplicaAddRequest → E → E × Result (Unit {0})
  unfolding with_task acted
  v1_replica_add q = with_task engines (engine_id req) (λ s. acted (
      if q.restore
      then engines.add_restore_replica (engine_id req) q.size q.current_size q.replica_address
          q.replica_name s
      else engines.add_replica (engine_id req) q.size q.current_size q.replica_address
          q.replica_name q.file_sync_http_client_timeout q.fast_sync q.local_sync
          q.grpc_timeout_seconds s))

  unfoldable pub controller_replica : ReplicaInfo → ControllerReplica
  controller_replica r = record {
    address = r.address;
    instance_name = [];
    mode = engines.replica_mode_to_grpc r.mode;
  }

  unfoldable pub v1_replica_list : E → E × Result (List ControllerReplica)
  unfolding with_controller asked map_result controller_replica
  v1_replica_list =
      with_controller engines (engine_id req) (λ s.
        asked s (map_result (map controller_replica) (engines.replica_list (engine_id req) s)))

  unfoldable pub v1_replica_rebuilding_status : E → E × Result (Dict RebuildStatus)
  unfolding with_task asked map_result map_dict rebuild_response
  v1_replica_rebuilding_status = with_task engines (engine_id req) (λ s.
      asked s (map_result (map_dict rebuild_response) (engines.rebuild_status (engine_id req) s)))

  unfoldable pub v1_replica_verify_rebuild : Text → Text → E → E × Result (Unit {0})
  unfolding with_task acted
  v1_replica_verify_rebuild address name =
      with_task engines (engine_id req)
        (λ s. acted (engines.verify_rebuild_replica (engine_id req) address name s))

  -- `cancelSnapshotHashesForReplica`; the caller only logs its error.
  unfoldable pub cancel_snapshot_hashes_for_replica : Text → E → E × Option Error
  unfolding snapshot_names
  cancel_snapshot_hashes_for_replica address s = elim (engines.replica_list (engine_id req) s) [
    | err e ↦ (s, some e)
    | ok replicas ↦ elim (engines.get_snapshots_info replicas req.volume_name s) [
      | err e ↦ (s, some e)
      | ok disks ↦ elim (engines.new_task (engine_id req) s) [
        | some e ↦ (s, some e)
        | none ↦
            engines.cancel_snapshot_hash_job (engine_id req) address
              (snapshot_names (λ d. d.name) disks) s
      ]
    ]
  ]

  unfoldable pub v1_replica_remove : Text → E → E × Result (Unit {0})
  unfolding with_controller acted cancel_snapshot_hashes_for_replica
  v1_replica_remove address = with_controller engines (engine_id req) (λ s. acted (
      engines.replica_delete (engine_id req) address
        (cancel_snapshot_hashes_for_replica address s).0))

  unfoldable pub v1_replica_mode_update : Text → ReplicaMode → E → E × Result (Unit {0})
  unfolding with_controller acted
  v1_replica_mode_update address mode = with_controller engines (engine_id req) (λ s.
      acted (engines.replica_update (engine_id req) address (engines.grpc_to_replica_mode mode) s))

  unfoldable pub v1_sync_limit_set : ℤ → E → E × Result (Unit {0})
  unfolding with_controller acted
  v1_sync_limit_set limit =
      with_controller engines (engine_id req)
        (λ s. acted (engines.replica_rebuild_concurrent_sync_limit_set (engine_id req) limit s))

  unfoldable pub v1_sync_limit_get : E → E × Result ℤ
  unfolding with_controller asked map_result
  v1_sync_limit_get = with_controller engines (engine_id req) (λ s.
      asked s
        (map_result int32 (engines.replica_rebuild_concurrent_sync_limit_get (engine_id req) s)))

-- `replicaModeToGRPCReplicaMode`.
unfoldable pub replica_mode_to_grpc_replica_mode : Mode → ReplicaMode
replica_mode_to_grpc_replica_mode mode_wo = wo
replica_mode_to_grpc_replica_mode mode_rw = rw
replica_mode_to_grpc_replica_mode mode_err = err_mode
replica_mode_to_grpc_replica_mode other_mode = err_mode

-- The loop of `ReplicaList`: each replica that has a mode must have an address.
unfoldable pub list_replicas : Dict Text → Dict Mode → Result (List ControllerReplica)
unfolding replica_mode_to_grpc_replica_mode add_tcp_prefix
list_replicas addresses [] = ok []
list_replicas addresses ((name, mode) ∷ modes) = elim (lookup name addresses) [
  | none ↦ err (status internal)
  | some address ↦ do
    rest ← list_replicas addresses modes
    ok (
        record {
          address = add_tcp_prefix address;
          instance_name = [];
          mode = replica_mode_to_grpc_replica_mode mode;
        }
        ∷ rest)
]

abbrev pub is_wo : Mode → Bool
is_wo mode_wo = true
is_wo _ = false

-- A Go map returns the empty text for a key that it does not have.
unfoldable pub address_of : Dict Text → Text → Text
address_of addresses name = or_text [] (lookup name addresses)

module _ {S : Type 0} (spdk : SpdkClients S) (req : ProxyEngineRequest) where
  unfoldable pub v2_replica_add : ReplicaAddRequest → S → S × Result (Unit {0})
  unfolding with_spdk acted_internal trim_prefix
  v2_replica_add q = with_spdk spdk req.address (λ a s. acted_internal (
      spdk.engine_frontend_replica_add a req.engine_frontend_name q.replica_name
        (trim_prefix tcp_address_prefix q.replica_address) q.fast_sync q.linked_clone_source s))

  unfoldable pub v2_replica_list : S → S × Result (List ControllerReplica)
  unfolding with_spdk asked internal_of list_replicas
  v2_replica_list = with_spdk spdk req.address (λ a s. asked s (do
    engine ← internal_of (spdk.engine_get a req.engine_name s)
    list_replicas engine.replica_address_map engine.replica_mode_map))

  unfoldable pub copy_status : ShallowCopy → RebuildStatus
  unfolding add_tcp_prefix
  copy_status c = record {
    error = c.error;
    is_rebuilding = text_eq c.total_state spdk.progress_state_in_progress;
    progress = int32 c.total_progress;
    state = c.total_state;
    from_replica_address_list = add_tcp_prefix c.src_replica_address ∷ [];
  }

  -- What the replica of that name and address says of its rebuild.
  unfoldable pub ask_rebuild : Text → Text → S → Result RebuildStatus
  unfolding internal_of client_from_address map_result copy_status
  ask_rebuild name address s = do
    a ← internal_of (client_from_address spdk address s)
    map_result copy_status (spdk.replica_rebuilding_dst_shallow_copy_check a name s)

  -- The loop of `ReplicaRebuildingStatus`.
  unfoldable pub rebuild_statuses :
      Dict Text → Dict Mode → Dict RebuildStatus → S → Result (Dict RebuildStatus)
  unfolding address_of add_tcp_prefix ask_rebuild
  rebuild_statuses addresses [] statuses s = ok statuses
  rebuild_statuses addresses ((name, mode) ∷ modes) statuses s =
      let address = address_of addresses name in
      elim (is_wo mode && not (is_empty address)) [
        | false ↦ rebuild_statuses addresses modes statuses s
        | true ↦ elim (ask_rebuild name address s) [
          | err e ↦ err e
          | ok answer ↦
              rebuild_statuses addresses modes (insert (add_tcp_prefix address) answer statuses) s
        ]
      ]

  unfoldable pub v2_replica_rebuilding_status : S → S × Result (Dict RebuildStatus)
  unfolding with_spdk asked internal_of rebuild_statuses
  v2_replica_rebuilding_status = with_spdk spdk req.address (λ a s. asked s (do
    engine ← internal_of (spdk.engine_get a req.engine_name s)
    rebuild_statuses engine.replica_address_map engine.replica_mode_map [] s))

  -- One replica of the loop of `ReplicaRebuildingQosSet`, whose errors are only logged.
  unfoldable pub set_qos_of : ℤ → Text → Text → S → S
  unfolding client_from_address
  set_qos_of limit name address s = elim (client_from_address spdk address s) [
    | err e ↦ s
    | ok a ↦ (spdk.replica_rebuilding_dst_set_qos_limit a name limit s).0
  ]

  unfoldable pub set_qos : ℤ → Dict Text → Dict Mode → S → S
  unfolding address_of set_qos_of
  set_qos limit addresses [] s = s
  set_qos limit addresses ((name, mode) ∷ modes) s =
      let address = address_of addresses name in
      elim (is_wo mode && not (is_empty address)) [
        | false ↦ set_qos limit addresses modes s
        | true ↦ set_qos limit addresses modes (set_qos_of limit name address s)
      ]

  unfoldable pub v2_replica_rebuilding_qos_set : ℤ → S → S × Result (Unit {0})
  unfolding with_spdk set_qos
  v2_replica_rebuilding_qos_set limit = with_spdk spdk req.address (λ a s.
      elim (spdk.engine_get a req.engine_name s) [
        | err e ↦ (s, err (status internal))
        | ok engine ↦ (set_qos limit engine.replica_address_map engine.replica_mode_map s, ok tt)
      ])

  unfoldable pub v2_replica_remove : Text → Text → S → S × Result (Unit {0})
  unfolding with_spdk acted trim_prefix
  v2_replica_remove name address = with_spdk spdk req.address (λ a s. acted (
      spdk.engine_replica_delete a req.engine_name name (trim_prefix tcp_address_prefix address) s))
