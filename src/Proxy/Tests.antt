-- ===== src/Proxy/Tests.antt =====
-- Runs of the proxy.
use longhorn_instance_manage.Base.{
  ℕ, pos, ◌≡◌, ◌↔◌, refl, none, some, List, [], ◌∷◌, Text, codes, ok, lookup, nil, cons, swap,
  Option, Error, panic, text_eq, UniqueKeys,
}
use longhorn_instance_manage.Strings.{cut, itoa}
use longhorn_instance_manage.Proxy.Address.{split_host_port, spdk_address, join_host_port}
use longhorn_instance_manage.Proxy.Engines.{engine_id}
use longhorn_instance_manage.Proxy.Spdk.{client_from_address, mode_rw}
use longhorn_instance_manage.Proxy.Env.{is_backup_env_allowed}
use longhorn_instance_manage.Proxy.Replicas.{address_of, set_qos_of}
use longhorn_instance_manage.Proxy.Snapshots.{remove_all, v2_snapshot_remove}
use longhorn_instance_manage.Proxy.Snapshots.First.{v1_snapshot_remove}
use longhorn_instance_manage.Proxy.Backups.{find_v2_backup_replica_addresses}
use longhorn_instance_manage.Proxy.Server.{Call, snapshot_backup, handle}
use longhorn_instance_manage.Proxy.Safety.{handle-environ}
use longhorn_instance_manage.Proxy.Rebuild.{limit_each, rebuilding}
use longhorn_instance_manage.Proxy.Search.{find_v2_backup_replica_addresses-Reordered}
use longhorn_instance_manage.Proxy.Removal.{
  delete_each, AllDeleted, if_made, if_reached, v1_snapshot_remove_lem, v2_snapshot_remove_lem,
}
use longhorn_instance_manage.Proxy.Examples.{
  given, engine_clients, spdk_clients, an_engine, a_request, first_request, services, Limits,
}

-- A backup whose request sets the credential.
abbrev a_backup_call : Call
a_backup_call = snapshot_backup (record {
  envs = codes "AWS_ACCESS_KEY_ID=k" ∷ [];
  backup_name = codes "b";
  snapshot_name = codes "s1";
  backup_target = codes "s3://t";
  backing_image_name = [];
  backing_image_checksum = [];
  compression_method = codes "lz4";
  concurrent_limit = pos 2;
  storage_class_name = [];
  labels = [];
  parameters = [];
})

handle-environ_example :
    lookup
      (codes "PATH")
      (handle given engine_clients spdk_clients a_request a_backup_call services).0.environ
    ≡ some (codes "/bin")
unfolding is_backup_env_allowed text_eq lookup
handle-environ_example =
    handle-environ given engine_clients spdk_clients a_request a_backup_call services (codes "PATH")
      refl

-- The replica with an address has its limit, although it says that it refuses.
limited :
    limit_each spdk_clients a_request
      (pos 100)
      (rebuilding an_engine.replica_address_map an_engine.replica_mode_map)
      []
    ≡ (codes "r-3", pos 100) ∷ []
unfolding limit_each rebuilding set_qos_of address_of lookup text_eq client_from_address
    spdk_address split_host_port join_host_port cut itoa
limited = refl

-- The addresses of the replicas to read and write, by name.
abbrev candidates : List Text
candidates = codes "10.0.0.1:20000" ∷ codes "10.0.0.2:20000" ∷ []

find_v2_backup_replica_addresses-Reordered_example :
    find_v2_backup_replica_addresses
      ((codes "r-2", mode_rw) ∷ (codes "r-1", mode_rw) ∷ [])
      an_engine.replica_address_map
    ≡ find_v2_backup_replica_addresses
        ((codes "r-1", mode_rw) ∷ (codes "r-2", mode_rw) ∷ [])
        an_engine.replica_address_map
unfolding UniqueKeys lookup text_eq
find_v2_backup_replica_addresses-Reordered_example =
    find_v2_backup_replica_addresses-Reordered
      (swap (codes "r-2", mode_rw) (codes "r-1", mode_rw) []) (refl, (refl, tt))
      (cons (codes "r-3", codes "10.0.0.3:20000")
        (cons (codes "r-2", codes "10.0.0.2:20000")
          (cons (codes "r-1", codes "10.0.0.1:20000") nil)))
      (refl, (refl, (refl, tt)))

-- The first of two snapshots cannot be deleted.
abbrev deletes : Text → ℕ → ℕ × Option Error
deletes name s = engine_clients.delete_snapshot (engine_id first_request) name s

abbrev two_names : List Text
two_names = codes "s1" ∷ codes "s2" ∷ []

v1_snapshot_remove_lem_example :
    ((v1_snapshot_remove engine_clients first_request two_names 0).0
      ≡ if_made
          (engine_clients.new_task (engine_id first_request) 0)
          (delete_each deletes two_names 0)
          0)
    × (((v1_snapshot_remove engine_clients first_request two_names 0).1 ≡ ok tt) ↔ (
        (engine_clients.new_task (engine_id first_request) 0 ≡ none)
        × AllDeleted deletes two_names 0))
v1_snapshot_remove_lem_example = v1_snapshot_remove_lem engine_clients first_request two_names 0

-- What the SPDK client of an address makes of a snapshot.
abbrev deletes_at : Text → Text → Limits → Limits × Option Error
deletes_at a = spdk_clients.engine_frontend_snapshot_delete a a_request.engine_frontend_name

v2_snapshot_remove_lem_example :
    ((v2_snapshot_remove spdk_clients a_request two_names []).0
      ≡ if_reached
          (client_from_address spdk_clients a_request.address [])
          (λ a. delete_each (deletes_at a) two_names [])
          [])
    × (((v2_snapshot_remove spdk_clients a_request two_names []).1 ≡ ok tt) ↔ (
        (a : Text) × (client_from_address spdk_clients a_request.address [] ≡ ok a)
        × AllDeleted (deletes_at a) two_names []))
v2_snapshot_remove_lem_example = v2_snapshot_remove_lem spdk_clients a_request two_names []

both_tried : remove_all deletes two_names none 0 ≡ (2, some panic)
unfolding remove_all text_eq
both_tried = refl
