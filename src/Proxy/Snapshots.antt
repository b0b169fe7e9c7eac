-- ===== src/Proxy/Snapshots.antt =====
-- pkg/proxy/snapshot.go: the operations on the snapshots of a volume, of the second data engine. First
-- has those of the first one.
pub mod First
use longhorn_instance_manage.Base.{
  ◌>>=◌, pos, Text, Bool, true, false, Option, none, some, List, [], ◌∷◌, ◌++◌, Dict, lookup,
  insert, is_empty, if◌then◌else◌, Error, status, internal, failed, codes, Result, ok, err, int32,
}
use longhorn_instance_manage.Strings.{itoa, sort_texts}
use longhorn_instance_manage.Proxy.{
  ProxyEngineRequest, SnapshotDiskInfo, SnapshotCloneRequest, CloneStatus, PurgeStatus, HashStatus,
}
use longhorn_instance_manage.Proxy.Address.{add_tcp_prefix}
use longhorn_instance_manage.Proxy.Calls.{internal_of, asked, acted, acted_internal}
use longhorn_instance_manage.Proxy.Spdk.{
  SpdkClients, SpdkEngine, Mode, mode_rw, Lvol, CloneCheck, with_spdk, client_from_address,
}
use longhorn_instance_manage.Proxy.Replicas.{map_dict, address_of}
use longhorn_instance_manage.Instance.Ops.{map_result}

abbrev pub newer : Option Error → Option Error → Option Error
newer none last = last
newer (some e) last = some e

-- The loop of `SnapshotRemove`: every name is tried, and the last error is kept.
unfoldable pub remove_all :
    {S : Type 0} → (Text → S → S × Option Error) → List Text → Option Error → S → S × Option Error
remove_all delete_snapshot [] last s = (s, last)
remove_all delete_snapshot (name ∷ names) last s =
    let (s', e) = delete_snapshot name s in remove_all delete_snapshot names (newer e last) s'

unfoldable pub clone_response : CloneStatus → CloneStatus
clone_response v = record v { progress = int32 v.progress }

unfoldable pub purge_response : PurgeStatus → PurgeStatus
purge_response v = record v { progress = int32 v.progress }

-- What `SnapshotList` says of a snapshot, whose older ones have no timestamp.
unfoldable pub disk_info : Lvol → SnapshotDiskInfo
unfolding itoa
disk_info v = record {
  name = v.name;
  parent = v.parent;
  children = v.children;
  removed = false;
  user_created = v.user_created;
  created = if is_empty v.snapshot_timestamp then v.creation_time else v.snapshot_timestamp;
  size = itoa (pos v.actual_size);
  labels = [];
}

-- The snapshots of an engine with its head.
unfoldable pub disks_of : SpdkEngine → Dict Lvol
disks_of e = elim e.head [ none ↦ e.snapshots | some head ↦ insert head.name head e.snapshots ]

abbrev pub is_rw : Mode → Bool
is_rw mode_rw = true
is_rw _ = false

unfoldable pub check_response : CloneCheck → CloneStatus
check_response c = record {
  is_cloning = c.is_cloning;
  error = c.error;
  progress = int32 c.progress;
  state = c.state;
  from_replica_address = c.src_replica_address;
  snapshot_name = c.snapshot_name;
}

-- `&enginerpc.SnapshotCloneStatusResponse{}`.
abbrev pub not_cloning : CloneStatus
not_cloning = record {
  is_cloning = false;
  error = [];
  progress = pos 0;
  state = [];
  from_replica_address = [];
  snapshot_name = [];
}

-- What one replica tells: nothing, that it has no clone, or the state of its clone.
pub data CloneAnswer : Type 0 where
  silent idle : CloneAnswer
  cloning : CloneStatus → CloneAnswer

-- What the loop of `SnapshotCloneStatus` has gathered.
pub record CloneFound : Type 0 where
  pub statuses : Dict CloneStatus
  pub reachable_no_state : List Text

unfoldable pub note : Dict Text → Text → CloneAnswer → CloneFound → CloneFound
unfolding address_of add_tcp_prefix
note addresses name silent found = found
note addresses name idle found = record found {
  reachable_no_state = found.reachable_no_state ++ name ∷ [];
}
note addresses name (cloning answer) found = record found {
  statuses = insert (add_tcp_prefix (address_of addresses name)) answer found.statuses;
}

-- The answer when the loop is over: without a status, the first replica that has no clone stands for
-- all.
unfoldable pub clone_result : Dict Text → CloneFound → Result (Dict CloneStatus)
unfolding address_of add_tcp_prefix sort_texts
clone_result addresses found = elim found.statuses [
  | k ∷ rest ↦ ok found.statuses
  | [] ↦ elim (sort_texts found.reachable_no_state) [
    | [] ↦ err (status internal)
    | name ∷ names ↦ ok ((add_tcp_prefix (address_of addresses name), not_cloning) ∷ [])
  ]
]

module _ {S : Type 0} (spdk : SpdkClients S) (req : ProxyEngineRequest) where
  unfoldable pub v2_volume_snapshot : Text → Text → S → S × Result Text
  unfolding with_spdk acted_internal map_result
  v2_volume_snapshot uuid requested = with_spdk spdk req.address (λ a s.
      let name = if is_empty requested then uuid else requested in
      let (s', answer) =
        acted_internal (spdk.engine_frontend_snapshot_create a req.engine_frontend_name name s) in
      (s', map_result (λ _. name) answer))

  unfoldable pub v2_snapshot_list : S → S × Result (Dict SnapshotDiskInfo)
  unfolding client_from_address map_dict disk_info disks_of
  v2_snapshot_list s = elim (client_from_address spdk req.address s) [
    | err e ↦ (s, err (failed (codes "failed to get SPDK client")))
    | ok a ↦ elim (spdk.engine_get a req.engine_name s) [
      | err e ↦ (s, err (failed (codes "failed to get engine")))
      | ok engine ↦ (s, ok (map_dict disk_info (disks_of engine)))
    ]
  ]

  unfoldable pub v2_snapshot_clone : SnapshotCloneRequest → S → S × Result (Unit {0})
  unfolding with_spdk acted_internal
  v2_snapshot_clone q = with_spdk spdk req.address (λ a s. acted_internal (
      spdk.engine_snapshot_clone a req.engine_name q.snapshot_name q.from_engine_name
        q.from_engine_address q.clone_mode q.dst_replica_src_replica_pair_map s))

  unfoldable pub answer_of : Text → Option CloneCheck → S → CloneAnswer
  unfolding check_response
  answer_of a none s = silent
  answer_of a (some check) s =
      if is_empty check.state
      then elim (spdk.close a s) [ some e ↦ silent | none ↦ idle ]
      else cloning (check_response check)

  unfoldable pub ask_clone : Text → Text → S → CloneAnswer
  unfolding client_from_address answer_of
  ask_clone name address s = elim (client_from_address spdk address s) [
    | err e ↦ silent
    | ok a ↦ elim (spdk.replica_snapshot_clone_dst_status_check a name s) [
      | err e ↦ silent
      | ok check ↦ answer_of a check s
    ]
  ]

  -- A replica without an address, or in another mode, is not asked.
  unfoldable pub clone_answer : Dict Text → Text → Mode → S → CloneAnswer
  unfolding ask_clone
  clone_answer addresses name mode s =
      if is_rw mode
      then elim (lookup name addresses) [ none ↦ silent | some address ↦ ask_clone name address s ]
      else silent

  unfoldable pub clone_loop : Dict Text → Dict Mode → CloneFound → S → CloneFound
  unfolding note clone_answer
  clone_loop addresses [] found s = found
  clone_loop addresses ((name, mode) ∷ modes) found s =
      clone_loop addresses modes (note addresses name (clone_answer addresses name mode s) found) s

  unfoldable pub v2_snapshot_clone_status : S → S × Result (Dict CloneStatus)
  unfolding with_spdk asked internal_of clone_loop clone_result
  v2_snapshot_clone_status = with_spdk spdk req.address (λ a s. asked s (do
    engine ← internal_of (spdk.engine_get a req.engine_name s)
    clone_result engine.replica_address_map (
        clone_loop engine.replica_address_map engine.replica_mode_map
          (record { statuses = []; reachable_no_state = [] }) s)))

  unfoldable pub v2_snapshot_revert : Text → S → S × Result (Unit {0})
  unfolding with_spdk acted_internal
  v2_snapshot_revert name = with_spdk spdk req.address (λ a s.
      acted_internal (spdk.engine_frontend_snapshot_revert a req.engine_frontend_name name s))

  -- The error of the call is dropped.
  unfoldable pub v2_snapshot_purge : S → S × Result (Unit {0})
  unfolding with_spdk
  v2_snapshot_purge =
      with_spdk spdk req.address
        (λ a s. ((spdk.engine_frontend_snapshot_purge a req.engine_frontend_name s).0, ok tt))

  unfoldable pub v2_snapshot_purge_status : S → S × Result (Dict PurgeStatus)
  v2_snapshot_purge_status s = (s, ok [])

  unfoldable pub v2_snapshot_remove : List Text → S → S × Result (Unit {0})
  unfolding with_spdk acted remove_all
  v2_snapshot_remove names = with_spdk spdk req.address (λ a s.
      acted
        (remove_all (spdk.engine_frontend_snapshot_delete a req.engine_frontend_name) names none s))

  unfoldable pub v2_snapshot_hash : Text → Bool → S → S × Result (Unit {0})
  unfolding with_spdk acted
  v2_snapshot_hash name rehash =
      with_spdk spdk req.address
        (λ a s. acted (spdk.engine_snapshot_hash a req.engine_name name rehash s))

  unfoldable pub v2_snapshot_hash_status : Text → S → S × Result (Dict HashStatus)
  unfolding with_spdk asked
  v2_snapshot_hash_status name =
      with_spdk spdk req.address
        (λ a s. asked s (spdk.engine_snapshot_hash_status a req.engine_name name s))
