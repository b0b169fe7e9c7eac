-- ===== src/Proxy/Volumes.antt =====
-- pkg/proxy/volume.go and pkg/proxy/metrics.go: the operations on volumes, for both data engines. The
-- remount of a volume runs `mount` on the host, and is not here.
use longhorn_instance_manage.Base.{
  ℤ, pos, Text, Bool, false, ◌||◌, Option, none, some, [], length, is_empty, if◌then◌else◌, status,
  internal, Result, ok, err, int32,
}
use longhorn_instance_manage.Proxy.{ProxyEngineRequest, Volume, Metrics, int64, uint64}
use longhorn_instance_manage.Proxy.Calls.{internal_of, asked, acted}
use longhorn_instance_manage.Proxy.Engines.{EngineClients, engine_id, with_controller}
use longhorn_instance_manage.Proxy.Spdk.{
  SpdkClients, SpdkEngine, SpdkFrontend, with_spdk, client_from_address,
}
use longhorn_instance_manage.Instance.Ops.{map_result}

-- The response for a volume of the first data engine.
unfoldable pub volume_response : Volume → Volume
volume_response v = record v {
  replica_count = int32 v.replica_count;
  snapshot_max_count = int32 v.snapshot_max_count;
}

module _ {E : Type 0} (engines : EngineClients E) (req : ProxyEngineRequest) where
  unfoldable pub v1_volume_get : E → E × Result Volume
  unfolding with_controller map_result volume_response asked
  v1_volume_get =
      with_controller engines (engine_id req)
        (λ s. asked s (map_result volume_response (engines.volume_get (engine_id req) s)))

  unfoldable pub v1_volume_expand : ℤ → E → E × Result (Unit {0})
  unfolding with_controller acted
  v1_volume_expand size =
      with_controller engines (engine_id req)
        (λ s. acted (engines.volume_expand (engine_id req) size s))

  unfoldable pub v1_volume_frontend_start : Text → E → E × Result (Unit {0})
  unfolding with_controller acted
  v1_volume_frontend_start frontend =
      with_controller engines (engine_id req)
        (λ s. acted (engines.volume_frontend_start (engine_id req) frontend s))

  unfoldable pub v1_volume_frontend_shutdown : E → E × Result (Unit {0})
  unfolding with_controller acted
  v1_volume_frontend_shutdown =
      with_controller engines (engine_id req)
        (λ s. acted (engines.volume_frontend_shutdown (engine_id req) s))

  unfoldable pub v1_volume_unmap_set : Bool → E → E × Result (Unit {0})
  unfolding with_controller acted
  v1_volume_unmap_set enabled =
      with_controller engines (engine_id req)
        (λ s. acted (engines.volume_unmap_mark_snap_chain_removed_set (engine_id req) enabled s))

  unfoldable pub v1_volume_snapshot_max_count_set : ℤ → E → E × Result (Unit {0})
  unfolding with_controller acted
  v1_volume_snapshot_max_count_set count =
      with_controller engines (engine_id req)
        (λ s. acted (engines.volume_snapshot_max_count_set (engine_id req) count s))

  unfoldable pub v1_volume_snapshot_max_size_set : ℤ → E → E × Result (Unit {0})
  unfolding with_controller acted
  v1_volume_snapshot_max_size_set size =
      with_controller engines (engine_id req)
        (λ s. acted (engines.volume_snapshot_max_size_set (engine_id req) size s))

  unfoldable pub v1_metrics_get : E → E × Result Metrics
  unfolding with_controller asked
  v1_metrics_get =
      with_controller engines (engine_id req) (λ s. asked s (engines.metrics_get (engine_id req) s))

-- What the engine says of its volume.
unfoldable pub engine_volume : SpdkEngine → Volume
unfolding int64
engine_volume e = record {
  name = e.name;
  size = int64 e.spec_size;
  replica_count = int32 (pos (length e.replica_address_map));
  endpoint = e.endpoint;
  frontend = e.frontend;
  frontend_state = [];
  is_expanding = e.is_expanding;
  last_expansion_error = e.last_expansion_error;
  last_expansion_failed_at = e.last_expansion_failed_at;
  unmap_mark_snap_chain_removed = false;
  snapshot_max_count = e.snapshot_max_count;
  snapshot_max_size = pos 0;
}

-- The fields for which the engine frontend is asked.
unfoldable pub with_frontend : SpdkFrontend → Volume → Volume
unfolding int64
with_frontend f v = record v {
  size = int64 f.spec_size;
  endpoint = f.endpoint;
  frontend = f.frontend;
  is_expanding = v.is_expanding || f.is_expanding;
  last_expansion_error =
      if is_empty f.last_expansion_error then v.last_expansion_error else f.last_expansion_error;
  last_expansion_failed_at =
      if is_empty f.last_expansion_error
      then v.last_expansion_failed_at
      else f.last_expansion_failed_at;
}

unfoldable pub merge_frontend : Option SpdkFrontend → Volume → Volume
unfolding with_frontend
merge_frontend none v = v
merge_frontend (some f) v = with_frontend f v

module _ {S : Type 0} (spdk : SpdkClients S) (req : ProxyEngineRequest) where
  -- The engine frontend, if one is named and answers.
  unfoldable pub frontend_of : S → Option SpdkFrontend
  unfolding client_from_address
  frontend_of s =
      if is_empty req.engine_frontend_name
      then none
      else elim (client_from_address spdk req.address s) [
        | err e ↦ none
        | ok service ↦ elim (spdk.engine_frontend_get service req.engine_frontend_name s) [
          | err e ↦ none
          | ok f ↦ some f
        ]
      ]

  -- `local` is the address of the SPDK service of this instance manager.
  unfoldable pub v2_volume_get : Text → S → S × Result Volume
  unfolding engine_volume merge_frontend frontend_of
  v2_volume_get local s = elim (spdk.new_client local s) [
    | some e ↦ (s, err (status internal))
    | none ↦ elim (spdk.engine_get local req.engine_name s) [
      | err e ↦ (s, err (status internal))
      | ok e ↦ (s, ok (merge_frontend (frontend_of s) (engine_volume e)))
    ]
  ]

  unfoldable pub v2_volume_expand : ℤ → S → S × Result (Unit {0})
  unfolding with_spdk acted uint64
  v2_volume_expand size =
      with_spdk spdk req.address
        (λ a s. acted (spdk.engine_frontend_expand a req.engine_frontend_name (uint64 size) s))

  unfoldable pub v2_volume_snapshot_max_count_set : ℤ → S → S × Result (Unit {0})
  unfolding with_spdk acted
  v2_volume_snapshot_max_count_set count =
      with_spdk spdk req.address
        (λ a s. acted (spdk.engine_snapshot_max_count_set a req.engine_name count s))

  unfoldable pub v2_metrics_get : S → S × Result Metrics
  unfolding with_spdk internal_of asked
  v2_metrics_get =
      with_spdk spdk req.address
        (λ a s. asked s (internal_of (spdk.metrics_get a req.engine_name s)))
