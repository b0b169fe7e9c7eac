-- ===== src/Proxy/Rebuild.antt =====
-- What the proxy does with the replicas that are rebuilding.
use longhorn_instance_manage.Base.{
  ℤ, Text, ◌≡◌, ◌∙◌, ap, refl, not, ◌&&◌, List, [], ◌∷◌, Dict, insert, is_empty, Result, ok, err,
  ◌>>=◌, Bool-cases, Result-cases, inl, inr, if◌then◌else◌,
}
use longhorn_instance_manage.Proxy.{ProxyEngineRequest, RebuildStatus}
use longhorn_instance_manage.Proxy.Calls.{asked, internal_of, reached}
use longhorn_instance_manage.Proxy.Address.{add_tcp_prefix}
use longhorn_instance_manage.Proxy.Spdk.{
  SpdkClients, SpdkEngine, Mode, client_from_address, with_spdk,
}
use longhorn_instance_manage.Proxy.Replicas.{
  is_wo, address_of, ask_rebuild, rebuild_statuses, set_qos_of, v2_replica_rebuilding_status,
}
use longhorn_instance_manage.Instance.Ops.{map_result, insert_all}

-- The names and addresses of the replicas that are written only and have an address.
unfoldable pub rebuilding : Dict Text → Dict Mode → List (Text × Text)
rebuilding addresses [] = []
rebuilding addresses ((name, mode) ∷ modes) =
    let rest = rebuilding addresses modes in
    let address = address_of addresses name in
    if is_wo mode && not (is_empty address) then (name, address) ∷ rest else rest

module _ {S : Type 0} (spdk : SpdkClients S) (req : ProxyEngineRequest) where
  -- Each replica in its turn, whatever the others answer.
  unfoldable pub limit_each : ℤ → List (Text × Text) → S → S
  limit_each limit [] s = s
  limit_each limit ((name, address) ∷ rest) s =
      limit_each limit rest (set_qos_of spdk req limit name address s)

  -- The answers of the replicas, or the error of the first one that fails.
  unfoldable pub ask_each : List (Text × Text) → S → Result (List (Text × RebuildStatus))
  ask_each [] s = ok []
  ask_each ((name, address) ∷ rest) s = do
    answer ← ask_rebuild spdk req name address s
    answers ← ask_each rest s
    ok ((add_tcp_prefix address, answer) ∷ answers)

  map-insert_all :
      (key : Text) (answer : RebuildStatus) (rest : Result (List (Text × RebuildStatus)))
      (statuses : Dict RebuildStatus)
      → map_result (λ answers. insert_all answers (insert key answer statuses)) rest
        ≡ map_result
            (λ answers. insert_all answers statuses)
            (rest >>= λ answers. ok ((key, answer) ∷ answers))
  unfolding map_result insert_all
  map-insert_all key answer (err e) statuses = refl
  map-insert_all key answer (ok answers) statuses = refl

  rebuild_statuses-ask_each :
      (addresses : Dict Text) (modes : Dict Mode) (statuses : Dict RebuildStatus) (s : S)
      → rebuild_statuses spdk req addresses modes statuses s
        ≡ map_result
            (λ answers. insert_all answers statuses)
            (ask_each (rebuilding addresses modes) s)
  unfolding rebuild_statuses ask_each rebuilding map_result insert_all
  rebuild_statuses-ask_each addresses [] statuses s = refl
  rebuild_statuses-ask_each addresses ((name, mode) ∷ modes) statuses s =
      elim (Bool-cases (is_wo mode && not (is_empty (address_of addresses name)))) [
        | inl h ↦ elim (Result-cases (ask_rebuild spdk req name (address_of addresses name) s)) [
          | inl (e, failed) ↦ rw (h, failed, rebuild_statuses, ask_each) refl
          | inr (answer, told) ↦
              let key = add_tcp_prefix (address_of addresses name) in
              rw (h, told, rebuild_statuses, ask_each)
                (rebuild_statuses-ask_each addresses modes (insert key answer statuses) s
                  ∙ map-insert_all key answer (ask_each (rebuilding addresses modes) s) statuses)
        ]
        | inr h ↦ rw (h, rebuild_statuses) (rebuild_statuses-ask_each addresses modes statuses s)
      ]

  -- Where the engine answers, `ReplicaRebuildingStatus` has a status for each replica that is written only and has an address, under its address with the prefix, and no other; or it has the error of the first of them that fails.
  pub v2_replica_rebuilding_status-each :
      (s : S) (a : Text) (engine : SpdkEngine)
      → client_from_address spdk req.address s ≡ ok a
      → spdk.engine_get a req.engine_name s ≡ ok engine
      → v2_replica_rebuilding_status spdk req s ≡ (
        s,
        map_result
            (λ answers. insert_all answers [])
            (ask_each (rebuilding engine.replica_address_map engine.replica_mode_map) s),
      )
  unfolding v2_replica_rebuilding_status with_spdk reached asked internal_of
  v2_replica_rebuilding_status-each s a engine client found =
      rw (client, found, v2_replica_rebuilding_status, with_spdk, reached, asked, internal_of)
        (ap (λ u. (s, u))
          (rebuild_statuses-ask_each engine.replica_address_map engine.replica_mode_map [] s))
