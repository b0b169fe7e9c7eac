-- ===== src/Instance/Ops.antt =====
-- pkg/instance/instance.go: what the operations of both data engines share.
use longhorn_instance_manage.Base.{
  Text, Bool, true, false, List, [], ◌∷◌, Dict, Error, status, internal, codes, if◌then◌else◌,
  Result, ok, err, insert,
}
use longhorn_instance_manage.Process.Response.{ProcessResponse}
use longhorn_instance_manage.Instance.{InstanceResponse, DataLayout, replicated, sharded}
use longhorn_instance_manage.Instance.Convert.{process_response}

unfoldable pub map_result : {A A' : Type 0} → (A → A') → Result A → Result A'
map_result f (err e) = err e
map_result f (ok a) = ok (f a)

unfoldable pub then_convert : {S A A' : Type 0} → (A → A') → S × Result A → S × Result A'
unfolding map_result
then_convert f (s, answer) = (s, map_result f answer)

-- The loop of `InstanceList`: an instance for each item, under its name.
unfoldable pub insert_all {ℓ} : {V : Type ℓ} → List (Text × V) → Dict V → Dict V
insert_all [] m = m
insert_all ((k, v) ∷ rest) m = insert_all rest (insert k v m)

unfoldable pub named : {A : Type 0} → (A → InstanceResponse) → List A → Dict InstanceResponse
named convert [] = []
named convert (a ∷ rest) = ((convert a).name, convert a) ∷ named convert rest

-- `toSPDKGRPCError` keeps the code of a gRPC error.
unfoldable pub to_spdk_grpc_error : Error → Error
to_spdk_grpc_error (status code) = status code
to_spdk_grpc_error e = status internal

unfoldable pub to_spdk_layout : DataLayout → DataLayout
to_spdk_layout sharded = sharded
to_spdk_layout _ = replicated

abbrev pub is_sharded : DataLayout → Bool
is_sharded sharded = true
is_sharded _ = false

-- The type under which `InstanceList` shows a process; `is_engine` is `IsEngineProcess` of
-- go-common-libs.
abbrev pub process_type : (Text → Bool) → Text → Text
process_type is_engine name = if is_engine name then codes "engine" else codes "replica"

unfoldable pub processes_named : (Text → Bool) → Dict ProcessResponse → Dict InstanceResponse
processes_named is_engine [] = []
processes_named is_engine ((k, p) ∷ rest) =
    (p.spec.name, process_response (process_type is_engine p.spec.name) p)
    ∷ processes_named is_engine rest
