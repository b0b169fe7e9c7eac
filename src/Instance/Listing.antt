-- ===== src/Instance/Listing.antt =====
-- What `InstanceList` of the second data engine returns.
use longhorn_instance_manage.Base.{
  Text, ◌≡◌, refl, Option, none, some, List, [], ◌∷◌, Dict, lookup, insert, lookup-insert, text_eq,
  if◌then◌else◌, arith, ok,
}
use longhorn_instance_manage.Instance.{
  SpdkClient, InstanceResponse, Replica, Engine, EngineFrontend, Shard, ShardGroup,
}
use longhorn_instance_manage.Instance.Convert.{
  replica_response, engine_response, engine_frontend_response, shard_response, shard_group_response,
}
use longhorn_instance_manage.Instance.Ops.{insert_all, named}

-- The last item of that name.
unfoldable pub last_of {ℓ} : {V : Type ℓ} → Text → List (Text × V) → Option V
last_of k [] = none
last_of k ((j, v) ∷ rest) = elim (last_of k rest) [
  | none ↦ if text_eq j k then some v else none
  | some w ↦ some w
]

abbrev pub or_else {ℓ} : {V : Type ℓ} → Option V → Option V → Option V
or_else none o = o
or_else (some v) o = some v

pub lookup-insert_all {ℓ} :
    {V : Type ℓ} (k : Text) (items : List (Text × V)) (m : Dict V)
    → lookup k (insert_all items m) ≡ or_else (last_of k items) (lookup k m)
unfolding insert_all last_of
lookup-insert_all k [] m = refl
lookup-insert_all k ((j, v) ∷ rest) m =
    ground (arith, lookup-insert_all k rest (insert j v m), lookup-insert j k v m)

module _ {S : Type 0} (spdk : SpdkClient S) (s : S) where
  -- The lists that the SPDK service returns, one after the other.
  pub record Lists : Type 0 where
    pub replicas : List Replica
    pub engines : List Engine
    pub frontends : List EngineFrontend
    pub shards : List Shard
    pub groups : List ShardGroup

  abbrev pub Returns : Lists → Type 0
  Returns ls =
      (spdk.connect s ≡ none)
      × (spdk.replica_list s ≡ ok ls.replicas)
      × (spdk.engine_list s ≡ ok ls.engines)
      × (spdk.engine_frontend_list s ≡ ok ls.frontends)
      × (spdk.shard_list s ≡ ok ls.shards)
      × (spdk.shard_group_list s ≡ ok ls.groups)

  -- Under a name stands the last shard group of that name, or else the last shard, engine frontend,
  -- engine or replica, or else what stood there before.
  abbrev pub expected : Lists → Dict InstanceResponse → Text → Option InstanceResponse
  expected ls instances k = or_else (last_of k (named shard_group_response ls.groups)) (
      or_else (last_of k (named shard_response ls.shards)) (
        or_else (last_of k (named engine_frontend_response ls.frontends)) (
          or_else (last_of k (named engine_response ls.engines))
            (or_else (last_of k (named replica_response ls.replicas)) (lookup k instances)))))
