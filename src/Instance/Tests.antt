-- ===== src/Instance/Tests.antt =====
-- Runs of the instance service over an SPDK service that only lists.
use longhorn_instance_manage.Base.{
  ℕ, ℤ, pos, suc, ◌≡◌, ◌≢◌, refl, Bool, true, none, some, List, [], ◌∷◌, Text, codes, ok, err,
  lookup, text_eq, panic, leb, if◌then◌else◌, Dict,
}
use longhorn_instance_manage.Bitmap.FirstFit.{Ports, first_fit}
use longhorn_instance_manage.Manager.Tests.{one_process, one-Inv}
use longhorn_instance_manage.Instance.{
  SpdkClient, InstanceSpec, InstanceResponse, Replica, instance_type, InstanceType,
}
use longhorn_instance_manage.Instance.Server.{Backends}
use longhorn_instance_manage.Instance.Listing.{Lists}
use longhorn_instance_manage.Instance.Shows.{v1_list-lookup, working, shown}
use longhorn_instance_manage.Instance.V1.{v1_list}
use longhorn_instance_manage.Instance.Watch.{
  Event, item, receive_error, watch_process, ending_of, receive_errors, gave_up, watching,
  Uninterrupted, max_monitor_retry_count, watch_process-gave_up,
}

abbrev a_replica : Replica
a_replica = record {
  name = codes "r-0";
  state = codes "running";
  error_msg = [];
  port_start = pos 20000;
  port_end = pos 20002;
  uuid = codes "u9";
}

-- The state is how often something was asked to change.
abbrev pub counting : SpdkClient ℕ
counting = record {
  connect = λ s. none;
  engine_create = λ n v f z m p b c l s. (suc s, err panic);
  engine_frontend_create = λ n v e f z t d q i s. (suc s, err panic);
  replica_create = λ n d u z p b s. (suc s, ok a_replica);
  shard_create = λ v i z l u p s. (suc s, err panic);
  shard_group_create = λ n v z d p k h c b s. (suc s, err panic);
  engine_delete = λ n s. (suc s, none);
  engine_frontend_delete = λ n s. (suc s, none);
  replica_delete = λ n b s. (suc s, none);
  shard_delete = λ n b s. (suc s, none);
  shard_group_delete = λ n b s. (suc s, none);
  engine_get = λ n s. err panic;
  engine_frontend_get = λ n s. err panic;
  replica_get = λ n s. ok a_replica;
  shard_get = λ n s. err panic;
  shard_group_get = λ n s. err panic;
  engine_list = λ s. ok [];
  engine_frontend_list = λ s. ok [];
  replica_list = λ s. ok (a_replica ∷ []);
  shard_list = λ s. ok [];
  shard_group_list = λ s. ok [];
  engine_frontend_suspend = λ n s. (suc s, none);
  engine_frontend_resume = λ n s. (suc s, none);
  engine_frontend_switch_over = λ n e a p s. (suc s, none);
  engine_delete_target = λ n s. (suc s, none);
}

abbrev pub all_engines : Text → Bool
all_engines name = true

abbrev pub backends : Backends Ports ℕ
backends = record { processes = one_process; spdk = 7 }

abbrev instance_spec : Text → ℤ → InstanceSpec
instance_spec type engine = record {
  name = codes "b";
  type = type;
  volume_name = codes "vol";
  engine_name = [];
  target_address = [];
  data_engine = engine;
  port_count = pos 2;
  port_args = [];
  process_instance_spec = some (record { binary = codes "longhorn"; args = [] });
  spdk_instance_spec = none;
}

abbrev listed : Lists counting 7
listed = record {
  replicas = a_replica ∷ [];
  engines = [];
  frontends = [];
  shards = [];
  groups = [];
}

v1_list-lookup_example :
    (out : Dict InstanceResponse) × (v1_list first_fit working all_engines [] one_process
      ≡ (one_process, ok out))
    × (lookup (codes "a") out
        ≡ shown all_engines one_process.heap (lookup (codes "a") one_process.processes))
v1_list-lookup_example = v1_list-lookup first_fit all_engines one_process (codes "a") one-Inv

known : instance_type (codes "replica") ≢ InstanceType.unknown
unfolding instance_type text_eq
known e = cc

abbrev two_errors : List Event
two_errors = receive_error ∷ item ∷ receive_error ∷ item ∷ []

abbrev ten_errors : List Event
ten_errors =
    receive_error ∷ item ∷ receive_error ∷ item ∷ receive_error ∷ item ∷ receive_error ∷ item
    ∷ receive_error ∷ item ∷ receive_error ∷ item ∷ receive_error ∷ item ∷ receive_error ∷ item
    ∷ receive_error ∷ item ∷ receive_error ∷ []

two-Uninterrupted : Uninterrupted two_errors
two-Uninterrupted = (
  (λ e. cc),
  (λ e. cc),
  ((λ e. cc), (λ e. cc), ((λ e. cc), (λ e. cc), ((λ e. cc), (λ e. cc), tt))),
)

-- An item between any two errors does not help.
tenth : ending_of (watch_process none ten_errors) ≡ some gave_up
unfolding watch_process
tenth = refl

watch_process-gave_up_example :
    ending_of (watch_process none two_errors)
    ≡ some (if leb max_monitor_retry_count (receive_errors two_errors) then gave_up else watching)
watch_process-gave_up_example = watch_process-gave_up two_errors two-Uninterrupted
