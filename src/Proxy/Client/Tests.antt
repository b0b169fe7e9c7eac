-- ===== src/Proxy/Client/Tests.antt =====
-- Runs of the client of the proxy.
use longhorn_instance_manage.Base.{
  ℕ, pos, ◌≡◌, ◌↔◌, refl, true, [], ◌∷◌, codes, ok, err, panic, Result,
}
use longhorn_instance_manage.Proxy.{rw}
use longhorn_instance_manage.Proxy.Server.{Services, Call, backup_restore, handle, restore_answered}
use longhorn_instance_manage.Proxy.Client.{Target, ClientLibrary, Service}
use longhorn_instance_manage.Proxy.Client.Calls.{restored}
use longhorn_instance_manage.Proxy.Client.Laws.{client_state, restored-restore_answered}
use longhorn_instance_manage.Proxy.Client.Sent.{client_state-Outcome, Outcome}
use longhorn_instance_manage.Proxy.Examples.{given, engine_clients, spdk_clients, services, Limits}

abbrev library : ClientLibrary
library = record {
  is_qualified_name = λ name. true;
  volume_head_name = codes "volume-head";
  replica_mode_to_grpc = λ mode. rw;
}

abbrev a_target : Target
a_target = record {
  data_engine = codes "V2";
  engine_name = codes "e";
  engine_frontend_name = [];
  volume_name = codes "v";
  service_address = codes "10.0.0.1:10000";
}

-- The proxy of this repository behind the client.
abbrev proxy : Service (Services ℕ Limits)
proxy req = handle given engine_clients spdk_clients req

-- A restore that asks for another path.
abbrev a_restore : Call
a_restore = backup_restore (record {
  envs = codes "PATH=/tmp" ∷ [];
  url = codes "s3://b";
  target = codes "s3://t";
  concurrent_limit = pos 2;
  need_correct_encrypted_volume_size = true;
})

client_state-Outcome_example :
    Outcome library proxy a_target
      (codes "rw")
      a_restore
      services
      (client_state library proxy a_target (codes "rw") a_restore services)
client_state-Outcome_example =
    client_state-Outcome library proxy a_target (codes "rw") a_restore services

abbrev refused : Result (Unit {0})
refused = err panic

restored-restore_answered_example :
    ((restored {W = ℕ} (restore_answered given (0, refused))).1 ≡ ok tt) ↔ (refused ≡ ok tt)
restored-restore_answered_example =
    restored-restore_answered {W = ℕ} given 0 refused (λ e. refl) (λ e. refl)
