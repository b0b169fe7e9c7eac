-- ===== src/Disk/Tests.antt =====
-- Runs of the disk service and its client.
use longhorn_instance_manage.Base.{
  ℕ, ℤ, pos, suc, none, some, [], Text, codes, ok, err, panic, Option, text_eq, if◌then◌else◌, ◌≡◌,
  refl,
}
use longhorn_instance_manage.Disk.{
  DiskClient, disk_delete, disk_serve, lacks_argument, disk_dispatch, disk_ops, block_with,
  block_call,
}
use longhorn_instance_manage.Disk.Client.{
  client_disk_call, client_disk_call-IsRefused, IsRefused, client_disk_delete, send_to,
}
use longhorn_instance_manage.Disk.Reaches.{Reaches}
use longhorn_instance_manage.Proxy.Calls.{acted}

-- Every change is counted.
abbrev counting : DiskClient ℕ
counting = record {
  disk_create = λ name uuid path driver size s. (suc s, err panic);
  disk_delete = λ name uuid path driver s. (suc s, none);
  disk_get = λ name path driver s. err panic;
  disk_health_get = λ name path driver s. err panic;
  replica_list = λ s. ok [];
  replica_delete = λ name cleanup s. (suc s, none);
  metrics_get = λ name s. err panic;
}

abbrev no_client : Option (DiskClient ℕ)
no_client = none

abbrev value_of : Text → Option ℤ
value_of name =
    if text_eq name (codes "filesystem")
    then some (pos 0)
    else if text_eq name (codes "block")
    then some (pos 1)
    else none

client_disk_call-IsRefused_example : IsRefused 0 (
    client_disk_call value_of
      (λ number disk. disk_serve (some counting) disk number)
      (codes "filesystem")
      (codes "d")
      (disk_delete (codes "u") (codes "/mnt") [])
      0)
unfolding text_eq
client_disk_call-IsRefused_example =
    client_disk_call-IsRefused (some counting) value_of (codes "filesystem") (codes "d") (λ h. cc)
      (disk_delete (codes "u") (codes "/mnt") []) 0

counted :
    (client_disk_call value_of
      (λ number disk. disk_serve (some counting) disk number)
      (codes "block")
      (codes "d")
      (disk_delete (codes "u") (codes "/dev/a") [])
      0).0
    ≡ 1
unfolding text_eq client_disk_call client_disk_delete send_to disk_serve lacks_argument
    disk_dispatch disk_ops block_with block_call acted
counted = refl
