-- ===== src/Disk/Reaches.antt =====
-- Which calls of the client of the disk service (pkg/client/disk.go) reach the SPDK service through
-- pkg/disk/disk.go, for a block device.
use longhorn_instance_manage.Base.{ℤ, pos, Text, ◌≡◌, ◌⊎◌, Option, some, List, [], ◌∷◌, Result}
use longhorn_instance_manage.Disk.{
  DiskClient, DiskCall, disk_create, disk_replica_instance_delete, DiskAnswer, block_call,
  disk_serve,
}
use longhorn_instance_manage.Disk.Client.{DiskService, IsRefused}
use longhorn_instance_manage.Proxy.Client.Expected.{AllGiven}

-- The arguments that may not be empty.
abbrev pub required : Text → DiskCall → List Text
required name (disk_create uuid path driver size) = name ∷ path ∷ []
required name (disk_replica_instance_delete uuid replica) = name ∷ uuid ∷ replica ∷ []
required name _ = name ∷ []

-- Either every argument is there and SPDK is called, or one is missing and nothing happens.
abbrev pub Reaches :
    {S : Type 0}
    → DiskClient S
    → Text
    → (call : DiskCall) → S
    → S × Result (DiskAnswer call)
    → Type 0
Reaches c name call s out =
    (AllGiven (required name call) × (out ≡ block_call c name call s))
    ⊎ ((¬ AllGiven (required name call)) × IsRefused s out)

module _ {S : Type 0} (c : DiskClient S) (value_of : Text → Option ℤ) (disk_type name : Text)
    (known : value_of disk_type ≡ some (pos 1)) where
  abbrev service : DiskService S
  service number disk = disk_serve (some c) disk number
