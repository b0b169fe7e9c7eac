-- ===== src/Disk/Laws.antt =====
-- What the disk service does with a request.
use longhorn_instance_manage.Base.{
  ℤ, Text, ◌≡◌, ◌≢◌, refl, Bool, true, false, Option, none, some, if◌then◌else◌, status,
  invalid_argument, unimplemented, err, Bool-cases, Option-cases, inl, inr, ◌⊎◌,
}
use longhorn_instance_manage.Disk.{
  DiskClient, DiskKind, filesystem, block, disk_ops, DiskCall, disk_create, disk_delete, disk_get,
  disk_health_get, disk_replica_instance_list, disk_metrics_get, disk_replica_instance_delete,
  lacks_argument, block_call, block_with, disk_dispatch, disk_serve,
}
use longhorn_instance_manage.Proxy.Calls.{asked}

-- The calls that may change a disk.
abbrev pub changes : DiskCall → Bool
changes (disk_create uuid path driver block_size) = true
changes (disk_delete uuid path driver) = true
changes (disk_replica_instance_delete uuid replica) = true
changes _ = false

module _ {S : Type 0} (client : Option (DiskClient S)) (name : Text) (disk_type : ℤ)
    (call : DiskCall) (s : S) where
  dispatch-same :
      (o : Option DiskKind)
      → o ≢ some block
      → disk_dispatch client name o call s ≡ (s, err (status unimplemented))
  unfolding disk_dispatch
  dispatch-same none h = refl
  dispatch-same (some filesystem) h = refl
  dispatch-same (some block) h = absurd (h refl)

  -- A request that is not for a block device changes nothing, and is refused: as invalid where an argument is missing, and otherwise as unimplemented.
  pub disk_serve-refused :
      disk_ops disk_type ≢ some block
      → disk_serve client name disk_type call s
        ≡ (s, err (status (if lacks_argument name call then invalid_argument else unimplemented)))
  unfolding disk_serve
  disk_serve-refused h = elim (Bool-cases (lacks_argument name call)) [
    | inl b ↦ rw (b, disk_serve) refl
    | inr b ↦ rw (b, disk_serve) (dispatch-same (disk_ops disk_type) h)
  ]

  block_call-same :
      (c : DiskClient S) (k : DiskCall) → changes k ≡ false → (block_call c name k s).0 ≡ s
  unfolding block_call asked
  block_call-same c (disk_create uuid path driver block_size) h = cc
  block_call-same c (disk_delete uuid path driver) h = cc
  block_call-same c (disk_get path driver) h = refl
  block_call-same c (disk_health_get path driver) h = refl
  block_call-same c disk_replica_instance_list h = refl
  block_call-same c disk_metrics_get h = refl
  block_call-same c (disk_replica_instance_delete uuid replica) h = cc

  dispatch-changes :
      (o : Option DiskKind) → changes call ≡ false → (disk_dispatch client name o call s).0 ≡ s
  unfolding disk_dispatch block_with
  dispatch-changes none h = refl
  dispatch-changes (some filesystem) h = refl
  dispatch-changes (some block) h = elim (Option-cases client) [
    | inl e ↦ rw (e, block_with) refl
    | inr (c, e) ↦ rw (e, block_with) (block_call-same c call h)
  ]

  -- Only the requests that create or delete a disk or delete a replica change the SPDK service, and those only with all their arguments.
  pub disk_serve-same :
      (changes call ≡ false) ⊎ (lacks_argument name call ≡ true)
      → (disk_serve client name disk_type call s).0 ≡ s
  unfolding disk_serve
  disk_serve-same h = elim (Bool-cases (lacks_argument name call)) [
    | inl b ↦ rw (b, disk_serve) refl
    | inr b ↦ elim h [
      | inl reads ↦ rw (b, disk_serve) (dispatch-changes (disk_ops disk_type) reads)
      | inr lacking ↦ cc
    ]
  ]
