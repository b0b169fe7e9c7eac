-- ===== src/Disk/Client.antt =====
-- pkg/client/disk.go: the client of the disk service. The service, with the connection, is an argument;
-- so is `DiskType_value`, the generated map from the names of disk types to their numbers. What a call
-- returns is what the service answers.
use longhorn_instance_manage.Base.{
  ℤ, pos, Text, ◌≡◌, negsuc, err, arith, ◌∙◌, ap, sym, ◌≢◌, refl, Bool, true, false, ◌||◌, Option,
  none, some, Dict, is_empty, codes, failed, Result, Error,
}
use longhorn_instance_manage.Proxy.{Metrics}
use longhorn_instance_manage.Disk.{
  DiskInfo, DiskHealth, ReplicaInstance, DiskClient, block, disk_ops, DiskCall, disk_create,
  disk_delete, disk_get, disk_health_get, disk_replica_instance_list, disk_metrics_get,
  disk_replica_instance_delete, DiskAnswer, disk_serve,
}
use longhorn_instance_manage.Disk.Laws.{disk_serve-refused}

-- The service, given a disk's type, its name and a call.
abbrev pub DiskService : Type 0 → Type 0
DiskService W = ℤ → Text → (call : DiskCall) → W → W × Result (DiskAnswer call)

-- A Go map returns 0 for a key that it does not have.
abbrev pub or_zero : Option ℤ → ℤ
or_zero none = pos 0
or_zero (some n) = n

module _ {W : Type 0} (value_of : Text → Option ℤ) (service : DiskService W)
    (disk_type name : Text) where
  -- Three of the calls do not ask whether the type is known.
  unfoldable pub send_to : Bool → ℤ → (call : DiskCall) → W → W × Result (DiskAnswer call)
  send_to true number call w = (w, err (failed (codes "missing required parameters")))
  send_to false number call w = service number name call w

  unfoldable pub send_known : Bool → Option ℤ → (call : DiskCall) → W → W × Result (DiskAnswer call)
  send_known true number call w = (w, err (failed (codes "missing required parameters")))
  send_known false none call w = (w, err (failed (codes "invalid disk type")))
  send_known false (some number) call w = service number name call w

  unfoldable pub client_disk_create : Text → Text → Text → ℤ → W → W × Result DiskInfo
  unfolding send_known
  client_disk_create uuid path driver block_size =
      send_known (is_empty name || is_empty path) (value_of disk_type)
        (disk_create uuid path driver block_size)

  unfoldable pub client_disk_get : Text → Text → W → W × Result DiskInfo
  unfolding send_known
  client_disk_get path driver =
      send_known (is_empty name) (value_of disk_type) (disk_get path driver)

  unfoldable pub client_disk_health_get : Text → Text → W → W × Result DiskHealth
  unfolding send_known
  client_disk_health_get path driver =
      send_known (is_empty name) (value_of disk_type) (disk_health_get path driver)

  unfoldable pub client_disk_delete : Text → Text → Text → W → W × Result (Unit {0})
  unfolding send_to
  client_disk_delete uuid path driver =
      send_to (is_empty name) (or_zero (value_of disk_type)) (disk_delete uuid path driver)

  unfoldable pub client_disk_replica_list : W → W × Result (Dict ReplicaInstance)
  unfolding send_to
  client_disk_replica_list =
      send_to (is_empty name) (or_zero (value_of disk_type)) disk_replica_instance_list

  unfoldable pub client_disk_replica_delete : Text → Text → W → W × Result (Unit {0})
  unfolding send_to
  client_disk_replica_delete uuid replica_name =
      send_to (is_empty name || is_empty uuid || is_empty replica_name)
        (or_zero (value_of disk_type)) (disk_replica_instance_delete uuid replica_name)

  unfoldable pub client_disk_metrics_get : W → W × Result Metrics
  unfolding send_known
  client_disk_metrics_get = send_known (is_empty name) (value_of disk_type) disk_metrics_get

  -- The client's call of each method.
  unfoldable pub client_disk_call : (call : DiskCall) → W → W × Result (DiskAnswer call)
  client_disk_call (disk_create uuid path driver size) = client_disk_create uuid path driver size
  client_disk_call (disk_delete uuid path driver) = client_disk_delete uuid path driver
  client_disk_call (disk_get path driver) = client_disk_get path driver
  client_disk_call (disk_health_get path driver) = client_disk_health_get path driver
  client_disk_call disk_replica_instance_list = client_disk_replica_list
  client_disk_call (disk_replica_instance_delete uuid r) = client_disk_replica_delete uuid r
  client_disk_call disk_metrics_get = client_disk_metrics_get

-- Only the number 1, which is `block` in the enum, is for block devices.
block_lem : (n : ℤ) → disk_ops n ≡ some block → n ≡ pos 1
unfolding disk_ops
block_lem (pos n) h = ground arith
block_lem (negsuc n) h = ground arith

-- Nothing is changed, and the answer is an error.
abbrev pub IsRefused : {S A : Type 0} → S → S × Result A → Type 0
IsRefused s (s', answer) = (s' ≡ s) × (e : Error) × (answer ≡ err e)

module _ {S : Type 0} (client : Option (DiskClient S)) (value_of : Text → Option ℤ)
    (disk_type name : Text) (other : value_of disk_type ≢ some (pos 1)) where
  -- The disk service behind the client.
  abbrev service : DiskService S
  service number disk = disk_serve client disk number

  serve-IsRefused :
      (number : ℤ) (call : DiskCall) (s : S)
      → number ≢ pos 1
      → IsRefused s (service number name call s)
  serve-IsRefused number call s h =
      rw (disk_serve-refused client name number call s (λ e. h (block_lem number e)))
        (refl, _, refl)

  or_zero-case : (o : Option ℤ) → o ≡ value_of disk_type → or_zero o ≢ pos 1
  or_zero-case none e h = ground arith
  or_zero-case (some n) e h = other (sym e ∙ ap some h)

  or_zero-other : or_zero (value_of disk_type) ≢ pos 1
  or_zero-other h = or_zero-case (value_of disk_type) refl h

  send_to-IsRefused :
      (lacking : Bool) (call : DiskCall) (s : S)
      → IsRefused s
          (send_to value_of service disk_type name lacking (or_zero (value_of disk_type)) call s)
  unfolding send_to
  send_to-IsRefused true call s = (refl, _, refl)
  send_to-IsRefused false call s =
      serve-IsRefused (or_zero (value_of disk_type)) call s or_zero-other

  send_known-IsRefused :
      (lacking : Bool) (o : Option ℤ) (call : DiskCall) (s : S)
      → o ≡ value_of disk_type
      → IsRefused s (send_known value_of service disk_type name lacking o call s)
  unfolding send_known
  send_known-IsRefused true o call s e = (refl, _, refl)
  send_known-IsRefused false none call s e = (refl, _, refl)
  send_known-IsRefused false (some number) call s e =
      serve-IsRefused number call s (λ h. other (sym e ∙ ap some h))

  -- Every call of the client for a disk whose type is not the enum's number 1 for block devices, or is not known at all, is answered with an error and leaves the SPDK service as it was, whether the disk service has a client of SPDK or not.
  pub client_disk_call-IsRefused :
      (call : DiskCall) (s : S)
      → IsRefused s (client_disk_call value_of service disk_type name call s)
  unfolding client_disk_call client_disk_create client_disk_delete client_disk_get
      client_disk_health_get client_disk_replica_list client_disk_replica_delete
      client_disk_metrics_get
  client_disk_call-IsRefused (disk_create uuid path driver size) s =
      send_known-IsRefused (is_empty name || is_empty path) (value_of disk_type)
        (disk_create uuid path driver size) s refl
  client_disk_call-IsRefused (disk_delete uuid path driver) s =
      send_to-IsRefused (is_empty name) (disk_delete uuid path driver) s
  client_disk_call-IsRefused (disk_get path driver) s =
      send_known-IsRefused (is_empty name) (value_of disk_type) (disk_get path driver) s refl
  client_disk_call-IsRefused (disk_health_get path driver) s =
      send_known-IsRefused (is_empty name) (value_of disk_type) (disk_health_get path driver) s refl
  client_disk_call-IsRefused disk_replica_instance_list s =
      send_to-IsRefused (is_empty name) disk_replica_instance_list s
  client_disk_call-IsRefused (disk_replica_instance_delete uuid r) s =
      send_to-IsRefused (is_empty name || is_empty uuid || is_empty r)
        (disk_replica_instance_delete uuid r) s
  client_disk_call-IsRefused disk_metrics_get s =
      send_known-IsRefused (is_empty name) (value_of disk_type) disk_metrics_get s refl
