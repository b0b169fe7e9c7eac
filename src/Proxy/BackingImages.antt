-- ===== src/Proxy/BackingImages.antt =====
-- pkg/proxy/backing_image.go, pkg/client/proxy_backing_image.go and pkg/api/backing_image.go: the
-- backing images of the SPDK service, from the service to the caller.
use longhorn_instance_manage.Base.{
  ℕ, ℤ, Text, ◌≡◌, refl, false, Option, none, some, List, [], ◌∷◌, Dict, is_empty, ◌==◌,
  if◌then◌else◌, codes, Error, failed, Result, ok, err, ◌>>=◌,
}
use longhorn_instance_manage.Proxy.Calls.{internal_of, acted}
use longhorn_instance_manage.Proxy.Replicas.{map_dict}
use longhorn_instance_manage.Proxy.Client.{validate_proxy_method_parameters}
use longhorn_instance_manage.Instance.Ops.{map_result}
use longhorn_instance_manage.Instance.Watch.{Event, Ending, open_watch}

-- A backing image as the SPDK client returns it.
pub record SpdkBackingImage : Type 0 where
  pub name : Text
  pub backing_image_uuid : Text
  pub lvs_uuid : Text
  pub size : ℕ
  pub expected_checksum : Text
  pub progress : ℤ
  pub state : Text
  pub current_checksum : Text
  pub error_msg : Text

pub record BackingImageSpec : Type 0 where
  pub name : Text
  pub backing_image_uuid : Text
  pub disk_uuid : Text
  pub size : ℕ
  pub checksum : Text

pub record BackingImageStatus : Type 0 where
  pub progress : ℤ
  pub state : Text
  pub checksum : Text
  pub error_msg : Text

-- `SPDKBackingImageResponse`, whose two parts are pointers.
pub record BackingImageResponse : Type 0 where
  pub spec : Option BackingImageSpec
  pub status : BackingImageStatus

-- `api.BackingImage`.
pub record BackingImage : Type 0 where
  pub name : Text
  pub backing_image_uuid : Text
  pub disk_uuid : Text
  pub size : ℕ
  pub expected_checksum : Text
  pub progress : ℤ
  pub state : Text
  pub current_checksum : Text
  pub error_msg : Text

-- `spdkBackingImageToBackingImageResponse`.
unfoldable pub backing_image_response : SpdkBackingImage → BackingImageResponse
backing_image_response bi = record {
  spec = some (record {
    name = bi.name;
    backing_image_uuid = bi.backing_image_uuid;
    disk_uuid = bi.lvs_uuid;
    size = bi.size;
    checksum = bi.expected_checksum;
  });
  status = record {
    progress = bi.progress;
    state = bi.state;
    checksum = bi.current_checksum;
    error_msg = bi.error_msg;
  };
}

abbrev image_of : BackingImageSpec → BackingImageStatus → BackingImage
image_of spec s = record {
  name = spec.name;
  backing_image_uuid = spec.backing_image_uuid;
  disk_uuid = spec.disk_uuid;
  size = spec.size;
  expected_checksum = spec.checksum;
  progress = s.progress;
  state = s.state;
  current_checksum = s.checksum;
  error_msg = s.error_msg;
}

-- `RPCToBackingImage`; the response is `none` where it is nil.
unfoldable pub rpc_to_backing_image : Option BackingImageResponse → Result BackingImage
rpc_to_backing_image none = err (failed (codes "cannot convert nil SPDKBackingImageResponse"))
rpc_to_backing_image (some r) = elim r.spec [
  | none ↦ err (failed (codes "backing image spec is nil"))
  | some spec ↦ ok (image_of spec r.status)
]

-- `RPCToBackingImageList` keeps the name of one that it cannot convert, with a nil image.
abbrev image_or_nil : Result BackingImage → Option BackingImage
image_or_nil (err e) = none
image_or_nil (ok image) = some image

unfoldable pub rpc_to_backing_image_list :
    Dict (Option BackingImageResponse) → Dict (Option BackingImage)
unfolding rpc_to_backing_image
rpc_to_backing_image_list [] = []
rpc_to_backing_image_list ((name, r) ∷ rest) =
    (name, image_or_nil (rpc_to_backing_image r)) ∷ rpc_to_backing_image_list rest

pub record BackingImageClient (S : Type 0) : Type 0 where
  pub create : Text → Text → Text → ℕ → Text → Text → Text → S → S × Result SpdkBackingImage
  pub delete : Text → Text → S → S × Option Error
  pub get : Text → Text → S → Result SpdkBackingImage
  pub list : S → Result (Dict SpdkBackingImage)

module _ {S : Type 0} (spdk : BackingImageClient S) where
  abbrev converted : S × Result SpdkBackingImage → S × Result BackingImageResponse
  converted (s, answer) = (s, map_result backing_image_response (internal_of answer))

  unfoldable pub backing_image_create :
      Text → Text → Text → ℕ → Text → Text → Text → S → S × Result BackingImageResponse
  unfolding map_result backing_image_response internal_of
  backing_image_create name uuid disk size checksum from src s =
      converted (spdk.create name uuid disk size checksum from src s)

  unfoldable pub backing_image_delete : Text → Text → S → S × Result (Unit {0})
  unfolding acted
  backing_image_delete name disk s = acted (spdk.delete name disk s)

  unfoldable pub backing_image_get : Text → Text → S → Result BackingImageResponse
  unfolding map_result backing_image_response internal_of
  backing_image_get name disk s =
      map_result backing_image_response (internal_of (spdk.get name disk s))

  unfoldable pub backing_image_list : S → Result (Dict BackingImageResponse)
  unfolding map_result map_dict backing_image_response internal_of
  backing_image_list s = map_result (map_dict backing_image_response) (internal_of (spdk.list s))

-- The loop that watches the backing images, like those of the instance service.
unfoldable pub watch_spdk_backing_image : Option Text → List Event → Option (Ending × ℕ)
unfolding open_watch
watch_spdk_backing_image = open_watch

-- The client of these calls, over a service that returns a response.
module _ {W : Type 0} where
  abbrev received : W × Result BackingImageResponse → W × Result BackingImage
  received (w, answer) = (w, answer >>= λ r. rpc_to_backing_image (some r))

  abbrev refuse : {A : Type 0} → Option Error → (W → W × Result A) → W → W × Result A
  refuse (some e) next w = (w, err e)
  refuse none next w = next w

  unfoldable pub client_backing_image_create :
      (Text → Text → Text → ℕ → Text → Text → Text → W → W × Result BackingImageResponse)
      → Text
      → Text
      → Text
      → ℕ
      → Text
      → Text
      → Text
      → W
      → W × Result BackingImage
  unfolding validate_proxy_method_parameters rpc_to_backing_image
  client_backing_image_create service name uuid disk size checksum from src =
      refuse (validate_proxy_method_parameters (name ∷ uuid ∷ checksum ∷ disk ∷ [])) (
        refuse (if size == 0 then some (failed (codes "size should not be zero")) else none)
          (λ w. received (service name uuid disk size checksum from src w)))

  unfoldable pub client_backing_image_delete :
      (Text → Text → W → W × Result (Unit {0})) → Text → Text → W → W × Result (Unit {0})
  unfolding validate_proxy_method_parameters
  client_backing_image_delete service name disk =
      refuse (validate_proxy_method_parameters (name ∷ disk ∷ [])) (service name disk)

  unfoldable pub client_backing_image_get :
      (Text → Text → W → W × Result BackingImageResponse)
      → Text
      → Text
      → W
      → W × Result BackingImage
  unfolding validate_proxy_method_parameters rpc_to_backing_image
  client_backing_image_get service name disk =
      refuse (validate_proxy_method_parameters (name ∷ disk ∷ []))
        (λ w. received (service name disk w))

-- What the caller sees of a backing image is what the SPDK service says of it, where the name and the disk are given and the SPDK service has the image.
pub client_backing_image_get-image :
    {S : Type 0} (spdk : BackingImageClient S) (name disk : Text) (s : S) (bi : SpdkBackingImage)
    → is_empty name ≡ false
    → is_empty disk ≡ false
    → spdk.get name disk s ≡ ok bi
    → client_backing_image_get (λ n d t. (t, backing_image_get spdk n d t)) name disk s ≡ (
      s,
      ok (record {
        name = bi.name;
        backing_image_uuid = bi.backing_image_uuid;
        disk_uuid = bi.lvs_uuid;
        size = bi.size;
        expected_checksum = bi.expected_checksum;
        progress = bi.progress;
        state = bi.state;
        current_checksum = bi.current_checksum;
        error_msg = bi.error_msg;
      }),
    )
unfolding client_backing_image_get backing_image_get validate_proxy_method_parameters internal_of
    map_result backing_image_response rpc_to_backing_image
client_backing_image_get-image spdk name disk s bi named placed found =
    rw
      (
        named, placed, found, client_backing_image_get, validate_proxy_method_parameters,
        backing_image_get, internal_of, map_result,
      )
      refl
