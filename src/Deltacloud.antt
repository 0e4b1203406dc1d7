-- ===== src/Deltacloud.antt =====
-- src/deltacloud.c: the driver for libdeltacloud. The answers of the library are a parameter.
pub mod Poll
use pacemaker_cloud.Common.{
  ℕ, Bool, true, false, Option, none, some, List, [], ◌∷◌, String, Result, ok, fault,
  uninitialised_read, ◌>>=◌, strcmp_eq, if◌then◌else◌,
}
use pacemaker_cloud.Cape.{deref}

-- `struct deltacloud_instance`, as far as it is read: `private_addresses` is the list of addresses,
-- each of which may be null.
pub record DeltacloudInstance : Type 0 where
  pub state : Option String
  pub private_addresses : List (Option String)

-- `struct deltacloud_image`.
pub record DeltacloudImage : Type 0 where
  pub name : String
  pub id : String

-- What the library answers. `initialized` is whether `deltacloud_initialize` succeeds;
-- `get_instance_by_id` is what it writes to the instance that it is given, nothing where it fails;
-- `get_images` and `create_instance` are nothing where they fail.
pub record Deltacloud : Type 0 where
  pub initialized : Bool
  pub get_instance_by_id : String → Option DeltacloudInstance
  pub get_images : Option (List DeltacloudImage)
  pub create_instance : String → Option String

-- Reading the instance on the stack.
abbrev pub written : Option DeltacloudInstance → Result DeltacloudInstance
written none = fault uninitialised_read
written (some i) = ok i

abbrev pub head_address : List (Option String) → Option (Option String)
head_address [] = none
head_address (address ∷ rest) = some address

-- The arguments of the completion.
abbrev pub report_state : Option String → String × Option String
report_state none = ("PENDING", none)
report_state (some address) = ("ACTIVE", some address)

abbrev image_named : String → List DeltacloudImage → Option String
image_named name [] = none
image_named name (image ∷ images) =
    if strcmp_eq image.name name then some image.id else image_named name images

-- What is reported of an instance.
unfoldable pub state_of : DeltacloudInstance → Result (String × Option String)
state_of i = do
  state ← deref i.state
  if strcmp_eq state "RUNNING"
      then (deref (head_address i.private_addresses) >>= λ address. ok (report_state address))
      else ok (report_state none)

module _ (lib : Deltacloud) where
  -- The completion's arguments, where it is called. The code that the library returns is not looked at.
  unfoldable pub instance_state_get : String → Result (Option (String × Option String))
  unfolding state_of
  instance_state_get instance_id =
      if lib.initialized
      then (written (lib.get_instance_by_id instance_id) >>= λ i.
          state_of i >>= λ found. ok (some found))
      else ok none

  unfoldable pub instance_create_from_image_id : String → Option String
  instance_create_from_image_id image_id =
      if lib.initialized then lib.create_instance image_id else none

  unfoldable pub image_id_get : String → Option String
  image_id_get image_name =
      if lib.initialized
      then elim lib.get_images [ none ↦ none | some images ↦ image_named image_name images ]
      else none

  -- Whether the completion is called.
  abbrev pub instance_destroy_by_instance_id : String → Bool
  instance_destroy_by_instance_id instance_id = lib.initialized
