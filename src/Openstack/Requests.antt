-- ===== src/Openstack/Requests.antt =====
-- The requests of src/openstackv1.c, and what becomes of a node by their answers. libcurl is a
-- parameter.
use pacemaker_cloud.Common.{
  ◌≡◌, refl, Bool, true, false, Option, none, some, List, [], ◌∷◌, ◌++◌, String, Result, ok, fault,
  null_pointer, strcmp_eq,
}
use pacemaker_cloud.Common.Map.{lookup}
use pacemaker_cloud.Common.Print.{join}
use pacemaker_cloud.Common.Xml.{XmlNode, get_prop}
use pacemaker_cloud.Recover.{unknown}
use pacemaker_cloud.Recover.Outside.{Platform}
use pacemaker_cloud.Recover.Total.{Ends}
use pacemaker_cloud.Cape.{Assembly}
use pacemaker_cloud.Cape.Instance.{Cloud}
use pacemaker_cloud.Daemon.{Daemon, my_instance_state_get, instance_state_completion}
use pacemaker_cloud.Deltacloud.Poll.{set_unknown}
use pacemaker_cloud.Openstack.{
  instance_state_get_curl_callback, image_id_get_curl_callback, instance_create_curl_callback,
}

-- What a request asks for: its address, and what is posted, or that it deletes.
pub data CurlMethod : Type 0 where
  curl_get : CurlMethod
  curl_post : String → CurlMethod
  curl_delete : CurlMethod

-- libcurl and the parser of libxml. `perform` gives the parts in which the answer to a request arrives.
pub record Curl : Type 0 where
  pub perform : String → CurlMethod → List String
  pub read_memory : String → Option XmlNode

-- A callback returns 0, so that libcurl calls it with the first part only.
abbrev pub first_part {ℓ} : {A : Type ℓ} → List String → A → (String → A) → A
first_part [] unanswered callback = unanswered
first_part (part ∷ parts) unanswered callback = callback part

abbrev pub server_url : String → String
server_url instance_id = join ("http://localhost:8774/v1.0/servers/" ∷ instance_id ∷ [])

abbrev pub create_command : String → String
create_command image_id = join (
    "<?xml version=\"1.0\" encoding=\"UTF-8\"?><server xmlns=\"http://docs.rackspacecloud.com/servers/api/v1.0\" name=\"test\" imageId=\""
    ∷ image_id ∷ "\" flavorId=\"1\"> </server>" ∷ [])

module _ (curl : Curl) where
  -- What the completion functions are called with; nothing, where they are not called.
  unfoldable pub openstack_state_get : String → Result (Option (String × Option String))
  openstack_state_get instance_id =
      first_part (curl.perform (server_url instance_id) curl_get) (ok none)
        λ part. instance_state_get_curl_callback (curl.read_memory part)

  unfoldable pub openstack_image_id_get : String → Result (Option String)
  openstack_image_id_get image_name =
      first_part (curl.perform "http://localhost:8774/v1.0/images" curl_get) (ok none)
        λ part. image_id_get_curl_callback image_name (curl.read_memory part)

  unfoldable pub openstack_create : String → Option String
  openstack_create image_id =
      let answer =
        curl.perform "http://localhost:8774/v1.0/servers" (curl_post (create_command image_id)) in
      first_part answer none λ part. instance_create_curl_callback (curl.read_memory part)

  -- Whether the completion function is called.
  unfoldable pub openstack_destroy : String → Bool
  openstack_destroy instance_id =
      first_part (curl.perform (server_url instance_id) curl_delete) false λ part. true

module _ {p : Platform} (readable : Bool) (cloud : Cloud) (curl : Curl) where
  -- The first part of the answer is a document about an instance that is not active: the node is
  -- unknown, its state is asked for again, and no connection changes.
  pub inactive_polls :
      (key part status : String) (parts : List String) (a : Assembly p) (root : XmlNode)
      (d : Daemon p)
      → lookup key d.cape.assembly_map ≡ some a
      → curl.perform (server_url a.instance_id) curl_get ≡ part ∷ parts
      → curl.read_memory part ≡ some root
      → get_prop "status" root ≡ some status
      → strcmp_eq status "ACTIVE" ≡ false
      → Ends
          (λ d'.
            (d'.links ≡ d.links)
            × (d'.cape.state_gets ≡ d.cape.state_gets ++ key ∷ [])
            × ((a' : Assembly p) × (lookup key d'.cape.assembly_map ≡ some a')
                × (a'.recover.state ≡ unknown)))
          (my_instance_state_get readable cloud (openstack_state_get curl) key d)
  unfolding my_instance_state_get instance_state_completion openstack_state_get
      instance_state_get_curl_callback
  inactive_polls key part status parts a root d e answer read s other =
      let (d', run, (links, gets, node)) = set_unknown readable cloud key a d e in
      rw (e, answer, read, s, other, other) (rw run (_, refl, (links, rw gets refl, node)))

  -- An answer that does not parse, as one that arrives in several parts, ends the process.
  pub cut_ends :
      (key part : String) (parts : List String) (a : Assembly p) (d : Daemon p)
      → lookup key d.cape.assembly_map ≡ some a
      → curl.perform (server_url a.instance_id) curl_get ≡ part ∷ parts
      → curl.read_memory part ≡ none
      → my_instance_state_get readable cloud (openstack_state_get curl) key d ≡ fault null_pointer
  unfolding my_instance_state_get openstack_state_get instance_state_get_curl_callback
  cut_ends key part parts a d e answer bad = rw (e, answer, bad) refl
