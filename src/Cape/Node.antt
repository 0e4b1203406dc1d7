-- ===== src/Cape/Node.antt =====
-- The change of state of a node in src/cape.c: `node_update_addr_info` and `node_state_change_event`.
use pacemaker_cloud.Common.{
  ◌≡◌, refl, ap, ◌∙◌, Bool, true, false, ◌&&◌, Option, none, some, [], ◌∷◌, String, Result, ok,
  ◌>>=◌, strcmp_eq, if◌then◌else◌, Bool-cases, inl, inr,
}
use pacemaker_cloud.Common.Map.{QbMap, lookup}
use pacemaker_cloud.Recover.Outside.{Platform}
use pacemaker_cloud.Recover.{RecoverState, running, state_eq}
use pacemaker_cloud.Cape.{ReferenceParam, Resource, Assembly, Cape, deref}
use pacemaker_cloud.Cape.Monitor.{send_event, schedule_processing, state_str}
use pacemaker_cloud.Cape.Status.{text_or_empty}

-- An iteration over a map that writes to every value.
unfoldable pub map_values {ℓ} : {V : Type ℓ} → (V → V) → QbMap V → QbMap V
map_values f [] = []
map_values f (entry ∷ rest) = (entry.0, f entry.1) ∷ map_values f rest

abbrev pub on_value {ℓ} : {V : Type ℓ} → (V → V) → Option V → Option V
on_value f none = none
on_value f (some v) = some (f v)

pub lookup-map_values {ℓ} :
    {V : Type ℓ} (f : V → V) (key : String) (entries : QbMap V)
    → lookup key (map_values f entries) ≡ on_value f (lookup key entries)
unfolding lookup map_values
lookup-map_values f key [] = refl
lookup-map_values f key (entry ∷ rest) = elim (Bool-cases (strcmp_eq entry.0 key)) [
  | inl h ↦ rw h refl
  | inr h ↦ rw h (lookup-map_values f key rest)
]

-- The `value` of a parameter that refers to the node of that name.
unfoldable pub update_param : String → Option String → ReferenceParam → ReferenceParam
update_param name address param =
    if param.has_xmlnode && strcmp_eq param.assembly name
    then record param {
      value =
          if strcmp_eq param.parameter "hostname" then some name else some (text_or_empty address);
    }
    else param

-- The value of a parameter after a node has come up: whether the parameter stands in the document,
-- refers to the node, and asks for its name.
abbrev value_by : Bool → Bool → Bool → String → Option String → Option String → Option String
value_by false same named name address old = old
value_by true false named name address old = old
value_by true true true name address old = some name
value_by true true false name none old = some ""
value_by true true false name (some ip) old = some ip

abbrev pub value_after : String → Option String → ReferenceParam → Option String
value_after name address param =
    value_by param.has_xmlnode (strcmp_eq param.assembly name)
      (strcmp_eq param.parameter "hostname") name address param.value

chosen :
    (there same named : Bool) (name : String) (address : Option String) (param : ReferenceParam)
    → (if there && same
        then record param { value = if named then some name else some (text_or_empty address) }
        else param)
      ≡ record param { value = value_by there same named name address param.value }
chosen false same named name address param = refl
chosen true false named name address param = refl
chosen true true true name address param = refl
chosen true true false name none param = refl
chosen true true false name (some ip) param = refl

value_on :
    (name : String) (address : Option String) (param : Option ReferenceParam)
    → on_value (update_param name address) param
      ≡ on_value (λ param. record param { value = value_after name address param }) param
unfolding update_param
value_on name address none = refl
value_on name address (some param) = ap some (
    chosen param.has_xmlnode (strcmp_eq param.assembly name) (strcmp_eq param.parameter "hostname")
      name address param)

module _ {p : Platform} where
  abbrev pub update_params : String → Option String → Resource p → Resource p
  update_params name address res = record res {
    ref_params_map = map_values (update_param name address) res.ref_params_map;
  }

  abbrev pub update_resources : String → Option String → Assembly p → Assembly p
  update_resources name address a = record a {
    resource_map = map_values (update_params name address) a.resource_map;
  }

  -- `a` is the node that changed.
  unfoldable pub node_update_addr_info : Assembly p → Cape p → Cape p
  node_update_addr_info a w = record w {
    assembly_map = map_values (update_resources a.name a.address) w.assembly_map;
  }

  unfoldable pub node_state_change_event :
      String → RecoverState → RecoverState → Cape p → Result (Cape p)
  unfolding node_update_addr_info
  node_state_change_event key from to w = do
    a ← deref (lookup key w.assembly_map)
    let w₁ = send_event (record { node = a.name; resource = none; state = state_str from to }) w
    let w₂ = if state_eq to running then node_update_addr_info a w₁ else w₁
    ok (schedule_processing w₂)

  abbrev param_in_resource : String → Option (Resource p) → Option ReferenceParam
  param_in_resource key none = none
  param_in_resource key (some res) = lookup key res.ref_params_map

  abbrev param_in_assembly : String → String → Option (Assembly p) → Option ReferenceParam
  param_in_assembly rname key none = none
  param_in_assembly rname key (some a) = param_in_resource key (lookup rname a.resource_map)

  -- The parameter of a resource of a node.
  abbrev pub find_param : String → String → String → Cape p → Option ReferenceParam
  find_param aname rname key w = param_in_assembly rname key (lookup aname w.assembly_map)

  in_resource :
      (name : String) (address : Option String) (key : String) (res : Option (Resource p))
      → param_in_resource key (on_value (update_params name address) res)
        ≡ on_value (update_param name address) (param_in_resource key res)
  in_resource name address key none = refl
  in_resource name address key (some res) =
      lookup-map_values (update_param name address) key res.ref_params_map

  in_assembly :
      (name : String) (address : Option String) (rname key : String) (a : Option (Assembly p))
      → param_in_assembly rname key (on_value (update_resources name address) a)
        ≡ on_value (update_param name address) (param_in_assembly rname key a)
  in_assembly name address rname key none = refl
  in_assembly name address rname key (some a) =
      rw (lookup-map_values (update_params name address) rname a.resource_map)
        (in_resource name address key (lookup rname a.resource_map))

  -- When a node comes up, each parameter of each resource on any node that refers to it and stands in
  -- the configuration of the policy engine gets a new value, which is the name of the node for the
  -- parameter "hostname" and otherwise its address, empty where it has none. Each other parameter
  -- stays as it was, as does the rest of each.
  pub node_update_addr_info-find_param :
      (a : Assembly p) (aname rname key : String) (w : Cape p)
      → find_param aname rname key (node_update_addr_info a w)
        ≡ on_value
            (λ param. record param { value = value_after a.name a.address param })
            (find_param aname rname key w)
  unfolding node_update_addr_info
  node_update_addr_info-find_param a aname rname key w =
      rw (lookup-map_values (update_resources a.name a.address) aname w.assembly_map) (
        in_assembly a.name a.address rname key (lookup aname w.assembly_map)
        ∙ value_on a.name a.address (find_param aname rname key w))
