-- ===== src/Cape.antt =====
-- The state of the daemon of src/cape.c: assemblies, their resources, the operations of the policy
-- engine, the history of operations, and what was asked of the main loop and sent to the outside.
pub mod Memory
pub mod History
pub mod Monitor
pub mod Frame
pub mod Count
pub mod Completion
pub mod Codes
pub mod Outcome
pub mod Recurring
pub mod Stop
pub mod Digest
pub mod Status
pub mod Process
pub mod Report
pub mod Entries
pub mod Node
pub mod Instance
pub mod Config
pub mod Loaded
pub mod Named
pub mod Clear
pub mod Forget
use pacemaker_cloud.Common.{
  ℕ, ◌≡◌, Bool, true, false, Option, none, some, List, [], ◌∷◌, String, ℤ, Result, ok, fault,
  null_pointer,
}
use pacemaker_cloud.Common.Map.{lookup, update}
use pacemaker_cloud.Recover.Outside.{Platform}
use pacemaker_cloud.Recover.{Recover}

-- A `struct resource *`: resources are never freed, so the keys under which one stands name it.
pub record Ref : Type 0 where
  pub assembly : String
  pub name : String

-- `struct pe_operation`. `op_digest` is a pointer to a text; `action` stands for the action and its
-- graph, which belong to the policy engine.
pub record PeOperation : Type 0 where
  pub hostname : String
  pub method : String
  pub rname : String
  pub rclass : String
  pub rprovider : Option String
  pub rtype : String
  pub params : List (String × String)
  pub op_digest : ℕ
  pub timeout : ℕ
  pub times_executed : ℕ
  pub interval : ℕ
  pub target_outcome : ℕ
  pub action : ℕ
  pub resource : Option Ref
  pub graph_id : ℕ
  pub action_id : ℕ
  pub refcount : ℕ

-- `struct operation_history`. `op_digest` is a pointer to a text.
pub record OperationHistory : Type 0 where
  pub rsc_id : String
  pub operation : String
  pub call_id : ℕ
  pub interval : ℕ
  pub rc : ℤ
  pub target_outcome : ℕ
  pub last_run : ℕ
  pub last_rc_change : ℕ
  pub graph_id : ℕ
  pub action_id : ℕ
  pub op_digest : ℕ
  pub resource : Option Ref

-- `struct reference_param`; `value` is the attribute of the `nvpair` that `xmlnode` points to.
pub record ReferenceParam : Type 0 where
  pub name : String
  pub assembly : String
  pub parameter : String
  pub has_xmlnode : Bool
  pub value : Option String

-- `struct resource`. `monitor_timer` is the operation that a running timer holds.
pub record Resource (p : Platform) : Type 0 where
  pub name : String
  pub type : String
  pub rclass : String
  pub rprovider : Option String
  pub assembly : String
  pub monitor_op : Option ℕ
  pub monitor_timer : Option ℕ
  pub recover : Recover p
  pub ref_params_map : List (String × ReferenceParam)

-- `struct assembly`, without its transport.
pub record Assembly (p : Platform) : Type 0 where
  pub name : String
  pub uuid : String
  pub address : Option String
  pub instance_id : String
  pub image_id : String
  pub resource_map : List (String × Resource p)
  pub recover : Recover p

-- What `cape_admin_event_send` is given.
pub record Event : Type 0 where
  pub node : String
  pub resource : Option String
  pub state : Option String

-- The flags of an action of a transition graph.
pub record Action : Type 0 where
  pub failed : Bool
  pub confirmed : Bool

-- The globals of src/pcmk_pe.c: `busy` is `working_set != NULL`; `aborted` is whether the graph has
-- a priority to abort; `updates` are the actions of which the library was told by `update_graph`;
-- `next_jobs` counts the jobs `process_next_job` that the main loop has.
pub record Pe : Type 0 where
  pub busy : Bool
  pub graph_updated : Bool
  pub aborted : Bool
  pub actions : ℕ → Action
  pub updates : List ℕ
  pub next_jobs : ℕ
  pub transition_count : ℕ

-- `ops` and `texts` are the memory of operations and digests: nothing, where it was freed.
pub record Cape (p : Platform) : Type 0 where
  pub now : ℕ
  pub assembly_map : List (String × Assembly p)
  pub op_history_map : List (String × OperationHistory)
  pub call_order : ℕ
  pub ops : ℕ → Option PeOperation
  pub next_op : ℕ
  pub texts : ℕ → Option String
  pub next_text : ℕ
  pub pe : Pe
  -- Jobs `process_job` that were added to the main loop.
  pub process_jobs : ℕ
  -- Operations handed to the transport, and events sent, oldest first.
  pub actions_sent : List ℕ
  pub events : List Event
  -- Requests to the cloud to destroy or create an instance.
  pub destroyed : List String
  pub created : List String
  -- Jobs and timers `my_instance_state_get`, by the name of their node.
  pub state_gets : List String

-- Reading through a pointer.
abbrev pub deref {ℓ} : {A : Type ℓ} → Option A → Result A
deref none = fault null_pointer
deref (some a) = ok a

module _ {p : Platform} where
  abbrev pub find_in : String → Option (Assembly p) → Option (Resource p)
  find_in k none = none
  find_in k (some a) = lookup k a.resource_map

  abbrev pub find_resource : Ref → Cape p → Option (Resource p)
  find_resource r w = find_in r.name (lookup r.assembly w.assembly_map)

  abbrev pub update_assembly : String → (Assembly p → Assembly p) → Cape p → Cape p
  update_assembly k f w = record w { assembly_map = update k f w.assembly_map }

  abbrev pub update_resource : Ref → (Resource p → Resource p) → Cape p → Cape p
  update_resource r f =
      update_assembly r.assembly λ a. record a { resource_map = update r.name f a.resource_map }
