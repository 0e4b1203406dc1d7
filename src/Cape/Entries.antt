-- ===== src/Cape/Entries.antt =====
-- What the status section says of each entry of the history, in `insert_status` of src/cape.c.
use pacemaker_cloud.Common.{
  ◌≡◌, refl, ap, ◌∙◌, true, false, some, List, [], ◌∷◌, String, ok, All, Bool-cases, inl, inr,
  if◌then◌else◌,
}
use pacemaker_cloud.Common.Print.{print_d, print_int}
use pacemaker_cloud.Common.Text.{codes, is_infix}
use pacemaker_cloud.Common.Xml.{
  XmlNode, XmlNodes, element, no_nodes, node, ◌<>◌, node_name, node_children, get_prop,
}
use pacemaker_cloud.Recover.Outside.{Platform}
use pacemaker_cloud.Recover.{running, state_eq}
use pacemaker_cloud.Recover.Total.{Ends}
use pacemaker_cloud.Cape.{OperationHistory, Resource, Assembly, Cape}
use pacemaker_cloud.Cape.Status.{
  is_on, insert_resource, op_history_insert, entry_status, entries_status, insert_status,
  nodes_status,
}
use pacemaker_cloud.Cape.Report.{Reportable, resource_by}

-- What an element says of an operation.
pub record SaysOperation (oh : OperationHistory) (digest : String) (op : XmlNode) : Type 0 where
  pub tag : node_name op ≡ "lrm_rsc_op"
  pub id : get_prop "id" op ≡ some oh.rsc_id
  pub operation : get_prop "operation" op ≡ some oh.operation
  pub call_id : get_prop "call-id" op ≡ some (print_d oh.call_id)
  pub rc_code : get_prop "rc-code" op ≡ some (print_int oh.rc)
  pub interval : get_prop "interval" op ≡ some (print_d oh.interval)
  pub op_digest : get_prop "op-digest" op ≡ some digest

says_operation :
    (crmd_uuid digest : String) (oh : OperationHistory)
    → SaysOperation oh digest (op_history_insert crmd_uuid digest oh)
unfolding op_history_insert get_prop
says_operation crmd_uuid digest oh = record {
  tag = refl;
  id = refl;
  operation = refl;
  call_id = refl;
  rc_code = refl;
  interval = refl;
  op_digest = refl;
}

module _ {p : Platform} where
  -- What an element says of a resource and of one operation on it.
  pub record SaysResource (res : Resource p) (oh : OperationHistory) (digest : String) (x : XmlNode)
      : Type 0 where
    pub tag : node_name x ≡ "lrm_resource"
    pub id : get_prop "id" x ≡ some res.name
    pub type : get_prop "type" x ≡ some res.type
    pub class : get_prop "class" x ≡ some res.rclass
    pub op : XmlNode
    pub children : node_children x ≡ node op no_nodes
    pub says : SaysOperation oh digest op

  says_resource :
      (crmd_uuid digest : String) (oh : OperationHistory) (res : Resource p)
      → SaysResource res oh digest (insert_resource res (op_history_insert crmd_uuid digest oh))
  unfolding insert_resource get_prop
  says_resource crmd_uuid digest oh res = record {
    tag = refl;
    id = refl;
    type = refl;
    class = refl;
    op = op_history_insert crmd_uuid digest oh;
    children = refl;
    says = says_operation crmd_uuid digest oh;
  }

module _ {p : Platform} (w : Cape p) where
  -- The elements for the entries of the history on the node of that name, in their order.
  pub data Reports (name : String) : List (String × OperationHistory) → XmlNodes → Type 0 where
    none_left : Reports name [] no_nodes
    passed :
        {key : String} {oh : OperationHistory} {rest : List (String × OperationHistory)}
        {nodes : XmlNodes} (res : Resource p)
        → resource_by w oh.resource ≡ some res
        → is_infix (codes name) (codes res.name) ≡ false
        → Reports name rest nodes
        → Reports name ((key, oh) ∷ rest) nodes
    reported :
        {key : String} {oh : OperationHistory} {rest : List (String × OperationHistory)}
        {nodes : XmlNodes} {x : XmlNode} (res : Resource p) (digest : String)
        → resource_by w oh.resource ≡ some res
        → is_infix (codes name) (codes res.name) ≡ true
        → w.texts oh.op_digest ≡ some digest
        → SaysResource res oh digest x
        → Reports name rest nodes
        → Reports name ((key, oh) ∷ rest) (node x nodes)

  entry_on :
      (crmd_uuid name : String) (oh : OperationHistory) (r : Reportable w oh)
      → is_on name r.res ≡ true
      → entry_status crmd_uuid w name oh
        ≡ ok (node (insert_resource r.res (op_history_insert crmd_uuid r.digest oh)) no_nodes)
  unfolding entry_status
  entry_on crmd_uuid name oh r on = rw (r.has_resource, r.resource_there, on, r.digest_there) refl

  entry_off :
      (crmd_uuid name : String) (oh : OperationHistory) (r : Reportable w oh)
      → is_on name r.res ≡ false
      → entry_status crmd_uuid w name oh ≡ ok no_nodes
  unfolding entry_status
  entry_off crmd_uuid name oh r off = rw (r.has_resource, r.resource_there, off) refl

  entry_resource :
      (oh : OperationHistory) (r : Reportable w oh) → resource_by w oh.resource ≡ some r.res
  entry_resource oh r = ap (resource_by w) r.has_resource ∙ r.resource_there

  entry-Reports :
      (crmd_uuid name key : String) (oh : OperationHistory)
      → Reportable w oh
      → Ends
          (λ first.
            (rest : List (String × OperationHistory)) (others : XmlNodes)
            → Reports name rest others
            → Reports name ((key, oh) ∷ rest) (first <> others))
          (entry_status crmd_uuid w name oh)
  entry-Reports crmd_uuid name key oh r = elim (Bool-cases (is_on name r.res)) [
    | inl on ↦ (
      _,
      entry_on crmd_uuid name oh r on,
      λ rest others h.
          reported r.res r.digest (entry_resource oh r) on r.digest_there
            (says_resource crmd_uuid r.digest oh r.res) h,
    )
    | inr off ↦ (
      _,
      entry_off crmd_uuid name oh r off,
      λ rest others h. passed r.res (entry_resource oh r) off h,
    )
  ]

  entries_status-Reports :
      (crmd_uuid name : String) (entries : List (String × OperationHistory))
      → All (λ e. Reportable w e.1) entries
      → Ends (Reports name entries) (entries_status crmd_uuid w name entries)
  unfolding entries_status
  entries_status-Reports crmd_uuid name [] h = (no_nodes, refl, none_left)
  entries_status-Reports crmd_uuid name ((key, oh) ∷ rest) (here, h) =
      let (first, run, more) = entry-Reports crmd_uuid name key oh here in
      let (others, runs, said) = entries_status-Reports crmd_uuid name rest h in
      rw (run, runs) (first <> others, refl, more rest others said)

  -- What a node_state says of a node: itself, and the history on it.
  pub record SaysNode (a : Assembly p) (x : XmlNode) : Type 0 where
    pub tag : node_name x ≡ "node_state"
    pub id : get_prop "id" x ≡ some a.uuid
    pub uname : get_prop "uname" x ≡ some a.name
    pub joined :
        get_prop "join" x ≡ some (if state_eq a.recover.state running then "member" else "pending")
    pub resources : XmlNodes
    pub children :
        node_children x
        ≡ node (element "lrm" [] (node (element "lrm_resources" [] resources) no_nodes)) no_nodes
    pub says : Reports a.name w.op_history_map resources

  -- The elements for the nodes, in their order.
  pub data States : List (String × Assembly p) → XmlNodes → Type 0 where
    no_more : States [] no_nodes
    state_of :
        {key : String} {a : Assembly p} {rest : List (String × Assembly p)} {nodes : XmlNodes}
        {x : XmlNode}
        → SaysNode a x
        → States rest nodes
        → States ((key, a) ∷ rest) (node x nodes)

  insert-SaysNode :
      (crmd_uuid : String) (a : Assembly p)
      → All (λ e. Reportable w e.1) w.op_history_map
      → Ends (SaysNode a) (insert_status crmd_uuid w a)
  unfolding insert_status get_prop
  insert-SaysNode crmd_uuid a h =
      let (resources, run, said) = entries_status-Reports crmd_uuid a.name w.op_history_map h in
      rw run (
        _,
        refl,
        record {
          tag = refl;
          id = refl;
          uname = refl;
          joined = refl;
          resources = resources;
          children = refl;
          says = said;
        },
      )

  -- Where the resource and the digest of every entry of the history are there, the status section is
  -- made without a fault. It has a node_state for each node, in their order, with its uuid and name,
  -- and whether it is running. In that an entry of the history is reported exactly if the name of its
  -- resource contains that of the node, whichever node the resource is on; its element, in the order
  -- of the history, has the name, the type and the class of the resource, with the key, the method,
  -- the number, the code, the interval and the digest of the operation.
  pub nodes_status-States :
      (crmd_uuid : String) (nodes : List (String × Assembly p))
      → All (λ e. Reportable w e.1) w.op_history_map
      → Ends (States nodes) (nodes_status crmd_uuid w nodes)
  unfolding nodes_status
  nodes_status-States crmd_uuid [] h = (no_nodes, refl, no_more)
  nodes_status-States crmd_uuid ((key, a) ∷ rest) h =
      let (first, run, says) = insert-SaysNode crmd_uuid a h in
      let (others, runs, said) = nodes_status-States crmd_uuid rest h in
      rw (run, runs) (node first others, refl, state_of says said)
