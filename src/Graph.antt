-- ===== src/Graph.antt =====
-- src/pcmk_pe.c: the actions that the library of the policy engine has executed while it runs a
-- transition graph, and the job that runs the graph.
pub mod Engine
pub mod Operations
pub mod Execute
pub mod Loop
pub mod Refused
use pacemaker_cloud.Common.{
  ℕ, ◌+◌, ◌-◌, ◌/◌, ◌%◌, ◌==◌, Bool, true, false, not, Option, none, some, List, [], ◌∷◌, ◌++◌,
  String, u32_mod, Result, ok, fault, null_pointer, ◌>>=◌, strcmp_eq, if◌then◌else◌,
}
use pacemaker_cloud.Recover.Outside.{Platform}
use pacemaker_cloud.Cape.{Ref, PeOperation, Pe, Action, Cape, deref}
use pacemaker_cloud.Cape.Memory.{store}
use pacemaker_cloud.Cape.Monitor.{resource_execute_cb}

-- What the library makes of an action, an `lrm_op_t`; `interval` and `timeout` as the 32-bit numbers
-- that they are stored as.
pub record LrmOp : Type 0 where
  pub op_type : String
  pub params : List (String × String)
  pub interval : ℕ
  pub timeout : ℕ

-- The attributes of the resource in an action.
pub record ActionResource : Type 0 where
  pub id : Option String
  pub class : Option String
  pub provider : Option String
  pub type : Option String

-- An action of a graph: its place in `Pe.actions`, its attributes, and what the library makes of it.
-- `target_rc` is the number that the expected code is parsed to.
pub record GraphAction : Type 0 where
  pub action : ℕ
  pub id : ℕ
  pub graph_id : ℕ
  pub operation : Option String
  pub target : Option String
  pub resource : Option ActionResource
  pub target_rc : Option ℕ
  pub lrm : LrmOp
  pub digest : String

abbrev pub or_zero : Option ℕ → ℕ
or_zero none = 0
or_zero (some n) = n

-- PE_DEFAULT_TIMEOUT.
abbrev pub pe_default_timeout : ℕ
pe_default_timeout = 10000

unfoldable pub timeout_of : LrmOp → ℕ
timeout_of op =
    if op.timeout == 0
    then (if op.interval == 0 then pe_default_timeout else op.interval / 2)
    else op.timeout

-- `action->confirmed = TRUE; update_graph(graph, action); graph_updated = TRUE;`
abbrev pub confirm : ℕ → Pe → Pe
confirm a g = record g {
  graph_updated = true;
  actions = store a (record (g.actions a) { confirmed = true }) g.actions;
  updates = g.updates ++ a ∷ [];
}

abbrev pub is_probe_complete : Option String → Bool
is_probe_complete none = false
is_probe_complete (some operation) = strcmp_eq operation "probe_complete"

-- The new operation, whose digest is the text t.
unfoldable pub new_pe_operation :
    GraphAction → ActionResource → String → String → String → String → ℕ → PeOperation
unfolding timeout_of
new_pe_operation action rsc hostname rname rclass rtype t = record {
  hostname = hostname;
  method = action.lrm.op_type;
  rname = rname;
  rclass = rclass;
  rprovider = rsc.provider;
  rtype = rtype;
  params = action.lrm.params;
  op_digest = t;
  timeout = timeout_of action.lrm;
  times_executed = 0;
  interval = action.lrm.interval;
  target_outcome = or_zero action.target_rc;
  action = action.action;
  resource = none;
  graph_id = action.graph_id;
  action_id = action.id;
  refcount = 1;
}

-- How a run of the graph ends.
pub data TransitionStatus : Type 0 where
  transition_active transition_pending transition_complete transition_failed : TransitionStatus

-- An action that the library has executed by one of the four functions that it was given.
pub data Fired : Type 0 where
  pseudo_action crmd_action stonith_action : ℕ → Fired
  rsc_action : GraphAction → Fired

abbrev pub goes_on : TransitionStatus → Bool
goes_on transition_active = true
goes_on transition_pending = true
goes_on _ = false

module _ {p : Platform} where
  -- The operation and its digest are put into memory.
  unfoldable pub add_op : (ℕ → PeOperation) → String → Cape p → Cape p
  add_op make digest w = record w {
    ops = store w.next_op (some (make w.next_text)) w.ops;
    next_op = w.next_op + 1;
    texts = store w.next_text (some digest) w.texts;
    next_text = w.next_text + 1;
  }

  abbrev pub confirmed : ℕ → Cape p → Cape p
  confirmed a w = record w { pe = confirm a w.pe }

  -- An action without its resource is refused. The name of the target is copied first, and may be
  -- null until the operation is executed.
  unfoldable pub exec_rsc_action : GraphAction → Cape p → Result (Bool × Cape p)
  unfolding new_pe_operation add_op
  exec_rsc_action action w =
      if is_probe_complete action.operation
      then ok (true, confirmed action.action w)
      else elim action.resource [
        | none ↦ ok (false, w)
        | some rsc ↦ do
          rname ← deref rsc.id
          rclass ← deref rsc.class
          rtype ← deref rsc.type
          hostname ← deref action.target
          w₁ ←
              resource_execute_cb w.next_op
                (add_op (new_pe_operation action rsc hostname rname rclass rtype) action.digest w)
          ok (true, w₁)
      ]

  abbrev pub exec_pseudo_action : ℕ → Cape p → Bool × Cape p
  exec_pseudo_action a w = (true, confirmed a w)

  abbrev pub exec_crmd_action : ℕ → Cape p → Bool × Cape p
  exec_crmd_action a w = (true, confirmed a w)

  abbrev pub exec_stonith_action : ℕ → Cape p → Bool × Cape p
  exec_stonith_action a w = (true, confirmed a w)

  -- `graph_exec_fns`.
  abbrev pub exec_action : Fired → Cape p → Result (Bool × Cape p)
  exec_action (pseudo_action a) w = ok (exec_pseudo_action a w)
  exec_action (crmd_action a) w = ok (exec_crmd_action a w)
  exec_action (stonith_action a) w = ok (exec_stonith_action a w)
  exec_action (rsc_action action) w = exec_rsc_action action w

  -- The part of `run_graph` that is in this repository: the functions that it calls, one after the
  -- other.
  unfoldable pub exec_actions : List Fired → Cape p → Result (Cape p)
  unfolding exec_rsc_action
  exec_actions [] w = ok w
  exec_actions (f ∷ fired) w = exec_action f w >>= λ (done, w₁). exec_actions fired w₁

  abbrev pub add_next_job : Cape p → Cape p
  add_next_job w = record w { pe = record w.pe { next_jobs = w.pe.next_jobs + 1 } }

  abbrev pub transition_completed_cb : Cape p → Cape p
  transition_completed_cb w = w

  -- `working_set` is written through before it is freed.
  abbrev end_transition : Cape p → Result (Cape p)
  end_transition w =
      if w.pe.busy
      then ok (transition_completed_cb (record w { pe = record w.pe { busy = false } }))
      else fault null_pointer

  -- The job. `fired` is what `run_graph` executes if it is called, and `graph_rc` what it returns.
  unfoldable pub process_next_job : List Fired → TransitionStatus → Cape p → Result (Cape p)
  unfolding exec_actions
  process_next_job fired graph_rc w =
      if w.pe.graph_updated
      then (exec_actions fired (record w { pe = record w.pe { graph_updated = false } }) >>= λ w₁.
          if goes_on graph_rc then ok (add_next_job w₁) else end_transition w₁)
      else ok (add_next_job w)

  -- The main loop takes the job off its list and runs it.
  unfoldable pub run_next_job : List Fired → TransitionStatus → Cape p → Result (Cape p)
  unfolding process_next_job
  run_next_job fired graph_rc w =
      process_next_job fired graph_rc
        (record w { pe = record w.pe { next_jobs = w.pe.next_jobs - 1 } })
