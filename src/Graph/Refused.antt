-- ===== src/Graph/Refused.antt =====
-- An action of a transition for a node that is not running.
use pacemaker_cloud.Common.{
  ℕ, ◌+◌, ◌%◌, ◌==◌, ◌≡◌, refl, ap, ◌∙◌, Bool, true, false, Option, none, some, String, ltb,
  if_true, u32_mod, ◌-◌, if◌then◌else◌, Bool-cases, inl, inr,
}
use pacemaker_cloud.Common.Map.{lookup}
use pacemaker_cloud.Recover.Outside.{Platform}
use pacemaker_cloud.Recover.{running, state_eq}
use pacemaker_cloud.Recover.Total.{IsReady, Ends}
use pacemaker_cloud.Ocf.{ocf_unknown_error}
use pacemaker_cloud.Cape.{PeOperation, OperationHistory, Resource, Assembly, Cape, find_resource}
use pacemaker_cloud.Cape.Memory.{store}
use pacemaker_cloud.Cape.History.{history_key}
use pacemaker_cloud.Cape.Monitor.{resource_execute_cb, resource_action_completed}
use pacemaker_cloud.Cape.Count.{CanComplete, store_same, store_other, finished, resource_of-some}
use pacemaker_cloud.Cape.Completion.{executed, completed-Ends}
use pacemaker_cloud.Graph.{
  GraphAction, ActionResource, is_probe_complete, or_zero, new_pe_operation, add_op,
  exec_rsc_action,
}

-- The action has all its attributes.
pub record Named (action : GraphAction) (rsc : ActionResource)
    (hostname rname rclass rtype : String) : Type 0 where
  pub not_probe : is_probe_complete action.operation ≡ false
  pub resource : action.resource ≡ some rsc
  pub id : rsc.id ≡ some rname
  pub class : rsc.class ≡ some rclass
  pub type : rsc.type ≡ some rtype
  pub target : action.target ≡ some hostname

still_some :
    (q n : ℕ) (x : String) (f : ℕ → Option String)
    → (s : String) × (f n ≡ some s)
    → (s : String) × (store q (some x) f n ≡ some s)
still_some q n x f (s, e) = elim (Bool-cases (q == n)) [
  | inl h ↦ (x, rw h refl)
  | inr h ↦ (s, rw h e)
]

-- The last reference is given back.
last_ref :
    (o : PeOperation) (as_expected : Bool)
    → o.refcount ≡ 1
    → as_expected ≡ false
    → finished (executed o) as_expected ≡ none
last_ref o as_expected one e = rw e (
    both (ltb 0 o.interval) (
      if_true ((o.refcount + u32_mod - 1) % u32_mod == 0) none _
        (ap (λ n. (n + u32_mod - 1) % u32_mod == 0) one)))
  where
    both : (b : Bool) {x : Option PeOperation} → x ≡ none → (if b then x else x) ≡ none
    both true e = e
    both false e = e

module _ {p : Platform} where
  -- An operation whose node is there but not running, and that can be completed, is completed with an
  -- unknown error.
  offline :
      (q : ℕ) (o : PeOperation) (a : Assembly p) (w : Cape p)
      → CanComplete q o w
      → lookup o.hostname w.assembly_map ≡ some a
      → state_eq a.recover.state running ≡ false
      → resource_execute_cb q w ≡ resource_action_completed q ocf_unknown_error w
  unfolding resource_execute_cb
  offline q o a w c e s = rw (c.op_live, e, resource_of-some q o w c, s) refl

  -- When the graph executes an action on a node that is not running, of a resource that is there,
  -- where every digest of the history is there, and an unknown error is not what the action expects:
  -- the call ends without a fault and reports a success to the library, the memory of the new
  -- operation is free again when it returns, and other operations are as they were.
  pub exec_rsc_action-refused :
      (action : GraphAction) (rsc : ActionResource) (hostname rname rclass rtype : String)
      (a : Assembly p) (w : Cape p)
      → Named action rsc hostname rname rclass rtype
      → lookup hostname w.assembly_map ≡ some a
      → state_eq a.recover.state running ≡ false
      → ((x : Resource p) × (find_resource (record { assembly = hostname; name = rname }) w
            ≡ some x)
          × IsReady p x.recover)
      → ((key : String) (oh : OperationHistory)
          → lookup key w.op_history_map ≡ some oh
          → (s : String) × (w.texts oh.op_digest ≡ some s))
      → (1 == or_zero action.target_rc) ≡ false
      → Ends
          (λ r.
            (r.0 ≡ true)
            × (r.1.ops w.next_op ≡ none)
            × ((n : ℕ) → (w.next_op == n) ≡ false → r.1.ops n ≡ w.ops n))
          (exec_rsc_action action w)
  unfolding exec_rsc_action add_op new_pe_operation
  exec_rsc_action-refused action rsc hostname rname rclass rtype a w named e s there live other =
      let o = new_pe_operation action rsc hostname rname rclass rtype w.next_text in
      let w₁ = add_op (new_pe_operation action rsc hostname rname rclass rtype) action.digest w in
      let c : CanComplete w.next_op o w₁ = record {
        op_live = store_same w.next_op _ w.ops;
        digests = record {
          mine = (action.digest, store_same w.next_text _ w.texts);
          entry = λ oh found.
              still_some w.next_text oh.op_digest action.digest w.texts
                (live (history_key o) oh found);
        };
        resource_there = there;
      } in
      let (w₂, run, (left, others)) = completed-Ends w.next_op ocf_unknown_error o w₁ c in
      rw (named.not_probe, named.resource, named.id, named.class, named.type, named.target)
        (rw (offline w.next_op o a w₁ c e s, run)
          (
            (true, w₂),
            refl,
            (
              refl,
              left ∙ last_ref o _ refl other,
              λ n h. others n h ∙ store_other w.next_op n _ w.ops h,
            ),
          ))
