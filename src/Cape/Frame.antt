-- ===== src/Cape/Frame.antt =====
-- What a change of a resource's recovery state leaves alone: operations, digests, and the policy
-- engine.
use pacemaker_cloud.Common.{◌≡◌, refl, Option, none, some, String, arith, eq_refl}
use pacemaker_cloud.Common.Map.{lookup, lookup-update}
use pacemaker_cloud.Recover.Outside.{Platform}
use pacemaker_cloud.Recover.{RecoverState}
use pacemaker_cloud.Recover.Total.{IsReady, Ends, set-Ends}
use pacemaker_cloud.Cape.{Ref, Resource, Assembly, Cape, find_in, find_resource, update_resource}
use pacemaker_cloud.Cape.Monitor.{
  resource_callbacks, resource_place, resource_recover_set, resource_state_change_event,
  resource_recover_restart, instance_destroy, timer_del,
}

module _ {p : Platform} where
  pub find_inv :
      (k : String) (oa : Option (Assembly p)) {x : Resource p}
      → find_in k oa ≡ some x
      → (a : Assembly p) × (oa ≡ some a) × (lookup k a.resource_map ≡ some x)
  find_inv k none e = absurd (ground arith)
  find_inv k (some a) e = (a, refl, e)

  pub find-update_resource :
      (r : Ref) (f : Resource p → Resource p) (w : Cape p) {x : Resource p}
      → find_resource r w ≡ some x
      → find_resource r (update_resource r f w) ≡ some (f x)
  find-update_resource r f w h =
      let (a, e, l) = find_inv r.name (lookup r.assembly w.assembly_map) h in
      rw (lookup-update, e, eq_refl) (rw (lookup-update, l, eq_refl) refl)

  -- The resource is there and its stopwatch is, if it needs one; `w` differs from the state `v` in
  -- neither operations, digests, history nor the policy engine.
  pub record Kept (r : Ref) (v : Cape p) (w : Cape p) : Type 0 where
    pub ops_kept : w.ops ≡ v.ops
    pub texts_kept : w.texts ≡ v.texts
    pub pe_kept : w.pe ≡ v.pe
    pub history_kept : w.op_history_map ≡ v.op_history_map
    pub there : (x : Resource p) × (find_resource r w ≡ some x) × IsReady p x.recover

  update-Kept :
      (r : Ref) (f : Resource p → Resource p) (v w : Cape p)
      → ((x : Resource p) → IsReady p x.recover → IsReady p (f x).recover)
      → Kept r v w
      → Kept r v (update_resource r f w)
  update-Kept r f v w keep k =
      let (x, e, ready) = k.there in
      record {
        ops_kept = k.ops_kept;
        texts_kept = k.texts_kept;
        pe_kept = k.pe_kept;
        history_kept = k.history_kept;
        there = (f x, find-update_resource r f w e, keep x ready);
      }

  event-Kept :
      (r : Ref) (from to : RecoverState) (v w : Cape p)
      → Kept r v w
      → Ends (Kept r v) (resource_state_change_event r from to w)
  event-Kept r from to v w k =
      let (x, e, ready) = k.there in
      rw e (
        _,
        refl,
        record {
          ops_kept = k.ops_kept;
          texts_kept = k.texts_kept;
          pe_kept = k.pe_kept;
          history_kept = k.history_kept;
          there = (x, e, ready);
        },
      )

  restart-Kept :
      (r : Ref) (v w : Cape p) → Kept r v w → Ends (Kept r v) (resource_recover_restart r w)
  restart-Kept r v w k = (_, refl, update-Kept r _ v w (λ x h. h) k)

  -- Destroying the instance changes one text of the assembly only.
  destroy-Kept :
      (r : Ref) (v w : Cape p) → Kept r v w → Ends (Kept r v) (instance_destroy r.assembly w)
  destroy-Kept r v w k =
      let (x, e, ready) = k.there in
      let (a, f, l) = find_inv r.name (lookup r.assembly w.assembly_map) e in
      rw f (
        _,
        refl,
        record {
          ops_kept = k.ops_kept;
          texts_kept = k.texts_kept;
          pe_kept = k.pe_kept;
          history_kept = k.history_kept;
          there = (x, rw (lookup-update, f, eq_refl) l, ready);
        },
      )

  -- Whatever the state, it is set without a fault, and the rest is kept.
  pub resource_recover_set-Kept :
      (r : Ref) (state : RecoverState) (v w : Cape p)
      → Kept r v w
      → Ends (Kept r v) (resource_recover_set r state w)
  unfolding resource_recover_set
  resource_recover_set-Kept r state v w k =
      let (x, e, ready) = k.there in
      rw e (
        set-Ends p (resource_callbacks r) (resource_place r x.recover) (Kept r v)
          (λ w k. let (y, f, h) = k.there in rw f h) (λ w c k h. update-Kept r _ v w (λ y _. h) k)
          (λ w from to k. event-Kept r from to v w k) (λ w k. restart-Kept r v w k)
          (λ w k. destroy-Kept r v (timer_del r w) (update-Kept r _ v w (λ y h. h) k)) w.now state w
          k)
