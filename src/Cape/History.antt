-- ===== src/Cape/History.antt =====
-- The operation history of src/cape.c, from which the status for the policy engine is made.
use pacemaker_cloud.Common.{
  ℕ, ◌+◌, ◌%◌, Bool, true, false, not, ◌&&◌, Option, none, some, List, [], ◌∷◌, String, ℤ, eq_ℤ,
  u32_mod, Result, ok, ◌>>=◌, strcmp_eq, if◌then◌else◌,
}
use pacemaker_cloud.Common.Map.{lookup, insert, erase}
use pacemaker_cloud.Common.Print.{join, print_d}
use pacemaker_cloud.Recover.Outside.{Platform}
use pacemaker_cloud.Cape.{
  Ref, PeOperation, OperationHistory, Cape, deref, find_resource, update_resource,
}
use pacemaker_cloud.Cape.Memory.{
  live, store, load_op, free_text, pe_resource_unref, pe_resource_completed,
}
use pacemaker_cloud.Ocf.{ocf_pending, ocf_ok}

abbrev pub history_key : PeOperation → String
history_key o = join (o.rname ∷ "_" ∷ o.method ∷ "_" ∷ print_d o.interval ∷ [])

abbrev pub ref_eq : Ref → Ref → Bool
ref_eq r s = strcmp_eq r.assembly s.assembly && strcmp_eq r.name s.name

-- Equality of two pointers, either of which may be null.
abbrev pub ref_ptr_eq : Option Ref → Option Ref → Bool
ref_ptr_eq none none = true
ref_ptr_eq none (some s) = false
ref_ptr_eq (some r) none = false
ref_ptr_eq (some r) (some s) = ref_eq r s

module _ {p : Platform} where
  -- `strdup` of a text that a pointer leads to.
  unfoldable pub dup_text : ℕ → Cape p → Result (ℕ × Cape p)
  dup_text t w = do
    s ← live (w.texts t)
    ok (
      w.next_text,
      record w { texts = store w.next_text (some s) w.texts; next_text = w.next_text + 1 },
    )

  -- A new entry, with a copy of the digest.
  unfoldable pub history_new :
      Option Ref → PeOperation → Cape p → Result (OperationHistory × Cape p)
  unfolding dup_text
  history_new r o w = do
    (t, w₁) ← dup_text o.op_digest w
    ok (
      record {
        rsc_id = history_key o;
        operation = o.method;
        call_id = 0;
        interval = o.interval;
        rc = ocf_pending;
        target_outcome = o.target_outcome;
        last_run = 0;
        last_rc_change = 0;
        graph_id = 0;
        action_id = 0;
        op_digest = t;
        resource = r;
      },
      w₁,
    )

  -- An entry that is there takes over the pointer to the operation's digest if the digests differ.
  unfoldable pub history_old :
      OperationHistory → PeOperation → Cape p → Result (OperationHistory × Cape p)
  unfolding free_text
  history_old oh o w = do
    s ← live (w.texts oh.op_digest)
    t ← live (w.texts o.op_digest)
    if strcmp_eq s t
        then ok (oh, w)
        else (free_text oh.op_digest w >>= λ w₁. ok (record oh { op_digest = o.op_digest }, w₁))

  unfoldable pub history_stamp : ℤ → PeOperation → OperationHistory → Cape p → Cape p
  history_stamp ec o oh w =
      let changed = not (eq_ℤ oh.rc ec) in
      record w {
        op_history_map =
            insert (history_key o)
              (record oh {
                last_rc_change = if changed then w.now else oh.last_rc_change;
                rc = ec;
                last_run = w.now;
                call_id = w.call_order;
                graph_id = o.graph_id;
                action_id = o.action_id;
              })
              w.op_history_map;
        call_order = (w.call_order + 1) % u32_mod;
      }

  unfoldable pub op_history_save : Option Ref → ℕ → ℤ → Cape p → Result (Cape p)
  unfolding history_new history_old history_stamp
  op_history_save r q ec w = do
    o ← load_op q w
    let found = lookup (history_key o) w.op_history_map
    (oh, w₁) ← (elim found [ none ↦ history_new r o w | some oh ↦ history_old oh o w ])
    ok (history_stamp ec o oh w₁)

  unfoldable pub recurring_monitor_stop : ℕ → Cape p → Result (Cape p)
  recurring_monitor_stop q w = do
    o ← load_op q w
    r ← deref o.resource
    res ← deref (find_resource r w)
    w₁ ← elim res.monitor_timer [
      | none ↦ ok w
      | some _ ↦ pe_resource_unref q (update_resource r (λ x. record x { monitor_timer = none }) w)
    ]
    pe_resource_unref q (update_resource r (λ x. record x { monitor_op = none }) w₁)

  -- One entry goes: its monitor is stopped if it runs, and its texts are freed.
  unfoldable pub history_remove : String → OperationHistory → Cape p → Result (Cape p)
  history_remove key oh w = do
    r ← deref oh.resource
    res ← deref (find_resource r w)
    w₁ ← elim res.monitor_timer [
      | none ↦ ok w
      | some _ ↦ elim res.monitor_op [ none ↦ ok w | some m ↦ recurring_monitor_stop m w ]
    ]
    free_text oh.op_digest (record w₁ { op_history_map = erase key w₁.op_history_map })

  -- The loop of `node_op_history_clear` and of `op_history_delete` over the entries; `hit` is the test
  -- of an entry's resource.
  unfoldable pub history_clear :
      (Option Ref → Result Bool) → List (String × OperationHistory) → Cape p → Result (Cape p)
  history_clear hit [] w = ok w
  history_clear hit ((key, oh) ∷ rest) w = do
    gone ← hit oh.resource
    w₁ ← (if gone then history_remove key oh w else ok w)
    history_clear hit rest w₁

  unfoldable pub node_op_history_clear : String → Cape p → Result (Cape p)
  node_op_history_clear a w =
      history_clear (λ r. deref r >>= λ r. ok (strcmp_eq r.assembly a)) w.op_history_map w

  unfoldable pub op_history_delete : ℕ → Cape p → Result (Cape p)
  op_history_delete q w = do
    o ← load_op q w
    w₁ ← history_clear (λ r. ok (ref_ptr_eq r o.resource)) w.op_history_map w
    w₂ ← pe_resource_completed q ocf_ok w₁
    pe_resource_unref q w₂
