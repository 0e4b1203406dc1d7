-- ===== src/Cape/Memory.antt =====
-- The operations of the policy engine and their reference counts: `pe_resource_ref`,
-- `pe_resource_unref` and `pe_resource_completed` of src/pcmk_pe.c.
use pacemaker_cloud.Common.{
  ℕ, ◌+◌, ◌-◌, ◌%◌, Bool, true, Option, none, some, [], ◌∷◌, ◌++◌, ℤ, u32_mod, to_u32, Result, ok,
  ◌≡◌, refl, Bool-cases, inl, inr, fault, use_after_free, double_free, ◌>>=◌, ◌==◌, if◌then◌else◌,
}
use pacemaker_cloud.Recover.Outside.{Platform}
use pacemaker_cloud.Cape.{PeOperation, Pe, Cape}

abbrev pub live {ℓ} : {A : Type ℓ} → Option A → Result A
live none = fault use_after_free
live (some a) = ok a

abbrev pub store {ℓ} : {A : Type ℓ} → ℕ → A → (ℕ → A) → ℕ → A
store q a f n = if q == n then a else f n

-- The action is confirmed, and marked as failed where the code is not the expected one, which also
-- aborts the graph. Nothing is done if no transition is in progress. Actions stay in memory when their
-- graph is destroyed.
pub complete_action : Bool → ℕ → Pe → Pe
complete_action as_expected a g =
    if g.busy
    then record g {
      graph_updated = true;
      aborted = if as_expected then g.aborted else true;
      actions =
          store a
            (if as_expected
              then record (g.actions a) { confirmed = true }
              else record { failed = true; confirmed = true })
            g.actions;
      updates = g.updates ++ a ∷ [];
    }
    else g

pub complete_action-engine :
    (as_expected : Bool) (a : ℕ) (g : Pe)
    → ((complete_action as_expected a g).busy ≡ g.busy)
      × ((complete_action as_expected a g).next_jobs ≡ g.next_jobs)
unfolding complete_action
complete_action-engine as_expected a g = elim (Bool-cases g.busy) [
  | inl e ↦ rw e (refl, refl)
  | inr e ↦ rw e (refl, refl)
]

module _ {p : Platform} where
  -- Reading and writing through a `struct pe_operation *`.
  abbrev pub load_op : ℕ → Cape p → Result PeOperation
  load_op q w = live (w.ops q)

  abbrev pub store_op : ℕ → PeOperation → Cape p → Cape p
  store_op q o w = record w { ops = store q (some o) w.ops }

  -- `free` of a text.
  unfoldable pub free_text : ℕ → Cape p → Result (Cape p)
  free_text t w = elim (w.texts t) [
    | none ↦ fault double_free
    | some s ↦ ok (record w { texts = store t none w.texts })
  ]

  unfoldable pub pe_resource_ref : ℕ → Cape p → Result (Cape p)
  pe_resource_ref q w = do
    o ← load_op q w
    ok (store_op q (record o { refcount = (o.refcount + 1) % u32_mod }) w)

  unfoldable pub pe_resource_unref : ℕ → Cape p → Result (Cape p)
  pe_resource_unref q w = do
    o ← load_op q w
    let n = (o.refcount + u32_mod - 1) % u32_mod
    if n == 0
        then (free_text o.op_digest w >>= λ w₁. ok (record w₁ { ops = store q none w₁.ops }))
        else ok (store_op q (record o { refcount = n }) w)

  unfoldable pub pe_resource_completed : ℕ → ℤ → Cape p → Result (Cape p)
  unfolding complete_action
  pe_resource_completed q return_code w = do
    o ← load_op q w
    ok (record w { pe = complete_action (to_u32 return_code == o.target_outcome) o.action w.pe })
