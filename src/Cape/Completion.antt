-- ===== src/Cape/Completion.antt =====
-- The completion of an operation: it ends without a fault, and counts its references right.
use pacemaker_cloud.Common.{
  ℕ, ◌+◌, ◌%◌, ◌≡◌, refl, ap, ◌∙◌, Bool, true, false, Option, some, ℤ, ok, ◌>>=◌, if◌then◌else◌,
  u32_mod, to_u32, ◌==◌, leb,
}
use pacemaker_cloud.Common.Text.{codes, is_infix}
use pacemaker_cloud.Recover.Outside.{Platform}
use pacemaker_cloud.Recover.Total.{Ends}
use pacemaker_cloud.Cape.{Ref, PeOperation, Cape}
use pacemaker_cloud.Cape.Memory.{store_op, pe_resource_completed}
use pacemaker_cloud.Cape.History.{op_history_save}
use pacemaker_cloud.Cape.Monitor.{resource_action_completed, resource_state_set, action_finish}
use pacemaker_cloud.Cape.Count.{
  CanComplete, DigestsLive, Saved, finished, save-Ends, resource_of-some, state_set-Ends,
  DigestAfter, finish_ends, store_same, store_other,
}

-- The operation with one more execution counted.
abbrev pub executed : PeOperation → PeOperation
executed o = record o { times_executed = (o.times_executed + 1) % u32_mod }

-- The resource that an operation is on.
abbrev pub resource_ref : PeOperation → Ref
resource_ref o = record { assembly = o.hostname; name = o.rname }

module _ {p : Platform} where
  save_part :
      (b : Bool) (r : Option Ref) (q : ℕ) (rc : ℤ) (o : PeOperation) (w : Cape p)
      → w.ops q ≡ some o
      → DigestsLive o w
      → Ends (Saved o w) (if b then op_history_save r q rc w else ok w)
  save_part true r q rc o w e d = save-Ends r q rc o w e d
  save_part false r q rc o w e d =
      (w, refl, record { ops_same = refl; assemblies_same = refl; digest_live = d.mine })

  report_part :
      (b : Bool) (q : ℕ) (rc : ℤ) (o : PeOperation) (v w : Cape p)
      → w.ops q ≡ some o
      → Saved o v w
      → Ends (Saved o v) (if b then pe_resource_completed q rc w else ok w)
  unfolding pe_resource_completed
  report_part true q rc o v w e k = rw e (
    _,
    refl,
    record {
      ops_same = k.ops_same;
      assemblies_same = k.assemblies_same;
      digest_live = k.digest_live;
    },
  )
  report_part false q rc o v w e k = (w, refl, k)

  -- What the completion does before it sets the state of the resource: operation q is counted, and
  -- neither other operations nor nodes change.
  pub counted :
      (q : ℕ) (rc : ℤ) (o : PeOperation) (w : Cape p)
      → CanComplete q o w
      → (w₂ : Cape p) × Saved (executed o) (store_op q (executed o) w) w₂
        × (resource_action_completed q rc w ≡ (
            resource_state_set (some (resource_ref o)) q rc w₂
            >>= action_finish (some (resource_ref o)) q (to_u32 rc == o.target_outcome)))
  unfolding resource_action_completed
  counted q rc o w c =
      let r = resource_ref o in
      let w₀ = store_op q (executed o) w in
      let e₀ : w₀.ops q ≡ some (executed o) = store_same q _ w.ops in
      let d₀ : DigestsLive (executed o) w₀ = record {
        mine = c.digests.mine;
        entry = c.digests.entry;
      } in
      let (w₁, run₁, k₁) =
        save_part (is_infix (codes o.hostname) (codes o.rname)) (some r) q rc (executed o) w₀ e₀
          d₀ in
      let e₁ : w₁.ops q ≡ some (executed o) = rw k₁.ops_same e₀ in
      let (w₂, run₂, k₂) =
        report_part (leb ((o.times_executed + 1) % u32_mod) 1) q rc (executed o) w₀ w₁ e₁ k₁ in
      (w₂, k₂, rw (c.op_live, resource_of-some q o w c, run₁, run₂) refl)

  -- The state after the completion of operation q: what is left of it, and the others as they were.
  abbrev pub LeavesOps : ℕ → Option PeOperation → Cape p → Cape p → Type 0
  LeavesOps q left v w = (w.ops q ≡ left) × ((n : ℕ) → (q == n) ≡ false → w.ops n ≡ v.ops n)

  -- The same, as a completion ends, with the digest kept for an operation that is not freed.
  pub completed_lem :
      (q : ℕ) (rc : ℤ) (o : PeOperation) (w : Cape p)
      → CanComplete q o w
      → (w' : Cape p) × (resource_action_completed q rc w ≡ ok w')
        × LeavesOps q (finished (executed o) (to_u32 rc == o.target_outcome)) w w'
        × DigestAfter q o.op_digest w'
  completed_lem q rc o w c =
      let r = resource_ref o in
      let (w₂, k₂, run) = counted q rc o w c in
      let e₂ : w₂.ops q ≡ some (executed o) = rw k₂.ops_same (store_same q _ w.ops) in
      let (w₃, run₃, k₃) = state_set-Ends r q rc (executed o) w₂ w₂ e₂ (record {
        ops_kept = refl;
        texts_kept = refl;
        pe_kept = refl;
        history_kept = refl;
        there = rw k₂.assemblies_same c.resource_there;
      }) in
      let e₃ : w₃.ops q ≡ some (executed o) = rw k₃.ops_kept e₂ in
      let t₃ : w₃.texts o.op_digest ≡ some k₂.digest_live.0 = rw k₃.texts_kept k₂.digest_live.1 in
      let (w₄, run₄, left, others, digest) =
        finish_ends r q (to_u32 rc == o.target_outcome) (executed o) w₃ e₃ t₃ in
      (
        w₄,
        run ∙ rw (run₃, run₄) refl,
        (
          left,
          λ n h.
              others n h
              ∙ ap (λ f. f n) k₃.ops_kept
              ∙ ap (λ f. f n) k₂.ops_same
              ∙ store_other q n _ w.ops h,
        ),
        digest,
      )

  -- An operation that is there, with its resource and its digests, is completed without a fault,
  -- whatever its method and result, and no other operation is touched. It has one execution more.
  -- It keeps its references exactly if it recurs and has the expected result, so that the timer
  -- holds one; otherwise it loses one, and is freed if that was the last.
  pub completed-Ends :
      (q : ℕ) (rc : ℤ) (o : PeOperation) (w : Cape p)
      → CanComplete q o w
      → Ends
          (LeavesOps q (finished (executed o) (to_u32 rc == o.target_outcome)) w)
          (resource_action_completed q rc w)
  completed-Ends q rc o w c =
      let (w', run, leaves, digest) = completed_lem q rc o w c in (w', run, leaves)
