-- ===== src/Cape/Recurring.antt =====
-- References over a whole round of an operation, and the end of a recurring monitor.
use pacemaker_cloud.Common.{
  ℕ, suc, ◌+◌, ◌-◌, ◌%◌, ◌<◌, ◌≡◌, refl, ap, ◌∙◌, Bool, true, false, Option, none, some, [], ◌∷◌,
  ◌++◌, ℤ, ◌>>=◌, inl, inr, arith, Bool-cases, if◌then◌else◌, strcmp_eq, u32_mod, to_u32, ◌==◌, ltb,
}
use pacemaker_cloud.Recover.Outside.{Platform}
use pacemaker_cloud.Recover.Total.{Ends}
use pacemaker_cloud.Ocf.{pe_resource_ocf_exitcode_get}
use pacemaker_cloud.Cape.{PeOperation, Cape}
use pacemaker_cloud.Cape.Memory.{store, pe_resource_ref, pe_resource_unref}
use pacemaker_cloud.Cape.Monitor.{
  resource_action_completion, resource_action_completed, transport_resource_action,
}
use pacemaker_cloud.Cape.Count.{CanComplete, DigestAfter, dropped, finished, store_same, unref_ends}
use pacemaker_cloud.Cape.Completion.{executed, completed_lem}

-- The code that the completion gets from the exit status of the remote command.
abbrev pub code_of : PeOperation → ℤ → ℤ
code_of o ssh_rc =
    if strcmp_eq o.rclass "lsb"
    then pe_resource_ocf_exitcode_get o.rclass o.method ssh_rc
    else ssh_rc

-- What is left of an operation with that many references.
abbrev pub with_count : PeOperation → ℕ → Option PeOperation
with_count o n = if n == 0 then none else some (record o { refcount = n })

-- The references after a round that began with n + 1.
abbrev pub kept_count : Bool → Bool → ℕ → ℕ
kept_count again expected n = if again then (if expected then suc n else n) else n

kept_count_small : (a b : Bool) (n : ℕ) → suc (suc n) < u32_mod → suc (kept_count a b n) < u32_mod
kept_count_small true true n h = h
kept_count_small true false n h = omega arith
kept_count_small false b n h = omega arith

pub dropped-suc :
    (o : PeOperation) (n : ℕ) → o.refcount ≡ suc n → suc n < u32_mod → dropped o ≡ with_count o n
dropped-suc o n e h = let m : (o.refcount + u32_mod - 1) % u32_mod ≡ n = omega arith in rw m refl

suc_nonzero : (n : ℕ) → (suc n == 0) ≡ false
suc_nonzero n = ground arith

pub dropped_more :
    (o : PeOperation) (n : ℕ)
    → o.refcount ≡ suc (suc n)
    → suc (suc n) < u32_mod
    → dropped o ≡ some (record o { refcount = suc n })
dropped_more o n e h = dropped-suc o (suc n) e h ∙ rw (suc_nonzero n) refl

finished_is :
    (o : PeOperation) (n : ℕ) (b : Bool)
    → o.refcount ≡ suc (suc n)
    → suc (suc n) < u32_mod
    → finished o b ≡ some (record o { refcount = suc (kept_count (ltb 0 o.interval) b n) })
finished_is o n true e h = elim (Bool-cases (ltb 0 o.interval)) [
  | inl i ↦ rw i (ap (λ k. some (record o { refcount = k })) e)
  | inr i ↦ rw i (dropped_more o n e h)
]
finished_is o n false e h = elim (Bool-cases (ltb 0 o.interval)) [
  | inl i ↦ rw i (dropped_more o n e h)
  | inr i ↦ rw i (dropped_more o n e h)
]

module _ {p : Platform} where
  pub last_unref :
      (q : ℕ) (o : PeOperation) (n : ℕ) (w : Cape p)
      → w.ops q ≡ some (record o { refcount = suc n })
      → suc n < u32_mod
      → DigestAfter q o.op_digest w
      → Ends (λ w'. w'.ops q ≡ with_count o n) (pe_resource_unref q w)
  last_unref q o n w e h (inl gone) = absurd (ground arith)
  last_unref q o n w e h (inr (s, t)) =
      let (w', run, is, d) = unref_ends q (record o { refcount = suc n }) w e t in
      (w', run, is.is_now ∙ dropped-suc (record o { refcount = suc n }) n refl h)

  -- The result of an operation that the transport holds a reference to: the operation is completed,
  -- and the transport gives its reference back.
  pub completed_unref :
      (q : ℕ) (rc : ℤ) (o : PeOperation) (n : ℕ) (w : Cape p)
      → CanComplete q o w
      → o.refcount ≡ suc (suc n)
      → suc (suc n) < u32_mod
      → let again = ltb 0 o.interval in
        let expected = to_u32 rc == o.target_outcome in
        Ends
          (λ w'. w'.ops q ≡ with_count (executed o) (kept_count again expected n))
          (resource_action_completed q rc w >>= pe_resource_unref q)
  completed_unref q rc o n w c e h =
      let expected = to_u32 rc == o.target_outcome in
      let (w₂, run₂, leaves, digest) = completed_lem q rc o w c in
      let left : w₂.ops q
          ≡ some
              (record (executed o) { refcount = suc (kept_count (ltb 0 o.interval) expected n) }) =
        leaves.0 ∙ finished_is (executed o) n expected e h in
      let (w₃, run₃, last) =
        last_unref q (executed o) (kept_count (ltb 0 o.interval) expected n) w₂ left
          (kept_count_small (ltb 0 o.interval) expected n h) digest in
      rw (run₂, run₃) (w₃, refl, last)

  -- A round of an operation: it is handed to the transport, and its result arrives. That the
  -- operation, its resource, its digest and that of its entry in the history are there makes the
  -- round end without a fault (without the digests it need not). The operation has then the
  -- references that it had before, if it recurs and has the expected result (its timer holds one),
  -- and one less otherwise: an operation that had one reference is freed, whatever its result. The
  -- number of references has room for one more.
  pub round-Ends :
      (q : ℕ) (ssh_rc : ℤ) (o : PeOperation) (n : ℕ) (w : Cape p)
      → CanComplete q o w
      → o.refcount ≡ suc n
      → suc (suc n) < u32_mod
      → let again = ltb 0 o.interval in
        let expected = to_u32 (code_of o ssh_rc) == o.target_outcome in
        Ends
          (λ w'. w'.ops q ≡ with_count (executed o) (kept_count again expected n))
          (transport_resource_action q w >>= resource_action_completion q ssh_rc)
  unfolding transport_resource_action resource_action_completion pe_resource_ref
  round-Ends q ssh_rc o n w c e h =
      let o₁ : PeOperation = record o { refcount = (o.refcount + 1) % u32_mod } in
      let w₁ : Cape p = record w {
        ops = store q (some o₁) w.ops;
        actions_sent = w.actions_sent ++ q ∷ [];
      } in
      let c₁ : CanComplete q o₁ w₁ = record {
        op_live = store_same q _ w.ops;
        digests = record { mine = c.digests.mine; entry = c.digests.entry };
        resource_there = c.resource_there;
      } in
      let (w₃, run₃, last) = completed_unref q (code_of o ssh_rc) o₁ n w₁ c₁ (omega arith) h in
      rw (c.op_live, store_same q (some o₁) w.ops, run₃) (w₃, refl, last)
