-- ===== src/Cape/Digest.antt =====
-- What a changed digest does to the history: the entry keeps a pointer that the operation frees.
use pacemaker_cloud.Common.{
  ℕ, ◌+◌, ◌-◌, ◌%◌, u32_mod, ◌≡◌, refl, ◌∙◌, true, false, Option, none, some, String, ℤ, fault,
  use_after_free, ◌>>=◌, arith, eq_refl, strcmp_eq, ◌==◌, ==_self,
}
use pacemaker_cloud.Common.Map.{lookup, lookup-insert}
use pacemaker_cloud.Recover.Outside.{Platform}
use pacemaker_cloud.Cape.{Ref, PeOperation, OperationHistory, Cape}
use pacemaker_cloud.Cape.Memory.{store, pe_resource_unref}
use pacemaker_cloud.Cape.History.{history_key, op_history_save, history_old, history_stamp}
use pacemaker_cloud.Cape.Count.{store_other, free_text-some, free_other}

module _ {p : Platform} where
  -- The result of an operation is saved whose digest differs from that of the entry for its key, and
  -- the operation is then freed. The next result for that key is lost in a read of freed memory.
  pub digest_dangles :
      (q q' : ℕ) (o o' : PeOperation) (oh : OperationHistory) (r r' : Option Ref) (ec ec' : ℤ)
      (w : Cape p) {s t : String}
      → w.ops q ≡ some o
      → w.ops q' ≡ some o'
      → (q == q') ≡ false
      → history_key o' ≡ history_key o
      → lookup (history_key o) w.op_history_map ≡ some oh
      → w.texts oh.op_digest ≡ some s
      → w.texts o.op_digest ≡ some t
      → strcmp_eq s t ≡ false
      → o.refcount ≡ 1
      → (op_history_save r q ec w >>= pe_resource_unref q >>= op_history_save r' q' ec')
        ≡ fault use_after_free
  unfolding op_history_save history_old history_stamp pe_resource_unref
  digest_dangles q q' o o' oh r r' ec ec' w {s = s} {t = t} e e' n key found hs ht differ one =
      let live_t = free_other oh.op_digest o.op_digest s t w.texts hs ht differ in
      let last : ((o.refcount + u32_mod - 1) % u32_mod == 0) ≡ true = ground arith in
      let other : store q none w.ops q' ≡ some o' = store_other q q' none w.ops n ∙ e' in
      let w₁ : Cape p =
        history_stamp ec o (record oh { op_digest = o.op_digest })
          (record w { texts = store oh.op_digest none w.texts }) in
      rw (e, found, hs, ht, differ, free_text-some oh.op_digest w hs)
        (rw (e, last, free_text-some o.op_digest w₁ live_t)
          (rw other
            (rw (key, lookup-insert, eq_refl) (rw (==_self o.op_digest, history_old) refl))))
