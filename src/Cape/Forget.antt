-- ===== src/Cape/Forget.antt =====
-- What is saved in the history for a resource and then deleted leaves no trace in it.
use pacemaker_cloud.Common.{
  ℕ, ◌%◌, u32_mod, not, eq_ℤ, ◌+◌, ◌==◌, ◌≡◌, refl, sym, ap, ◌∙◌, Bool, true, false, Option, none,
  some, [], ◌∷◌, ◌++◌, String, ℤ, All, Bool-cases, inl, inr, eq_refl, if_true, if_false, Result, ok,
  ◌>>=◌, strcmp_eq, if◌then◌else◌,
}
use pacemaker_cloud.Common.Map.{QbMap, lookup, insert, erase}
use pacemaker_cloud.Ocf.{ocf_pending}
use pacemaker_cloud.Recover.Outside.{Platform}
use pacemaker_cloud.Recover.Total.{Ends}
use pacemaker_cloud.Cape.{Ref, PeOperation, OperationHistory, Resource, Cape, find_resource}
use pacemaker_cloud.Cape.Memory.{free_text, store}
use pacemaker_cloud.Cape.Count.{store_same, store_other}
use pacemaker_cloud.Cape.History.{
  history_key, ref_ptr_eq, dup_text, history_new, history_stamp, op_history_save, history_remove,
  history_clear,
}

module _ {ℓ} {V : Type ℓ} where
  insert_fresh :
      (key : String) (x : V) (m : QbMap V)
      → lookup key m ≡ none
      → insert key x m ≡ m ++ (key, x) ∷ []
  unfolding lookup insert
  insert_fresh key x [] h = refl
  insert_fresh key x (entry ∷ rest) h = elim (Bool-cases (strcmp_eq entry.0 key)) [
    | inl e ↦
        let clash : some entry.1 ≡ none =
          sym (if_true (strcmp_eq entry.0 key) (some entry.1) (lookup key rest) e) ∙ h in
        cc
    | inr e ↦ rw e (
        ap (λ m. entry ∷ m)
          (insert_fresh key x rest
            (sym (if_false (strcmp_eq entry.0 key) (some entry.1) (lookup key rest) e) ∙ h)))
  ]

  erase_fresh :
      (key : String) (x : V) (m : QbMap V)
      → lookup key m ≡ none
      → erase key (m ++ (key, x) ∷ []) ≡ m
  unfolding lookup erase
  erase_fresh key x [] h = rw (eq_refl key) refl
  erase_fresh key x (entry ∷ rest) h = elim (Bool-cases (strcmp_eq entry.0 key)) [
    | inl e ↦
        let clash : some entry.1 ≡ none =
          sym (if_true (strcmp_eq entry.0 key) (some entry.1) (lookup key rest) e) ∙ h in
        cc
    | inr e ↦ rw e (
        ap (λ m. entry ∷ m)
          (erase_fresh key x rest
            (sym (if_false (strcmp_eq entry.0 key) (some entry.1) (lookup key rest) e) ∙ h)))
  ]

-- The test of `op_history_delete` for an operation of the resource r.
abbrev pub of_resource : Ref → Option Ref → Result Bool
of_resource r x = ok (ref_ptr_eq x (some r))

abbrev pub OfOthers : Ref → QbMap OperationHistory → Type 0
OfOthers r = All (λ e. ref_ptr_eq e.1.resource (some r) ≡ false)

ref_eq_self : (r : Ref) → ref_ptr_eq (some r) (some r) ≡ true
ref_eq_self r = rw (eq_refl r.assembly, eq_refl r.name) refl

module _ {p : Platform} where
  others_stay :
      (r : Ref) (m back : QbMap OperationHistory) (w : Cape p)
      → OfOthers r m
      → history_clear (of_resource r) (m ++ back) w ≡ history_clear (of_resource r) back w
  unfolding history_clear
  others_stay r [] back w h = refl
  others_stay r ((key, oh) ∷ rest) back w (other, h) = rw other (others_stay r rest back w h)

  -- The new entry.
  abbrev saved_entry : Ref → ℤ → PeOperation → Cape p → OperationHistory
  saved_entry r ec o w = record {
    rsc_id = history_key o;
    operation = o.method;
    call_id = w.call_order;
    interval = o.interval;
    rc = ec;
    target_outcome = o.target_outcome;
    last_run = w.now;
    last_rc_change = if not (eq_ℤ ocf_pending ec) then w.now else 0;
    graph_id = o.graph_id;
    action_id = o.action_id;
    op_digest = w.next_text;
    resource = some r;
  }

  last_goes :
      (r : Ref) (key : String) (oh : OperationHistory) (x : Resource p) (w : Cape p) {s : String}
      → oh.resource ≡ some r
      → find_resource r w ≡ some x
      → x.monitor_timer ≡ none
      → w.texts oh.op_digest ≡ some s
      → history_clear (of_resource r) ((key, oh) ∷ []) w
        ≡ ok (record w {
          op_history_map = erase key w.op_history_map;
          texts = store oh.op_digest none w.texts;
        })
  unfolding history_clear history_remove free_text
  last_goes r key oh x w of there quiet t = rw of (rw (ref_eq_self r) (rw (there, quiet, t) refl))

  -- Where the history has nothing of a resource, whose monitor does not run: after the result of an
  -- operation is saved for it and the entries of the resource are deleted, the history is as it was
  -- before, and so are the texts, but for the place of the copied digest, which is free.
  pub save-clear :
      (r : Ref) (q : ℕ) (ec : ℤ) (o : PeOperation) (digest : String) (x : Resource p) (w : Cape p)
      → w.ops q ≡ some o
      → w.texts o.op_digest ≡ some digest
      → lookup (history_key o) w.op_history_map ≡ none
      → OfOthers r w.op_history_map
      → find_resource r w ≡ some x
      → x.monitor_timer ≡ none
      → Ends
          (λ w'.
            (w'.op_history_map ≡ w.op_history_map)
            × (w'.texts w.next_text ≡ none)
            × ((n : ℕ) → (w.next_text == n) ≡ false → w'.texts n ≡ w.texts n))
          (op_history_save (some r) q ec w >>= λ w₁.
            history_clear (of_resource r) w₁.op_history_map w₁)
  unfolding op_history_save history_new dup_text history_stamp
  save-clear r q ec o digest x w live t fresh others there quiet =
      let key = history_key o in
      let saved = saved_entry r ec o w in
      let w₁ : Cape p = record w {
        op_history_map = w.op_history_map ++ (key, saved) ∷ [];
        call_order = (w.call_order + 1) % u32_mod;
        texts = store w.next_text (some digest) w.texts;
        next_text = w.next_text + 1;
      } in
      let goes =
        last_goes r key saved x w₁ refl there quiet
          (store_same w.next_text (some digest) w.texts) in
      rw (live, fresh, t)
        (rw (insert_fresh key saved w.op_history_map fresh) (
          rw (others_stay r w.op_history_map ((key, saved) ∷ []) w₁ others) (
            rw goes (
              _,
              refl,
              (
                erase_fresh key saved w.op_history_map fresh,
                store_same w.next_text none w₁.texts,
                λ n h.
                    store_other w.next_text n none w₁.texts h
                    ∙ store_other w.next_text n (some digest) w.texts h,
              ),
            ))))
