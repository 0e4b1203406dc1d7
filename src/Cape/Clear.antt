-- ===== src/Cape/Clear.antt =====
-- What clearing the history of a node leaves as it was.
use pacemaker_cloud.Common.{
  ℕ, ◌+◌, ◌-◌, ◌%◌, arith, u32_mod, ◌≡◌, refl, ap, ◌∙◌, Bool, true, false, Option, none, some, List,
  [], ◌∷◌, String, Result, ok, strcmp_eq, After, After->>=, After-any, After-option, Bool-cases,
  inl, inr, if◌then◌else◌, ◌==◌,
}
use pacemaker_cloud.Common.Map.{lookup, lookup-update, applied}
use pacemaker_cloud.Recover.Outside.{Platform}
use pacemaker_cloud.Cape.{
  Ref, OperationHistory, Resource, Assembly, Cape, update_resource, find_resource, deref,
}
use pacemaker_cloud.Cape.Memory.{load_op, free_text, pe_resource_unref}
use pacemaker_cloud.Cape.History.{recurring_monitor_stop, history_remove, history_clear}

-- An assembly in the map with the name and the recovery state of another.
abbrev pub SameNode : {p : Platform} → Assembly p → Option (Assembly p) → Type 0
SameNode {p} a found =
    (a' : Assembly p) × (found ≡ some a') × (a'.name ≡ a.name) × (a'.recover ≡ a.recover)

module _ {p : Platform} (key : String) (a : Assembly p) (created state_gets : List String) where
  -- The node is there with its name and its recovery state, and these are the requests to the cloud.
  abbrev pub NodeKept : Cape p → Type 0
  NodeKept w =
      SameNode a (lookup key w.assembly_map) × (w.created ≡ created) × (w.state_gets ≡ state_gets)

  free_kept : (t : ℕ) (w : Cape p) → NodeKept w → After NodeKept (free_text t w)
  unfolding free_text
  free_kept t w h = After-option NodeKept (w.texts t) _ _ tt λ s. h

  unref_kept : (q : ℕ) (w : Cape p) → NodeKept w → After NodeKept (pe_resource_unref q w)
  unfolding pe_resource_unref
  unref_kept q w h = After->>= _ NodeKept (load_op q w) _ (After-any (load_op q w)) λ o _.
      elim (Bool-cases ((o.refcount + u32_mod - 1) % u32_mod == 0)) [
        | inl last ↦ rw last (
            After->>= NodeKept NodeKept (free_text o.op_digest w) _ (free_kept o.op_digest w h)
              λ w₁ h₁. h₁)
        | inr more ↦ rw more h
      ]

  applied_kept :
      (b : Bool) (f : Assembly p → Assembly p) (found : Option (Assembly p))
      → ((x : Assembly p) → ((f x).name ≡ x.name) × ((f x).recover ≡ x.recover))
      → SameNode a found
      → SameNode a (applied b f found)
  applied_kept b f none k (a', e, n, r) = absurd (ground arith)
  applied_kept true f (some x) k (a', e, n, r) =
      let same : x ≡ a' = cc in
      (f x, refl, (k x).0 ∙ ap (λ y. y.name) same ∙ n, (k x).1 ∙ ap (λ y. y.recover) same ∙ r)
  applied_kept false f (some x) k h = h

  update_kept :
      (r : Ref) (f : Resource p → Resource p) (w : Cape p)
      → NodeKept w
      → NodeKept (update_resource r f w)
  update_kept r f w (same, c, g) = (
    rw (lookup-update r.assembly key _ w.assembly_map) (
        applied_kept (strcmp_eq r.assembly key) _ (lookup key w.assembly_map) (λ x. (refl, refl))
          same),
    c,
    g,
  )

  monitor_stop_kept :
      (q : ℕ) (w : Cape p) → NodeKept w → After NodeKept (recurring_monitor_stop q w)
  unfolding recurring_monitor_stop
  monitor_stop_kept q w h = After->>= _ NodeKept (load_op q w) _ (After-any (load_op q w)) λ o _.
      After->>= _ NodeKept (deref o.resource) _ (After-any (deref o.resource)) λ r _.
        After->>= _ NodeKept (deref (find_resource r w)) _ (After-any (deref (find_resource r w)))
          λ res _.
            After->>= NodeKept NodeKept
              (elim res.monitor_timer [
                | none ↦ ok w
                | some _ ↦
                    pe_resource_unref q
                      (update_resource r (λ x. record x { monitor_timer = none }) w)
              ])
              _
              (After-option NodeKept res.monitor_timer _ _ h
                λ _. unref_kept q _ (update_kept r _ w h))
              λ w₁ h₁. unref_kept q _ (update_kept r _ w₁ h₁)

  remove_kept :
      (k : String) (oh : OperationHistory) (w : Cape p)
      → NodeKept w
      → After NodeKept (history_remove k oh w)
  unfolding history_remove
  remove_kept k oh w h =
      After->>= _ NodeKept (deref oh.resource) _ (After-any (deref oh.resource)) λ r _.
        After->>= _ NodeKept (deref (find_resource r w)) _ (After-any (deref (find_resource r w)))
          λ res _.
            After->>= NodeKept NodeKept
              (elim res.monitor_timer [
                | none ↦ ok w
                | some _ ↦ elim res.monitor_op [ none ↦ ok w | some m ↦ recurring_monitor_stop m w ]
              ])
              _
              (After-option NodeKept res.monitor_timer _ _ h
                λ _. After-option NodeKept res.monitor_op _ _ h λ m. monitor_stop_kept m w h)
              λ w₁ h₁. free_kept oh.op_digest _ h₁

  removed :
      (gone : Bool) (k : String) (oh : OperationHistory) (w : Cape p)
      → NodeKept w
      → After NodeKept (if gone then history_remove k oh w else ok w)
  removed true k oh w h = remove_kept k oh w h
  removed false k oh w h = h

  -- Clearing entries of the history leaves the node, and asks the cloud for nothing.
  pub clear_kept :
      (hit : Option Ref → Result Bool) (entries : List (String × OperationHistory)) (w : Cape p)
      → NodeKept w
      → After NodeKept (history_clear hit entries w)
  unfolding history_clear
  clear_kept hit [] w h = h
  clear_kept hit ((k, oh) ∷ rest) w h =
      After->>= _ NodeKept (hit oh.resource) _ (After-any (hit oh.resource)) λ gone _.
        After->>= NodeKept NodeKept (if gone then history_remove k oh w else ok w) _
          (removed gone k oh w h) λ w₁ h₁. clear_kept hit rest w₁ h₁
