-- ===== src/Cape/Stop.antt =====
-- The end of a recurring monitor, and what a changed digest does to the history.
use pacemaker_cloud.Common.{ℕ, ◌≡◌, refl, ◌∙◌, Option, none, some, String, inl, inr, arith}
use pacemaker_cloud.Recover.Outside.{Platform}
use pacemaker_cloud.Recover.Total.{Ends}
use pacemaker_cloud.Cape.{Ref, PeOperation, Resource, Cape, find_resource, update_resource}
use pacemaker_cloud.Cape.Memory.{pe_resource_unref}
use pacemaker_cloud.Cape.History.{recurring_monitor_stop}
use pacemaker_cloud.Cape.Frame.{find-update_resource}
use pacemaker_cloud.Cape.Count.{DigestAfter, unref_ends}
use pacemaker_cloud.Cape.Recurring.{dropped-suc, dropped_more}

-- The references that a monitor that is not in flight has: the resource's, and its running timer's.
abbrev pub held : Option ℕ → ℕ
held none = 1
held (some q) = 2

module _ {p : Platform} where
  -- The resource is there with neither monitor nor timer.
  abbrev pub IsQuiet : Ref → Cape p → Type 0
  IsQuiet r w =
      (x : Resource p) × (find_resource r w ≡ some x)
      × (x.monitor_op ≡ none)
      × (x.monitor_timer ≡ none)

  stop_last :
      (q : ℕ) (o : PeOperation) (r : Ref) (x : Resource p) (w : Cape p)
      → w.ops q ≡ some o
      → find_resource r w ≡ some x
      → x.monitor_timer ≡ none
      → DigestAfter q o.op_digest w
      → o.refcount ≡ 1
      → Ends
          (λ w'. (w'.ops q ≡ none) × IsQuiet r w')
          (pe_resource_unref q (update_resource r (λ x. record x { monitor_op = none }) w))
  stop_last q o r x w e g t (inl gone) n = absurd (ground arith)
  stop_last q o r x w e g t (inr (s, d)) n =
      let w₁ = update_resource r (λ x. record x { monitor_op = none }) w in
      let (w₂, run, is, _) = unref_ends q o w₁ e d in
      (
        w₂,
        run,
        (
          is.is_now ∙ dropped-suc o 0 n (omega arith),
          (
            record x { monitor_op = none },
            rw is.assemblies (find-update_resource r _ w g),
            refl,
            t,
          ),
        ),
      )

  stop_with_timer :
      (q : ℕ) (o : PeOperation) (r : Ref) (x : Resource p) (t : Option ℕ) (w : Cape p) {s : String}
      → w.ops q ≡ some o
      → o.resource ≡ some r
      → find_resource r w ≡ some x
      → w.texts o.op_digest ≡ some s
      → x.monitor_timer ≡ t
      → o.refcount ≡ held t
      → Ends (λ w'. (w'.ops q ≡ none) × IsQuiet r w') (recurring_monitor_stop q w)
  unfolding recurring_monitor_stop
  stop_with_timer q o r x none w {s = s} e f g d t n =
      rw (e, f, g, t) (stop_last q o r x w e g t (inr (s, d)) n)
  stop_with_timer q o r x (some m) w e f g d t n =
      let w₁ = update_resource r (λ x. record x { monitor_timer = none }) w in
      let g₁ : find_resource r w₁ ≡ some (record x { monitor_timer = none }) =
        find-update_resource r _ w g in
      let (w₂, run, is, digest) = unref_ends q o w₁ e d in
      let g₂ : find_resource r w₂ ≡ some (record x { monitor_timer = none }) =
        rw is.assemblies g₁ in
      let left = is.is_now ∙ dropped_more o 0 n (omega arith) in
      let last = stop_last q (record o { refcount = 1 }) r _ w₂ left g₂ refl digest refl in
      rw (e, f, g, t, run) last

  -- A recurring monitor that is not in flight, whose references are those of its resource and of its
  -- timer, is stopped without a fault, whether its timer runs or not: it is freed, and the resource
  -- has neither a monitor nor a timer left that could lead to it.
  pub monitor_stop_frees :
      (q : ℕ) (o : PeOperation) (r : Ref) (x : Resource p) (w : Cape p) {s : String}
      → w.ops q ≡ some o
      → o.resource ≡ some r
      → find_resource r w ≡ some x
      → w.texts o.op_digest ≡ some s
      → o.refcount ≡ held x.monitor_timer
      → Ends (λ w'. (w'.ops q ≡ none) × IsQuiet r w') (recurring_monitor_stop q w)
  monitor_stop_frees q o r x w e f g d n = stop_with_timer q o r x x.monitor_timer w e f g d refl n
