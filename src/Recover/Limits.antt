-- ===== src/Recover/Limits.antt =====
-- From the limits in the configuration to the escalations: `recover_init`, and then failures.
use pacemaker_cloud.Common.{
  ℕ, suc, ◌≡◌, ◌≢◌, ◌<◌, refl, Option, String, pos, Result, ok, ◌>>=◌, List, [], ◌∷◌, length, All,
  arith, subst,
}
use pacemaker_cloud.Recover.Outside.{Platform, StopwatchLaws}
use pacemaker_cloud.Recover.{unknown, running}
use pacemaker_cloud.Recover.Init.{limit_of, recover_init}
use pacemaker_cloud.Recover.Laws.{changed, escalated, Traced, traced_set}
use pacemaker_cloud.Recover.Escalation.{fail_each, expected, armed, fail_each-calls, few_escalated}

module _ (p : Platform) where
  -- A structure that `recover_init` filled in, set to "running", that then fails at each of `times`.
  unfoldable pub life : ℕ → ℕ → Option String → Option String → List ℕ → Result (Traced p)
  life now errno failures period times = do
    w ←
        traced_set p now running
          (record { recover = (recover_init p now errno failures period).0; calls = [] })
    fail_each p times w

  module _ (L : StopwatchLaws p) (k period : ℕ) (now errno : ℕ) (f t : Option String)
      (f_is : (limit_of errno f).0 ≡ pos (suc (suc k)))
      (t_is : (limit_of (limit_of errno f).1 t).0 ≡ pos (suc period)) where
    started : p.Sw
    started = p.split_ctl (suc (suc k)) (p.create now)

    init_lem : (recover_init p now errno f t).0 ≡ armed p k period unknown started
    unfolding recover_init started
    init_lem = rw (f_is, t_is) refl

    -- Where the configuration asks for k + 2 failures within a positive period, the callbacks made
    -- over any sequence of failures, each followed by a recovery, are those of the specification:
    -- a failure is escalated exactly if, of the failures since the last escalation, the (k + 1)-th
    -- before it is no further back than the period, and otherwise the node or resource is restarted.
    pub life_calls :
        (times : List ℕ)
        → (v : p.Sw) × (life now errno f t times
            ≡ ok (record {
              recover = armed p k period running v;
              calls = changed unknown running ∷ expected p k period [] times;
            }))
    unfolding life traced_set started
    life_calls times =
        let (v, e) =
          fail_each-calls p L k period times started (changed unknown running ∷ [])
            (L.size-create now (suc (suc k))) in
        (v, rw (init_lem, e, L.splits-create now (suc (suc k))) refl)

    -- Fewer failures than the configured number never escalate, however fast they follow.
    pub few_restart :
        (times : List ℕ) (w : Traced p)
        → length times < suc (suc k)
        → life now errno f t times ≡ ok w
        → All (λ c. c ≢ escalated) w.calls
    few_restart times w h e =
        let (v, run) = life_calls times in
        let same : record {
          recover = armed p k period running v;
          calls = changed unknown running ∷ expected p k period [] times;
        }
            ≡ w =
          cc in
        subst (λ (x : Traced p). All (λ c. c ≢ escalated) x.calls) same
          ((λ x. cc), few_escalated p k period [] times (omega arith))
