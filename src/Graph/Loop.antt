-- ===== src/Graph/Loop.antt =====
-- The jobs of the main loop that run a transition, in any order.
use pacemaker_cloud.Common.{
  ℕ, ◌+◌, ◌-◌, ◌==◌, ◌≡◌, refl, sym, ap, ◌∙◌, Bool, true, false, List, [], ◌∷◌, String, ℤ, is_zero,
  Result, ok, ◌>>=◌, After, After->>=, After-step, Bool-cases, inl, inr, if◌then◌else◌, arith,
}
use pacemaker_cloud.Common.Xml.{XmlNodes}
use pacemaker_cloud.Recover.Outside.{Platform}
use pacemaker_cloud.Recover.Keeps.{After-if, After-if_cases}
use pacemaker_cloud.Cape.{Pe, Cape}
use pacemaker_cloud.Cape.Monitor.{resource_monitor_execute, resource_action_completion}
use pacemaker_cloud.Cape.Process.{pe_process_state, process, process_job}
use pacemaker_cloud.Cape.Status.{nodes_status, with_status}
use pacemaker_cloud.Graph.{
  Fired, TransitionStatus, goes_on, exec_actions, process_next_job, run_next_job,
}
use pacemaker_cloud.Graph.Engine.{EngineIs}
use pacemaker_cloud.Graph.Operations.{monitor_execute_engine}
use pacemaker_cloud.Graph.Execute.{completion_engine, actions_engine}

abbrev GoodPe : Pe → Type 0
GoodPe g = g.next_jobs ≡ (if g.busy then 1 else 0)

start_engine :
    (validate_xml : XmlNodes → Bool) (debug : Bool) (doc : XmlNodes) (g : Pe)
    → GoodPe g
    → After (λ x. GoodPe x.1) (pe_process_state validate_xml debug doc g)
unfolding pe_process_state
start_engine validate_xml debug doc g h =
    After-if_cases (λ x. GoodPe x.1) g.busy _ _ (λ e. h)
      λ e.
        let one : g.next_jobs + 1 ≡ 1 = ap (λ n. n + 1) (h ∙ ap (λ b. if b then 1 else 0) e) in
        After-if (λ x. GoodPe x.1) debug _ _
          (After-if (λ x. GoodPe x.1) (validate_xml doc) _ _ one tt) one

has_job : (n : ℕ) (b : Bool) → n ≡ (if b then 1 else 0) → (n == 0) ≡ false → (b ≡ true) × (n ≡ 1)
has_job n true h e = (refl, h)
has_job n false h e = absurd (has_none h e)
  where
    has_none : {n : ℕ} → n ≡ 0 → (n == 0) ≡ false → ⊥
    has_none h e = ground arith

one_job :
    (b busy : Bool) (jobs : ℕ)
    → busy ≡ b
    → jobs ≡ (if b then 1 else 0)
    → jobs ≡ (if busy then 1 else 0)
one_job b busy jobs e f = f ∙ ap (λ b. if b then 1 else 0) (sym e)

-- What the main loop does next: it runs the job that reports to the policy engine, or the job that
-- runs the graph, where it has one; or the result of an operation arrives, or the timer of a
-- recurring monitor fires.
pub data LoopEvent : Type 0 where
  report : LoopEvent
  run_graph : List Fired → TransitionStatus → LoopEvent
  result : ℕ → ℤ → LoopEvent
  monitor_due : ℕ → LoopEvent

-- There is one job to run the graph while a transition is in progress, and none otherwise.
abbrev pub OneJob : {p : Platform} → XmlNodes × Cape p → Type 0
OneJob s = s.1.pe.next_jobs ≡ (if s.1.pe.busy then 1 else 0)

module _ {p : Platform} (validate_xml : XmlNodes → Bool) (debug : Bool) (crmd_uuid : String) where
  unfoldable pub loop_step : LoopEvent → XmlNodes × Cape p → Result (XmlNodes × Cape p)
  loop_step report s = process_job validate_xml debug crmd_uuid s
  loop_step (run_graph fired graph_rc) (children, w) =
      if w.pe.next_jobs == 0
      then ok (children, w)
      else (run_next_job fired graph_rc w >>= λ w₁. ok (children, w₁))
  loop_step (result q rc) (children, w) =
      resource_action_completion q rc w >>= λ w₁. ok (children, w₁)
  loop_step (monitor_due q) (children, w) = resource_monitor_execute q w >>= λ w₁. ok (children, w₁)

  unfoldable pub loop_steps : List LoopEvent → XmlNodes × Cape p → Result (XmlNodes × Cape p)
  unfolding loop_step
  loop_steps [] s = ok s
  loop_steps (e ∷ events) s = loop_step e s >>= λ s₁. loop_steps events s₁

  -- With the job taken off, what it does to the engine.
  next_job :
      (fired : List Fired) (graph_rc : TransitionStatus) (children : XmlNodes) (w : Cape p)
      → EngineIs true 0 w
      → After (λ w₁. OneJob (children, w₁)) (process_next_job fired graph_rc w)
  unfolding process_next_job
  next_job fired graph_rc children w h =
      let Good : Cape p → Type 0 = λ w₁. OneJob (children, w₁) in
      After-if Good w.pe.graph_updated _ _
        (After->>= (EngineIs true 0) Good (exec_actions fired _) _ (actions_engine true 0 fired _ h)
          λ w₁ k.
            After-if Good (goes_on graph_rc) _ _ (one_job true _ _ k.0 (ap (λ n. n + 1) k.1))
              (After-if Good w₁.pe.busy _ _ (one_job false _ _ refl k.1) tt))
        (one_job true _ _ h.0 (ap (λ n. n + 1) h.1))

  step-OneJob : (e : LoopEvent) (s : XmlNodes × Cape p) → OneJob s → After OneJob (loop_step e s)
  unfolding loop_step run_next_job process_job process
  step-OneJob report (children, w) h =
      After-if_cases OneJob w.pe.busy _ _ (λ e. h)
        λ e. After-step OneJob (nodes_status crmd_uuid w w.assembly_map) _ λ states.
          After->>= (λ x. GoodPe x.1) OneJob
            (pe_process_state validate_xml debug (with_status states children) w.pe) _
            (start_engine validate_xml debug _ w.pe h)
            λ (rc, g) k. elim (Bool-cases (is_zero rc)) [ inl z ↦ rw z k | inr z ↦ rw z k ]
  step-OneJob (run_graph fired graph_rc) (children, w) h =
      After-if_cases OneJob (w.pe.next_jobs == 0) _ _ (λ e. h)
        λ e.
          let (busy, one) = has_job w.pe.next_jobs w.pe.busy h e in
          After->>= (λ w₁. OneJob (children, w₁)) OneJob (run_next_job fired graph_rc w) _
            (next_job fired graph_rc children _ (busy, ap (λ n. n - 1) one)) λ w₁ h₁. h₁
  step-OneJob (result q rc) (children, w) h =
      After->>= (EngineIs w.pe.busy w.pe.next_jobs) OneJob (resource_action_completion q rc w) _
        (completion_engine w.pe.busy w.pe.next_jobs q rc w (refl, refl))
        λ w₁ (busy, jobs). one_job w.pe.busy _ _ busy (jobs ∙ h)
  step-OneJob (monitor_due q) (children, w) h =
      After->>= (EngineIs w.pe.busy w.pe.next_jobs) OneJob (resource_monitor_execute q w) _
        (monitor_execute_engine w.pe.busy w.pe.next_jobs q w (refl, refl))
        λ w₁ (busy, jobs). one_job w.pe.busy _ _ busy (jobs ∙ h)

  -- Whatever the order in which jobs run, results arrive and timers fire, and whatever the library
  -- executes and returns: as long as the process is there, it has one job to run the graph while a
  -- transition is in progress, and none otherwise.
  pub steps-OneJob :
      (events : List LoopEvent) (s : XmlNodes × Cape p)
      → OneJob s
      → After OneJob (loop_steps events s)
  unfolding loop_steps
  steps-OneJob [] s h = h
  steps-OneJob (e ∷ events) s h =
      After->>= OneJob OneJob (loop_step e s) _ (step-OneJob e s h)
        λ s₁ h₁. steps-OneJob events s₁ h₁
