-- ===== src/Cpe/Outcome.antt =====
-- What the console of the agent is told about a deployable, against what libdbus answered.
use pacemaker_cloud.Common.{
  ◌≡◌, refl, ap, ◌∙◌, ◌>>=◌, Bool, true, false, ◌&&◌, Option, none, some, [], ◌∷◌, String, Result,
  ok, fault, Bool-cases, inl, inr, if◌then◌else◌,
}
use pacemaker_cloud.Common.Text.{codes, is_infix}
use pacemaker_cloud.Common.Print.{join}
use pacemaker_cloud.Cpe.{
  dbus_string, dbus_array, dbus_boolean, dbus_init, links_to_systemd, Dbus, DbusMessage, DbusReply,
  InitState, replied, out_of_memory, other_error, systemd_message, upstart_message, systemd_rc,
  upstart_rc, finish_early, systemd_init_job, upstart_init_job, init_job_start, init_job_stop,
  init_job_reload, Sent,
}
use pacemaker_cloud.Cpe.Agent.{
  AgentEvent, agent_method, Dispatch, method_success, raise_exception, event_dispatch, dep_start,
  dep_stop, dep_reload, dep_result, answered,
}

pub data DeployableCall : Type 0 where
  start_call stop_call reload_call : DeployableCall

-- An event with a method on a deployable.
abbrev pub deployable_event : DeployableCall → (String → String) → AgentEvent
deployable_event start_call argument = record {
  type = agent_method;
  method_name = "deployable_start";
  argument = argument;
}
deployable_event stop_call argument = record {
  type = agent_method;
  method_name = "deployable_stop";
  argument = argument;
}
deployable_event reload_call argument = record {
  type = agent_method;
  method_name = "deployable_reload";
  argument = argument;
}

-- The name of the call for systemd, and for Upstart.
abbrev systemd_member : DeployableCall → String
systemd_member start_call = "StartUnit"
systemd_member stop_call = "StopUnit"
systemd_member reload_call = "ReloadUnit"

abbrev upstart_member : DeployableCall → String
upstart_member start_call = "Start"
upstart_member stop_call = "Stop"
upstart_member reload_call = "Reload"

-- The message that stands for the call: to systemd about the unit monitor@instance.service, and to
-- Upstart about the job of the monitor, with the instance in its environment.
abbrev pub job_message : Bool → DeployableCall → String → String → DbusMessage
job_message true call monitor instance = record {
  destination = "org.freedesktop.systemd1";
  path = "/org/freedesktop/systemd1";
  interface = "org.freedesktop.systemd1.Manager";
  member = systemd_member call;
  args =
      dbus_string (join (monitor ∷ "@" ∷ instance ∷ ".service" ∷ [])) ∷ dbus_string "replace" ∷ [];
}
job_message false call monitor instance = record {
  destination = "com.ubuntu.Upstart";
  path = join ("/com/ubuntu/Upstart/jobs/" ∷ monitor ∷ []);
  interface = "com.ubuntu.Upstart0_6.Job";
  member = upstart_member call;
  args = dbus_array (join ("INSTANCE=" ∷ instance ∷ []) ∷ []) ∷ dbus_boolean true ∷ [];
}

-- Whether systemd runs, by the link of /sbin/init: "systemd" stands somewhere in it.
abbrev pub is_systemd : Option String → Bool
is_systemd none = false
is_systemd (some link) = is_infix (codes "systemd") (codes link)

is_systemd_lem : (link : Option String) → links_to_systemd link ≡ is_systemd link
is_systemd_lem none = refl
is_systemd_lem (some link) = refl

systemd_message_lem :
    (call : DeployableCall) (monitor instance : String)
    → systemd_message (systemd_member call) monitor instance
      ≡ job_message true call monitor instance
unfolding systemd_message
systemd_message_lem call monitor instance = refl

upstart_message_lem :
    (call : DeployableCall) (monitor instance : String)
    → upstart_message (upstart_member call) monitor instance
      ≡ job_message false call monitor instance
unfolding upstart_message
upstart_message_lem call monitor instance = refl

-- Whether the message can be made.
abbrev pub can_send : Bool → Dbus → Bool
can_send true lib = lib.new_method_call && lib.append_args
can_send false lib =
    lib.new_method_call
    && (lib.open_container && (lib.append_element && (lib.close_container && lib.append_wait)))

-- Whether a reply counts as a success: one that names a job, or any reply of Upstart that is not to a
-- start.
abbrev pub is_taken : Bool → DeployableCall → DbusReply → Bool
is_taken systemd call (replied true) = true
is_taken true call (replied false) = false
is_taken false start_call (replied false) = false
is_taken false stop_call (replied false) = true
is_taken false reload_call (replied false) = true
is_taken systemd call out_of_memory = false
is_taken systemd call other_error = false

-- What the agent does, where freeing an error that was never initialised is harmless.
abbrev pub outcome : Bool → Dbus → Bool → DeployableCall → DbusMessage → Dispatch
outcome systemd lib connected call m =
    if can_send systemd lib
    then record {
      answer = some (
          if is_taken systemd call (lib.send connected m)
          then method_success (some 0)
          else raise_exception);
      sent = some m;
    }
    else record { answer = some raise_exception; sent = none }

abbrev told : Result Sent → Result Dispatch
told r = r >>= λ r. ok (answered (dep_result r))

-- A reply is told as the specification says.
taken_systemd :
    (call : DeployableCall) (m : DbusMessage) (reply : DbusReply)
    → answered (dep_result (systemd_rc reply, some m)) ≡ record {
      answer = some (if is_taken true call reply then method_success (some 0) else raise_exception);
      sent = some m;
    }
taken_systemd call m (replied true) = refl
taken_systemd call m (replied false) = refl
taken_systemd call m out_of_memory = refl
taken_systemd call m other_error = refl

taken_upstart :
    (call : DeployableCall) (m : DbusMessage) (reply : DbusReply)
    → answered (dep_result (upstart_rc (upstart_member call) reply, some m)) ≡ record {
      answer =
          some (if is_taken false call reply then method_success (some 0) else raise_exception);
      sent = some m;
    }
taken_upstart start_call m (replied true) = refl
taken_upstart start_call m (replied false) = refl
taken_upstart stop_call m (replied true) = refl
taken_upstart stop_call m (replied false) = refl
taken_upstart reload_call m (replied true) = refl
taken_upstart reload_call m (replied false) = refl
taken_upstart call m out_of_memory = refl
taken_upstart call m other_error = refl

systemd-outcome :
    (lib : Dbus) (s : InitState) (call : DeployableCall) (service instance : String)
    → lib.garbage_freed ≡ true
    → told (systemd_init_job lib s (systemd_member call) service instance)
      ≡ ok (
          outcome true lib s.connection call
            (systemd_message (systemd_member call) service instance))
unfolding systemd_init_job
systemd-outcome lib s call service instance h = elim (Bool-cases lib.new_method_call) [
  | inl a ↦ elim (Bool-cases lib.append_args) [
    | inl b ↦ rw (a, b) (ap ok (taken_systemd call _ (lib.send s.connection _)))
    | inr b ↦ rw (a, b, h) refl
  ]
  | inr a ↦ rw (a, h) refl
]

-- A chain of steps, each of which must succeed, is their conjunction.
abbrev chain : Bool → Bool → Bool → Bool → Result Sent → Result Sent → Result Sent
chain a b c d done early =
    if a then (if b then (if c then (if d then done else early) else early) else early) else early

chain_all :
    (a b c d : Bool) (done early : Result Sent)
    → chain a b c d done early ≡ (if a && (b && (c && d)) then done else early)
chain_all true true true d done early = refl
chain_all true true false d done early = refl
chain_all true false c d done early = refl
chain_all false b c d done early = refl

upstart-outcome :
    (lib : Dbus) (s : InitState) (call : DeployableCall) (service instance : String)
    → lib.garbage_freed ≡ true
    → told (upstart_init_job lib s (upstart_member call) service instance)
      ≡ ok (
          outcome false lib s.connection call
            (upstart_message (upstart_member call) service instance))
unfolding upstart_init_job
upstart-outcome lib s call service instance h =
    let m = upstart_message (upstart_member call) service instance in
    let all =
      lib.open_container && (lib.append_element && (lib.close_container && lib.append_wait)) in
    elim (Bool-cases lib.new_method_call) [
      | inl a ↦
          rw
            (
              a,
              chain_all lib.open_container lib.append_element lib.close_container lib.append_wait
                  (ok (upstart_rc (upstart_member call) (lib.send s.connection m), some m))
                  (finish_early lib),
            )
            (elim (Bool-cases all) [
              | inl b ↦ rw b (ap ok (taken_upstart call m (lib.send s.connection m)))
              | inr b ↦ rw (b, h) refl
            ])
      | inr a ↦ rw a refl
    ]

two_steps : (r : Result Sent) → (r >>= (λ r. ok (dep_result r)) >>= λ r. ok (answered r)) ≡ told r
two_steps (ok r) = refl
two_steps (fault why) = refl

-- What is done, in terms of the message that stands for the call.
done_systemd :
    (lib : Dbus) (s : InitState) (call : DeployableCall) (monitor instance : String)
    → lib.garbage_freed ≡ true
    → (systemd_init_job lib s (systemd_member call) monitor instance
        >>= (λ r. ok (dep_result r))
        >>= λ r. ok (answered r))
      ≡ ok (outcome true lib s.connection call (job_message true call monitor instance))
done_systemd lib s call monitor instance h =
    two_steps _
    ∙ systemd-outcome lib s call monitor instance h
    ∙ ap (λ m. ok (outcome true lib s.connection call m))
        (systemd_message_lem call monitor instance)

done_upstart :
    (lib : Dbus) (s : InitState) (call : DeployableCall) (monitor instance : String)
    → lib.garbage_freed ≡ true
    → (upstart_init_job lib s (upstart_member call) monitor instance
        >>= (λ r. ok (dep_result r))
        >>= λ r. ok (answered r))
      ≡ ok (outcome false lib s.connection call (job_message false call monitor instance))
done_upstart lib s call monitor instance h =
    two_steps _
    ∙ upstart-outcome lib s call monitor instance h
    ∙ ap (λ m. ok (outcome false lib s.connection call m))
        (upstart_message_lem call monitor instance)

dispatched :
    (lib : Dbus) (s : InitState) (call : DeployableCall) (argument : String → String)
    → lib.garbage_freed ≡ true
    → let m = job_message s.init_use_systemd call (argument "monitor") (argument "uuid") in
      event_dispatch lib s (deployable_event call argument)
      ≡ ok (outcome s.init_use_systemd lib s.connection call m)
unfolding event_dispatch dep_start dep_stop dep_reload init_job_start init_job_stop init_job_reload
dispatched lib s start_call argument h = elim (Bool-cases s.init_use_systemd) [
  | inl y ↦ rw y (done_systemd lib s start_call (argument "monitor") (argument "uuid") h)
  | inr y ↦ rw y (done_upstart lib s start_call (argument "monitor") (argument "uuid") h)
]
dispatched lib s stop_call argument h = elim (Bool-cases s.init_use_systemd) [
  | inl y ↦ rw y (done_systemd lib s stop_call (argument "monitor") (argument "uuid") h)
  | inr y ↦ rw y (done_upstart lib s stop_call (argument "monitor") (argument "uuid") h)
]
dispatched lib s reload_call argument h = elim (Bool-cases s.init_use_systemd) [
  | inl y ↦ rw y (done_systemd lib s reload_call (argument "monitor") (argument "uuid") h)
  | inr y ↦ rw y (done_upstart lib s reload_call (argument "monitor") (argument "uuid") h)
]

-- After `dbus_init`, when the console asks the agent to start, to stop or to reload a deployable, the
-- agent sends one message if it can make it: to systemd, about the unit monitor@uuid.service, if
-- "systemd" stands in the link of /sbin/init, and otherwise to Upstart, about the job of the monitor
-- with the uuid as its instance. It answers with a success exactly if that message is taken: if the
-- reply names a job, or to a stop or a reload by Upstart if there is any reply. Otherwise it answers
-- with an exception. (That holds where freeing an error that was never initialised is harmless.)
pub event_dispatch-outcome :
    (lib : Dbus) (call : DeployableCall) (argument : String → String)
    → lib.garbage_freed ≡ true
    → let systemd = is_systemd lib.init_link in
      event_dispatch lib (dbus_init lib).1 (deployable_event call argument)
      ≡ ok (
          outcome systemd lib lib.bus call
            (job_message systemd call (argument "monitor") (argument "uuid")))
unfolding dbus_init
event_dispatch-outcome lib call argument h =
    dispatched lib (dbus_init lib).1 call argument h
    ∙ ap
        (λ systemd. ok (
          outcome systemd lib lib.bus call
            (job_message systemd call (argument "monitor") (argument "uuid"))))
        (is_systemd_lem lib.init_link)
