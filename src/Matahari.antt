-- ===== src/Matahari.antt =====
-- src/matahari.cpp: whether a node is alive, by the heartbeats of its agent. What the operations of a
-- resource do there is not modelled: that part does not fit src/pcmk_pe.h any more.
pub mod Beats
use pacemaker_cloud.Common.{
  ℕ, ◌+◌, ◌%◌, Bool, true, false, ◌&&◌, Option, none, some, ltb, u32_mod, if◌then◌else◌,
}
use pacemaker_cloud.Recover.{RecoverState, running, failed, state_eq}

-- `_hb_state`.
pub data HeartbeatState : Type 0 where
  heartbeat_init heartbeat_not_received heartbeat_ok heartbeat_seq_bad : HeartbeatState

abbrev pub is_ok : HeartbeatState → Bool
is_ok heartbeat_init = false
is_ok heartbeat_not_received = false
is_ok heartbeat_ok = true
is_ok heartbeat_seq_bad = false

-- A node's object, with whether its three objects of the agent are connected and whether the timer
-- `heartbeat_check_tmo` runs.
pub record Matahari : Type 0 where
  pub hb_state : HeartbeatState
  pub last_sequence : ℕ
  pub mh_rsc : Bool
  pub mh_serv : Bool
  pub mh_host : Bool
  pub healthcheck_timer : Bool

-- `late` is whether the timer `_last_heartbeat` is beyond HEALTHCHECK_TIMEOUT.
unfoldable pub heartbeat_recv : ℕ → Bool → Matahari → Matahari
heartbeat_recv sequence late m =
    if is_ok m.hb_state
    then (if ltb ((m.last_sequence + 1) % u32_mod) sequence
        then record m { hb_state = heartbeat_seq_bad }
        else if late
        then record m { last_sequence = sequence; hb_state = heartbeat_not_received }
        else record m { last_sequence = sequence })
    else record m { last_sequence = sequence; hb_state = heartbeat_ok }

-- The check of a running node, with the recovery state that the node is set to, if any.
abbrev pub check_running : Bool → Matahari → Matahari × Option RecoverState
check_running late m =
    if is_ok m.hb_state
    then (if late then (record m { hb_state = heartbeat_not_received }, some failed) else (m, none))
    else (m, some failed)

abbrev pub check_other : Matahari → Matahari × Option RecoverState
check_other m =
    if is_ok m.hb_state && (m.mh_rsc && (m.mh_serv && m.mh_host))
    then (record m { healthcheck_timer = true }, some running)
    else (m, none)

unfoldable pub check_state : RecoverState → Bool → Matahari → Matahari × Option RecoverState
check_state state late m = if state_eq state running then check_running late m else check_other m

-- `host_event_handler`, for a heartbeat; `late_now` is the timer as the state is checked.
unfoldable pub host_event :
    RecoverState → ℕ → Bool → Bool → Matahari → Matahari × Option RecoverState
unfolding heartbeat_recv check_state
host_event state sequence late late_now m =
    check_state state late_now (heartbeat_recv sequence late m)

-- The timer runs out; it is started again while the node is running.
unfoldable pub heartbeat_check_tmo : RecoverState → Bool → Matahari → Matahari × Option RecoverState
unfolding check_state
heartbeat_check_tmo state late m =
    let r = check_state state late (record m { healthcheck_timer = false }) in
    (
      record (r.0) {
        healthcheck_timer = elim r.1 [
          | none ↦ state_eq state running
          | some next ↦ state_eq next running
        ];
      },
      r.1,
    )

-- `transport_disconnect`: the objects are disconnected and the timer is deleted.
unfoldable pub state_online_to_offline : Matahari → Matahari
state_online_to_offline m = record m {
  hb_state = heartbeat_init;
  mh_rsc = false;
  mh_serv = false;
  mh_host = false;
}

unfoldable pub matahari_disconnect : Matahari → Matahari
unfolding state_online_to_offline
matahari_disconnect m = state_online_to_offline (record m { healthcheck_timer = false })
