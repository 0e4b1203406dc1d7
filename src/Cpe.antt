-- ===== src/Cpe.antt =====
-- src/libinit.c: starting, reloading and stopping a job of systemd or Upstart over D-Bus. What libdbus
-- answers is a parameter.
pub mod Agent
pub mod Outcome
pub mod Http
pub mod Event
pub mod Post
use pacemaker_cloud.Common.{
  Bool, true, false, Option, none, some, List, [], ◌∷◌, String, ℤ, pos, negsuc, minus_one, Result,
  ok, fault, uninitialised_read, strcmp_eq, if◌then◌else◌,
}
use pacemaker_cloud.Common.Print.{join}
use pacemaker_cloud.Common.Text.{codes, is_infix}

-- -ENOMEM and -EIO.
abbrev pub no_memory : ℤ
no_memory = negsuc 11

abbrev pub io_error : ℤ
io_error = negsuc 4

-- What is written to a message.
pub data DbusArg : Type 0 where
  dbus_string : String → DbusArg
  dbus_array : List String → DbusArg
  dbus_boolean : Bool → DbusArg

pub record DbusMessage : Type 0 where
  pub destination : String
  pub path : String
  pub interface : String
  pub member : String
  pub args : List DbusArg

-- A reply, with whether an object path can be read from it; or none, because of memory or of another
-- error.
pub data DbusReply : Type 0 where
  replied : Bool → DbusReply
  out_of_memory other_error : DbusReply

-- What the system and libdbus answer. `init_link` is what /sbin/init links to, and `bus` whether there
-- is a connection. A field named for a call is whether it succeeds; `send` is told whether there is
-- a connection. `garbage_freed` is whether freeing an error that was never initialised is harmless.
pub record Dbus : Type 0 where
  pub init_link : Option String
  pub bus : Bool
  pub new_method_call : Bool
  pub append_args : Bool
  pub open_container : Bool
  pub append_element : Bool
  pub close_container : Bool
  pub append_wait : Bool
  pub send : Bool → DbusMessage → DbusReply
  pub garbage_freed : Bool

-- The globals `connection` and `init_use_systemd`.
pub record InitState : Type 0 where
  pub connection : Bool
  pub init_use_systemd : Bool

-- What a call returns, and the message that it sent.
abbrev pub Sent : Type 0
Sent = ℤ × Option DbusMessage

abbrev pub links_to_systemd : Option String → Bool
links_to_systemd none = false
links_to_systemd (some link) = is_infix (codes "systemd") (codes link)

unfoldable pub systemd_message : String → String → String → DbusMessage
systemd_message method name instance = record {
  destination = "org.freedesktop.systemd1";
  path = "/org/freedesktop/systemd1";
  interface = "org.freedesktop.systemd1.Manager";
  member = method;
  args = dbus_string (join (name ∷ "@" ∷ instance ∷ ".service" ∷ [])) ∷ dbus_string "replace" ∷ [];
}

unfoldable pub upstart_message : String → String → String → DbusMessage
upstart_message method service instance = record {
  destination = "com.ubuntu.Upstart";
  path = join ("/com/ubuntu/Upstart/jobs/" ∷ service ∷ []);
  interface = "com.ubuntu.Upstart0_6.Job";
  member = method;
  args = dbus_array (join ("INSTANCE=" ∷ instance ∷ []) ∷ []) ∷ dbus_boolean true ∷ [];
}

abbrev pub systemd_rc : DbusReply → ℤ
systemd_rc (replied true) = pos 0
systemd_rc (replied false) = io_error
systemd_rc out_of_memory = io_error
systemd_rc other_error = io_error

-- Only the reply to "Start" is read.
abbrev pub upstart_rc : String → DbusReply → ℤ
upstart_rc method (replied true) = pos 0
upstart_rc method (replied false) = if strcmp_eq method "Start" then io_error else pos 0
upstart_rc method out_of_memory = no_memory
upstart_rc method other_error = minus_one

module _ (lib : Dbus) where
  unfoldable pub dbus_init : ℤ × InitState
  dbus_init = (
    if lib.bus then pos 0 else pos 1,
    record { connection = lib.bus; init_use_systemd = links_to_systemd lib.init_link },
  )

  -- `finish`, before the error was initialised.
  abbrev pub finish_early : Result Sent
  finish_early = if lib.garbage_freed then ok (no_memory, none) else fault uninitialised_read

  unfoldable pub systemd_init_job : InitState → String → String → String → Result Sent
  systemd_init_job s method name instance =
      if lib.new_method_call
      then (if lib.append_args
          then (let m = systemd_message method name instance in
              ok (systemd_rc (lib.send s.connection m), some m))
          else finish_early)
      else finish_early

  unfoldable pub upstart_init_job : InitState → String → String → String → Result Sent
  upstart_init_job s method service instance =
      if lib.new_method_call
      then (if lib.open_container
          then (if lib.append_element
              then (if lib.close_container
                  then (if lib.append_wait
                      then (let m = upstart_message method service instance in
                          ok (upstart_rc method (lib.send s.connection m), some m))
                      else finish_early)
                  else finish_early)
              else finish_early)
          else finish_early)
      else ok (no_memory, none)

  unfoldable pub init_job_start : InitState → String → String → Result Sent
  unfolding systemd_init_job upstart_init_job
  init_job_start s service instance =
      if s.init_use_systemd
      then systemd_init_job s "StartUnit" service instance
      else upstart_init_job s "Start" service instance

  unfoldable pub init_job_reload : InitState → String → String → Result Sent
  unfolding systemd_init_job upstart_init_job
  init_job_reload s service instance =
      if s.init_use_systemd
      then systemd_init_job s "ReloadUnit" service instance
      else upstart_init_job s "Reload" service instance

  unfoldable pub init_job_stop : InitState → String → String → Result Sent
  unfolding systemd_init_job upstart_init_job
  init_job_stop s service instance =
      if s.init_use_systemd
      then systemd_init_job s "StopUnit" service instance
      else upstart_init_job s "Stop" service instance
