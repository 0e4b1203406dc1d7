-- ===== src/Tests/Cpe.antt =====
-- A deployable is started on a system with systemd, and an event of its is posted in two parts.
use pacemaker_cloud.Common.{
  ◌≡◌, refl, true, false, some, [], ◌∷◌, String, ok, fault, null_pointer, strcmp_eq, if◌then◌else◌,
}
use pacemaker_cloud.Common.Text.{codes, is_infix, is_prefix}
use pacemaker_cloud.Common.Print.{join}
use pacemaker_cloud.Common.Xml.{XmlNode, element, text_node, no_nodes, node, get_prop}
use pacemaker_cloud.Cpe.{dbus_init, Dbus, replied, systemd_message}
use pacemaker_cloud.Cpe.Agent.{raise_exception, event_dispatch}
use pacemaker_cloud.Cpe.Outcome.{start_call, deployable_event, event_dispatch-outcome}
use pacemaker_cloud.Cpe.Http.{PushParser, Httpd, find_item, handle_event}
use pacemaker_cloud.Cpe.Event.{reverse_nodes, handle_event-accepts}
use pacemaker_cloud.Cpe.Post.{post, fed, post-verdict}

-- The reply has no object path.
abbrev bus : Dbus
bus = record {
  init_link = some "/bin/systemd";
  bus = true;
  new_method_call = true;
  append_args = true;
  open_container = true;
  append_element = true;
  close_container = true;
  append_wait = true;
  send = λ connected m. replied false;
  garbage_freed = true;
}

abbrev argument : String → String
argument name = if strcmp_eq name "uuid" then "u1" else "dped"

event_dispatch-outcome_example :
    event_dispatch bus (dbus_init bus).1 (deployable_event start_call argument)
    ≡ ok (record {
      answer = some raise_exception;
      sent = some (systemd_message "StartUnit" "dped" "u1");
    })
unfolding join is_infix codes systemd_message
event_dispatch-outcome_example = event_dispatch-outcome bus start_call argument refl

-- An event with a state that has nothing in it, and one without.
abbrev empty_state : XmlNode
empty_state = element "event" [] (
    node (element "datetime" [] no_nodes) (
      node (element "instance" (("id", "i-1") ∷ []) (node (element "state" [] no_nodes) no_nodes))
        no_nodes))

handle_event-accepts_example : handle_event empty_state ≡ fault null_pointer
unfolding reverse_nodes
handle_event-accepts_example = handle_event-accepts empty_state

abbrev started : XmlNode
started = element "event" [] (
    node
      (element "instance" (("id", "i-1") ∷ [])
        (node (element "state" [] (node (text_node "STARTED") no_nodes)) no_nodes))
      no_nodes)

-- A parser that knows one document, which it is given in parts.
abbrev parser : PushParser
parser = record {
  State = String;
  fresh = some "";
  parse_chunk = λ s chunk. (false, join (s ∷ chunk ∷ []));
  parse_end = λ s. s;
  well_formed = λ s. strcmp_eq s "<event/>";
  my_doc = λ s. some started;
  last_error = λ s. some "not the document";
}

abbrev http : Httpd
http = record { allocated = true; queued = true }

post-verdict_example :
    post http parser "/pacemaker-cloud/api/events" ("<event" ∷ "/>" ∷ []) ≡ ok ((200, "") ∷ [])
unfolding join is_prefix fed handle_event find_item get_prop
post-verdict_example =
    post-verdict http parser "/pacemaker-cloud/api/events" ("<event" ∷ "/>" ∷ []) "" "<event/>" refl
      refl refl refl (refl, (refl, tt)) refl
