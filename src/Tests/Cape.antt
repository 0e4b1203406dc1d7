-- ===== src/Tests/Cape.antt =====
-- Runs of the operations of src/cape.c on one node.
use pacemaker_cloud.Common.{
  ℕ, suc, ◌<◌, ◌≡◌, refl, Bool, true, false, Option, none, some, List, [], ◌∷◌, String, ℤ, pos,
  Result, ok, fault, use_after_free, ◌>>=◌, inl, arith, to_u32, ◌==◌, u32_mod,
}
use pacemaker_cloud.Common.Map.{lookup}
use pacemaker_cloud.Recover.Total.{Ends}
use pacemaker_cloud.Cape.{Cape, PeOperation}
use pacemaker_cloud.Cape.Memory.{pe_resource_unref}
use pacemaker_cloud.Cape.History.{op_history_save, recurring_monitor_stop}
use pacemaker_cloud.Cape.Monitor.{transport_resource_action, resource_action_completion}
use pacemaker_cloud.Cape.Count.{CanComplete}
use pacemaker_cloud.Cape.Completion.{executed}
use pacemaker_cloud.Cape.Recurring.{with_count, kept_count, round-Ends}
use pacemaker_cloud.Cape.Stop.{IsQuiet, monitor_stop_frees}
use pacemaker_cloud.Cape.Digest.{digest_dangles}
use pacemaker_cloud.Tests.Watch.{platform}
use pacemaker_cloud.Tests.World.{web, monitor, changed_monitor, entry, web_server, world}

-- The state before the first result of the monitor arrives.
abbrev pub fresh : Cape platform
fresh = world none monitor []

pub fresh-CanComplete : CanComplete 0 monitor fresh
unfolding lookup
fresh-CanComplete = record {
  op_live = refl;
  digests = record { mine = ("d41d8", refl); entry = λ oh e. cc };
  resource_there = (web_server none, refl, inl refl);
}

round-Ends_example :
    Ends
      (λ w'. w'.ops 0 ≡ with_count (executed monitor) (kept_count true true 0))
      (transport_resource_action 0 fresh >>= resource_action_completion 0 (pos 0))
unfolding pacemaker_cloud.Ocf.pe_resource_ocf_exitcode_get
round-Ends_example = round-Ends 0 (pos 0) monitor 0 fresh fresh-CanComplete refl (omega arith)

-- Its timer runs, and holds a second reference.
abbrev watched : PeOperation
watched = record monitor { refcount = 2 }

monitor_stop_frees_example :
    Ends
      (λ w'. (w'.ops 0 ≡ none) × IsQuiet web w')
      (recurring_monitor_stop 0 (world (some 0) watched []))
unfolding lookup
monitor_stop_frees_example =
    monitor_stop_frees 0 watched web (web_server (some 0)) (world (some 0) watched []) refl refl
      refl refl refl

-- Operation 1 has another digest than the entry; operation 0 is the next for the same key.
digest_dangles_example :
    (op_history_save
        (some web)
        1
        (pos 0)
        (world none monitor (("rsc_vm1_web_monitor_10000", entry) ∷ []))
      >>= pe_resource_unref 1
      >>= op_history_save (some web) 0 (pos 0))
    ≡ fault use_after_free
unfolding lookup pacemaker_cloud.Common.Print.join pacemaker_cloud.Common.Print.print_d
digest_dangles_example =
    digest_dangles 1 0 changed_monitor monitor entry (some web) (some web) (pos 0) (pos 0)
      (world none monitor (("rsc_vm1_web_monitor_10000", entry) ∷ [])) refl refl refl refl refl refl
      refl refl refl
