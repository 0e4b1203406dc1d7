-- ===== src/Tests/Forget.antt =====
-- The result of a monitor is saved beside an entry of another resource, and deleted again.
use pacemaker_cloud.Common.{ℕ, ◌==◌, ◌≡◌, refl, false, none, some, [], ◌∷◌, ◌>>=◌, pos}
use pacemaker_cloud.Common.Map.{lookup}
use pacemaker_cloud.Common.Print.{join, decimal, print_d, print_int}
use pacemaker_cloud.Recover.Total.{Ends}
use pacemaker_cloud.Cape.{OperationHistory, Cape}
use pacemaker_cloud.Cape.History.{op_history_save, history_clear}
use pacemaker_cloud.Cape.Forget.{of_resource, save-clear}
use pacemaker_cloud.Tests.Watch.{platform}
use pacemaker_cloud.Tests.World.{web, monitor, entry, web_server, world}

abbrev database_entry : OperationHistory
database_entry = record entry {
  rsc_id = "rsc_vm1_db_monitor_10000";
  resource = some (record { assembly = "vm1"; name = "rsc_vm1_db" });
}

abbrev before : Cape platform
before = world none monitor (("rsc_vm1_db_monitor_10000", database_entry) ∷ [])

save-clear_example :
    Ends
      (λ w'.
        (w'.op_history_map ≡ before.op_history_map)
        × (w'.texts 3 ≡ none)
        × ((n : ℕ) → (3 == n) ≡ false → w'.texts n ≡ before.texts n))
      (op_history_save (some web) 0 (pos 0) before >>= λ w₁.
        history_clear (of_resource web) w₁.op_history_map w₁)
unfolding lookup join print_d print_int decimal
save-clear_example =
    save-clear web 0 (pos 0) monitor "d41d8" (web_server none) before refl refl refl (refl, tt) refl
      refl
