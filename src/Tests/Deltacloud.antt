-- ===== src/Tests/Deltacloud.antt =====
-- An instance that is built, and then runs; and the end of a daemon of one node.
use pacemaker_cloud.Common.{refl, true, none, some, [], ◌∷◌, inr, All, String}
use pacemaker_cloud.Recover.Total.{Ends}
use pacemaker_cloud.Cape.{Assembly}
use pacemaker_cloud.Deltacloud.{Deltacloud, DeltacloudInstance}
use pacemaker_cloud.Daemon.Exit.{Down, cape_exit, cape_exit-AllDown}
use pacemaker_cloud.Tests.Watch.{platform}
use pacemaker_cloud.Tests.Daemon.{checking, checking-Inv, daemon}

abbrev building : DeltacloudInstance
building = record { state = some "PENDING"; private_addresses = [] }

abbrev built : DeltacloudInstance
built = record { state = some "RUNNING"; private_addresses = some "10.0.0.8" ∷ [] }

abbrev library : DeltacloudInstance → Deltacloud
library i = record {
  initialized = true;
  get_instance_by_id = λ id. some i;
  get_images = none;
  create_instance = λ image. none;
}

cape_exit-AllDown_example :
    Ends
      (λ d'.
        All
          (λ (e : String × Assembly platform). Down ((daemon checking).links e.0) (d'.links e.0))
          (daemon checking).cape.assembly_map)
      (cape_exit true (daemon checking))
cape_exit-AllDown_example =
    cape_exit-AllDown (daemon checking) (tt, tt)
      (inr (checking, (refl, (refl, refl, refl)), checking-Inv), tt)
