-- ===== src/Tests/Admin.antt =====
-- Events of which the connection takes a part at a time.
use pacemaker_cloud.Common.{◌≡◌, ◌∷◌, [], pos, arith}
use pacemaker_cloud.Admin.{sent, event_spammer}
use pacemaker_cloud.Admin.Rounds.{event_spammer_ends}

event_spammer_ends_example :
    event_spammer (pos 5) (λ n. pos 2) (60 ∷ 101 ∷ 47 ∷ 62 ∷ []) 4 10
    ≡ (sent, 60 ∷ 101 ∷ 60 ∷ 101 ∷ [])
event_spammer_ends_example =
    event_spammer_ends 5 2 1 10 (60 ∷ 101 ∷ 47 ∷ 62 ∷ []) (omega arith) (omega arith)
