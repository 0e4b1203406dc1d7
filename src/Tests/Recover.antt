-- ===== src/Tests/Recover.antt =====
-- Runs of src/recover.c. A node may fail three times in ten seconds.
use pacemaker_cloud.Common.{ℕ, ◌≡◌, refl, List, [], ◌∷◌, some, ok}
use pacemaker_cloud.Common.Text.{strtol}
use pacemaker_cloud.Tests.Watch.{Watch, platform, laws}
use pacemaker_cloud.Recover.{unknown, running, failed}
use pacemaker_cloud.Recover.Init.{limit_of}
use pacemaker_cloud.Recover.Laws.{changed, restarted, escalated, Traced}
use pacemaker_cloud.Recover.Escalation.{expected, too_many, armed}
use pacemaker_cloud.Recover.Limits.{life, life_calls}

-- Failures at 1 s, 4 s, 9 s: the third is within ten seconds of the first. At 30 s the count is new.
abbrev burst : List ℕ
burst = 1000000 ∷ 4000000 ∷ 9000000 ∷ 30000000 ∷ []

burst-expected :
    expected platform 1 9 [] burst
    ≡ changed running failed
      ∷ restarted
      ∷ changed failed running
      ∷ changed running failed
      ∷ restarted
      ∷ changed failed running
      ∷ changed running failed
      ∷ escalated
      ∷ changed failed running
      ∷ changed running failed
      ∷ restarted
      ∷ changed failed running
      ∷ []
unfolding expected too_many
burst-expected = refl

life_calls_example :
    (v : Watch) × (life platform 0 0 (some "3") (some "10") burst
      ≡ ok (record {
        recover = armed platform 1 9 running v;
        calls = changed unknown running ∷ expected platform 1 9 [] burst;
      }))
unfolding limit_of strtol
life_calls_example = life_calls platform laws 1 9 0 0 (some "3") (some "10") refl refl burst

after_two : Traced platform
after_two = record {
  recover = armed platform 1 9 running (record { times = 4000000 ∷ 1000000 ∷ []; size = 3 });
  calls =
      changed unknown running
      ∷ changed running failed
      ∷ restarted
      ∷ changed failed running
      ∷ changed running failed
      ∷ restarted
      ∷ changed failed running
      ∷ [];
}
