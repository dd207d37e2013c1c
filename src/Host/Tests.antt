-- ===== src/Host/Tests.antt =====
-- The theorems about hosts at a duty that counts down its turns and a clock that counts up.
use calandria.Prelude.{ℕ, ◌+◌, ◌-◌, ◌≤◌, ◌≡◌, ◌≢◌, ◌⊎◌, refl, Result, ok, ltb, if◌then◌else◌}
use calandria.Time.Moment.{Moment}
use calandria.Turn.{wake_or, stop as next_stop, Turn, until, stopped as stopped_turn, bounded_wait}
use calandria.Host.{HostConfig, continue, wait, stop, for_next}
use calandria.Host.Embedded.{EmbeddedHost, new_host, step, steps}
use calandria.Host.Laws.{
  EndsBy, Steps, Chronicle, for_next-bounded_wait, step-Steps, steps-Chronicle,
}

abbrev counting_duty : ℕ → Moment → ℕ × Result Turn ℕ
counting_duty left moment =
    (left - 1, ok (if ltb 1 left then until 1 (moment + 50) else stopped_turn 1))

abbrev counting_clock : ℕ → ℕ × Result Moment ℕ
counting_clock ticks = (ticks + 10, ok ticks)

abbrev policy : HostConfig
policy = record { wait_ceiling = 100 }

abbrev host : EmbeddedHost ℕ ℕ
host = new_host 2 5 policy

for_next-bounded_wait_example :
    ((wake_or 80 ≡ next_stop) × (for_next (wake_or 80) 60 policy ≡ stop))
    ⊎ ((wake_or 80 ≢ next_stop)
        × (bounded_wait (wake_or 80) 60 100 ≡ 0)
        × (for_next (wake_or 80) 60 policy ≡ continue))
    ⊎ ((wake_or 80 ≢ next_stop)
        × (1 ≤ bounded_wait (wake_or 80) 60 100)
        × (for_next (wake_or 80) 60 policy ≡ wait (bounded_wait (wake_or 80) 60 100))
        × (bounded_wait (wake_or 80) 60 100 ≤ 100)
        × EndsBy (wake_or 80) (60 + bounded_wait (wake_or 80) 60 100))
for_next-bounded_wait_example = for_next-bounded_wait (wake_or 80) 60 policy

step-Steps_example :
    Steps host (step counting_duty counting_clock host).0 (step counting_duty counting_clock host).1
step-Steps_example = step-Steps counting_duty counting_clock host refl

steps-Chronicle_example : Chronicle 0 (steps counting_duty counting_clock 4 host).1
steps-Chronicle_example = steps-Chronicle counting_duty counting_clock 4 host refl
