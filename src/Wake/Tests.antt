-- ===== src/Wake/Tests.antt =====
-- The theorems about wake handles at two producers.
use calandria.Prelude.{ℕ, ◌≤◌, ◌≡◌, ◌⊎◌, ◌↔◌, refl, [], ◌∷◌, sum_by, All, ok, err, false}
use calandria.Wake.{
  idle, waking, waking_acknowledged, loading, claiming, calling, returned, resting, loading_phase,
  producer_step,
}
use calandria.Wake.Interleaving.{
  System, Reach, start, next, produce, fresh, in_flight, Sound, Reach-exclusive,
}
use calandria.Wake.Alone.{wake_run, acknowledge_run, wake_run-wake, wake}

-- Both producers have seen IDLE, and the first has claimed the request.
abbrev claimed : System ℕ
claimed = record { phase = waking; producers = calling ∷ claiming ∷ []; owner = resting }

claimed_reached : Reach (fresh 2) claimed
unfolding producer_step
claimed_reached =
    next (next (next start (produce 0 loading (ok tt) refl)) (produce 1 loading (ok tt) refl))
      (produce 0 claiming (ok tt) refl)

Reach-exclusive_example :
    All Sound claimed.producers
    × (sum_by in_flight claimed.producers ≤ 1)
    × ((sum_by in_flight claimed.producers ≡ 1)
        ↔ ((claimed.phase ≡ waking) ⊎ (claimed.phase ≡ waking_acknowledged)))
Reach-exclusive_example = Reach-exclusive 2 claimed claimed_reached

wake_run-wake_example :
    (wake_run {E = ℕ} 4 (idle, loading) (err 7) ≡ (idle, returned (err 7)))
    × (acknowledge_run 3 (idle, loading_phase) ≡ (idle, resting))
unfolding wake
wake_run-wake_example = wake_run-wake 1 false (err 7)
