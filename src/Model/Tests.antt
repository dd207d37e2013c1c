-- ===== src/Model/Tests.antt =====
-- The theorems about topologies and action contexts at concrete ones.
use calandria.Prelude.{
  ℕ, ◌≡◌, ◌≤◌, refl, Option, none, some, [], ◌∷◌, length, sum_by, returns, arith, inl,
}
use calandria.Timeline.{Timeline}
use calandria.Timeline.Invariant.{IsValid}
use calandria.Model.{Routed}
use calandria.Model.Topology.{Topology}
use calandria.Model.Context.{ActionContext, ActionContextLimits, context, commit, drop_context}
use calandria.Model.Program.{
  Program, done, sends_at, cancels, observes, run_program, run_program-drop_context,
}

abbrev event_bytes : ℕ → ℕ
event_bytes event = 2

abbrev pending : Timeline (Routed ℕ)
pending = record {
  id = 1;
  clock = 10;
  limits = record { pending_events = 2; retained_bytes = 64 };
  measure = λ routed. 2;
  next_id = some 2;
  retained = 4;
  events =
      record {
        at = 20;
        id = 1;
        event = record { target = 1; cause = none; event = 7 };
        retained = 2;
      }
      ∷ record {
        at = 30;
        id = 0;
        event = record { target = 2; cause = none; event = 8 };
        retained = 2;
      }
      ∷ [];
}

pending-IsValid : IsValid pending
pending-IsValid = record {
  counted = omega arith;
  exact = refl;
  within = omega arith;
  fresh = (omega arith, (omega arith, tt));
  word = omega arith;
  future = (omega arith, (omega arith, tt));
  sorted = ((inl (omega arith), tt), (tt, tt));
}

abbrev limits : ActionContextLimits
limits = record {
  effects = 4;
  effect_bytes = 16;
  observations = 2;
  observation_bytes = 8;
  max_time = 100;
}

-- It makes room by a cancellation, sends, cancels what it sent, and sends again.
abbrev callback : Program ℕ ℕ ℕ
callback =
    cancels (record { timeline = 1; id = 0; at = 30 })
      (λ first. sends_at 2 15 9 (λ second.
        cancels (record { timeline = 1; id = 2; at = 15 })
          (λ third. sends_at 1 40 9 (λ fourth. observes 5 (λ fifth. done 6)))))

abbrev both : Topology
both = record { duties = 1 ∷ 2 ∷ [] }

run_program-drop_context_example :
    (c : ActionContext ℕ ℕ) × (a : ℕ) × (next : Option ℕ) × (run_program event_bytes event_bytes
        callback
        (context pending both [] 3 10 limits)
      ≡ returns (c, a))
    × (c.effects ≤ 4)
    × (c.effect_bytes ≤ 16)
    × (length c.observations ≤ 2)
    × (sum_by event_bytes c.observations ≤ 8)
    × (drop_context c ≡ returns (record pending { next_id = next }))
    × (drop_context (commit c).0 ≡ returns c.timeline)
    × IsValid c.timeline
run_program-drop_context_example =
    run_program-drop_context event_bytes event_bytes pending limits (λ r. refl) callback both [] 3
      10 pending-IsValid (refl, (refl, tt)) (omega arith)
