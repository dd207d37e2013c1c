-- ===== src/Model/Program.antt =====
-- A model's callback as the context (crates/calandria-sim/src/model/context) sees it: any sequence of
-- calls, each chosen by the answers of the ones before, and then a result.
use calandria.Prelude.{
  ℕ, ◌≤◌, ◌≡◌, refl, sym, subst, Option, List, All, length, sum_by, arith, Outcome, returns, ◌>>=◌,
  Result,
}
use calandria.Words.{u64_max}
use calandria.Time.Moment.{Moment}
use calandria.Time.Span.{Span}
use calandria.Retained.{RetainedBytes}
use calandria.Timeline.{Timeline, EventToken}
use calandria.Timeline.Invariant.{IsValid}
use calandria.Model.{Routed, DutyId, ActionId, SendError, CancelFailure, ObservationError}
use calandria.Model.Topology.{Topology}
use calandria.Model.Context.{
  ActionContext, ActionContextLimits, context, send_at, send_after, cancel, observe, drop_context,
  commit,
}
use calandria.Model.Context.Ledger.{IsOpen, StaysOpen, context-IsOpen, drop_context-IsOpen}
use calandria.Model.Context.Send.{send_at-IsOpen, send_after-IsOpen}
use calandria.Model.Context.Cancel.{cancel-IsOpen}
use calandria.Model.Context.Observe.{observe-IsOpen}

pub data Program {ℓ κ μ} (E : Type ℓ) (O : Type κ) (A : Type μ) : Type (ℓ ⊔ κ ⊔ μ) where
  done : A → Program E O A
  sends_at : DutyId → Moment → E → (Result EventToken (SendError E) → Program E O A) → Program E O A
  sends_after :
      DutyId → Span → E → (Result EventToken (SendError E) → Program E O A) → Program E O A
  cancels : EventToken → (Result (Unit {0}) CancelFailure → Program E O A) → Program E O A
  observes : O → (Result (Unit {0}) (ObservationError O) → Program E O A) → Program E O A

module _ {ℓ κ μ} {E : Type ℓ} {O : Type κ} {A : Type μ} (retained_bytes : E → RetainedBytes)
    (observed_bytes : O → RetainedBytes) where
  unfoldable pub run_program : Program E O A → ActionContext E O → Outcome (ActionContext E O × A)
  run_program (done a) c = returns (c, a)
  run_program (sends_at target at event next) c =
      send_at retained_bytes c target at event >>= λ out. run_program (next out.1) out.0
  run_program (sends_after target delay event next) c =
      send_after retained_bytes c target delay event >>= λ out. run_program (next out.1) out.0
  run_program (cancels token next) c = cancel c token >>= λ out. run_program (next out.1) out.0
  run_program (observes observation next) c =
      let out = observe observed_bytes c observation in run_program (next out.1) out.0

  module _ (t : Timeline (Routed E)) (limits : ActionContextLimits)
      (measured : (r : Routed E) → t.measure r ≡ retained_bytes r.event) where
    pub run_program-IsOpen :
        (program : Program E O A) (c : ActionContext E O)
        → IsOpen observed_bytes t limits c
        → StaysOpen observed_bytes t limits (run_program program c)
    unfolding run_program
    run_program-IsOpen (done a) c o = (c, a, refl, o)
    run_program-IsOpen (sends_at target at event next) c o =
        let (c', a, e, o') =
          send_at-IsOpen retained_bytes observed_bytes t limits measured c target at event o in
        rw e (run_program-IsOpen (next a) c' o')
    run_program-IsOpen (sends_after target delay event next) c o =
        let (c', a, e, o') =
          send_after-IsOpen retained_bytes observed_bytes t limits measured c target delay event
            o in
        rw e (run_program-IsOpen (next a) c' o')
    run_program-IsOpen (cancels token next) c o =
        let (c', a, e, o') = cancel-IsOpen observed_bytes t limits c token o in
        rw e (run_program-IsOpen (next a) c' o')
    run_program-IsOpen (observes observation next) c o =
        let (c', a, e, o') = observe-IsOpen observed_bytes t limits c observation o in
        rw e (run_program-IsOpen (next a) c' o')

    -- A callback that makes any calls on a new context of a valid timeline does not panic and stays
    -- within the limits on effects, effect bytes, observations and observation bytes. Dropped without
    -- a commit, the context leaves the first timeline: the same events, bytes and clock, and only the
    -- next identity may be another. Committed, it leaves the callback's timeline, which is valid.
    -- The timeline measures its events as the model does, its entries hold their measures, and its
    -- limit on bytes is a `u64`.
    pub run_program-drop_context :
        (program : Program E O A) (topology : Topology) (stopped : List DutyId) (action : ActionId)
        (now : ℕ)
        → IsValid t
        → All (λ e. e.retained ≡ t.measure e.event) t.events
        → t.limits.retained_bytes ≤ u64_max
        → (c : ActionContext E O) × (a : A) × (next : Option ℕ) × (run_program program
              (context t topology stopped action now limits)
            ≡ returns (c, a))
          × (c.effects ≤ limits.effects)
          × (c.effect_bytes ≤ limits.effect_bytes)
          × (length c.observations ≤ limits.observations)
          × (sum_by observed_bytes c.observations ≤ limits.observation_bytes)
          × (drop_context c ≡ returns (record t { next_id = next }))
          × (drop_context (commit c).0 ≡ returns c.timeline)
          × IsValid c.timeline
    unfolding drop_context
    run_program-drop_context program topology stopped action now v weighed bounded =
        let (c, a, e, o) =
          run_program-IsOpen program (context t topology stopped action now limits)
            (context-IsOpen observed_bytes t topology stopped action now limits v) in
        let (next, undone, _) = drop_context-IsOpen observed_bytes t limits c o weighed bounded in
        (
          c,
          a,
          next,
          e,
          o.effects,
          o.within,
          o.observations,
          omega (arith, o.observed, o.observed_within),
          undone,
          refl,
          subst IsValid (sym o.timeline) o.undo.now,
        )
