-- ===== src/Timer/History.antt =====
-- Whole histories of a timer queue: every admitted timer is pending, fired or cancelled, once.
use mathlib.Core.List.Perm
use mathlib.Core.List.{perm_middle}
use calandria.Prelude.{
  ℕ, ◌≤◌, ◌<◌, ◌≡◌, refl, ap, subst, Option, none, some, List, [], ◌∷◌, ◌++◌, append-nil, Perm,
  Removes-Perm, arith, All, Pairs, inl, inr, Result, ok, err, Outcome, returns, ◌>>=◌,
}
use calandria.Words.{u64_max}
use calandria.Timer.Heap.{Timer, TimerToken}
use calandria.Timer.{
  TimerQueue, TimerLimits, TimerScheduleError, schedule, cancel, pop_due, starting_at_with_measure,
}
use calandria.Timer.Invariant.{IsValid, Apart, id_bound, without, starting_at-IsValid}
use calandria.Timer.Schedule.{
  new_timer, scheduled, scheduled-IsValid, schedule_lem, All-lt, bound_next,
}
use calandria.Timer.Cancel.{cancel_lem}
use calandria.Timer.Due.{pop_due-PopsDue}

-- A queue with the timers that it has admitted, fired and cancelled, the latest first.
pub record Ledger {ℓ} (T : Type ℓ) : Type ℓ where
  pub queue : TimerQueue T
  pub admitted : List (Timer T)
  pub fired : List (Timer T)
  pub cancelled : List (Timer T)

pub data Op {ℓ} (T : Type ℓ) : Type ℓ where
  schedules : ℕ → T → Op T
  cancels : TimerToken → Op T
  pops : ℕ → Op T

module _ {ℓ} {T : Type ℓ} where
  abbrev pub noted_schedule :
      Ledger T → T → TimerQueue T × Result TimerToken (TimerScheduleError T) → Ledger T
  noted_schedule l value (q, err _) = record l { queue = q }
  noted_schedule l value (q, ok token) = record l {
    queue = q;
    admitted =
        record { token = token; value = value; retained = l.queue.measure value } ∷ l.admitted;
  }

  abbrev pub noted_cancel : Ledger T → TimerQueue T × Option (Timer T) → Ledger T
  noted_cancel l (q, none) = record l { queue = q }
  noted_cancel l (q, some timer) = record l { queue = q; cancelled = timer ∷ l.cancelled }

  abbrev pub noted_pop : Ledger T → TimerQueue T × Option (Timer T) → Ledger T
  noted_pop l (q, none) = record l { queue = q }
  noted_pop l (q, some timer) = record l { queue = q; fired = timer ∷ l.fired }

  unfoldable pub step : Ledger T → Op T → Outcome (Ledger T)
  step l (schedules deadline value) =
      returns (noted_schedule l value (schedule l.queue deadline value))
  step l (cancels token) = cancel l.queue token >>= λ out. returns (noted_cancel l out)
  step l (pops now) = pop_due l.queue now >>= λ out. returns (noted_pop l out)

  unfoldable pub run : Ledger T → List (Op T) → Outcome (Ledger T)
  run l [] = returns l
  run l (op ∷ ops) = step l op >>= λ l'. run l' ops

  pub record IsBalanced (l : Ledger T) : Type ℓ where
    pub valid : IsValid l.queue
    pub words : l.queue.limits.retained_bytes ≤ u64_max
    pub known : All (λ timer. timer.token.id < id_bound l.queue.next_id) l.admitted
    pub distinct : Pairs Apart l.admitted
    pub balanced : Perm l.admitted (l.fired ++ (l.cancelled ++ l.queue.timers))

  Perm-inner :
      (a b : List (Timer T)) (x : Timer T) (xs rest : List (Timer T))
      → Perm xs (x ∷ rest)
      → Perm (a ++ (b ++ xs)) (x ∷ (a ++ (b ++ rest)))
  Perm-inner a b x xs rest p =
      Perm.trans (Perm.append_left a (Perm.append_left b p))
        (Perm.trans (Perm.append_left a (perm_middle b rest)) (perm_middle a (b ++ rest)))

  Perm-last : (xs : List (Timer T)) (x : Timer T) → Perm (xs ++ (x ∷ [])) (x ∷ xs)
  Perm-last xs x = subst (λ ys. Perm (xs ++ (x ∷ [])) (x ∷ ys)) (append-nil xs) (perm_middle xs [])

  Apart-fresh :
      (xs : List (Timer T)) (x : Timer T) → All (λ t. t.token.id < x.token.id) xs → All (Apart x) xs
  Apart-fresh [] x below = tt
  Apart-fresh (y ∷ ys) x below = ((λ same. omega arith), Apart-fresh ys x below.1)

  abbrev StepsTo : Outcome (Ledger T) → Type ℓ
  StepsTo r = (l' : Ledger T) × (r ≡ returns l') × IsBalanced l'

  schedules-StepsTo :
      (l : Ledger T) (deadline : ℕ) (value : T)
      → IsBalanced l
      → StepsTo (step l (schedules deadline value))
  unfolding step
  schedules-StepsTo l deadline value v = elim (schedule_lem l.queue deadline value v.words) [
    | inr (why, (failure, e)) ↦
        (record l { queue = l.queue }, ap (λ out. returns (noted_schedule l value out)) e, v)
    | inl (room, (id, next, e)) ↦
        let timer = new_timer l.queue deadline value id in
        let known : All (λ t. t.token.id < id) l.admitted = rw next at v.known in
        let word : id ≤ u64_max = rw next at v.valid.word in
        let (above, word') = bound_next id word in
        (
          record l { queue = scheduled l.queue deadline value id; admitted = timer ∷ l.admitted },
          ap (λ out. returns (noted_schedule l value out)) e,
          record {
            valid = scheduled-IsValid l.queue deadline value id v.valid room next;
            words = v.words;
            known = (above, All-lt l.admitted id _ (omega (arith, above)) known);
            distinct = (Apart-fresh l.admitted timer known, v.distinct);
            balanced = Perm.trans (Perm.cons timer v.balanced) (
                Perm.symm (
                  Perm-inner l.fired l.cancelled timer (l.queue.timers ++ (timer ∷ []))
                    l.queue.timers (Perm-last l.queue.timers timer)));
          },
        )
  ]

  cancels-StepsTo :
      (l : Ledger T) (token : TimerToken) → IsBalanced l → StepsTo (step l (cancels token))
  unfolding step
  cancels-StepsTo l token v = elim (cancel_lem l.queue token v.valid) [
    | inl (e, absent) ↦ (l, rw e refl, v)
    | inr (timer, rest, e, named, r, valid, absent) ↦ (
      record l { queue = without l.queue timer rest; cancelled = timer ∷ l.cancelled },
      rw e refl,
      record {
        valid = valid;
        words = v.words;
        known = v.known;
        distinct = v.distinct;
        balanced = Perm.trans v.balanced (
            Perm.trans (Perm-inner l.fired l.cancelled timer l.queue.timers rest (Removes-Perm r))
              (Perm.symm (perm_middle l.fired (l.cancelled ++ rest))));
      },
    )
  ]

  pops-StepsTo : (l : Ledger T) (now : ℕ) → IsBalanced l → StepsTo (step l (pops now))
  unfolding step
  pops-StepsTo l now v = elim (pop_due-PopsDue l.queue now v.valid) [
    | inl (e, idle) ↦ (l, rw e refl, v)
    | inr (timer, rest, e, due, r, first, valid) ↦ (
      record l { queue = without l.queue timer rest; fired = timer ∷ l.fired },
      rw e refl,
      record {
        valid = valid;
        words = v.words;
        known = v.known;
        distinct = v.distinct;
        balanced =
            Perm.trans v.balanced
              (Perm-inner l.fired l.cancelled timer l.queue.timers rest (Removes-Perm r));
      },
    )
  ]

  step-StepsTo : (l : Ledger T) (op : Op T) → IsBalanced l → StepsTo (step l op)
  step-StepsTo l (schedules deadline value) v = schedules-StepsTo l deadline value v
  step-StepsTo l (cancels token) v = cancels-StepsTo l token v
  step-StepsTo l (pops now) v = pops-StepsTo l now v

  run-StepsTo : (l : Ledger T) (ops : List (Op T)) → IsBalanced l → StepsTo (run l ops)
  unfolding run
  run-StepsTo l [] v = (l, refl, v)
  run-StepsTo l (op ∷ ops) v =
      let (m, e, w) = step-StepsTo l op v in
      let (l', e', w') = run-StepsTo m ops w in (l', rw (e, e') refl, w')

  abbrev pub opened : TimerQueue T → Ledger T
  opened q = record { queue = q; admitted = []; fired = []; cancelled = [] }

  -- On a new queue whose first identity and byte limit are u64 values, no history of schedules,
  -- cancellations and pops panics, and it leaves a valid queue. The timers admitted have pairwise
  -- different identities, and they are, up to their order, those fired, those cancelled and those
  -- pending together, so none is lost and none fires twice or after it was cancelled.
  pub run-starting_at :
      (owner : ℕ) (limits : TimerLimits) (first_id : ℕ) (measure : T → ℕ) (ops : List (Op T))
      → first_id ≤ u64_max
      → limits.retained_bytes ≤ u64_max
      → (l : Ledger T) × (run (opened (starting_at_with_measure owner limits first_id measure)) ops
          ≡ returns l)
        × IsValid l.queue
        × Pairs Apart l.admitted
        × Perm l.admitted (l.fired ++ (l.cancelled ++ l.queue.timers))
  unfolding starting_at_with_measure
  run-starting_at owner limits first_id measure ops word bytes =
      let q = starting_at_with_measure owner limits first_id measure in
      let (l, e, v) = run-StepsTo (opened q) ops (record {
        valid = starting_at-IsValid owner limits first_id measure word;
        words = bytes;
        known = tt;
        distinct = tt;
        balanced = Perm.refl [];
      }) in
      (l, e, v.valid, v.distinct, v.balanced)
