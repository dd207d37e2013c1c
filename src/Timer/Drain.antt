-- ===== src/Timer/Drain.antt =====
-- `TimerQueue::drain_due_into`: the due timers in stable order, as many as the budget allows.
use calandria.Prelude.{
  ℕ, zero, suc, ◌+◌, ◌≤◌, ◌≡◌, refl, false, List, [], ◌∷◌, ◌++◌, Perm, length, append_assoc,
  append-nil, arith, All, Pairs, RemovesAll, done, more, RemovesAll-All, RemovesAll-Perm, ◌⊎◌, ◌↔◌,
  inl, inr, Outcome, returns,
}
use calandria.Timer.Heap.{Timer}
use calandria.Timer.Order.{Fires}
use calandria.Timer.{TimerQueue, TimerDrain, is_due, drain_loop, drain_due_into}
use calandria.Timer.Invariant.{IsValid, without}
use calandria.Timer.Due.{NoneDue, pop_due-PopsDue, is_due-NoneDue}

module _ {ℓ} {T : Type ℓ} where
  -- What a drain at `now` with a budget has taken out of a queue, in order, and what it has left.
  pub record Drained (q q' : TimerQueue T) (out : List (Timer T)) (now budget : ℕ) : Type ℓ where
    pub taken : RemovesAll out q.timers q'.timers
    pub due : All (λ timer. timer.token.deadline ≤ now) out
    pub sorted : Pairs Fires out
    pub first : All (λ timer. All (Fires timer) q'.timers) out
    pub within : length out ≤ budget
    pub used : (length out ≡ budget) ⊎ NoneDue q' now
    pub valid : IsValid q'

  -- What the loop comes to, from what it has put into the destination before.
  abbrev Loops :
      TimerQueue T
      → ℕ
      → ℕ
      → List (Timer T)
      → ℕ
      → Outcome (TimerQueue T × List (Timer T) × ℕ)
      → Type ℓ
  Loops q now budget destination fired r =
      (q' : TimerQueue T) × (out : List (Timer T)) × (r
        ≡ returns (q', destination ++ out, fired + length out))
      × Drained q q' out now budget

  drain_loop-Loops :
      (budget : ℕ) (q : TimerQueue T) (now : ℕ) (destination : List (Timer T)) (fired : ℕ)
      → IsValid q
      → Loops q now budget destination fired (drain_loop budget q now destination fired)
  unfolding drain_loop
  drain_loop-Loops zero q now destination fired v = (
    q,
    [],
    ground (arith, append-nil destination),
    record {
      taken = done;
      due = tt;
      sorted = tt;
      first = tt;
      within = omega arith;
      used = inl refl;
      valid = v;
    },
  )
  drain_loop-Loops (suc budget) q now destination fired v = elim (pop_due-PopsDue q now v) [
    | inl (p, none_due) ↦ (
      q,
      [],
      ground (arith, p, append-nil destination),
      record {
        taken = done;
        due = tt;
        sorted = tt;
        first = tt;
        within = omega arith;
        used = inr none_due;
        valid = v;
      },
    )
    | inr (timer, rest, p, due, r, fires, valid) ↦
        let next = without q timer rest in
        let (q', out, e, d) =
          drain_loop-Loops budget next now (destination ++ (timer ∷ [])) (fired + 1) valid in
        let (ahead, left) = RemovesAll-All (Fires timer) d.taken fires in
        (
          q',
          timer ∷ out,
          ground (arith, p, e, append_assoc destination (timer ∷ []) out),
          record {
            taken = more r d.taken;
            due = (due, d.due);
            sorted = (ahead, d.sorted);
            first = (left, d.first);
            within = omega (arith, d.within);
            used = elim d.used [ inl full ↦ inl (omega arith) | inr idle ↦ inr idle ];
            valid = d.valid;
          },
        )
  ]

  -- A drain of a valid queue does not panic. It appends due timers to the destination in the order
  -- of deadline and identity, ahead of all that stay, no more than the budget, and fewer only if
  -- none that is due stays; they and what stays are the timers that there were. Its report counts
  -- them, and reports no more work exactly when none that is due stays. What is left is valid.
  pub drain_due_into_lem :
      (q : TimerQueue T) (now : ℕ) (destination : List (Timer T)) (budget : ℕ)
      → IsValid q
      → (q' : TimerQueue T) × (out : List (Timer T)) × (report : TimerDrain) × (drain_due_into q now
            destination budget
          ≡ returns (q', destination ++ out, report))
        × (report.fired ≡ length out)
        × ((report.more_due ≡ false) ↔ NoneDue q' now)
        × Drained q q' out now budget
        × Perm q.timers (out ++ q'.timers)
  unfolding drain_due_into
  drain_due_into_lem q now destination budget v =
      let (q', out, e, d) = drain_loop-Loops budget q now destination 0 v in
      (
        q',
        out,
        record { fired = length out; more_due = is_due q' now },
        ground (arith, e),
        refl,
        is_due-NoneDue q' now,
        d,
        RemovesAll-Perm d.taken,
      )
