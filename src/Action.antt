-- ===== src/Action.antt =====
-- crates/calandria-sim/src/action.rs: the identity of an action and its canonical order. A ready set
-- is the list of its actions.
use calandria.Prelude.{
  ℕ, Option, none, some, ◌≡◌, refl, arith, Bool, true, false, List, [], ◌∷◌, ltb, ◌==◌, ◌&&◌, ◌||◌,
}
use calandria.Time.Moment.{Moment}
use calandria.Turn.{Turn}
use calandria.Timeline.{EventToken}
use calandria.Model.{DutyId, ActionId}

pub data ActionKind : Type 0 where
  delivery : EventToken → ActionKind
  turn : ActionKind

pub record ActionKey : Type 0 where
  pub duty : DutyId
  pub kind : ActionKind

pub record ActionMeta : Type 0 where
  pub id : ActionId
  pub key : ActionKey
  pub at : Moment
  pub cause : Option ActionId

pub record ActionRecord {κ} (O : Type κ) : Type κ where
  pub meta : ActionMeta
  pub turn : Turn
  pub observations : List O

abbrev pub ReadySet : Type 0
ReadySet = List ActionKey

-- `Ord::cmp` is `Less`, field by field.
abbrev pub then_lt : ℕ → ℕ → Bool → Bool
then_lt a b rest = ltb a b || (a == b && rest)

abbrev pub kind_lt : DutyId → ActionKind → DutyId → ActionKind → Bool
kind_lt d (delivery l) e (delivery r) =
    then_lt l.at r.at (then_lt l.timeline r.timeline (then_lt l.id r.id (ltb d e)))
kind_lt d (delivery l) e turn = true
kind_lt d turn e (delivery r) = false
kind_lt d turn e turn = ltb d e

abbrev pub action_lt : ActionKey → ActionKey → Bool
action_lt a b = kind_lt a.duty a.kind b.duty b.kind

abbrev pub kind_eq : ActionKind → ActionKind → Bool
kind_eq (delivery l) (delivery r) = l.timeline == r.timeline && l.id == r.id && l.at == r.at
kind_eq (delivery l) turn = false
kind_eq turn (delivery r) = false
kind_eq turn turn = true

abbrev pub action_eq : ActionKey → ActionKey → Bool
action_eq a b = a.duty == b.duty && kind_eq a.kind b.kind

abbrev pub first : ReadySet → Option ActionKey
first [] = none
first (a ∷ more) = some a

-- `ReadySet::contains`: the binary search of the standard library is a membership test.
unfoldable pub contains : ReadySet → ActionKey → Bool
contains [] action = false
contains (a ∷ more) action = action_eq a action || contains more action

pub kind_eq-eq : (a b : ActionKind) → kind_eq a b ≡ true → a ≡ b
kind_eq-eq (delivery l) (delivery r) h =
    let t : l.timeline ≡ r.timeline = ground arith in
    let i : l.id ≡ r.id = ground arith in let a : l.at ≡ r.at = ground arith in cc
kind_eq-eq (delivery l) turn h = cc
kind_eq-eq turn (delivery r) h = cc
kind_eq-eq turn turn h = refl

pub action_eq-eq : (a b : ActionKey) → action_eq a b ≡ true → a ≡ b
action_eq-eq a b h =
    let d : a.duty ≡ b.duty = ground arith in
    let same : kind_eq a.kind b.kind ≡ true = ground arith in
    let k = kind_eq-eq a.kind b.kind same in cc
