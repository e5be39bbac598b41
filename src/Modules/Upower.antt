-- ===== src/Modules/Upower.antt =====
-- modules/upower.c: the power supply and the lid.
pub mod Lid
pub mod Power
use clight.Prelude.{
  Bool, false, not, ◌&&◌, ◌||◌, Option, none, some, List, [], ◌∷◌, ◌++◌, if◌then◌else◌, ◌+ℤ◌,
  minus_one, ◌==ℤ◌, ℤ, pos,
}
use clight.Public.{
  on_ac, on_battery, lid_open, UpowerUpd, LidUpd, Message, upower_upd, upower_req, inhibit_req,
  lid_upd, lid_req,
}
use clight.Commons.{Conf, State, Effect, publish, deregister, Input, loop_started, user}
use clight.Pubsub.Validations.{validate_upower, validate_lid}

-- A conversion to `bool`.
abbrev pub to_bool : ℤ → Bool
to_bool n = not (n ==ℤ pos 0)

abbrev pub of_bool : Bool → ℤ
of_bool b = if b then pos 1 else pos 0

-- What `get_property` answers: `none` on an error.
pub record Properties : Type 0 where
  pub on_battery : Option ℤ
  pub lid_is_closed : Option Bool
  pub docked : Option Bool

-- `docked`: asked for only if the lid is closed, and false on an error.
abbrev docked_state : Bool → Option Bool → Bool
docked_state closed none = false
docked_state closed (some docked) = closed && docked

module _ {D : Type 0} where
  -- The message is of the type that the caller chooses.
  unfoldable pub publish_upower : ℤ → (UpowerUpd → Message D) → State D → Effect D
  publish_upower new up s = publish (up (record { old = s.ac_state; new = new }))

  -- The parameter is a `bool`.
  unfoldable pub publish_lid : Bool → (LidUpd → Message D) → State D → Effect D
  publish_lid new up s = publish (up (record { old = s.lid_state; new = of_bool new }))

  unfoldable pub publish_inh : Bool → State D → Effect D
  publish_inh new s = publish (inhibit_req (record { old = s.inhibited; new = new; force = false }))

  abbrev lid_changed : State D → Bool → Bool
  lid_changed s closed =
      s.lid_state ==ℤ minus_one || not (of_bool (to_bool s.lid_state) ==ℤ of_bool closed)

  abbrev on_lid_property : Conf D → Properties → Bool → State D → List (Effect D)
  on_lid_property c p closed s =
      let docked = docked_state closed p.docked in
      if c.inh_conf.inhibit_docked
      then publish_inh docked s
        ∷ publish_lid (to_bool (of_bool closed +ℤ of_bool docked)) lid_req s
        ∷ []
      else publish_lid (to_bool (of_bool closed)) lid_req s ∷ []

  unfoldable pub on_upower_change : Conf D → Properties → State D → List (Effect D)
  unfolding publish_upower publish_lid publish_inh ◌+ℤ◌
  on_upower_change c p s =
      let power : List (Effect D) = elim p.on_battery [
        | none ↦ []
        | some ac ↦ if s.ac_state ==ℤ ac then [] else publish_upower ac upower_req s ∷ []
      ] in
      let lids : List (Effect D) = elim p.lid_is_closed [
        | none ↦ []
        | some closed ↦ if lid_changed s closed then on_lid_property c p closed s else []
      ] in
      power ++ lids

  -- `receive`. `ping` and `hooked`: UPower answers, and its signal could be matched. When it answers,
  -- `upower_check` has called `on_upower_change`.
  unfoldable pub receive :
      Conf D → Bool → Bool → Properties → Input D → State D → State D × List (Effect D)
  unfolding publish_upower publish_lid validate_upower validate_lid
  receive c ping hooked p loop_started s =
      let polled : List (Effect D) = if ping then on_upower_change c p s else [] in
      let s1 = record s { ac_state = on_ac } in
      if ping && hooked then (s, polled) else (
        record s { ac_state = on_ac; lid_state = lid_open },
        polled
            ++ (publish_upower on_ac upower_upd s
                ∷ publish_lid (to_bool lid_open) lid_upd s1
                ∷ deregister
                ∷ []),
      )
  receive c ping hooked p (user from (upower_req up)) s =
      if validate_upower s up
      then (record s { ac_state = up.new }, publish_upower up.new upower_upd s ∷ [])
      else (s, [])
  receive c ping hooked p (user from (lid_req up)) s =
      if validate_lid s up
      then (record s { lid_state = up.new }, publish_lid (to_bool up.new) lid_upd s ∷ [])
      else (s, [])
  receive c ping hooked p _ s = (s, [])
