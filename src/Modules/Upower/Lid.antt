-- ===== src/Modules/Upower/Lid.antt =====
-- The lid's states as they are announced. `publish_lid` takes a `bool`, so `DOCKED` becomes `CLOSED`.
use clight.Prelude.{◌≡◌, ◌≢◌, inl, inr, Bool, [], ◌∷◌, arith, Bool-cases, All, All-append, ℤ}
use clight.Public.{lid_closed, lid_docked, upower_req, lid_upd, lid_req}
use clight.Commons.{Conf, State, ModuleName, Effect, publish, Input, loop_started, user}
use clight.Modules.Upower.{publish_upower, publish_lid, on_upower_change, receive, Properties}

-- The message does not say that the laptop is docked.
abbrev pub NotDocked : {D : Type 0} → Effect D → Type 0
NotDocked (publish (lid_upd up)) = up.new ≢ lid_docked
NotDocked (publish (lid_req up)) = up.new ≢ lid_docked
NotDocked _ = Unit

on_upower_change-NotDocked :
    {D : Type 0} (c : Conf D) (p : Properties) (s : State D)
    → All NotDocked (on_upower_change c p s)
unfolding on_upower_change
on_upower_change-NotDocked c p s = ground arith

-- No message of this module says that the laptop is docked, also where the request that it takes, or
-- what logind reports, does.
pub receive-NotDocked :
    {D : Type 0} (c : Conf D) (ping hooked : Bool) (p : Properties) (i : Input D) (s : State D)
    → All NotDocked (receive c ping hooked p i s).1
unfolding receive publish_upower publish_lid
receive-NotDocked c ping hooked p loop_started s =
    let polled = on_upower_change-NotDocked c p s in
    elim (Bool-cases ping) [
      | inl e ↦ elim (Bool-cases hooked) [
        | inl e' ↦ rw (e, e') polled
        | inr e' ↦
            rw (e, e') (All-append NotDocked (on_upower_change c p s) _ polled (ground arith))
      ]
      | inr e ↦ rw e (ground arith)
    ]
receive-NotDocked c ping hooked p (user from (upower_req up)) s = ground arith
receive-NotDocked c ping hooked p (user from (lid_req up)) s = ground arith
receive-NotDocked c ping hooked p _ s = tt

-- A request for the docked state is stored as it is, and announced as a closed lid.
pub lid_req-docked :
    {D : Type 0} (c : Conf D) (ping hooked : Bool) (p : Properties) (from : ModuleName) (old : ℤ)
    (s : State D)
    → s.lid_state ≢ lid_docked
    → let (s', es) =
        receive c ping hooked p (user from (lid_req (record { old = old; new = lid_docked }))) s in
      (s'.lid_state ≡ lid_docked)
      × (es ≡ publish (lid_upd (record { old = s.lid_state; new = lid_closed })) ∷ [])
unfolding receive publish_lid
lid_req-docked c ping hooked p from old s ne = ground arith
