-- ===== src/Modules/Backlight/Start.antt =====
-- The start of BACKLIGHT.
use clight.Prelude.{
  bit_or, ◌≡◌, refl, Bool, true, false, not, ◌&&◌, Option, none, some, List, [], ◌∷◌, ◌++◌, arith,
  if◌then◌else◌, minus_one, leb_ℤ, ◌==ℤ◌, ℤ, pos,
}
use clight.Commons.{Float, Conf, State, bl_fd, waiting_init, backlight_get, Effect, bus, Libmodule}
use clight.Utils.Pause.{autocalib, timeout}
use clight.Utils.Timer.{reset_timer}
use clight.Utils.MyMath.{of_int, Libm}
use clight.Modules.Backlight.{
  BlResult, pause_mod, pause_if, reset_or_pause, BlModule, BlMaps, BlReplies,
}
use clight.Modules.Backlight.Signals.{on_lid_update, on_sensor_change}
use clight.Modules.Backlight.Handlers.{
  screen_started, all_started, newly_started, start_paused, start_backlight, receive_waiting_init,
  BlEvent,
}
use clight.Modules.Backlight.Synced.{
  act, act-append, Steady, SteadyAfter, pause_mod-Steady, pause_if-Steady, append-Steady,
}
use clight.Modules.Backlight.Kept.{HaveDefaults, IsKnown, get_current_timeout_total}
use clight.Modules.Backlight.Calls.{IsNeutral, set_backlight_level_total}
use clight.Modules.Backlight.Requests.{on_lid_update-Steady, on_sensor_change-Kept}

module _ {D S : Type 0} ⦃f : Float D⦄ (lib : Libmodule S) (base : S) where
  then-Steady :
      (m1 : BlModule D) (es1 : List (Effect D)) (w : S × Bool) (m2 : BlModule D)
      (es2 : List (Effect D))
      → SteadyAfter lib base w (m1, es1)
      → ((v : S × Bool) → Steady lib base m1.paused_state v → SteadyAfter lib base v (m2, es2))
      → SteadyAfter lib base w (m2, es1 ++ es2)
  then-Steady m1 es1 w m2 es2 h k = rw (act-append lib es1 es2 w) (k (act lib es1 w) h)

  -- The module and its calls keep the stack and the registration right.
  abbrev IsSteady : BlModule D → BlModule D × List (Effect D) → Type 0
  IsSteady m r = (w : S × Bool) → Steady lib base m.paused_state w → SteadyAfter lib base w r

  begun-IsSteady :
      (b : Bool) (level : List (Effect D)) (m : BlModule D)
      → IsNeutral lib level
      → IsSteady m
          (if b then ((pause_mod autocalib m).0, level ++ (pause_mod autocalib m).1) else (m, []))
  begun-IsSteady false level m q w h = h
  begun-IsSteady true level m q w h =
      let (m1, es1) = pause_mod autocalib m in
      then-Steady m level w m1 es1 (append-Steady lib base m [] level w q h)
        (λ v k. pause_mod-Steady lib base autocalib m v k)

  closed-IsSteady :
      (b : Bool) (c : Conf D) (s : State D) (m : BlModule D) (r : BlModule D × List (Effect D))
      → IsSteady m r
      → IsSteady m (if b then r else ((on_lid_update c s r.0).0, r.1 ++ (on_lid_update c s r.0).1))
  closed-IsSteady true c s m r k w h = k w h
  closed-IsSteady false c s m r k w h =
      let (m', es') = on_lid_update c s r.0 in
      then-Steady r.0 r.1 w m' es' (k w h) (λ v j. on_lid_update-Steady lib base v c s r.0 j)

  start_paused-IsSteady :
      (libm : Libm D) (maps : BlMaps D) (ok : Bool) (c : Conf D) (s : State D) (m : BlModule D)
      → HaveDefaults c
      → (r : BlModule D × List (Effect D)) × (start_paused libm maps ok c s m ≡ some r)
        × IsSteady m r
  start_paused-IsSteady libm maps ok c s m g =
      let (level, e, q) =
        set_backlight_level_total lib libm maps ok (of_int (pos 1)) (not c.bl_conf.smooth.no_smooth)
          (of_int (pos 0)) (pos 0) c s m g in
      let (m1, es1) = pause_mod autocalib m in
      let begun : BlModule D × List (Effect D) =
        if c.bl_conf.no_auto_calib then (m1, level ++ es1) else (m, []) in
      let (m2, es2) = on_lid_update c s begun.0 in
      let all : BlModule D × List (Effect D) =
        if s.lid_state ==ℤ pos 0 then begun else (m2, begun.1 ++ es2) in
      (
        all,
        rw (start_paused, e),
        closed-IsSteady (s.lid_state ==ℤ pos 0) c s m begun
            (begun-IsSteady c.bl_conf.no_auto_calib level m q),
      )

  reset_or_pause-IsSteady :
      (left old : ℤ) (c : Conf D) (s : State D) (m : BlModule D)
      → IsKnown s
      → (r : BlModule D × List (Effect D)) × (reset_or_pause left old false c s m ≡ some r)
        × IsSteady m r
  unfolding reset_or_pause
  reset_or_pause-IsSteady left old c s m k =
      let (t, e) = get_current_timeout_total c s k in
      let off = leb_ℤ t (pos 0) in
      let (m', es) = pause_if off timeout m in
      let idle : (if not off && false then reset_timer {D = D} bl_fd left old t else []) ≡ [] =
        ground arith in
      (
        (m', es ++ []),
        rw (e, idle),
        λ w h.
            append-Steady lib base m' es [] w (λ v. refl)
              (pause_if-Steady lib base off timeout m w h),
      )

  sensor-IsSteady :
      (available : Bool) (c : Conf D) (s : State D) (m : BlModule D)
      → HaveDefaults c
      → IsSteady m ((on_sensor_change available c s m).0, (on_sensor_change available c s m).3)
  sensor-IsSteady available c s m g w h = (on_sensor_change-Kept lib base w available c s m g h).0

  -- BACKLIGHT has started, from these answers, if its stack is right for the reasons and its timer is
  -- registered if there is none.
  abbrev pub Started : S × Bool → Option (BlResult D) → Type 0
  Started w none = ⊥
  Started w (some (m, c, s, es)) = SteadyAfter lib base w (m, es)

  -- A BACKLIGHT that waits, with no reason for a pause, default curves with points and no specific curves,
  -- gets an event with which everything has started, while the power supply and the time of day are known:
  -- it starts without a read out of bounds, and then `receive_paused` is on top of its stack, once, if a
  -- reason pauses it, the stack is its base otherwise, and the timer is registered exactly when no reason
  -- pauses it.
  pub receive_waiting_init-Started :
      (libm : Libm D) (maps : BlMaps D) (replies : BlReplies D) (e : BlEvent D) (c : Conf D)
      (s : State D) (m : BlModule D)
      → newly_started e
          (if c.screen_conf.disabled then bit_or m.started screen_started else m.started)
        ≡ all_started
      → m.paused_state ≡ 0
      → IsKnown s
      → HaveDefaults c
      → Started
          (lib.m_become waiting_init base, false)
          (receive_waiting_init libm maps replies e c s m)
  unfolding receive_waiting_init start_backlight
  receive_waiting_init-Started libm maps replies e c s m all none_yet k g =
      let m0 = record m { started = all_started } in
      let begun : S × Bool = (lib.m_unbecome (lib.m_become waiting_init base), true) in
      let at_first : Steady lib base m0.paused_state begun =
        ground (arith, none_yet, lib.unbecome-become waiting_init base) in
      let (t, e0) = get_current_timeout_total c s k in
      let (r1, e1, h1) = reset_or_pause-IsSteady (pos 0) minus_one c s m0 k in
      let (m2, c2, s2, es2) = on_sensor_change replies.available c s r1.0 in
      let (r3, e3, h3) = start_paused-IsSteady libm maps replies.ok c s2 m2 g in
      let get : List (Effect D) = bus backlight_get ∷ [] in
      let last = λ (v : S × Bool) (h : Steady lib base m2.paused_state v).
        append-Steady lib base r3.0 r3.1 get v (λ u. refl) (h3 v h) in
      let next = λ (v : S × Bool) (h : Steady lib base r1.0.paused_state v).
        then-Steady m2 es2 v r3.0 (r3.1 ++ get) (sensor-IsSteady replies.available c s r1.0 g v h)
          last in
      rw (receive_waiting_init, all, start_backlight, e0, e1, e3)
        (then-Steady r1.0 r1.1 begun r3.0 (es2 ++ (r3.1 ++ get)) (h1 begun at_first) next)
