-- ===== src/Modules/Backlight/Signals.antt =====
-- modules/backlight.c: the callbacks on the lid and on the signals of clightd.
use clight.Prelude.{
  ℕ, Bool, false, not, Option, none, some, List, [], ◌∷◌, ◌++◌, if◌then◌else◌, ◌>>=◌, minus_one,
  ltb_ℤ, ◌==ℤ◌, pos,
}
use clight.Public.{temp_req, sens_upd}
use clight.Commons.{
  Float, Conf, State, bl_fd, delayed_fd, sensor_is_available, Effect, publish, register_fd,
  deregister_fd, bus,
}
use clight.Utils.Pause.{sensor, lid}
use clight.Utils.Timer.{set_timeout}
use clight.Utils.MyMath.{of_int}
use clight.Modules.Backlight.{BlResult, pause_mod, resume_mod, pause_if, BlModule, BlMaps}
use clight.Modules.Backlight.Levels.{mon_id_of, level_request, publish_bl_upd}

module _ {D : Type 0} ⦃f : Float D⦄ where
  unfoldable pub on_lid_update : Conf D → State D → BlModule D → BlModule D × List (Effect D)
  on_lid_update c s m =
      let stopped = pause_mod lid m in
      let (m', es) = resume_mod lid m in
      let now : List (Effect D) =
        if c.bl_conf.capture_on_lid_opened then set_timeout (pos 0) (pos 1) bl_fd ∷ [] else [] in
      if not (s.lid_state ==ℤ pos 0)
      then (if c.bl_conf.pause_on_lid_closed then stopped else (m, []))
      else (m', now ++ es)

  -- `available`: the call succeeds, and there is a sensor.
  unfoldable pub on_sensor_change : Bool → Conf D → State D → BlModule D → BlResult D
  on_sensor_change available c s m =
      let new_sensor_avail = if available then pos 1 else pos 0 in
      let announced : Effect D =
        publish (sens_upd (record { old = not (s.sens_avail ==ℤ pos 0); new = available })) in
      let (m', es) = pause_if (not available) sensor m in
      let ask : Effect D = bus sensor_is_available in
      if new_sensor_avail ==ℤ s.sens_avail
      then (m, c, s, ask ∷ [])
      else (m', c, record s { sens_avail = new_sensor_avail }, ask ∷ announced ∷ es)

  -- The first monitor that reports a level is the one whose level is announced.
  unfoldable pub on_bl_changed :
      (List ℕ → List ℕ → Bool) → List ℕ → D → Conf D → State D → BlModule D → BlResult D
  on_bl_changed same syspath pct c s m =
      let main : List ℕ = elim m.backlight_interface [ none ↦ syspath | some i ↦ i ] in
      let m' = record m { backlight_interface = some main } in
      if same main syspath
      then (
        m',
        c,
        record s { current_bl_pct = pct },
        publish_bl_upd pct false (of_int (pos 0)) (pos 0) s ∷ [],
      )
      else (m', c, s, [])

  unfoldable pub on_delayed_interface : State D → List (Effect D)
  on_delayed_interface s =
      publish (
        temp_req (record {
          daytime = minus_one;
          old = pos 0;
          new = s.current_temp;
          smooth = minus_one;
          step = pos 0;
          timeout = pos 0;
        }))
      ∷ publish (level_request s.current_bl_pct)
      ∷ deregister_fd delayed_fd
      ∷ []

  -- All monitors get their levels, now or after the configured delay.
  abbrev pub sync_monitors : Conf D → State D → List (Effect D)
  sync_monitors c s =
      if ltb_ℤ (pos 0) c.bl_conf.sync_monitors_delay
      then set_timeout c.bl_conf.sync_monitors_delay (pos 0) delayed_fd
        ∷ register_fd delayed_fd none
        ∷ []
      else on_delayed_interface s

  -- `none` for a signal that cannot be read.
  unfoldable pub on_interface_added :
      BlMaps D → Option (List ℕ) → Conf D → State D → BlModule D → BlResult D
  on_interface_added maps none c s m = (m, c, s, [])
  on_interface_added maps (some obj_path) c s m =
      (record m { bls = maps.put_level obj_path (of_int (pos 1)) m.bls }, c, s, sync_monitors c s)

  -- Without a monitor whose level is announced, a null pointer is compared.
  unfoldable pub on_interface_removed :
      (List ℕ → List ℕ → Bool)
      → BlMaps D
      → Option (List ℕ)
      → Conf D
      → State D
      → BlModule D
      → Option (BlResult D)
  on_interface_removed same maps none c s m = some (m, c, s, [])
  on_interface_removed same maps (some obj_path) c s m = do
    name ← mon_id_of obj_path
    main ← m.backlight_interface
    let m' = record m {
      bls = maps.remove_level obj_path m.bls;
      backlight_interface = if same name main then none else some main;
    }
    some (m', c, s, sync_monitors c s)
