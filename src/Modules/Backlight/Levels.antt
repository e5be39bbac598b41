-- ===== src/Modules/Backlight/Levels.antt =====
-- modules/backlight.c: captures of the ambient brightness, and the levels that follow from it. `mean` is GSL's,
-- on which `compute_average` rests.
use clight.Prelude.{
  ℕ, Bool, true, false, not, ◌&&◌, ◌||◌, Option, none, some, List, [], ◌∷◌, ◌++◌, ◌==◌,
  if◌then◌else◌, ◌>>=◌, length, minus_one, ℤ, pos,
}
use clight.Public.{at, BlUpd, Message, ambient_br_upd, bl_upd, bl_req}
use clight.Commons.{
  Float, Conf, State, bl_fd, backlight_set, monitor_backlight_set, sensor_capture, Effect, publish,
  bus,
}
use clight.Utils.Timer.{set_timeout}
use clight.Utils.MyMath.{of_int, clamp, larger, smaller, ends, get_value_from_curve, Libm}
use clight.Modules.Backlight.{BlResult, get_current_timeout, BlModule, BlMaps, BlReplies}

-- `strrchr(path, '/') + 1`; without a slash, what is read is not there.
abbrev last_part : Option (List ℕ) → List ℕ → Option (List ℕ)
last_part found [] = found
last_part found (x ∷ xs) = last_part (if x == 47 then some xs else found) xs

abbrev pub mon_id_of : List ℕ → Option (List ℕ)
mon_id_of path = last_part none path

module _ {D : Type 0} ⦃f : Float D⦄ where
  abbrev pub plain_level : D → D → BlUpd D
  plain_level old new = record {
    old = old;
    new = new;
    smooth = pos 0;
    timeout = pos 0;
    step = of_int (pos 0);
  }

  -- A request for a level with the configuration's transition.
  abbrev pub level_request : D → Message D
  level_request new = bl_req (record {
    old = of_int (pos 0);
    new = new;
    smooth = minus_one;
    timeout = pos 0;
    step = of_int (pos 0);
  })

  -- The state, the calls, and whether the call that captures succeeds.
  unfoldable pub capture_frames_brightness :
      (List D → D) → Option (List D) → Conf D → State D → Option (State D × List (Effect D) × Bool)
  capture_frames_brightness mean reply c s = do
    n ← at c.sens_conf.num_captures s.ac_state
    let call : Effect D = bus (sensor_capture n)
    some (elim reply [
      | none ↦ (s, call ∷ [], false)
      | some intensity ↦ (
        record s { ambient_br = mean intensity },
        call ∷ publish (ambient_br_upd (plain_level s.ambient_br (mean intensity))) ∷ [],
        true,
      )
    ])

  -- The level that the ambient brightness and the screen's contents ask for.
  unfoldable pub new_backlight : Libm D → Conf D → State D → Option D
  new_backlight libm c s = do
    curve ← at c.sens_conf.default_curve s.ac_state
    new_bl ← get_value_from_curve libm s.ambient_br curve
    (first, last) ← ends curve
    let contrib = c.screen_conf.contrib
    let wmax = f.add new_bl contrib
    let dark = f.sub wmax (f.mul (f.mul (of_int (pos 2)) contrib) s.screen_br)
    some (
        if f.eq s.screen_br (of_int (pos 0))
        then new_bl
        else clamp dark (larger last first) (smaller first last))

  unfoldable pub set_new_backlight : Libm D → Conf D → State D → Option (List (Effect D))
  set_new_backlight libm c s = do
    new ← new_backlight libm c s
    some (
        if not (f.eq new s.current_bl_pct) || c.verbose
        then publish (level_request new) ∷ []
        else [])

  unfoldable pub do_capture :
      Libm D
      → (List D → D)
      → BlReplies D
      → Bool
      → Bool
      → Conf D
      → State D
      → BlModule D
      → Option (BlResult D)
  do_capture libm mean replies reset_timer capture_only c s m = do
    (s', es, ok) ← capture_frames_brightness mean replies.intensities c s
    level ←
        (if ok && (f.le c.bl_conf.shutter_threshold s'.ambient_br && not capture_only)
          then set_new_backlight libm c s'
          else some [])
    rearmed ←
        (if reset_timer
          then (get_current_timeout c s' >>= λ t. some (set_timeout t (pos 0) bl_fd ∷ []))
          else some [])
    some (m, c, s', es ++ (level ++ rearmed))

  unfoldable pub publish_bl_upd : D → Bool → D → ℤ → State D → Effect D
  publish_bl_upd pct is_smooth step timeout s = publish (
      bl_upd (record {
        old = s.current_bl_pct;
        new = pct;
        smooth = if is_smooth then pos 1 else pos 0;
        timeout = timeout;
        step = step;
      }))

  -- The call for one monitor: with its own curve, if it has one and its level is not being restored.
  unfoldable pub set_brightness :
      Libm D → BlMaps D → D → D → ℤ → Conf D → State D → List ℕ × D → Option (Effect D)
  set_brightness libm maps pct step timeout c s (path, val) = do
    mon_id ← mon_id_of path
    let restoring = f.eq pct (of_int minus_one)
    let plain : D = if restoring then val else pct
    level ← elim (maps.get_curve mon_id c.sens_conf.specific_curves) [
      | none ↦ some plain
      | some curves ↦
          if restoring
          then some plain
          else (at curves s.ac_state >>= λ curve. get_value_from_curve libm pct curve)
    ]
    some (bus (monitor_backlight_set path level step timeout))

  unfoldable pub set_each_brightness :
      Libm D
      → BlMaps D
      → D
      → D
      → ℤ
      → Conf D
      → State D
      → List (List ℕ × D)
      → Option (List (Effect D))
  set_each_brightness libm maps pct step timeout c s [] = some []
  set_each_brightness libm maps pct step timeout c s (x ∷ xs) = do
    e ← set_brightness libm maps pct step timeout c s x
    es ← set_each_brightness libm maps pct step timeout c s xs
    some (e ∷ es)

  -- With specific curves the result stays `-EINVAL`, and no smooth change is announced.
  unfoldable pub set_backlight_level :
      Libm D
      → BlMaps D
      → Bool
      → D
      → Bool
      → D
      → ℤ
      → Conf D
      → State D
      → BlModule D
      → Option (List (Effect D))
  unfolding publish_bl_upd
  set_backlight_level libm maps ok pct is_smooth step timeout c s m =
      let step' = if is_smooth then step else of_int (pos 0) in
      let timeout' = if is_smooth then timeout else pos 0 in
      let each = set_each_brightness libm maps pct step' timeout' c s m.bls in
      let announced : List (Effect D) =
        if ok && is_smooth then publish_bl_upd pct true step' timeout' s ∷ [] else [] in
      if length c.sens_conf.specific_curves == 0
      then some (bus (backlight_set pct step' timeout') ∷ announced)
      else each
