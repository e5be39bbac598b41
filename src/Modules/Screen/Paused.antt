-- ===== src/Modules/Screen/Paused.antt =====
-- SCREEN's descriptor is registered while nothing pauses the module, and the shared brightness is 0 while a
-- reason that resets it does.
use clight.Prelude.{
  ℕ, ◌<◌, ◌≡◌, refl, ◌∙◌, inl, inr, Bool, true, false, ◌&&◌, ◌||◌, Option, none, some, List, [],
  ◌∷◌, ◌++◌, arith, ◌==◌, if◌then◌else◌, Bool-cases, leb_ℤ, ℤ, pos,
}
use clight.Public.{InPair, at_total}
use clight.Commons.{
  Float, Conf, State, screen_fd, screen_brightness, Effect, register_fd, deregister_fd, bus,
}
use clight.Utils.Pause.{mask, mod_check_pause, ModPause, timeout}
use clight.Utils.Pause.Bits.{has, has-mod_check_pause, mod_check_pause-lt, eq_zero_iff}
use clight.Utils.Pause.Runs.{registered-step}
use clight.Utils.Timer.{set_timeout, reset_timer}
use clight.Utils.MyMath.{of_int}
use clight.Modules.Screen.{
  ScreenResult, screen_msg, pause_screen, get_screen_brightness, timeout_callback, ScreenModule,
}

-- The reasons that reset the brightness: no sensor, no calibration, no timeout, an inhibition, no contribution.
abbrev pub resets : ModPause → Bool
resets r =
    (mask r == 2) || ((mask r == 4) || ((mask r == 32) || ((mask r == 64) || (mask r == 128))))

module _ {D : Type 0} where
  -- What the calls do to the registration of `screen_fd`.
  abbrev watch_one : Effect D → Bool → Bool
  watch_one (register_fd screen_fd ptr) b = true
  watch_one (deregister_fd screen_fd) b = false
  watch_one _ b = b

  abbrev pub watch : List (Effect D) → Bool → Bool
  watch [] b = b
  watch (e ∷ es) b = watch es (watch_one e b)

  pub watch-append :
      (xs ys : List (Effect D)) (b : Bool) → watch (xs ++ ys) b ≡ watch ys (watch xs b)
  watch-append [] ys b = refl
  watch-append (x ∷ xs) ys b = watch-append xs ys (watch_one x b)

watch-reset_timer :
    (D : Type 0) (left old new : ℤ) (b : Bool)
    → watch {D = D} (reset_timer screen_fd left old new) b ≡ b
unfolding reset_timer set_timeout
watch-reset_timer D left old new b = ground arith

module _ {D : Type 0} ⦃f : Float D⦄ where
  abbrev pub Dark : ℕ → D → Type 0
  Dark p br = (r : ModPause) → resets r ≡ true → has p r ≡ true → br ≡ of_int (pos 0)

  abbrev pub IsResting : ℕ → Bool → D → Type 0
  IsResting p b br = (p < 512) × (b ≡ (p == 0)) × Dark p br

  -- A result keeps this, from a registration `b`.
  abbrev pub RestsAfter : Bool → ScreenModule D × State D × List (Effect D) → Type 0
  RestsAfter b (m, s, es) = IsResting m.paused_state (watch es b) s.screen_br

  pause-Dark :
      (pause reset : Bool) (p : ℕ) (reason : ModPause) (br : D)
      → p < 512
      → (resets reason ≡ true → pause ≡ true → reset ≡ true)
      → Dark p br
      → Dark (mod_check_pause pause p reason).0 (if pause && reset then of_int (pos 0) else br)
  pause-Dark pause reset p reason br h fits dark r z k = elim (Bool-cases (mask reason == mask r)) [
    | inl same ↦
        let on : pause ≡ true = ground (arith, same, has-mod_check_pause pause p reason r h, k) in
        let too : resets reason ≡ true = ground (arith, same, z) in
        let reset_on = fits too on in rw (on, reset_on) refl
    | inr other ↦
        let before : has p r ≡ true =
          ground (arith, other, has-mod_check_pause pause p reason r h, k) in
        elim (Bool-cases (pause && reset)) [ inl y ↦ rw y refl | inr n ↦ rw n (dark r z before) ]
  ]

  pub pause_screen-RestsAfter :
      (pause : Bool) (reason : ModPause) (reset : Bool) (s : State D) (m : ScreenModule D)
      (b : Bool)
      → (resets reason ≡ true → pause ≡ true → reset ≡ true)
      → IsResting m.paused_state b s.screen_br
      → RestsAfter b (pause_screen pause reason reset s m)
  unfolding pause_screen
  pause_screen-RestsAfter pause reason reset s m b fits (h, e, dark) = (
    mod_check_pause-lt pause m.paused_state reason h,
    registered pause,
    pause-Dark pause reset m.paused_state reason s.screen_br h fits dark,
  )
    where
      registered :
          (pause : Bool)
          → watch {D = D}
              (if (mod_check_pause pause m.paused_state reason).1
                then (if pause
                    then deregister_fd screen_fd ∷ []
                    else register_fd screen_fd none ∷ [])
                else [])
              b
            ≡ ((mod_check_pause pause m.paused_state reason).0 == 0)
      registered true =
          let step = registered-step true m.paused_state reason b h e in
          elim (Bool-cases (mod_check_pause true m.paused_state reason).1) [
            | inl y ↦ ground (arith, step)
            | inr n ↦ ground (arith, step)
          ]
      registered false =
          let step = registered-step false m.paused_state reason b h e in
          elim (Bool-cases (mod_check_pause false m.paused_state reason).1) [
            | inl y ↦ ground (arith, step)
            | inr n ↦ ground (arith, step)
          ]

  pub get-RestsAfter :
      (reply : Option D) (emit : Bool) (s : State D) (m : ScreenModule D) (b : Bool)
      → IsResting m.paused_state b s.screen_br
      → RestsAfter b (get_screen_brightness reply emit s m)
  unfolding get_screen_brightness
  get-RestsAfter reply emit s m b (h, e, dark) = elim (Bool-cases (m.paused_state == 0)) [
    | inr n ↦ rw n (h, e, dark)
    | inl y ↦
        let none_yet : m.paused_state ≡ 0 = ground (arith, y) in
        let any : (br : D) → Dark m.paused_state br =
          λ br r z k. absurd (ground (arith, (eq_zero_iff m.paused_state h).0 none_yet r, k)) in
        rw y (answered reply emit any)
  ]
    where
      answered :
          (reply : Option D) (emit : Bool)
          → ((br : D) → Dark m.paused_state br)
          → RestsAfter b (elim reply [
            | none ↦ (record m { msg_old = s.screen_br }, s, bus screen_brightness ∷ [])
            | some new_br ↦
                if emit
                then (
                  record m { msg_old = s.screen_br; msg_new = new_br },
                  record s { screen_br = new_br },
                  bus screen_brightness
                      ∷ screen_msg (record m { msg_old = s.screen_br; msg_new = new_br })
                      ∷ [],
                )
                else (record m { msg_old = s.screen_br }, s, bus screen_brightness ∷ [])
          ])
      answered none emit any = (h, e, any s.screen_br)
      answered (some br) true any = (h, e, any br)
      answered (some br) false any = (h, e, any s.screen_br)

  abbrev pub Kept : Bool → Option (ScreenResult D) → Type 0
  Kept b none = ⊥
  Kept b (some (m, c, s, es)) = RestsAfter b (m, s, es)

  pub timeout_callback-Kept :
      (left old : ℤ) (reset : Bool) (c : Conf D) (s : State D) (m : ScreenModule D) (b : Bool)
      → InPair s.ac_state
      → IsResting m.paused_state b s.screen_br
      → Kept b (timeout_callback left old reset c s m)
  unfolding timeout_callback
  timeout_callback-Kept left old reset c s m b a h =
      let (t, e) = at_total c.screen_conf.timeout s.ac_state a in
      let (m', s', es) = pause_screen false timeout false s m in
      let more : List (Effect D) = if reset then reset_timer screen_fd left old t else [] in
      let still : watch more (watch es b) ≡ watch es b = elim (Bool-cases reset) [
        | inl y ↦ rw y (watch-reset_timer D left old t (watch es b))
        | inr n ↦ rw n refl
      ] in
      let (p, q, r) =
        pause_screen-RestsAfter false timeout false s m b (λ z k. absurd (ground (arith, k))) h in
      rw e (elim (Bool-cases (leb_ℤ t (pos 0))) [
        | inl y ↦ rw y (pause_screen-RestsAfter true timeout true s m b (λ z k. refl) h)
        | inr n ↦ rw n (p, watch-append es more b ∙ still ∙ q, r)
      ])
