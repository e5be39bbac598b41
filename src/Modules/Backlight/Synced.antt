-- ===== src/Modules/Backlight/Synced.antt =====
-- The handler on top of BACKLIGHT's stack, and the registration of its timer, agree with the reasons for a
-- pause.
use clight.Prelude.{
  ℕ, ◌≡◌, refl, sym, ◌∙◌, subst, inl, inr, Bool, true, false, List, [], ◌∷◌, ◌++◌, arith, ◌==◌,
  Bool-cases, ℤ,
}
use clight.Commons.{bl_fd, Effect, register_fd, deregister_fd, receive_one, IsSynced, Libmodule}
use clight.Utils.Pause.{mod_check_pause, ModPause}
use clight.Utils.Pause.Runs.{IsSynced-step, registered-step}
use clight.Utils.Timer.{set_timeout, reset_timer}
use clight.Modules.Backlight.{pause_mod, resume_mod, pause_if, BlModule}

module _ {D S : Type 0} (lib : Libmodule S) where
  -- What the calls do to the registration of `bl_fd`.
  abbrev watch_one : Effect D → Bool → Bool
  watch_one (register_fd bl_fd ptr) b = true
  watch_one (deregister_fd bl_fd) b = false
  watch_one _ b = b

  -- What they do to the stack of handlers and to the registration.
  abbrev pub act : List (Effect D) → S × Bool → S × Bool
  act [] w = w
  act (e ∷ es) w = act es (receive_one lib e w.0, watch_one e w.1)

  pub act-append : (xs ys : List (Effect D)) (w : S × Bool) → act (xs ++ ys) w ≡ act ys (act xs w)
  act-append [] ys w = refl
  act-append (x ∷ xs) ys w = act-append xs ys (receive_one lib x w.0, watch_one x w.1)

module _ {S : Type 0} (lib : Libmodule S) (base : S) where
  -- The stack is right for the reasons, and the timer is registered if there is none.
  abbrev pub Steady : ℕ → S × Bool → Type 0
  Steady p w = IsSynced lib base p w.0 × (w.1 ≡ (p == 0))

module _ {D S : Type 0} (lib : Libmodule S) (base : S) where
  abbrev pub SteadyAfter : S × Bool → BlModule D × List (Effect D) → Type 0
  SteadyAfter w (m, es) = Steady lib base m.paused_state (act lib es w)

  pub pause_mod-Steady :
      (reason : ModPause) (m : BlModule D) (w : S × Bool)
      → Steady lib base m.paused_state w
      → SteadyAfter w (pause_mod reason m)
  unfolding pause_mod
  pause_mod-Steady reason m w h =
      let step = IsSynced-step lib base true m.paused_state reason w.0 h.0 in
      let registered = registered-step true m.paused_state reason w.1 h.0.0 h.1 in
      elim (Bool-cases (mod_check_pause true m.paused_state reason).1) [
        | inl e ↦ ground (arith, step, registered)
        | inr e ↦ ground (arith, step, registered)
      ]

  pub resume_mod-Steady :
      (reason : ModPause) (m : BlModule D) (w : S × Bool)
      → Steady lib base m.paused_state w
      → SteadyAfter w (resume_mod reason m)
  unfolding resume_mod
  resume_mod-Steady reason m w h =
      let step = IsSynced-step lib base false m.paused_state reason w.0 h.0 in
      let registered = registered-step false m.paused_state reason w.1 h.0.0 h.1 in
      elim (Bool-cases (mod_check_pause false m.paused_state reason).1) [
        | inl e ↦ ground (arith, step, registered)
        | inr e ↦ ground (arith, step, registered)
      ]

  pub pause_if-Steady :
      (b : Bool) (reason : ModPause) (m : BlModule D) (w : S × Bool)
      → Steady lib base m.paused_state w
      → SteadyAfter w (pause_if b reason m)
  pause_if-Steady true reason m w h = pause_mod-Steady reason m w h
  pause_if-Steady false reason m w h = resume_mod-Steady reason m w h

  -- Calls that leave both alone may follow.
  pub append-Steady :
      (m : BlModule D) (es more : List (Effect D)) (w : S × Bool)
      → ((v : S × Bool) → act lib more v ≡ v)
      → SteadyAfter w (m, es)
      → SteadyAfter w (m, es ++ more)
  append-Steady m es more w q h =
      subst (Steady lib base m.paused_state) (sym (act-append lib es more w ∙ q (act lib es w))) h

module _ {S : Type 0} (lib : Libmodule S) where
  pub act-reset_timer :
      (D : Type 0) (left old new : ℤ) (v : S × Bool)
      → act lib (reset_timer {D = D} bl_fd left old new) v ≡ v
  unfolding reset_timer set_timeout
  act-reset_timer D left old new v = ground arith
