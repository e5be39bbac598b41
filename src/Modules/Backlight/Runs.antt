-- ===== src/Modules/Backlight/Runs.antt =====
-- Runs of BACKLIGHT's handlers and of its callbacks on signals.
use clight.Prelude.{
  ℕ, inl, inr, Bool, true, false, not, ◌&&◌, Option, none, some, List, [], ◌∷◌, ◌==◌, if◌then◌else◌,
  Bool-cases, ◌>>=◌, ltb_ℤ, ◌==ℤ◌, pos,
}
use clight.Public.{bl_req, capture_req, screen_br_upd}
use clight.Commons.{Float, Curve, Conf, State, delayed_fd, Receiver, Input, fd_upd, user, Libmodule}
use clight.Utils.Timer.{set_timeout}
use clight.Utils.MyMath.{Libm}
use clight.Modules.Keyboard.Points.{IsFit}
use clight.Modules.Backlight.{BlResult, BlModule, BlMaps, BlReplies}
use clight.Modules.Backlight.Levels.{publish_bl_upd}
use clight.Modules.Backlight.Signals.{
  on_sensor_change, on_bl_changed, on_delayed_interface, on_interface_added,
}
use clight.Modules.Backlight.Handlers.{receive, receive_paused}
use clight.Modules.Backlight.Synced.{act, Steady}
use clight.Modules.Backlight.Kept.{HaveDefaults, IsKnown, Kept}
use clight.Modules.Backlight.Calls.{set_new_backlight-Kept, do_capture-Kept}
use clight.Modules.Backlight.Requests.{
  InputFits, on_sensor_change-Kept, bl_req-Kept, receive_any-Kept,
}

-- What comes: an input, or a signal of clightd.
pub data BlSignal (D : Type 0) : Type 0 where
  message : Input D → BlSignal D
  sensor_changed : BlSignal D
  bl_changed : List ℕ → D → BlSignal D
  interface_added : Option (List ℕ) → BlSignal D

module _ {D : Type 0} where
  -- An array is as long as its request says, a time of day is known, and the loop goes on; and the state.
  abbrev pub SignalFits : BlSignal D → Type 0
  SignalFits (message i) = InputFits i
  SignalFits _ = Unit

  abbrev pub AllFit : List (BlReplies D × BlSignal D × State D) → Type 0
  AllFit [] = Unit
  AllFit ((replies, e, s) ∷ es) = SignalFits e × IsKnown s × AllFit es

module _ {D S : Type 0} ⦃f : Float D⦄ (lib : Libmodule S) (base : S) (w : S × Bool) (libm : Libm D)
    (maps : BlMaps D) (fit : Curve D → Curve D) (mean : List D → D) where
  pub receive-Kept :
      (replies : BlReplies D) (i : Input D) (c : Conf D) (s : State D) (m : BlModule D)
      → IsFit fit
      → InputFits i
      → IsKnown s
      → HaveDefaults c
      → Steady lib base m.paused_state w
      → Kept lib base w (receive libm maps mean fit replies i c s m)
  unfolding receive on_delayed_interface
  receive-Kept replies (fd_upd delayed_fd ptr) c s m q z k g h = (h, g)
  receive-Kept replies (fd_upd _ ptr) c s m q z k g h = (h, g)
  receive-Kept replies (user from (screen_br_upd up)) c s m q z k g h =
      set_new_backlight-Kept lib libm base w c s m k g h
  receive-Kept replies (user from (capture_req up)) c s m q z k g h =
      do_capture-Kept lib libm base w mean replies up.reset_timer up.capture_only c s m k g h
  receive-Kept replies (user from (bl_req up)) c s m q z k g h =
      bl_req-Kept lib base w libm maps replies.ok up c s m g h
  receive-Kept replies i c s m q z k g h =
      receive_any-Kept lib base w libm maps fit replies i c s m q z k g h

  if_awake :
      (b : Bool) (o : Option (BlResult D)) (r : BlResult D)
      → Kept lib base w o
      → Kept lib base w (some r)
      → Kept lib base w (if b then o else some r)
  if_awake true o r h k = h
  if_awake false o r h k = k

  pub receive_paused-Kept :
      (replies : BlReplies D) (i : Input D) (c : Conf D) (s : State D) (m : BlModule D)
      → IsFit fit
      → InputFits i
      → IsKnown s
      → HaveDefaults c
      → Steady lib base m.paused_state w
      → Kept lib base w (receive_paused libm maps mean fit replies i c s m)
  unfolding receive_paused on_delayed_interface
  receive_paused-Kept replies (fd_upd _ ptr) c s m q z k g h = (h, g)
  receive_paused-Kept replies (user from (screen_br_upd up)) c s m q z k g h =
      if_awake (s.display_state == 0) _ (m, c, s, [])
        (set_new_backlight-Kept lib libm base w c s m k g h) (h, g)
  receive_paused-Kept replies (user from (capture_req up)) c s m q z k g h =
      if_awake ((s.display_state == 0) && not (s.sens_avail ==ℤ pos 0)) _ (m, c, s, [])
        (do_capture-Kept lib libm base w mean replies up.reset_timer up.capture_only c s m k g h)
        (h, g)
  receive_paused-Kept replies (user from (bl_req up)) c s m q z k g h =
      if_awake (s.display_state == 0) _ (m, c, s, [])
        (bl_req-Kept lib base w libm maps replies.ok up c s m g h) (h, g)
  receive_paused-Kept replies i c s m q z k g h =
      receive_any-Kept lib base w libm maps fit replies i c s m q z k g h

module _ {D S : Type 0} ⦃f : Float D⦄ (lib : Libmodule S) (libm : Libm D) (maps : BlMaps D)
    (fit : Curve D → Curve D) (mean : List D → D) (same : List ℕ → List ℕ → Bool) where
  -- A message goes to the handler on top of the stack, and a signal to its callback.
  abbrev pub handle :
      BlReplies D → BlSignal D → Conf D → State D → BlModule D → S → Option (BlResult D)
  handle replies (message i) c s m st = elim (lib.top st) [
    | none ↦ receive libm maps mean fit replies i c s m
    | some top ↦ receive_paused libm maps mean fit replies i c s m
  ]
  handle replies sensor_changed c s m st = some (on_sensor_change replies.available c s m)
  handle replies (bl_changed path pct) c s m st = some (on_bl_changed same path pct c s m)
  handle replies (interface_added path) c s m st = some (on_interface_added maps path c s m)

  -- What comes one after another, each with the outside's answers and the shared state of its time. The
  -- module keeps its own part of the configuration.
  pub handle_all :
      List (BlReplies D × BlSignal D × State D)
      → Conf D
      → BlModule D
      → S × Bool
      → Option (Conf D × BlModule D × (S × Bool))
  handle_all [] c m w = some (c, m, w)
  handle_all ((replies, e, s) ∷ es) c m w =
      let rest = λ (r : BlResult D). handle_all es r.1 r.0 (act lib r.3 w) in
      handle replies e c s m w.0 >>= rest

  module _ (base : S) where
    on_interface_added-Kept :
        (path : Option (List ℕ)) (c : Conf D) (s : State D) (m : BlModule D) (w : S × Bool)
        → HaveDefaults c
        → Steady lib base m.paused_state w
        → Kept lib base w (some (on_interface_added maps path c s m))
    unfolding on_interface_added on_delayed_interface set_timeout
    on_interface_added-Kept none c s m w g h = (h, g)
    on_interface_added-Kept (some path) c s m w g h =
        elim (Bool-cases (ltb_ℤ (pos 0) c.bl_conf.sync_monitors_delay)) [
          | inl y ↦ rw y (h, g)
          | inr n ↦ rw n (h, g)
        ]

    on_bl_changed-Kept :
        (path : List ℕ) (pct : D) (c : Conf D) (s : State D) (m : BlModule D) (w : S × Bool)
        → HaveDefaults c
        → Steady lib base m.paused_state w
        → Kept lib base w (some (on_bl_changed same path pct c s m))
    unfolding on_bl_changed publish_bl_upd
    on_bl_changed-Kept path pct c s m w g h =
        elim (Bool-cases (same (elim m.backlight_interface [ none ↦ path | some i ↦ i ]) path)) [
          | inl y ↦ rw y (h, g)
          | inr n ↦ rw n (h, g)
        ]

    handle-Kept :
        (replies : BlReplies D) (e : BlSignal D) (c : Conf D) (s : State D) (m : BlModule D)
        (w : S × Bool)
        → IsFit fit
        → SignalFits e
        → IsKnown s
        → HaveDefaults c
        → Steady lib base m.paused_state w
        → Kept lib base w (handle replies e c s m w.0)
    handle-Kept replies (message i) c s m w q z k g h = by_top (lib.top w.0)
      where
        by_top :
            (top : Option Receiver)
            → Kept lib base w (elim top [
              | none ↦ receive libm maps mean fit replies i c s m
              | some t ↦ receive_paused libm maps mean fit replies i c s m
            ])
        by_top none = receive-Kept lib base w libm maps fit mean replies i c s m q z k g h
        by_top (some t) =
            receive_paused-Kept lib base w libm maps fit mean replies i c s m q z k g h
    handle-Kept replies sensor_changed c s m w q z k g h =
        on_sensor_change-Kept lib base w replies.available c s m g h
    handle-Kept replies (bl_changed path pct) c s m w q z k g h =
        on_bl_changed-Kept path pct c s m w g h
    handle-Kept replies (interface_added path) c s m w q z k g h =
        on_interface_added-Kept path c s m w g h

    abbrev pub EndsSteady : Option (Conf D × BlModule D × (S × Bool)) → Type 0
    EndsSteady none = ⊥
    EndsSteady (some (c, m, w)) = Steady lib base m.paused_state w × HaveDefaults c

    -- From a stack of handlers and a registration of the timer that are in step with the reasons for a pause,
    -- default curves with points, and no specific curves: whatever messages and signals come before the loop
    -- stops, but the removal of a monitor, while the power supply and the time of day are known and the
    -- arrays are as long as the requests say, BACKLIGHT handles them without a read or a write out of bounds;
    -- then `receive_paused` is on top of the stack, once, if a reason pauses the module, the stack is its
    -- base otherwise, the timer is registered exactly when no reason pauses the module, and the curves have
    -- points. The fit is one that leaves the number of points.
    pub backlight-EndsSteady :
        (es : List (BlReplies D × BlSignal D × State D)) (c : Conf D) (m : BlModule D)
        (w : S × Bool)
        → IsFit fit
        → AllFit es
        → HaveDefaults c
        → Steady lib base m.paused_state w
        → EndsSteady (handle_all es c m w)
    unfolding handle_all
    backlight-EndsSteady [] c m w q z g h = (h, g)
    backlight-EndsSteady ((replies, e, s) ∷ es) c m w q (z, k, zs) g h =
        go (handle replies e c s m w.0) (handle-Kept replies e c s m w q z k g h)
          (λ c' m' w' g' h'. backlight-EndsSteady es c' m' w' q zs g' h')
      where
        go :
            (o : Option (BlResult D))
            → Kept lib base w o
            → ((c : Conf D) (m : BlModule D) (w : S × Bool)
                → HaveDefaults c
                → Steady lib base m.paused_state w
                → EndsSteady (handle_all es c m w))
            → EndsSteady (o >>= λ (r : BlResult D). handle_all es r.1 r.0 (act lib r.3 w))
        go none x rec = x
        go (some (m', c', s', fs)) (h', g') rec = rec c' m' (act lib fs w) g' h'
