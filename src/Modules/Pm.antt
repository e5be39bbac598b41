-- ===== src/Modules/Pm.antt =====
-- modules/pm.c: the inhibition of power management, held through logind or through the session's
-- PowerManagement service, and the suspensions, counted in `suspend_ctr`.
pub mod Suspend
pub mod Token
pub mod Lost
use clight.Prelude.{
  ℕ, Bool, true, false, not, ◌&&◌, ◌||◌, Option, none, some, List, [], ◌∷◌, ◌++◌, ltb, ◌==◌,
  if◌then◌else◌, ◌+ℤ◌, ◌-ℤ◌, ltb_ℤ, ◌==ℤ◌, ℤ, pos,
}
use clight.Public.{SuspendUpd, Message, inhibit_upd, pm_upd, pm_req, suspend_upd, suspend_req}
use clight.Commons.{
  Conf, State, delayed_resume_fd, Effect, publish, register_fd, deregister_fd, Input, fd_upd,
  loop_stopped, user,
}
use clight.Utils.Timer.{set_timeout}
use clight.Pubsub.Validations.{validate_pm, validate_suspend}

pub data InhApi : Type 0 where
  api_none : InhApi
  systemd : InhApi
  powermanagement : InhApi

-- `pm_inh_token`, an `unsigned int`, and `inh_api`.
pub record PmModule : Type 0 where
  pub pm_inh_token : ℕ
  pub inh_api : InhApi

-- `-1` as an `unsigned int`: no lock is held.
abbrev pub no_token : ℕ
no_token = 4294967295

-- `init`.
abbrev pub start_pm : PmModule
start_pm = record { pm_inh_token = no_token; inh_api = api_none }

-- What the buses answer: `systemd_reply` is `fcntl`'s result for the descriptor in the reply, as an
-- `unsigned int`, so `no_token` if it failed; `none` is a call that failed.
pub record Replies : Type 0 where
  pub systemd_reply : Option ℕ
  pub pm_reply : Option ℕ
  pub uninhibit_ok : Bool

unfoldable pub acquire_systemd_lock : Replies → PmModule → PmModule × Bool
acquire_systemd_lock r m = elim r.systemd_reply [
  | none ↦ (record m { inh_api = api_none }, false)
  | some token ↦
      if ltb 0 token
      then (record m { pm_inh_token = token; inh_api = systemd }, true)
      else (record m { pm_inh_token = token; inh_api = api_none }, false)
]

unfoldable pub acquire_pm_lock : Replies → PmModule → PmModule × Bool
acquire_pm_lock r m = elim r.pm_reply [
  | none ↦ (record m { inh_api = api_none }, false)
  | some token ↦ (record m { pm_inh_token = token; inh_api = powermanagement }, true)
]

abbrev release_by : InhApi → Replies → PmModule → PmModule × Bool
release_by systemd r m = (record m { pm_inh_token = no_token }, true)
release_by powermanagement r m =
    if r.uninhibit_ok then (record m { pm_inh_token = no_token }, true) else (m, false)
release_by api_none r m = (m, false)

unfoldable pub release_lock : Replies → PmModule → PmModule × Bool
release_lock r m = release_by m.inh_api r m

module _ {D : Type 0} where
  unfoldable pub publish_pm_msg : Bool → Bool → State D → State D × List (Effect D)
  publish_pm_msg old new s =
      (record s { pm_inhibited = new }, publish (pm_upd (record { old = old; new = new })) ∷ [])

  unfoldable pub on_pm_req :
      Bool → Replies → PmModule → State D → PmModule × State D × List (Effect D)
  unfolding acquire_systemd_lock acquire_pm_lock release_lock publish_pm_msg
  on_pm_req new r m s =
      if new && (m.pm_inh_token == no_token)
      then (let (m1, held_systemd) = acquire_systemd_lock r m in
          let (m2, held) = (if held_systemd then (m1, true) else acquire_pm_lock r m1) in
          let (s', es) = (if held then publish_pm_msg false true s else (s, [])) in (m2, s', es))
      else if not new && not (m.pm_inh_token == no_token)
      then (let (m1, released) = release_lock r m in
          let (s', es) = publish_pm_msg true false s in
          if released then (record m1 { inh_api = api_none }, s', es) else (m1, s, []))
      else (m, s, [])

  -- The message is sent at once, or handed to the timer of `conf.resumedelay` seconds.
  unfoldable pub on_suspend_req : Conf D → SuspendUpd → ℤ → State D → ℤ × State D × List (Effect D)
  unfolding validate_suspend set_timeout ◌+ℤ◌ ◌-ℤ◌
  on_suspend_req c up suspend_ctr s =
      let valid = validate_suspend s up in
      let ctr =
        if valid && not up.new
        then (if up.force then pos 0 else suspend_ctr -ℤ pos 1)
        else suspend_ctr in
      let changes = valid && (up.new || (ctr ==ℤ pos 0)) in
      let msg : SuspendUpd = record { old = s.suspended; new = up.new; force = false } in
      let delayed = not up.new && ltb_ℤ (pos 0) c.resumedelay in
      (
        if up.new then ctr +ℤ pos 1 else ctr,
        if changes then record s { suspended = up.new } else s,
        if changes
            then (if delayed
                then set_timeout c.resumedelay (pos 0) delayed_resume_fd
                  ∷ register_fd delayed_resume_fd (some (suspend_upd msg))
                  ∷ []
                else publish (suspend_upd msg) ∷ [])
            else [],
      )

  -- When the timer fires, the message that its descriptor was registered with is sent. The source does
  -- not look whether the pointer is null.
  unfoldable pub on_delayed_resume : Option (Message D) → List (Effect D)
  on_delayed_resume ptr =
      elim ptr [ none ↦ [] | some msg ↦ publish msg ∷ [] ] ++ (deregister_fd delayed_resume_fd ∷ [])

  -- The counter stands beside the module's other fields.
  unfoldable pub receive :
      Conf D → Replies → Input D → PmModule → ℤ → State D → PmModule × ℤ × State D × List (Effect D)
  unfolding on_pm_req on_suspend_req on_delayed_resume validate_pm
  receive c r (user from (inhibit_upd up)) m ctr s = (
    m,
    ctr,
    s,
    if c.inh_conf.inhibit_pm
        then publish (pm_req (record { old = not s.inhibited; new = s.inhibited })) ∷ []
        else [],
  )
  receive c r (user from (pm_req up)) m ctr s =
      if validate_pm s up
      then (let (m', s', es) = on_pm_req up.new r m s in (m', ctr, s', es))
      else (m, ctr, s, [])
  receive c r (fd_upd fd ptr) m ctr s = (m, ctr, s, on_delayed_resume ptr)
  receive c r loop_stopped m ctr s =
      if not (m.pm_inh_token == no_token)
      then (let (m', s', es) = on_pm_req false r m s in (m', ctr, s', es))
      else (m, ctr, s, [])
  receive c r (user from (suspend_req up)) m ctr s =
      let (ctr', s', es) = on_suspend_req c up ctr s in (m, ctr', s', es)
  receive c r _ m ctr s = (m, ctr, s, [])
