-- ===== src/Modules/IdleClient/Reasons.antt =====
-- What a change of the timeout does to a module that is suspended.
use clight.Prelude.{
  ℕ, ◌<◌, ◌≡◌, ◌∙◌, inl, inr, true, false, some, [], ◌∷◌, arith, ◌==◌, Bool-cases, ◌≤ℤ◌, ℤ, pos,
}
use clight.Public.{at}
use clight.Commons.{State, client_timeout, client_start, bus}
use clight.Utils.Pause.{mod_check_pause, ModPause, suspend, timeout}
use clight.Utils.Pause.Bits.{
  has, has-mod_check_pause, mod_check_pause-lt, eq_zero_iff, mod_check_pause-wakes,
}
use clight.Utils.Idler.{idle_set_timeout}
use clight.Modules.IdleClient.{pause_dimmer, timeout_callback, IdleModule}

ne_zero_of_has : (p : ℕ) (r : ModPause) → p < 512 → has p r ≡ true → (p == 0) ≡ false
ne_zero_of_has p r h b = elim (Bool-cases (p == 0)) [
  | inl e ↦ cc (b, (eq_zero_iff p h).0 (ground arith) r)
  | inr e ↦ e
]

module _ {D : Type 0} (s : State D) (m : IdleModule) where
  -- The module is paused by a suspension, its client is there, and nothing is inhibited.
  pub record IsAsleep : Type 0 where
    pub has_client : m.client ≡ true
    pub in_range : m.paused_state < 512
    pub asleep : has m.paused_state suspend ≡ true
    pub uninhibited : s.inhibited ≡ false

  -- In a module that is paused by a suspension, with a client and no inhibition, a positive timeout is set
  -- on the client and the client is started, though the suspension still pauses the module.
  pub timeout_callback-starts_asleep :
      (t : ℤ)
      → IsAsleep
      → at m.timeouts s.ac_state ≡ some t
      → pos 1 ≤ℤ t
      → let p = (mod_check_pause false m.paused_state timeout).0 in
        (timeout_callback s m
          ≡ some (record m { paused_state = p }, bus (client_timeout t) ∷ bus client_start ∷ []))
        × (has p suspend ≡ true)
  unfolding timeout_callback pause_dimmer idle_set_timeout
  timeout_callback-starts_asleep t h e pt =
      let kept = has-mod_check_pause false m.paused_state timeout suspend h.in_range ∙ h.asleep in
      let before = ne_zero_of_has m.paused_state suspend h.in_range h.asleep in
      let after =
        ne_zero_of_has (mod_check_pause false m.paused_state timeout).0 suspend
          (mod_check_pause-lt false m.paused_state timeout h.in_range) kept in
      let wakes = mod_check_pause-wakes false m.paused_state timeout h.in_range in
      (ground (arith, wakes, before, after), kept)
