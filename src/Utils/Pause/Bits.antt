-- ===== src/Utils/Pause/Bits.antt =====
-- The bits of `paused_state`, over the nine reasons there are: each law is evaluated at every value.
use clight.Prelude.{
  ℕ, zero, suc, ◌<◌, bit_and, ◌≡◌, refl, ◌≢◌, ◌↔◌, Bool, true, false, not, ◌&&◌, ◌||◌, arith, ltb,
  ◌==◌, if◌then◌else◌, eqb_bool,
}
use clight.Utils.Pause.{
  mask, mod_check_pause, ModPause, display, sensor, autocalib, lid, suspend, timeout, inhibit,
  contrib, clogged,
}

-- Is the module paused for this reason?
unfoldable pub has : ℕ → ModPause → Bool
has p r = not (bit_and p (mask r) == 0)

abbrev same : ModPause → ModPause → Bool
same r s = mask r == mask s

abbrev all_reasons : (ModPause → Bool) → Bool
all_reasons q =
    q display
    && (q sensor
        && (q autocalib
            && (q lid && (q suspend && (q timeout && (q inhibit && (q contrib && q clogged)))))))

all_reasons_sound : (q : ModPause → Bool) (r : ModPause) → all_reasons q ≡ true → q r ≡ true
all_reasons_sound q display h = ground arith
all_reasons_sound q sensor h = ground arith
all_reasons_sound q autocalib h = ground arith
all_reasons_sound q lid h = ground arith
all_reasons_sound q suspend h = ground arith
all_reasons_sound q timeout h = ground arith
all_reasons_sound q inhibit h = ground arith
all_reasons_sound q contrib h = ground arith
all_reasons_sound q clogged h = ground arith

all_below : ℕ → (ℕ → Bool) → Bool
all_below zero q = true
all_below (suc n) q = q n && all_below n q

all_below_sound : (n : ℕ) (q : ℕ → Bool) (x : ℕ) → all_below n q ≡ true → x < n → q x ≡ true
unfolding all_below
all_below_sound zero q x h lt = absurd (omega arith)
all_below_sound (suc n) q x h lt = ground (arith, all_below_sound n q x)

-- What a request does to the bit of `s`.
abbrev changed : Bool → ℕ → ModPause → ModPause → Bool
changed pause p r s = if same r s then pause else has p s

abbrev row : Bool → ModPause → ModPause → ℕ → Bool
row pause r s p =
    let (p', woken) = mod_check_pause pause p r in
    ltb p' 512 && eqb_bool (has p' s) (changed pause p r s)

table : Bool → Bool
table pause = all_reasons (λ r. all_reasons (λ s. all_below 512 (row pause r s)))

table-true : table true ≡ true
unfolding table all_below has mod_check_pause
table-true = refl

table-false : table false ≡ true
unfolding table all_below has mod_check_pause
table-false = refl

tables : (pause : Bool) → table pause ≡ true
tables true = table-true
tables false = table-false

row-true : (pause : Bool) (p : ℕ) (r s : ModPause) → p < 512 → row pause r s p ≡ true
unfolding table
row-true pause p r s h =
    all_below_sound 512 (row pause r s) p
      (all_reasons_sound (λ s'. all_below 512 (row pause r s')) s
        (all_reasons_sound (λ r'. all_reasons (λ s'. all_below 512 (row pause r' s'))) r
          (tables pause)))
      h

-- A request sets or clears the bit of its own reason, and no other.
pub has-mod_check_pause :
    (pause : Bool) (p : ℕ) (r s : ModPause)
    → p < 512
    → has (mod_check_pause pause p r).0 s ≡ (if mask r == mask s then pause else has p s)
has-mod_check_pause pause p r s h = ground (arith, row-true pause p r s h)

pub mod_check_pause-lt :
    (pause : Bool) (p : ℕ) (r : ModPause) → p < 512 → (mod_check_pause pause p r).0 < 512
mod_check_pause-lt pause p r h = ground (arith, row-true pause p r r h)

nonzero_table : all_below 512 (λ p. eqb_bool (p == 0) (all_reasons (λ r. not (has p r)))) ≡ true
unfolding all_below has
nonzero_table = refl

-- No bit is set exactly when the value is zero.
pub eq_zero_iff : (p : ℕ) → p < 512 → (p ≡ 0) ↔ ((r : ModPause) → has p r ≡ false)
eq_zero_iff p h =
    let t = all_below_sound 512 _ p nonzero_table h in
    (
      λ e r. none_of r (ground (arith, t)),
      λ f. ground (
        arith,
        t,
        f display,
        f sensor,
        f autocalib,
        f lid,
        f suspend,
        f timeout,
        f inhibit,
        f contrib,
        f clogged,
      ),
    )
  where
    none_of : (r : ModPause) → all_reasons (λ r. not (has p r)) ≡ true → has p r ≡ false
    none_of r e = ground (arith, all_reasons_sound (λ r. not (has p r)) r e)

abbrev wake_row : Bool → ModPause → ℕ → Bool
wake_row pause r p =
    let (p', woken) = mod_check_pause pause p r in
    eqb_bool woken (not (eqb_bool (p == 0) (p' == 0)))
    && (if pause then not (p' == 0) else (not (p == 0) || p' == 0))

wake_table : Bool → Bool
wake_table pause = all_reasons (λ r. all_below 512 (wake_row pause r))

wake_tables : (pause : Bool) → wake_table pause ≡ true
unfolding wake_table all_below has mod_check_pause
wake_tables true = refl
wake_tables false = refl

wake_row-true : (pause : Bool) (p : ℕ) (r : ModPause) → p < 512 → wake_row pause r p ≡ true
unfolding wake_table
wake_row-true pause p r h =
    all_below_sound 512 (wake_row pause r) p
      (all_reasons_sound (λ r'. all_below 512 (wake_row pause r')) r (wake_tables pause)) h

-- The result tells that the module has just become paused, or has just ceased to be.
pub mod_check_pause-wakes :
    (pause : Bool) (p : ℕ) (r : ModPause)
    → p < 512
    → let (p', woken) = mod_check_pause pause p r in woken ≡ not (eqb_bool (p == 0) (p' == 0))
mod_check_pause-wakes pause p r h = ground (arith, wake_row-true pause p r h)

pub mod_check_pause-pauses : (p : ℕ) (r : ModPause) → p < 512 → (mod_check_pause true p r).0 ≢ 0
mod_check_pause-pauses p r h = ground (arith, wake_row-true true p r h)

pub mod_check_pause-idle : (r : ModPause) → (mod_check_pause false 0 r).0 ≡ 0
mod_check_pause-idle r = ground (arith, wake_row-true false 0 r (omega arith))
