-- ===== src/Modules/Wizard/Steps.antt =====
-- The steps of the wizard.
use clight.Prelude.{
  ℕ, zero, suc, ◌*◌, ◌%◌, ◌<◌, ◌≡◌, refl, ap, ◌∙◌, ◌⊎◌, inl, inr, true, false, not, ◌&&◌, ◌||◌,
  Option, none, some, List, [], ◌∷◌, ◌++◌, arith, ltb, ◌==◌, Bool-cases, length, length-append, pos,
}
use clight.Commons.{Float, Receiver, capturing, calibrating, Libmodule}
use clight.Modules.Keyboard.Points.{get_elem?_total}
use clight.Modules.Wizard.{
  wiz_compute, put_at, newline, is_yes, next_step, receive, receive_calibrating, receive_capturing,
  handle, run, WizModule, WizEvent, char_read, captured, sens_changed, WizResult, going, quits,
  computes, out_of_bounds,
}

length-put_at :
    {A : Type 0} (xs : List A) (i : ℕ) (a : A)
    → i < length xs
    → (ys : List A) × (put_at xs i a ≡ some ys) × (length ys ≡ length xs)
length-put_at [] i a h = absurd (omega arith)
length-put_at (x ∷ xs) zero a h = (a ∷ xs, refl, refl)
length-put_at (x ∷ xs) (suc i) a h =
    let (ys, e, l) = length-put_at xs i a (omega arith) in (x ∷ ys, rw e refl, ap suc l)

even : (n : ℕ) → (suc (suc (2 * n)) % 2 == 0) ≡ true
even n = ground arith

odd : (n : ℕ) → (suc (2 * n) % 2 == 0) ≡ false
odd n = ground arith

-- Where the wizard stands: at its start, capturing for a point, or asking for its level.
abbrev pub InPhase : Option Receiver → ℕ → ℕ → Type 0
InPhase top st idx =
    ((top ≡ none) × (st ≡ 0) × (idx ≡ 0))
    ⊎ (((top ≡ some capturing) × (st ≡ suc (2 * idx)) × (idx < 5))
        ⊎ ((top ≡ some calibrating) × (st ≡ suc (suc (2 * idx))) × (idx < 5)))

module _ {D S : Type 0} ⦃f : Float D⦄ (lib : Libmodule S) where
  abbrev pub InStep : WizModule D S → Type 0
  InStep w =
      (length w.amb_brs ≡ 5)
      × (length w.points ≡ w.capture_idx)
      × InPhase (lib.top w.handlers) w.wiz_st w.capture_idx

  -- The wizard is in step, has quit, or computes with five values and five points.
  abbrev pub IsInStep : WizResult D S → Type 0
  IsInStep (going w es) = InStep w
  IsInStep quits = Unit
  IsInStep (computes brs ps) = (length brs ≡ 5) × (length ps ≡ 5)
  IsInStep out_of_bounds = ⊥

  captured-next :
      (w : WizModule D S)
      → length w.amb_brs ≡ 5
      → length w.points ≡ w.capture_idx
      → w.wiz_st ≡ suc (2 * w.capture_idx)
      → w.capture_idx < 5
      → IsInStep (next_step lib w)
  unfolding next_step
  captured-next w a p e h =
      let more : ltb (suc w.wiz_st) wiz_compute ≡ true = ground (arith, e, h) in
      let parity : (suc w.wiz_st % 2 == 0) ≡ true =
        ap (λ n. suc n % 2 == 0) e ∙ even w.capture_idx in
      rw (next_step, more, parity)
        (a, p, inr (inr (lib.top-become calibrating w.handlers, ap suc e, h)))

  calibrated-next :
      (w : WizModule D S) (idx : ℕ)
      → length w.amb_brs ≡ 5
      → length w.points ≡ w.capture_idx
      → w.capture_idx ≡ suc idx
      → w.wiz_st ≡ suc (suc (2 * idx))
      → idx < 5
      → IsInStep (next_step lib w)
  unfolding next_step
  calibrated-next w idx a p i e h = elim (Bool-cases (ltb (suc w.wiz_st) wiz_compute)) [
    | inl more ↦
        let st : suc w.wiz_st ≡ suc (2 * w.capture_idx) = omega (arith, e, i) in
        let parity : (suc w.wiz_st % 2 == 0) ≡ false =
          ap (λ n. n % 2 == 0) st ∙ odd w.capture_idx in
        let left : w.capture_idx < 5 = ground (arith, more, st) in
        rw (next_step, more, parity)
          (a, p, inr (inl (lib.top-become capturing w.handlers, st, left)))
    | inr last ↦
        let all : w.capture_idx ≡ 5 = ground (arith, last, e, i, h) in
        rw (next_step, last) (a, p ∙ all)
  ]

  started-next :
      (w : WizModule D S)
      → length w.amb_brs ≡ 5
      → length w.points ≡ w.capture_idx
      → w.wiz_st ≡ 0
      → w.capture_idx ≡ 0
      → IsInStep (next_step lib w)
  unfolding next_step
  started-next w a p e i =
      rw (next_step, e)
        (a, p, inr (inl (lib.top-become capturing w.handlers, omega (arith, i), omega (arith, i))))

  receive-IsInStep :
      (e : WizEvent D) (w : WizModule D S)
      → length w.amb_brs ≡ 5
      → length w.points ≡ w.capture_idx
      → lib.top w.handlers ≡ none
      → w.wiz_st ≡ 0
      → w.capture_idx ≡ 0
      → IsInStep (receive lib e w)
  unfolding receive
  receive-IsInStep (char_read c l) w a p t s i = elim (Bool-cases (is_yes c)) [
    | inl y ↦ rw y (started-next w a p s i)
    | inr n ↦ rw n tt
  ]
  receive-IsInStep (captured br) w a p t s i = (a, p, inl (t, s, i))
  receive-IsInStep (sens_changed b) w a p t s i = (a, p, inl (t, s, i))

  receive_capturing-IsInStep :
      (e : WizEvent D) (w : WizModule D S)
      → length w.amb_brs ≡ 5
      → length w.points ≡ w.capture_idx
      → lib.top w.handlers ≡ some capturing
      → w.wiz_st ≡ suc (2 * w.capture_idx)
      → w.capture_idx < 5
      → IsInStep (receive_capturing lib e w)
  unfolding receive_capturing
  receive_capturing-IsInStep (char_read c l) w a p t s h =
      let (br, there) = get_elem?_total w.amb_brs w.capture_idx (omega (arith, a, h)) in
      elim (Bool-cases (is_yes c && (f.eq br (f.literal (pos 0) 1) || not (c == newline)))) [
        | inl y ↦ rw (receive_capturing, there, y) (a, p, inr (inl (t, s, h)))
        | inr n ↦ rw (receive_capturing, there, n) (captured-next w a p s h)
      ]
  receive_capturing-IsInStep (captured br) w a p t s h =
      let (ys, e, l) = length-put_at w.amb_brs w.capture_idx br (omega (arith, a, h)) in
      rw (receive_capturing, e) (l ∙ a, p, inr (inl (t, s, h)))
  receive_capturing-IsInStep (sens_changed b) w a p t s h = (a, p, inr (inl (t, s, h)))

  receive_calibrating-IsInStep :
      (e : WizEvent D) (w : WizModule D S)
      → length w.amb_brs ≡ 5
      → length w.points ≡ w.capture_idx
      → lib.top w.handlers ≡ some calibrating
      → w.wiz_st ≡ suc (suc (2 * w.capture_idx))
      → w.capture_idx < 5
      → IsInStep (receive_calibrating lib e w)
  unfolding receive_calibrating
  receive_calibrating-IsInStep (char_read c none) w a p t s h = elim (Bool-cases (c == newline)) [
    | inl y ↦ rw y tt
    | inr n ↦ rw n (a, p, inr (inr (t, s, h)))
  ]
  receive_calibrating-IsInStep (char_read c (some level)) w a p t s h =
      let w' = record w { capture_idx = suc w.capture_idx; points = w.points ++ (level ∷ []) } in
      elim (Bool-cases (c == newline)) [
        | inl y ↦ rw y (
            calibrated-next w' w.capture_idx a
              (omega (arith, length-append w.points (level ∷ []), p)) refl s h)
        | inr n ↦ rw n (a, p, inr (inr (t, s, h)))
      ]
  receive_calibrating-IsInStep (captured br) w a p t s h = (a, p, inr (inr (t, s, h)))
  receive_calibrating-IsInStep (sens_changed b) w a p t s h = (a, p, inr (inr (t, s, h)))

  handle-IsInStep : (e : WizEvent D) (w : WizModule D S) → InStep w → IsInStep (handle lib e w)
  unfolding handle
  handle-IsInStep e w (a, p, inl (t, s, i)) = rw (handle, t) (receive-IsInStep e w a p t s i)
  handle-IsInStep e w (a, p, inr (inl (t, s, h))) =
      rw (handle, t) (receive_capturing-IsInStep e w a p t s h)
  handle-IsInStep e w (a, p, inr (inr (t, s, h))) =
      rw (handle, t) (receive_calibrating-IsInStep e w a p t s h)

  -- From a wizard at its start, in the middle of a capture, or asking for a level, with as many points as it
  -- has calibrated: whatever characters, brightnesses and changes of the sensor come, it reads and writes
  -- within its arrays; it stays in step with its state, the state being even exactly while it asks for a
  -- level, or quits; and if it computes a curve, it has five brightnesses and exactly five points.
  pub run-IsInStep :
      (es : List (WizEvent D)) (w : WizModule D S) → InStep w → IsInStep (run lib es w)
  unfolding run
  run-IsInStep [] w h = h
  run-IsInStep (e ∷ es) w h =
      go (handle lib e w) (handle-IsInStep e w h) (λ w' h'. run-IsInStep es w' h')
    where
      go :
          (r : WizResult D S)
          → IsInStep r
          → ((w : WizModule D S) → InStep w → IsInStep (run lib es w))
          → IsInStep (elim r [
            | going w' fs ↦ run lib es w'
            | quits ↦ quits
            | computes brs ps ↦ computes brs ps
            | out_of_bounds ↦ out_of_bounds
          ])
      go (going w' fs) h rec = rec w' h
      go quits h rec = h
      go (computes brs ps) h rec = h
      go out_of_bounds h rec = h
