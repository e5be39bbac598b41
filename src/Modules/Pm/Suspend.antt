-- ===== src/Modules/Pm/Suspend.antt =====
-- `suspend_ctr` and `state.suspended` against the specification of a counter of holders.
use clight.Prelude.{
  ℕ, ◌≡◌, Bool, true, false, some, List, [], ◌∷◌, ◌++◌, arith, if◌then◌else◌, eqb_bool, ltb_ℤ, ℤ,
  pos,
}
use clight.Public.{SuspendUpd, Message, suspend_upd}
use clight.Commons.{Conf, State, delayed_resume_fd, Effect, publish, register_fd, settime, fd_upd}
use clight.Modules.Counting.{held, request, is_held}
use clight.Modules.Pm.{on_suspend_req, receive, PmModule, Replies}

pub record Counts {D : Type 0} (n : ℕ) (ctr : ℤ) (s : State D) : Type 0 where
  pub counted : ctr ≡ pos n
  pub flagged : s.suspended ≡ is_held n

abbrev resumption : {D : Type 0} → Message D
resumption = suspend_upd (record { old = true; new = false; force = false })

-- A suspension is announced at once; a resumption is announced at once, or handed to the timer if
-- there is a delay.
abbrev pub announced : {D : Type 0} → Conf D → Bool → List (Effect D)
announced c true = publish (suspend_upd (record { old = false; new = true; force = false })) ∷ []
announced c false =
    if ltb_ℤ (pos 0) c.resumedelay
    then settime delayed_resume_fd c.resumedelay (pos 0)
      ∷ register_fd delayed_resume_fd (some resumption)
      ∷ []
    else publish resumption ∷ []

-- The messages that calls publish at once.
abbrev pub published : {D : Type 0} → List (Effect D) → List (Message D)
published [] = []
published (publish x ∷ es) = x ∷ published es
published (_ ∷ es) = published es

module _ {D : Type 0} (c : Conf D) where
  -- The messages that the calls lead to, once each descriptor that they register has been handled, in
  -- the state that PM is in then.
  abbrev pub published_in_the_end :
      Replies → PmModule → ℤ → State D → List (Effect D) → List (Message D)
  published_in_the_end r m ctr s [] = []
  published_in_the_end r m ctr s (publish x ∷ es) = x ∷ published_in_the_end r m ctr s es
  published_in_the_end r m ctr s (register_fd fd ptr ∷ es) =
      published (receive c r (fd_upd fd ptr) m ctr s).3 ++ published_in_the_end r m ctr s es
  published_in_the_end r m ctr s (_ ∷ es) = published_in_the_end r m ctr s es

  -- While the counter and the flag are right, each request moves the counter as the specification does.
  -- The change of the flag, if there is one, is announced at once, but for a resumption with a delay,
  -- which arms the timer for the delay; once `receive` has handled the timer, in whatever state PM is in
  -- then, the message about the change has been published, once, and no message without a change.
  pub on_suspend_req-Counts :
      (up : SuspendUpd) (n : ℕ) (ctr : ℤ) (s : State D) (r : Replies) (m : PmModule) (later_ctr : ℤ)
      (later : State D)
      → Counts n ctr s
      → let (ctr', s', es) = on_suspend_req c up ctr s in
        Counts (held n (request up.new up.force)) ctr' s'
        × (es ≡ (if eqb_bool s.suspended s'.suspended then [] else announced c s'.suspended))
        × (published_in_the_end r m later_ctr later es ≡ (
            if eqb_bool s.suspended s'.suspended
            then []
            else suspend_upd (record { old = s.suspended; new = s'.suspended; force = false })
              ∷ []))
  unfolding on_suspend_req receive
  on_suspend_req-Counts up n ctr s r m later_ctr later h = ground arith
