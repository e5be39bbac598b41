-- ===== src/Modules/Pm/Token.antt =====
-- `pm_inh_token` and `state.pm_inhibited`.
use clight.Prelude.{ℕ, ◌<◌, ◌≡◌, not, Option, none, some, arith, ◌==◌, ℤ}
use clight.Public.{pm_req, suspend_req}
use clight.Commons.{Conf, State, Input, loop_stopped, user}
use clight.Modules.Pm.{no_token, receive, PmModule, Replies, api_none}

-- The flag tells whether there is a token, and a lock that is held is known.
pub record IsHeld {D : Type 0} (m : PmModule) (s : State D) : Type 0 where
  pub flagged : s.pm_inhibited ≡ not (m.pm_inh_token == no_token)
  pub known : m.inh_api ≡ api_none → m.pm_inh_token ≡ no_token

-- The answers are tokens: not the mark of a failed `fcntl`, and no descriptor 0, which `fcntl` does
-- not return when it is asked for one from 3 on.
abbrev pub IsToken : Option ℕ → Type 0
IsToken none = Unit
IsToken (some t) = (0 < t) × (t < no_token)

pub record Good (r : Replies) : Type 0 where
  pub systemd_good : IsToken r.systemd_reply
  pub pm_good : IsToken r.pm_reply

-- Where the buses answer with tokens, every input leaves the flag `pm_inhibited` true exactly while
-- there is a token, and the owner of each token known, if it was so before.
pub receive-IsHeld :
    {D : Type 0} (c : Conf D) (r : Replies) (i : Input D) (m : PmModule) (ctr : ℤ) (s : State D)
    → Good r
    → IsHeld m s
    → let (m', ctr', s', es) = receive c r i m ctr s in IsHeld m' s'
unfolding receive
receive-IsHeld c r (user from (pm_req up)) m ctr s g h = ground arith
receive-IsHeld c r loop_stopped m ctr s g h = ground arith
receive-IsHeld c r (user from (suspend_req up)) m ctr s g h = ground arith
receive-IsHeld c r _ m ctr s g h = h
