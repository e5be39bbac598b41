-- ===== src/Modules/Pm/Lost.antt =====
-- When the copy of logind's descriptor fails, `fcntl` returns -1, which `acquire_systemd_lock`
-- compares with 0 as an unsigned number.
use clight.Prelude.{◌≡◌, true, false, some, List, [], ◌∷◌, arith, ℤ}
use clight.Public.{PmUpd, pm_req, suspend_req}
use clight.Commons.{Conf, State, ModuleName, Input, loop_stopped, user}
use clight.Modules.Pm.{no_token, receive, PmModule, Replies}

-- Power management is said to be inhibited, and there is no token to release.
pub record IsLost {D : Type 0} (m : PmModule) (s : State D) : Type 0 where
  pub claims : s.pm_inhibited ≡ true
  pub tokenless : m.pm_inh_token ≡ no_token

-- A request that comes when nothing is inhibited, and whose descriptor cannot be copied, ends so.
pub pm_req-IsLost :
    {D : Type 0} (c : Conf D) (r : Replies) (from : ModuleName) (up : PmUpd) (m : PmModule)
    (ctr : ℤ) (s : State D)
    → up.new ≡ true
    → r.systemd_reply ≡ some no_token
    → s.pm_inhibited ≡ false
    → m.pm_inh_token ≡ no_token
    → let (m', ctr', s', es) = receive c r (user from (pm_req up)) m ctr s in IsLost m' s'
unfolding receive
pm_req-IsLost c r from up m ctr s h1 h2 h3 h4 = ground arith

receive-IsLost :
    {D : Type 0} (c : Conf D) (r : Replies) (i : Input D) (m : PmModule) (ctr : ℤ) (s : State D)
    → IsLost m s
    → let (m', ctr', s', es) = receive c r i m ctr s in IsLost m' s'
unfolding receive
receive-IsLost c r (user from (pm_req up)) m ctr s h = ground arith
receive-IsLost c r loop_stopped m ctr s h = ground arith
receive-IsLost c r (user from (suspend_req up)) m ctr s h = ground arith
receive-IsLost c r _ m ctr s h = h

-- Inputs one after another, each with the answers that the buses give then.
pub pm_run :
    {D : Type 0} → Conf D → List (Replies × Input D) → PmModule → ℤ → State D → PmModule × State D
pm_run c [] m ctr s = (m, s)
pm_run c ((r, i) ∷ is) m ctr s =
    let (m', ctr', s', es) = receive c r i m ctr s in pm_run c is m' ctr' s'

pub pm_run-IsLost :
    {D : Type 0} (c : Conf D) (is : List (Replies × Input D)) (m : PmModule) (ctr : ℤ) (s : State D)
    → IsLost m s
    → let (m', s') = pm_run c is m ctr s in IsLost m' s'
unfolding pm_run
pm_run-IsLost c [] m ctr s h = h
pm_run-IsLost c ((r, i) ∷ is) m ctr s h =
    let (m', ctr', s', es) = receive c r i m ctr s in
    pm_run-IsLost c is m' ctr' s' (receive-IsLost c r i m ctr s h)

-- From a request on that comes while nothing is inhibited, and whose descriptor cannot be copied:
-- whatever comes, power management is said to be inhibited, and there is no token to release.
pub pm_req-IsLost_for_good :
    {D : Type 0} (c : Conf D) (r : Replies) (from : ModuleName) (up : PmUpd) (m : PmModule)
    (ctr : ℤ) (s : State D) (is : List (Replies × Input D))
    → up.new ≡ true
    → r.systemd_reply ≡ some no_token
    → s.pm_inhibited ≡ false
    → m.pm_inh_token ≡ no_token
    → let (m', s') = pm_run c ((r, user from (pm_req up)) ∷ is) m ctr s in IsLost m' s'
unfolding pm_run
pm_req-IsLost_for_good c r from up m ctr s is h1 h2 h3 h4 =
    let (m', ctr', s', es) = receive c r (user from (pm_req up)) m ctr s in
    pm_run-IsLost c is m' ctr' s' (pm_req-IsLost c r from up m ctr s h1 h2 h3 h4)
