-- ===== src/Modules/Counting.antt =====
-- What a counter of holders promises, whatever it is that they hold: the specification of the
-- inhibitions and of the suspensions.
use clight.Prelude.{ℕ, ◌+◌, ◌-◌, Bool, true, false, List, [], ◌∷◌, ltb, if◌then◌else◌}

pub data Request : Type 0 where
  acquire : Request
  release : Request
  clear : Request

-- How many hold it. A release of what nobody holds is ignored.
abbrev pub held : ℕ → Request → ℕ
held n acquire = n + 1
held n release = n - 1
held n clear = 0

abbrev pub held_all : ℕ → List Request → ℕ
held_all n [] = n
held_all n (r ∷ rs) = held_all (held n r) rs

abbrev pub request : Bool → Bool → Request
request true force = acquire
request false force = if force then clear else release

-- It is held by somebody.
abbrev pub is_held : ℕ → Bool
is_held n = ltb 0 n
