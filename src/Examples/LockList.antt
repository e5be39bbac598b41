-- ===== src/Examples/LockList.antt =====
-- A map of locks with the laws that the locks rely on: the lock of name `k` is the `k`-th of a list.
use clight.Prelude.{
  ℕ, zero, suc, ◌+◌, ◌-◌, ◌<◌, ◌≡◌, refl, true, Option, none, some, List, [], ◌∷◌, arith, ◌==◌,
  if◌then◌else◌, ◌==ℤ◌, ℤ,
}
use clight.Modules.Interface.{Lock, LockMap}
use clight.Modules.Interface.Laws.{is_some, MapLaws}

abbrev pub Locks : Type 0
Locks = List (Option Lock)

abbrev get_at : ℕ → Locks → Option Lock
get_at k [] = none
get_at zero (x ∷ xs) = x
get_at (suc k) (x ∷ xs) = get_at k xs

abbrev put_at : ℕ → Lock → Locks → Locks
put_at zero l [] = some l ∷ []
put_at zero l (x ∷ xs) = some l ∷ xs
put_at (suc k) l [] = none ∷ put_at k l []
put_at (suc k) l (x ∷ xs) = x ∷ put_at k l xs

abbrev remove_at : ℕ → Locks → Locks
remove_at k [] = []
remove_at zero (x ∷ xs) = none ∷ xs
remove_at (suc k) (x ∷ xs) = x ∷ remove_at k xs

abbrev count : Locks → ℕ
count [] = 0
count (none ∷ xs) = count xs
count (some l ∷ xs) = count xs + 1

abbrev find_from : ℕ → ℤ → Locks → Option ℕ
find_from k cookie [] = none
find_from k cookie (none ∷ xs) = find_from (suc k) cookie xs
find_from k cookie (some l ∷ xs) =
    if l.cookie ==ℤ cookie then some k else find_from (suc k) cookie xs

abbrev pub lock_list : LockMap Locks
lock_list = record {
  map_get = get_at;
  map_put = put_at;
  map_remove = remove_at;
  map_length = count;
  find_cookie = find_from 0;
}

get-put_at :
    (j k : ℕ) (l : Lock) (m : Locks)
    → get_at j (put_at k l m) ≡ (if k == j then some l else get_at j m)
get-put_at zero zero l [] = refl
get-put_at zero zero l (x ∷ xs) = refl
get-put_at (suc j) zero l [] = ground arith
get-put_at (suc j) zero l (x ∷ xs) = ground arith
get-put_at zero (suc k) l [] = ground arith
get-put_at zero (suc k) l (x ∷ xs) = ground arith
get-put_at (suc j) (suc k) l [] = ground (arith, get-put_at j k l [])
get-put_at (suc j) (suc k) l (x ∷ xs) = ground (arith, get-put_at j k l xs)

get-remove_at :
    (j k : ℕ) (m : Locks) → get_at j (remove_at k m) ≡ (if k == j then none else get_at j m)
get-remove_at j k [] = ground arith
get-remove_at zero zero (x ∷ xs) = refl
get-remove_at (suc j) zero (x ∷ xs) = ground arith
get-remove_at zero (suc k) (x ∷ xs) = ground arith
get-remove_at (suc j) (suc k) (x ∷ xs) = ground (arith, get-remove_at j k xs)

count-put_at :
    (k : ℕ) (l : Lock) (m : Locks)
    → count (put_at k l m) ≡ (if is_some (get_at k m) then count m else count m + 1)
count-put_at zero l [] = refl
count-put_at zero l (none ∷ xs) = refl
count-put_at zero l (some x ∷ xs) = refl
count-put_at (suc k) l [] = ground (arith, count-put_at k l [])
count-put_at (suc k) l (none ∷ xs) = ground (arith, count-put_at k l xs)
count-put_at (suc k) l (some x ∷ xs) = ground (arith, count-put_at k l xs)

count_pos : (k : ℕ) (m : Locks) → is_some (get_at k m) ≡ true → 0 < count m
count_pos k [] h = ground arith
count_pos zero (none ∷ xs) h = ground arith
count_pos zero (some x ∷ xs) h = ground arith
count_pos (suc k) (none ∷ xs) h = count_pos k xs h
count_pos (suc k) (some x ∷ xs) h = ground arith

count-remove_at :
    (k : ℕ) (m : Locks)
    → count (remove_at k m) ≡ (if is_some (get_at k m) then count m - 1 else count m)
count-remove_at k [] = ground arith
count-remove_at zero (none ∷ xs) = refl
count-remove_at zero (some x ∷ xs) = ground arith
count-remove_at (suc k) (none ∷ xs) = count-remove_at k xs
count-remove_at (suc k) (some x ∷ xs) = ground (arith, count-remove_at k xs, count_pos k xs)

pub lock_list_laws : MapLaws lock_list
lock_list_laws = record {
  get_put = get-put_at;
  get_remove = get-remove_at;
  length_put = count-put_at;
  length_remove = count-remove_at;
}
