-- ===== src/Modules/Interface/Foreign.antt =====
-- A lock that is dropped by another name, through its cookie: what is removed from the map is the
-- caller's key, so that the lock stays, with no reference.
use clight.Prelude.{ℕ, ◌≡◌, refl, Bool, true, false, none, some, [], ◌∷◌, arith, ◌==◌, ◌+ℤ◌, ℤ, pos}
use clight.Commons.{State}
use clight.Modules.Interface.{
  publish_inhibition, create_inhibit, unlisten, drop_inhibit, Lock, LockMap,
}
use clight.Modules.Interface.Laws.{MapLaws}

module _ {D M : Type 0} (lib : LockMap M) (laws : MapLaws lib) (clight_inh_key : ℕ)
    (s : State D) where
  open laws use {get_put, get_remove}

  -- `owner` holds one lock, `caller` none, and the cookie is the lock's.
  pub record IsForeign (caller owner : ℕ) (cookie : ℤ) (m : M) : Type 0 where
    pub without : lib.map_get caller m ≡ none
    pub holds : lib.map_get owner m ≡ some (record { cookie = cookie; refs = pos 1 })
    pub found : lib.find_cookie cookie m ≡ some owner
    pub others : (caller == owner) ≡ false

  abbrev unused_lock : ℤ → Lock
  unused_lock cookie = record { cookie = cookie; refs = pos 0 }

  abbrev rest : ℕ → ℕ → ℤ → M → M
  rest caller owner cookie m = lib.map_remove caller (lib.map_put owner (unused_lock cookie) m)

  foreign_dropped :
      (caller owner : ℕ) (cookie : ℤ) (m : M)
      → IsForeign caller owner cookie m
      → drop_inhibit lib clight_inh_key (some cookie) caller false s m ≡ (
        rest caller owner cookie m,
        true,
        publish_inhibition lib clight_inh_key false (caller == clight_inh_key) s
            ∷ unlisten lib clight_inh_key (rest caller owner cookie m),
      )
  unfolding drop_inhibit
  foreign_dropped caller owner cookie m h = rw (h.without, h.found, h.holds, drop_inhibit)

  still_there :
      (caller owner : ℕ) (cookie : ℤ) (m : M)
      → IsForeign caller owner cookie m
      → lib.map_get owner (rest caller owner cookie m) ≡ some (unused_lock cookie)
  still_there caller owner cookie m h = ground (
    arith,
    h.others,
    get_remove owner caller (lib.map_put owner (unused_lock cookie) m),
    get_put owner owner (unused_lock cookie) m,
  )

  -- A caller with no lock drops, by its cookie, another's lock with one reference. The call succeeds and
  -- asks for the end of the inhibition. When the owner then asks for an inhibition, it gets its old
  -- cookie and one reference, and no request is made.
  pub drop-create-unasked :
      (caller owner : ℕ) (cookie random cookie' : ℤ) (allocated : Bool) (m : M)
      → IsForeign caller owner cookie m
      → let (m1, ok, es1) = drop_inhibit lib clight_inh_key (some cookie) caller false s m in
        let (m2, r, es2) = create_inhibit lib clight_inh_key random allocated cookie' owner s m1 in
        (ok ≡ true)
        × (es1
            ≡ publish_inhibition lib clight_inh_key false (caller == clight_inh_key) s
              ∷ unlisten lib clight_inh_key m1)
        × (r ≡ some cookie)
        × (es2 ≡ [])
        × (lib.map_get owner m2 ≡ some (record { cookie = cookie; refs = pos 1 }))
  unfolding create_inhibit ◌+ℤ◌
  drop-create-unasked caller owner cookie random cookie' allocated m h =
      rw
        (
          foreign_dropped caller owner cookie m h,
          still_there caller owner cookie m h,
          create_inhibit,
          foreign_dropped caller owner cookie m h,
        )
        (
          refl,
          refl,
          refl,
          refl,
          ground (
            arith,
            get_put owner owner (record { cookie = cookie; refs = pos 1 })
                (rest caller owner cookie m),
          ),
        )
