-- ===== src/Modules/Interface/Laws.antt =====
-- What the locks rely on of libmodule's map.
use clight.Prelude.{ℕ, ◌+◌, ◌-◌, ◌≡◌, Bool, true, false, Option, none, some, ◌==◌, if◌then◌else◌}
use clight.Modules.Interface.{Lock, LockMap}

abbrev pub is_some : {A : Type 0} → Option A → Bool
is_some none = false
is_some (some a) = true

pub record MapLaws {M : Type 0} (lib : LockMap M) : Type 0 where
  pub get_put :
      (j k : ℕ) (l : Lock) (m : M)
      → lib.map_get j (lib.map_put k l m) ≡ (if k == j then some l else lib.map_get j m)
  pub get_remove :
      (j k : ℕ) (m : M)
      → lib.map_get j (lib.map_remove k m) ≡ (if k == j then none else lib.map_get j m)
  pub length_put :
      (k : ℕ) (l : Lock) (m : M)
      → lib.map_length (lib.map_put k l m)
        ≡ (if is_some (lib.map_get k m) then lib.map_length m else lib.map_length m + 1)
  pub length_remove :
      (k : ℕ) (m : M)
      → lib.map_length (lib.map_remove k m)
        ≡ (if is_some (lib.map_get k m) then lib.map_length m - 1 else lib.map_length m)
