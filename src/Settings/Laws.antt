-- ===== src/Settings/Laws.antt =====
-- What libconfig documents of a file that is written and read again: a setting is found under its name, and
-- is given to a reader of its type; to a reader of another type it gives 0, or nothing. A double is written
-- with a limited number of digits.
use clight.Prelude.{
  ℕ, zero, suc, ◌≡◌, Bool, Option, none, some, List, [], ◌∷◌, ◌>>=◌, length, get_elem?, ℤ, pos,
}
use clight.Commons.{Float}
use clight.Settings.{
  Group, Root, member, Libconfig, Scalar, bool_value, int_value, float_value, string_value, Value,
  scalar, array, Entry, value, group, groups,
}
use Prim.Native.String.{String}

module _ {D : Type 0} where
  abbrev pub read_bool : Value D → Option Bool
  read_bool (scalar (bool_value b)) = some b
  read_bool _ = none

  abbrev pub read_int : Value D → Option ℤ
  read_int (scalar (int_value n)) = some n
  read_int _ = none

  abbrev pub read_float : (D → D) → Value D → Option D
  read_float rounded (scalar (float_value d)) = some (rounded d)
  read_float rounded _ = none

  abbrev pub read_string : Value D → Option (List ℕ)
  read_string (scalar (string_value s)) = some s
  read_string _ = none

  abbrev pub top_value : Entry D → Option (Value D)
  top_value (value v) = some v
  top_value _ = none

  abbrev pub int_at : List (Scalar D) → ℕ → ℤ
  int_at [] i = pos 0
  int_at (int_value n ∷ xs) zero = n
  int_at (_ ∷ xs) zero = pos 0
  int_at (x ∷ xs) (suc i) = int_at xs i

  abbrev pub float_at : ⦃f : Float D⦄ → (D → D) → List (Scalar D) → ℕ → D
  float_at ⦃f⦄ rounded [] i = f.literal (pos 0) 1
  float_at ⦃f⦄ rounded (float_value d ∷ xs) zero = rounded d
  float_at ⦃f⦄ rounded (_ ∷ xs) zero = f.literal (pos 0) 1
  float_at ⦃f⦄ rounded (x ∷ xs) (suc i) = float_at rounded xs i

-- `root` and `entry` are the file and its parts, once they are read; `rounded` is what is left of a double.
pub record Written {D S : Type 0} ⦃f : Float D⦄ (lib : Libconfig D S) : Type 0 where
  pub root : Root D → S
  pub entry : Entry D → S
  pub rounded : D → D
  pub lookup_root :
      (r : Root D) (n : String) → lib.lookup (root r) n ≡ (member n r >>= λ e. some (entry e))
  pub lookup_group :
      (g : Group D) (n : String)
      → lib.lookup (entry (group g)) n ≡ (member n g >>= λ v. some (entry (value v)))
  pub bool_root :
      (r : Root D) (n : String)
      → lib.lookup_bool (root r) n ≡ (member n r >>= λ e. top_value e >>= read_bool)
  pub int_root :
      (r : Root D) (n : String)
      → lib.lookup_int (root r) n ≡ (member n r >>= λ e. top_value e >>= read_int)
  pub bool_group :
      (g : Group D) (n : String) → lib.lookup_bool (entry (group g)) n ≡ (member n g >>= read_bool)
  pub int_group :
      (g : Group D) (n : String) → lib.lookup_int (entry (group g)) n ≡ (member n g >>= read_int)
  pub float_group :
      (g : Group D) (n : String)
      → lib.lookup_float (entry (group g)) n ≡ (member n g >>= read_float rounded)
  pub string_group :
      (g : Group D) (n : String)
      → lib.lookup_string (entry (group g)) n ≡ (member n g >>= read_string)
  pub elements_array : (xs : List (Scalar D)) → lib.elements (entry (value (array xs))) ≡ length xs
  pub elements_groups : (gs : List (Group D)) → lib.elements (entry (groups gs)) ≡ length gs
  pub elem_groups :
      (gs : List (Group D)) (i : ℕ) (g : Group D)
      → get_elem? gs i ≡ some g
      → lib.elem_at (entry (groups gs)) i ≡ entry (group g)
  pub int_array :
      (xs : List (Scalar D)) (i : ℕ) → lib.int_elem (entry (value (array xs))) i ≡ int_at xs i
  pub float_array :
      (xs : List (Scalar D)) (i : ℕ)
      → lib.float_elem (entry (value (array xs))) i ≡ float_at rounded xs i
