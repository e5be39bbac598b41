-- ===== src/Settings.antt =====
-- conf/config.c: the configuration file. libconfig, which is not under src/, is a parameter: `Libconfig`
-- is what reads a file, and `Root` is what is written to one.
pub mod Laws
pub mod Load
pub mod Read
pub mod Store
pub mod Kept
pub mod Arrays
pub mod Sections
pub mod Overrides
pub mod Roundtrip
pub mod Bounds
use clight.Prelude.{ℕ, Bool, Option, none, some, List, [], ◌∷◌, ◌==◌, if◌then◌else◌, ℤ, pos}
use clight.Commons.{Float}
use Prim.Native.String.{String}
use text.Mathlib.Text.{◌==◌ as str_eq}

-- The functions that read a setting: `config_lookup` and `config_setting_get_member`, the
-- `config_setting_lookup_` ones, `config_setting_length` and the `config_setting_get_elem` ones. The
-- texts are those before the terminating zero.
pub record Libconfig (D S : Type 0) : Type 0 where
  pub lookup : S → String → Option S
  pub lookup_bool : S → String → Option Bool
  pub lookup_int : S → String → Option ℤ
  pub lookup_float : S → String → Option D
  pub lookup_string : S → String → Option (List ℕ)
  pub elements : S → ℕ
  pub elem_at : S → ℕ → S
  pub int_elem : S → ℕ → ℤ
  pub float_elem : S → ℕ → D

-- What is added to a file, in order, with `config_setting_add` and the `config_setting_set_` functions.
pub data Scalar (D : Type 0) : Type 0 where
  bool_value : Bool → Scalar D
  int_value : ℤ → Scalar D
  float_value : D → Scalar D
  string_value : List ℕ → Scalar D

pub data Value (D : Type 0) : Type 0 where
  scalar : Scalar D → Value D
  array : List (Scalar D) → Value D

abbrev pub Group : Type 0 → Type 0
Group D = List (String × Value D)

pub data Entry (D : Type 0) : Type 0 where
  value : Value D → Entry D
  group : Group D → Entry D
  groups : List (Group D) → Entry D

abbrev pub Root : Type 0 → Type 0
Root D = List (String × Entry D)

module _ {V : Type 0} where
  -- The first member of a name.
  abbrev pub member : String → List (String × V) → Option V
  member n [] = none
  member n ((k, v) ∷ ms) = if str_eq n k then some v else member n ms

-- `LAT_UNDEFINED` and `LON_UNDEFINED`.
abbrev pub lat_undefined : {D : Type 0} ⦃f : Float D⦄ → D
lat_undefined ⦃f⦄ = f.literal (pos 91) 1

abbrev pub lon_undefined : {D : Type 0} ⦃f : Float D⦄ → D
lon_undefined ⦃f⦄ = f.literal (pos 181) 1
