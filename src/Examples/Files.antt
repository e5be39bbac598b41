-- ===== src/Examples/Files.antt =====
-- A configuration file at concrete inputs: a file is what was written to it.
use clight.Prelude.{
  ℕ, ◌≡◌, refl, true, Option, none, some, List, [], ◌∷◌, arith, ◌>>=◌, length, get_elem?, All, ℤ,
  pos,
}
use clight.Public.{Pair}
use clight.Commons.{Curve, Conf}
use clight.Settings.{
  Group, Root, member, Libconfig, Scalar, Value, array, Entry, value, group, groups,
}
use clight.Settings.Read.{CurveMap, read_config}
use clight.Settings.Store.{store_config}
use clight.Settings.Laws.{
  read_bool, read_int, read_float, read_string, top_value, int_at, float_at, Written,
}
use clight.Settings.Kept.{HasRoom, HaveRoom, kept, IsStorable}
use clight.Settings.Roundtrip.{store_config-read_config}
use clight.Settings.Bounds.{read_config-HasRooms, HasRooms}
use clight.Examples.Data.{hundredths, line, conf}
use clight.Examples.Data.{hundredths}
use Prim.Native.String.{String}

data Parsed : Type 0 where
  top : Root ℤ → Parsed
  part : Entry ℤ → Parsed

abbrev group_value : Parsed → String → Option (Value ℤ)
group_value (part (group g)) n = member n g
group_value _ n = none

abbrev found : Parsed → String → Option Parsed
found (top r) n = member n r >>= λ e. some (part e)
found (part (group g)) n = member n g >>= λ v. some (part (value v))
found (part _) n = none

abbrev top_or_group : Parsed → String → Option (Value ℤ)
top_or_group (top r) n = member n r >>= top_value
top_or_group (part e) n = group_value (part e) n

abbrev items : Parsed → List (Scalar ℤ)
items (part (value (array xs))) = xs
items _ = []

abbrev parts : Parsed → ℕ
parts (part (groups gs)) = length gs
parts p = length (items p)

abbrev part_at : Parsed → ℕ → Parsed
part_at (part (groups gs)) i = elim (get_elem? gs i) [
  | none ↦ part (group [])
  | some g ↦ part (group g)
]
part_at p i = p

abbrev file : Libconfig ℤ Parsed
file = record {
  lookup = found;
  lookup_bool = λ s n. top_or_group s n >>= read_bool;
  lookup_int = λ s n. top_or_group s n >>= read_int;
  lookup_float = λ s n. top_or_group s n >>= read_float (λ d. d);
  lookup_string = λ s n. top_or_group s n >>= read_string;
  elements = parts;
  elem_at = part_at;
  int_elem = λ s i. int_at (items s) i;
  float_elem = λ s i. float_at (λ d. d) (items s) i;
}

bind_assoc :
    {A B C : Type 0} (x : Option A) (g : A → Option B) (h : B → Option C)
    → ((x >>= g) >>= h) ≡ (x >>= λ a. g a >>= h)
bind_assoc none g h = refl
bind_assoc (some a) g h = refl

found_part :
    (gs : List (Group ℤ)) (i : ℕ) (g : Group ℤ)
    → get_elem? gs i ≡ some g
    → part_at (part (groups gs)) i ≡ part (group g)
found_part gs i g e = rw (part_at, e) refl

abbrev written : Written file
written = record {
  root = top;
  entry = part;
  rounded = λ d. d;
  lookup_root = λ r n. refl;
  lookup_group = λ g n. refl;
  bool_root = λ r n. bind_assoc (member n r) top_value read_bool;
  int_root = λ r n. bind_assoc (member n r) top_value read_int;
  bool_group = λ g n. refl;
  int_group = λ g n. refl;
  float_group = λ g n. refl;
  string_group = λ g n. refl;
  elements_array = λ xs. refl;
  elements_groups = λ gs. refl;
  elem_groups = found_part;
  int_array = λ xs i. refl;
  float_array = λ xs i. refl;
}

abbrev put_last : List ℕ → Pair (Curve ℤ) → CurveMap ℤ → CurveMap ℤ
put_last key c m = (key, c) ∷ m

-- A sensor with a name, and a monitor with its own curves.
abbrev stored : Conf ℤ
stored = record conf {
  sens_conf = record conf.sens_conf {
    dev_name = some (118 ∷ 48 ∷ []);
    specific_curves = (65 ∷ [], record { first = line; second = line }) ∷ [];
  };
  screen_conf = record conf.screen_conf { contrib = pos 50 };
}

line-HasRoom : HasRoom line
line-HasRoom = (omega arith, omega arith)

stored-IsStorable : IsStorable stored
stored-IsStorable = record {
  sensor_curves = (line-HasRoom, line-HasRoom);
  overrides = (refl, (line-HasRoom, line-HasRoom), tt);
  kbd_curves = (line-HasRoom, line-HasRoom);
  sunrise_fits = omega arith;
  sunset_fits = omega arith;
}

store_config-read_config_example :
    read_config file put_last (some (top (store_config stored))) conf
    ≡ (kept (λ d. d) put_last stored conf, true)
store_config-read_config_example =
    store_config-read_config file written put_last stored conf stored-IsStorable refl

put_last-HaveRoom :
    (key : List ℕ) (c : Pair (Curve ℤ)) (m : CurveMap ℤ)
    → HaveRoom c
    → All (λ e. HaveRoom e.1) m
    → All (λ e. HaveRoom e.1) (put_last key c m)
put_last-HaveRoom key c m h hm = (h, hm)

conf-HasRooms : HasRooms conf
conf-HasRooms = record {
  sensor = (line-HasRoom, line-HasRoom);
  monitors = tt;
  keyboard = (line-HasRoom, line-HasRoom);
}

read_config-HasRooms_example :
    HasRooms ((read_config file put_last (some (top (store_config stored))) conf).0)
read_config-HasRooms_example =
    read_config-HasRooms put_last put_last-HaveRoom file (some (top (store_config stored))) conf
      conf-HasRooms
