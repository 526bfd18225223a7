-- ===== src/Json/Generator.antt =====
-- gearbox/core/JsonGenerator.cc: the calls of the yajl generator that print a value. How yajl turns
-- them into text is the library's; so is what `sprintf` prints of a double.
use gearbox.Base.{ℤ, Bool, List, [], ◌∷◌, ◌++◌, Bytes}
use gearbox.Json.Value.{Double, Json, Items, Fields}
use Json.{undef, bool, int, double, string, object, array}

-- a call of `yajl_gen_*`
pub data Call : Type 0 where
  gen_null map_open map_close array_open array_close : Call
  gen_bool : Bool → Call
  gen_integer : ℤ → Call
  gen_number : Bytes → Call
  gen_string : Bytes → Call

-- `print_double` is `sprintf` with `double_format`, "%.15g".
module _ (print_double : Double → Bytes) where
  unfoldable mutual
    -- `Json::Generator::generate`
    pub generate : Json → List Call
    generate undef = gen_null ∷ []
    generate (bool b) = gen_bool b ∷ []
    generate (int n) = gen_integer n ∷ []
    generate (double d) = gen_number (print_double d) ∷ []
    generate (string s) = gen_string s ∷ []
    generate (object fs) = map_open ∷ (generate_fields fs ++ (map_close ∷ []))
    generate (array xs) = array_open ∷ (generate_items xs ++ (array_close ∷ []))

    -- the loop of `generateObject`
    pub generate_fields : Fields → List Call
    generate_fields Fields.end = []
    generate_fields (Fields.field k v fs) = gen_string k ∷ (generate v ++ generate_fields fs)

    -- the loop of `generateArray`
    pub generate_items : Items → List Call
    generate_items Items.nil = []
    generate_items (Items.cons x xs) = generate x ++ generate_items xs
