-- ===== src/Json/Parser.antt =====
-- gearbox/core/JsonParser.cc without a schema: the callbacks that build a value, and `parse`. The
-- parser's context points into the tree that it builds: here the value under the cursor stands with
-- the values around it, outward to the root.
pub mod Reads
use gearbox.Base.{
  Bool, true, false, ℤ, List, [], ◌∷◌, ◌++◌, Bytes, codes, is_empty, Option, none, some,
  if◌then◌else◌, ◌==◌,
}
use gearbox.Errors.{Exception, json_error, strlcpy, buffer_size}
use gearbox.Json.Value.{Double, Json, Items, Fields, find, map_insert, push_back}
use Json.{undef, bool, int, double, string, object, array}

-- the callbacks that yajl makes
pub data ParseEvent : Type 0 where
  null start_map end_map start_array end_array : ParseEvent
  boolean : Bool → ParseEvent
  number : Bytes → ParseEvent
  text : Bytes → ParseEvent
  map_key : Bytes → ParseEvent

-- a value that holds the one under the cursor: an object with its other keys and the key of that
-- value, or an array with the items before it
pub data Frame : Type 0 where
  in_object : Fields → Bytes → Frame
  in_array : Items → Frame

-- `ctx.cursor`; it is NULL once the root is complete
pub data Cursor : Type 0 where
  here : Json → List Frame → Cursor
  above : Json → Cursor

-- `setJsonUp`
unfoldable pub set_up : Json → List Frame → Cursor
set_up v [] = above v
set_up v (in_object fs key ∷ out) = here (object (map_insert key v fs)) out
set_up v (in_array xs ∷ out) = here (array (push_back xs v)) out

-- `getObj`: in an array, a new null item
unfoldable pub get_obj : Cursor → Cursor
get_obj (here (array xs) out) = here undef (in_array xs ∷ out)
get_obj c = c

-- what a callback does: it returns 1, it returns 0 with the text of the exception that it caught,
-- or the process ends, at an `assert` or at a NULL cursor
pub data Step : Type 0 where
  go_on : Cursor → Step
  refused : Bytes → Cursor → Step
  aborted : Step

-- the scalar callbacks, after `getObj`: `assert(type == UNDEF)`, then `setData` and `setJsonUp`
unfoldable pub set_data : Json → Cursor → Step
set_data v (here undef out) = go_on (set_up v out)
set_data v _ = aborted

-- `setData` with a new object or array, which the cursor then points to
unfoldable pub open_data : Json → Cursor → Step
open_data v (here undef out) = go_on (here v out)
open_data v _ = aborted

-- `parse_map_key`
unfoldable pub parse_map_key : Bytes → Cursor → Step
parse_map_key key (here (object fs) out) = elim (find key fs) [
  | none ↦ go_on (here undef (in_object fs key ∷ out))
  | some _ ↦ refused (codes "duplicate key name found: " ++ key) (here (object fs) out)
]
parse_map_key key _ = aborted

-- `parse_end_map`
unfoldable pub parse_end_map : Cursor → Step
parse_end_map (here (object fs) out) = go_on (set_up (object fs) out)
parse_end_map _ = aborted

-- `parse_end_array`
unfoldable pub parse_end_array : Cursor → Step
parse_end_array (here (array xs) out) = go_on (set_up (array xs) out)
parse_end_array _ = aborted

-- `strnum.find('.') != npos`
unfoldable pub has_dot : Bytes → Bool
has_dot [] = false
has_dot (c ∷ s) = let later = has_dot s in if c == b'.' then true else later

-- The two `boost::lexical_cast`s: what they read, and the text of the exception when they do not.
module _ (read_int : Bytes → Option ℤ) (read_double : Bytes → Option Double)
    (bad_cast : Bytes) where
  -- `setData` of a number, whatever the type of the value before, and `setJsonUp`
  unfoldable pub set_number : Option Json → Cursor → Step
  set_number _ (above v) = aborted
  set_number none c = refused bad_cast c
  set_number (some v) (here _ out) = go_on (set_up v out)

  unfoldable pub as_int : Option ℤ → Option Json
  as_int none = none
  as_int (some n) = some (int n)

  unfoldable pub as_double : Option Double → Option Json
  as_double none = none
  as_double (some d) = some (double d)

  -- `parse_number`
  unfoldable pub parse_number : Bytes → Cursor → Step
  parse_number t c =
      if has_dot t
      then set_number (as_double (read_double t)) (get_obj c)
      else set_number (as_int (read_int t)) (get_obj c)

  -- one callback
  unfoldable pub step : ParseEvent → Cursor → Step
  step null c = set_data undef (get_obj c)
  step (boolean b) c = set_data (bool b) (get_obj c)
  step (number t) c = parse_number t c
  step (text s) c = set_data (string s) (get_obj c)
  step start_map c = open_data (object Fields.end) (get_obj c)
  step (map_key key) c = parse_map_key key c
  step end_map c = parse_end_map c
  step start_array c = open_data (array Items.nil) (get_obj c)
  step end_array c = parse_end_array c

  -- `yajl_parse` and `yajl_complete_parse` call back until one returns 0
  unfoldable pub run : List ParseEvent → Cursor → Step
  run [] c = go_on c
  run (e ∷ es) c = elim (step e c) [
    | go_on c' ↦ run es c'
    | refused msg c' ↦ refused msg c'
    | aborted ↦ aborted
  ]

-- the document that the caller's `json` holds, wherever the cursor is
unfoldable pub enclose : Json → List Frame → Json
enclose v [] = v
enclose v (in_object fs key ∷ out) = enclose (object (map_insert key v fs)) out
enclose v (in_array xs ∷ out) = enclose (array (push_back xs v)) out

unfoldable pub root : Cursor → Json
root (here v out) = enclose v out
root (above v) = v

-- `JsonError(ctx, msg)`
unfoldable pub json_error_at : Bytes → Bytes → Exception
json_error_at ctx msg =
    let where_ = if is_empty ctx then [] else codes " at: " ++ ctx in
    json_error (strlcpy buffer_size (codes "Json Exception: " ++ (msg ++ where_)))

-- how `parse` ends, with what `json` holds then
pub data Parsed : Type 0 where
  parsed : Json → Parsed
  thrown : Exception → Json → Parsed
  crashed : Parsed

-- what yajl makes of a text: the callbacks, and the text of its own error after them, if any
pub record Reading : Type 0 where
  pub events : List ParseEvent
  pub error : Option Bytes

-- the end of `parse`: the exception of a callback first, then the status of yajl; `canceled` is what
-- yajl says when a callback returned 0. The document stands on its own, so its context is empty.
unfoldable pub finish : Bytes → Option Bytes → Step → Parsed
finish canceled _ aborted = crashed
finish canceled _ (refused msg c) =
    let other = json_error_at [] (codes "parse error: " ++ canceled) in
    thrown (if is_empty msg then other else json_error (strlcpy buffer_size msg)) (root c)
finish canceled none (go_on c) = parsed (root c)
finish canceled (some err) (go_on c) =
    thrown (json_error_at [] (codes "parse error: " ++ err)) (root c)

-- `Json::Parser::parse`; `json` is null when it starts. A parser that cannot be allocated is left out.
module _ (read_int : Bytes → Option ℤ) (read_double : Bytes → Option Double) (bad_cast : Bytes)
    (yajl_parse : Bytes → Reading) (canceled : Bytes) where
  unfoldable pub parse : Bytes → Parsed
  parse content =
      let r = yajl_parse content in
      finish canceled r.error (run read_int read_double bad_cast r.events (here undef []))
