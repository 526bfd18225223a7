-- ===== src/Json/Parser/Reads.antt =====
-- Reading back what `Generator` writes: the callbacks that rebuild a value.
use gearbox.Base.{
  true, false, ℤ, List, [], ◌∷◌, ◌++◌, Bytes, codes, Option, none, some, ◌≡◌, refl, sym, ap, ◌∙◌,
  append_assoc, append-nil,
}
use gearbox.Errors.{json_error, strlcpy, buffer_size}
use gearbox.Json.Value.{Double, Json, Items, Fields, find, map_insert, push_back}
use gearbox.Json.Generator.{Call, generate, generate_fields, generate_items}
use gearbox.Json.Order.{
  Under, Ascending, Apart, Apart-end, Apart-map_insert, IsSorted, IsSortedFields, IsSortedItems,
  join, join-end, join_items, join_items-nil, join_items-push_back, find-none, join-map_insert,
}
use gearbox.Json.Parser.{
  ParseEvent, Frame, in_object, Cursor, here, set_up, get_obj, Step, go_on, set_data, open_data,
  parse_map_key, parse_end_map, parse_end_array, has_dot, set_number, as_int, as_double,
  parse_number, step, run, parse, Reading, parsed, thrown, refused, finish, root, enclose,
}
use Json.{undef, bool, int, double, string, object, array}
use Call.{
  gen_null, map_open, map_close, array_open, array_close, gen_bool, gen_integer, gen_number,
  gen_string,
}
use ParseEvent.{null, start_map, end_map, start_array, end_array, boolean, number, text, map_key}

-- where a yajl generator, or parser, stands: what comes next in the innermost open value
pub data Place : Type 0 where
  document item key value : Place

-- the place after one more value
abbrev pub after : Place → Place
after key = value
after value = key
after p = p

-- what a string is at a place
abbrev pub string_event : Place → Bytes → ParseEvent
string_event key s = map_key s
string_event _ s = text s

abbrev pub after_value : List Place → List Place
after_value [] = []
after_value (p ∷ ps) = after p ∷ ps

abbrev pub closed : List Place → List Place
closed [] = []
closed (p ∷ ps) = after_value ps

abbrev pub innermost : List Place → Place
innermost [] = document
innermost (p ∷ ps) = p

-- yajl's documented behaviour on a text that its generator wrote: the callbacks that correspond to
-- the generator's calls. `print_int` is the text that it writes for an integer.
module _ (print_int : ℤ → Bytes) where
  unfoldable pub replay : List Place → List Call → List ParseEvent
  replay ps [] = []
  replay ps (gen_null ∷ cs) = null ∷ replay (after_value ps) cs
  replay ps (gen_bool b ∷ cs) = boolean b ∷ replay (after_value ps) cs
  replay ps (gen_integer n ∷ cs) = number (print_int n) ∷ replay (after_value ps) cs
  replay ps (gen_number t ∷ cs) = number t ∷ replay (after_value ps) cs
  replay ps (gen_string s ∷ cs) = string_event (innermost ps) s ∷ replay (after_value ps) cs
  replay ps (map_open ∷ cs) = start_map ∷ replay (key ∷ ps) cs
  replay ps (map_close ∷ cs) = end_map ∷ replay (closed ps) cs
  replay ps (array_open ∷ cs) = start_array ∷ replay (item ∷ ps) cs
  replay ps (array_close ∷ cs) = end_array ∷ replay (closed ps) cs

-- in a place that is not for a key, a string is a value
IsForValue : Place → Type 0
IsForValue p = (s : Bytes) → string_event p s ≡ text s

-- a key above all those of the object opens a new value
parse_map_key-go_on :
    (k : Bytes) (done : Fields) (out : List Frame)
    → Under k done
    → parse_map_key k (here (object done) out) ≡ go_on (here undef (in_object done k ∷ out))
unfolding parse_map_key
parse_map_key-go_on k done out u = rw (find-none k done u, parse_map_key) refl

module _ (print_int : ℤ → Bytes) (print_double : Double → Bytes) (read_int : Bytes → Option ℤ)
    (read_double : Bytes → Option Double) (bad_cast : Bytes) where
  unfoldable mutual
    -- every number of the value is read back from the text that is printed for it: an integer's has
    -- no dot, a double's has one
    pub IsReadable : Json → Type 0
    IsReadable (int n) = (has_dot (print_int n) ≡ false) × (read_int (print_int n) ≡ some n)
    IsReadable (double d) =
        (has_dot (print_double d) ≡ true) × (read_double (print_double d) ≡ some d)
    IsReadable (object fs) = IsReadableFields fs
    IsReadable (array xs) = IsReadableItems xs
    IsReadable _ = Unit

    pub IsReadableFields : Fields → Type 0
    IsReadableFields Fields.end = Unit
    IsReadableFields (Fields.field k v fs) = IsReadable v × IsReadableFields fs

    pub IsReadableItems : Items → Type 0
    IsReadableItems Items.nil = Unit
    IsReadableItems (Items.cons x xs) = IsReadable x × IsReadableItems xs

  drive : List Place → List Call → Cursor → Step
  drive ps cs c = run read_int read_double bad_cast (replay print_int ps cs) c

  run-go_on :
      (ev : ParseEvent) (es : List ParseEvent) (c c' : Cursor)
      → step read_int read_double bad_cast ev c ≡ go_on c'
      → run read_int read_double bad_cast (ev ∷ es) c ≡ run read_int read_double bad_cast es c'
  unfolding run
  run-go_on ev es c c' e = rw (e, run) refl

  step-int :
      (n : ℤ) (c : Cursor) (out : List Frame)
      → IsReadable (int n)
      → get_obj c ≡ here undef out
      → step read_int read_double bad_cast (number (print_int n)) c ≡ go_on (set_up (int n) out)
  unfolding step parse_number set_number as_int IsReadable
  step-int n c out (h, r) e = rw (h, e, r) refl

  step-double :
      (d : Double) (c : Cursor) (out : List Frame)
      → IsReadable (double d)
      → get_obj c ≡ here undef out
      → step read_int read_double bad_cast (number (print_double d)) c
        ≡ go_on (set_up (double d) out)
  unfolding step parse_number set_number as_double IsReadable
  step-double d c out (h, r) e = rw (h, e, r) refl

  set_data_lem :
      (v : Json) (c : Cursor) (out : List Frame)
      → get_obj c ≡ here undef out
      → set_data v (get_obj c) ≡ go_on (set_up v out)
  unfolding set_data
  set_data_lem v c out e = rw e refl

  open_data_lem :
      (v : Json) (c : Cursor) (out : List Frame)
      → get_obj c ≡ here undef out
      → open_data v (get_obj c) ≡ go_on (here v out)
  unfolding open_data
  open_data_lem v c out e = rw e refl

  drive-map_close :
      (fs : Fields) (out : List Frame) (p : Place) (ps : List Place) (cs : List Call)
      → drive (key ∷ p ∷ ps) (map_close ∷ cs) (here (object fs) out)
        ≡ drive (after p ∷ ps) cs (set_up (object fs) out)
  unfolding drive replay run step parse_end_map
  drive-map_close fs out p ps cs = refl

  drive-array_close :
      (xs : Items) (out : List Frame) (p : Place) (ps : List Place) (cs : List Call)
      → drive (item ∷ p ∷ ps) (array_close ∷ cs) (here (array xs) out)
        ≡ drive (after p ∷ ps) cs (set_up (array xs) out)
  unfolding drive replay run step parse_end_array
  drive-array_close xs out p ps cs = refl

  drive-key :
      (k : Bytes) (done : Fields) (out : List Frame) (ps : List Place) (cs : List Call)
      → Under k done
      → drive (key ∷ ps) (gen_string k ∷ cs) (here (object done) out)
        ≡ drive (value ∷ ps) cs (here undef (in_object done k ∷ out))
  unfolding drive replay step parse_map_key
  drive-key k done out ps cs u =
      run-go_on _ _ (here (object done) out) _ (parse_map_key-go_on k done out u)

  mutual
    unfolding drive replay step IsReadable IsSorted IsForValue generate join join_items set_up
        get_obj

    -- the callbacks of a value, wherever it stands, put it there and go up
    drive-generate :
        (j : Json)
        → IsSorted j
        → IsReadable j
        → (c : Cursor) (out : List Frame) → get_obj c ≡ here undef out
        → (p : Place) (ps : List Place) → IsForValue p
        → (cs : List Call)
        → drive (p ∷ ps) (generate print_double j ++ cs) c ≡ drive (after p ∷ ps) cs (set_up j out)
    drive-generate undef _ _ c out e p ps v cs = run-go_on _ _ c _ (set_data_lem undef c out e)
    drive-generate (bool b) _ _ c out e p ps v cs =
        run-go_on _ _ c _ (set_data_lem (bool b) c out e)
    drive-generate (int n) _ r c out e p ps v cs = run-go_on _ _ c _ (step-int n c out r e)
    drive-generate (double d) _ r c out e p ps v cs = run-go_on _ _ c _ (step-double d c out r e)
    drive-generate (string s) _ _ c out e p ps v cs =
        rw (v s) (run-go_on _ _ c _ (set_data_lem (string s) c out e))
    drive-generate (object fs) (a, s) r c out e p ps v cs =
        run-go_on _ _ c _ (open_data_lem (object Fields.end) c out e)
        ∙ rw (append_assoc (generate_fields print_double fs) (map_close ∷ []) cs) (
            drive-generate_fields fs a s r Fields.end (Apart-end fs) out (p ∷ ps) (map_close ∷ cs)
            ∙ drive-map_close fs out p ps cs)
    drive-generate (array xs) s r c out e p ps v cs =
        run-go_on _ _ c _ (open_data_lem (array Items.nil) c out e)
        ∙ rw (append_assoc (generate_items print_double xs) (array_close ∷ []) cs) (
            drive-generate_items xs s r Items.nil out (p ∷ ps) (array_close ∷ cs)
            ∙ drive-array_close xs out p ps cs)

    drive-generate_fields :
        (fs : Fields)
        → Ascending fs
        → IsSortedFields fs
        → IsReadableFields fs
        → (done : Fields) → Apart done fs
        → (out : List Frame) (ps : List Place) (cs : List Call)
        → drive (key ∷ ps) (generate_fields print_double fs ++ cs) (here (object done) out)
          ≡ drive (key ∷ ps) cs (here (object (join done fs)) out)
    drive-generate_fields Fields.end _ _ _ done _ out ps cs = rw (join-end done) refl
    drive-generate_fields (Fields.field k v fs) (o, a) (sv, s) (rv, r) done (u, d) out ps cs =
        drive-key k done out ps _ u
        ∙ rw (append_assoc (generate print_double v) (generate_fields print_double fs) cs) (
            drive-generate v sv rv (here undef (in_object done k ∷ out)) _ refl value ps (λ s. refl)
              _
            ∙ (drive-generate_fields fs a s r (map_insert k v done)
                  (Apart-map_insert k v done fs o d) out ps cs
                ∙ ap (λ all. drive (key ∷ ps) cs (here (object all) out))
                    (join-map_insert k v done fs u)))

    drive-generate_items :
        (xs : Items)
        → IsSortedItems xs
        → IsReadableItems xs
        → (done : Items) (out : List Frame) (ps : List Place) (cs : List Call)
        → drive (item ∷ ps) (generate_items print_double xs ++ cs) (here (array done) out)
          ≡ drive (item ∷ ps) cs (here (array (join_items done xs)) out)
    drive-generate_items Items.nil _ _ done out ps cs = rw (join_items-nil done) refl
    drive-generate_items (Items.cons x xs) (sx, s) (rx, r) done out ps cs =
        rw (append_assoc (generate print_double x) (generate_items print_double xs) cs) (
          drive-generate x sx rx (here (array done) out) _ refl item ps (λ s. refl) _
          ∙ (drive-generate_items xs s r (push_back done x) out ps cs
              ∙ ap (λ all. drive (item ∷ ps) cs (here (array all) out))
                  (join_items-push_back done xs x)))

  -- What the generator writes of a value, the parser reads back: if yajl reads its own text of the
  -- value as the callbacks that correspond to the calls that wrote it, with no error, and if in the
  -- value the keys of each object ascend, as those of a map do, and each number is read back from its
  -- text, then parsing that text ends with the value.
  pub parse-generate :
      (yajl_text : List Call → Bytes) (yajl_parse : Bytes → Reading) (canceled : Bytes) (j : Json)
      → yajl_parse (yajl_text (generate print_double j)) ≡ record {
        events = replay print_int (document ∷ []) (generate print_double j);
        error = none;
      }
      → IsSorted j
      → IsReadable j
      → parse read_int read_double bad_cast yajl_parse canceled
          (yajl_text (generate print_double j))
        ≡ parsed j
  unfolding parse run drive finish replay root set_up get_obj IsForValue
  parse-generate yajl_text yajl_parse canceled j e s r = rw e (
      ap (finish canceled none) (
        sym (
          ap (λ cs. drive (document ∷ []) cs (here undef []))
            (append-nil (generate print_double j)))
        ∙ drive-generate j s r (here undef []) [] refl document [] (λ t. refl) []))

  step-duplicate :
      (k : Bytes) (fs : Fields) (v : Json) (es : List ParseEvent) (out : List Frame)
      → find k fs ≡ some v
      → run read_int read_double bad_cast (map_key k ∷ es) (here (object fs) out)
        ≡ refused (codes "duplicate key name found: " ++ k) (here (object fs) out)
  unfolding run step parse_map_key
  step-duplicate k fs v es out e = rw (run, step, parse_map_key, e) refl

  -- A key that comes twice is refused. Let yajl read a text as the callbacks for the start of an
  -- object, for its fields `fs`, whose keys ascend and whose numbers are read back from their texts, and
  -- then for a key that is one of theirs, whatever follows. Then `parse` throws the error that names
  -- this key, and leaves the object with the fields before it and their values.
  pub parse-duplicate :
      (yajl_parse : Bytes → Reading) (canceled content : Bytes) (fs : Fields) (k : Bytes) (v : Json)
      (rest : List Call) (error : Option Bytes)
      → yajl_parse content ≡ record {
        events =
            replay print_int
              (document ∷ [])
              (map_open ∷ generate_fields print_double fs ++ gen_string k ∷ rest);
        error = error;
      }
      → IsSorted (object fs)
      → IsReadable (object fs)
      → find k fs ≡ some v
      → parse read_int read_double bad_cast yajl_parse canceled content
        ≡ thrown
            (json_error (strlcpy buffer_size (codes "duplicate key name found: " ++ k)))
            (object fs)
  unfolding parse drive finish replay root enclose get_obj IsSorted IsReadable join step open_data
  parse-duplicate yajl_parse canceled content fs k v rest error e (a, s) r found = rw e (
      ap (finish canceled error) (
        run-go_on _ _ (here undef []) _ (open_data_lem (object Fields.end) (here undef []) [] refl)
        ∙ (drive-generate_fields fs a s r Fields.end (Apart-end fs) [] (document ∷ [])
              (gen_string k ∷ rest)
            ∙ step-duplicate k fs v _ [] found)))
