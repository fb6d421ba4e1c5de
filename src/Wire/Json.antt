-- ===== src/Wire/Json.antt =====
-- JSON values, and what `encoding/json` makes of a struct with field tags. A value here is what a
-- text in JSON syntax stands for; the syntax itself is not modelled.
pub mod Reads
use databasus_operator.Prelude.{String, ◌==◌, Bool, false, Option, none, some, List, [], ◌∷◌, ℕ}
use databasus_operator.Prelude.{ℤ, pos, is_zero, if◌then◌else◌}
use databasus_operator.Prelude.Text.{same_key}

-- `time` is a string that is a time in the RFC 3339 format, with its instant. `real` is a number
-- that is no integer of 64 bits.
mutual
  pub data Json : Type 0 where
    null : Json
    bool : Bool → Json
    num : ℤ → Json
    real : String → Json
    str : String → Json
    time : String → ℕ → Json
    arr : Items → Json
    obj : Fields → Json

  pub data Items : Type 0 where
    nil : Items
    cons : Json → Items → Items

  pub data Fields : Type 0 where
    end : Fields
    field : String → Json → Fields → Fields

-- Encoding: each function puts one field of a struct before the fields that follow. A field with
-- `omitempty` is left out if it is empty, zero or nil; a nil pointer without it is `null`.
abbrev pub field_str : String → String → Fields → Fields
field_str k s rest = field k (str s) rest

abbrev pub omit_str : String → String → Fields → Fields
omit_str k s rest = if s == "" then rest else field k (str s) rest

abbrev pub field_num : String → ℤ → Fields → Fields
field_num k n rest = field k (num n) rest

abbrev pub omit_num : String → ℤ → Fields → Fields
omit_num k n rest = if is_zero n then rest else field k (num n) rest

abbrev pub field_bool : String → Bool → Fields → Fields
field_bool k b rest = field k (bool b) rest

abbrev pub strings : List String → Items
strings [] = nil
strings (s ∷ l) = cons (str s) (strings l)

abbrev pub field_strs : String → List String → Fields → Fields
field_strs k l rest = field k (arr (strings l)) rest

abbrev pub omit_strs : String → List String → Fields → Fields
omit_strs k [] rest = rest
omit_strs k (s ∷ l) rest = field k (arr (strings (s ∷ l))) rest

module _ {A : Type 0} where
  abbrev pub items : (A → Json) → List A → Items
  items f [] = nil
  items f (a ∷ l) = cons (f a) (items f l)

  abbrev pub omit_list : String → (A → Json) → List A → Fields → Fields
  omit_list k f [] rest = rest
  omit_list k f (a ∷ l) rest = field k (arr (items f (a ∷ l))) rest

  abbrev pub omit_none : String → (A → Json) → Option A → Fields → Fields
  omit_none k f none rest = rest
  omit_none k f (some a) rest = field k (f a) rest

  abbrev pub field_opt : String → (A → Json) → Option A → Fields → Fields
  field_opt k f none rest = field k null rest
  field_opt k f (some a) rest = field k (f a) rest

-- Decoding fails as `json.Unmarshal` returns an error.
infixl 5 ◌>>=◌
abbrev pub ◌>>=◌ : {A B : Type 0} → Option A → (A → Option B) → Option B
none >>= f = none
some a >>= f = f a

-- `json.Unmarshal` of a text, by the value that it stands for, if it is JSON at all.
abbrev pub unmarshal_value : {A : Type 0} → (Json → Option A) → Option Json → Option A
unmarshal_value decode none = none
unmarshal_value decode (some j) = decode j

module _ {A : Type 0} where
  -- The keys of an object are taken in order, and the last one that names the field counts.
  -- `assign` is what a JSON value makes of the value that the field has so far.
  unfoldable pub read : (A → Json → Option A) → String → A → Fields → Option A
  read assign name cur end = some cur
  read assign name cur (field k v rest) =
      (if same_key k name then assign cur v else some cur) >>= λ next. read assign name next rest

  -- An object, or `null`, which leaves every field at its zero value.
  abbrev pub struct_of : (Fields → Option A) → Json → Option A
  struct_of f null = f end
  struct_of f (obj fs) = f fs
  struct_of f _ = none

  unfoldable pub decode_items : (Json → Option A) → Items → Option (List A)
  decode_items f nil = some []
  decode_items f (cons j js) = do a ← f j; l ← decode_items f js; some (a ∷ l)

module _ {A : Type 0} where
  unfoldable pub assign_list : (Json → Option A) → List A → Json → Option (List A)
  assign_list f cur null = some []
  assign_list f cur (arr js) = decode_items f js
  assign_list f cur _ = none

  unfoldable pub read_list : (Json → Option A) → String → Fields → Option (List A)
  unfolding decode_items assign_list read same_key
  read_list f name = read (assign_list f) name []

unfoldable pub assign_str : String → Json → Option String
assign_str cur null = some cur
assign_str cur (str s) = some s
assign_str cur (time s t) = some s
assign_str cur _ = none

unfoldable pub assign_opt_str : Option String → Json → Option (Option String)
assign_opt_str cur null = some none
assign_opt_str cur (str s) = some (some s)
assign_opt_str cur (time s t) = some (some s)
assign_opt_str cur _ = none

unfoldable pub assign_num : ℤ → Json → Option ℤ
assign_num cur null = some cur
assign_num cur (num n) = some n
assign_num cur _ = none

unfoldable pub assign_bool : Bool → Json → Option Bool
assign_bool cur null = some cur
assign_bool cur (bool b) = some b
assign_bool cur _ = none

assign_opt_time : Option ℕ → Json → Option (Option ℕ)
assign_opt_time cur null = some none
assign_opt_time cur (time s t) = some (some t)
assign_opt_time cur _ = none

unfoldable pub read_str : String → Fields → Option String
unfolding read assign_str same_key
read_str name = read assign_str name ""

unfoldable pub read_opt_str : String → Fields → Option (Option String)
unfolding read assign_opt_str same_key
read_opt_str name = read assign_opt_str name none

unfoldable pub read_num : String → Fields → Option ℤ
unfolding read assign_num same_key
read_num name = read assign_num name (pos 0)

unfoldable pub read_bool : String → Fields → Option Bool
unfolding read assign_bool same_key
read_bool name = read assign_bool name false

unfoldable pub read_opt_time : String → Fields → Option (Option ℕ)
unfolding read assign_opt_time same_key
read_opt_time name = read assign_opt_time name none
