-- ===== src/Wire/Json/Reads.antt =====
-- What a reading of one field finds among the fields of an encoded struct: the lemmas go past each
-- field of another name, and stop at its own.
use databasus_operator.Prelude.{
  ℤ, pos, negsuc, is_zero, nat_eq, nat_eq_iff, String, ◌==◌, ◌≡◌, refl, Bool, true, false, Option,
  none, some, List, [], ◌∷◌, Bool-cases, inl, inr, eq_iff,
}
use databasus_operator.Prelude.Text.{same_key}
use databasus_operator.Wire.Json.{
  Json, null, str, num, bool, Fields, field, end, read, omit_str, omit_num, omit_strs, omit_list,
  omit_none, ◌>>=◌, field_opt, assign_str, assign_num, assign_bool,
}

module _ {A : Type 0} (assign : A → Json → Option A) (name : String) (cur : A) where
  pub read-end : read assign name cur end ≡ some cur
  unfolding read
  read-end = refl

  module _ (k : String) (rest : Fields) (other : same_key k name ≡ false) where
    pub read-other : (j : Json) → read assign name cur (field k j rest) ≡ read assign name cur rest
    unfolding read
    read-other j = rw other refl

    pub read-omit_str :
        (s : String) → read assign name cur (omit_str k s rest) ≡ read assign name cur rest
    read-omit_str s = elim (Bool-cases (s == "")) [
      | inl e ↦ rw e refl
      | inr e ↦ rw e (read-other (str s))
    ]

    pub read-omit_num :
        (n : ℤ) → read assign name cur (omit_num k n rest) ≡ read assign name cur rest
    read-omit_num n = elim (Bool-cases (is_zero n)) [
      | inl e ↦ rw e refl
      | inr e ↦ rw e (read-other (num n))
    ]

    pub read-omit_strs :
        (l : List String) → read assign name cur (omit_strs k l rest) ≡ read assign name cur rest
    read-omit_strs [] = refl
    read-omit_strs (s ∷ l) = read-other _

    pub read-omit_list :
        {B : Type 0} (f : B → Json) (l : List B)
        → read assign name cur (omit_list k f l rest) ≡ read assign name cur rest
    read-omit_list f [] = refl
    read-omit_list f (b ∷ l) = read-other _

    pub read-omit_none :
        {B : Type 0} (f : B → Json) (o : Option B)
        → read assign name cur (omit_none k f o rest) ≡ read assign name cur rest
    read-omit_none f none = refl
    read-omit_none f (some b) = read-other _

    pub read-field_opt :
        {B : Type 0} (f : B → Json) (o : Option B)
        → read assign name cur (field_opt k f o rest) ≡ read assign name cur rest
    read-field_opt f none = read-other null
    read-field_opt f (some b) = read-other _

pub ruleset past_fields = (
  read-end, read-other, read-omit_str, read-omit_num, read-omit_strs, read-omit_list,
  read-omit_none, read-field_opt,
)

module _ (name k : String) (rest : Fields) (same : same_key k name ≡ true) where
  pub own-field :
      {A : Type 0} (assign : A → Json → Option A) (cur : A) (j : Json)
      → read assign name cur (field k j rest)
        ≡ (assign cur j >>= λ next. read assign name next rest)
  unfolding read
  own-field assign cur j = rw same refl

  pub own-omit_str :
      (s : String) → read assign_str name "" (omit_str k s rest) ≡ read assign_str name s rest
  unfolding assign_str
  own-omit_str s = elim (Bool-cases (s == "")) [
    | inl e ↦ rw (e, (eq_iff s "").0 e) refl
    | inr e ↦ rw e (own-field assign_str "" (str s))
  ]

  pub own-omit_num :
      (n : ℤ) → read assign_num name (pos 0) (omit_num k n rest) ≡ read assign_num name n rest
  unfolding assign_num
  own-omit_num (pos n) = elim (Bool-cases (nat_eq n 0)) [
    | inl e ↦ rw (e, (nat_eq_iff n 0).0 e) refl
    | inr e ↦ rw e (own-field assign_num (pos 0) (num (pos n)))
  ]
  own-omit_num (negsuc n) = own-field assign_num (pos 0) (num (negsuc n))

pub ruleset own_fields = (own-field, own-omit_str, own-omit_num)

-- What the values are that a field of each type takes.
pub assign_str-str : (cur s : String) → assign_str cur (str s) ≡ some s
unfolding assign_str
assign_str-str cur s = refl

pub assign_num-num : (cur n : ℤ) → assign_num cur (num n) ≡ some n
unfolding assign_num
assign_num-num cur n = refl

pub assign_bool-bool : (cur b : Bool) → assign_bool cur (bool b) ≡ some b
unfolding assign_bool
assign_bool-bool cur b = refl

pub ruleset assigned_fields = (assign_str-str, assign_num-num, assign_bool-bool)
