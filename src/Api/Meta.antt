-- ===== src/Api/Meta.antt =====
-- api/v1alpha1/common_types.go, and the parts of the Kubernetes types that the operator reads.
use databasus_operator.Prelude.{ℕ, String, Option, List}
use databasus_operator.Prelude.{ℤ}

-- common_types.go
pub record SecretKeyRef : Type 0 where
  pub name : String
  pub key : String

pub record NamespacedName : Type 0 where
  pub namespace : String
  pub name : String

-- The data of a Secret; a key that occurs twice has the value that comes first.
pub record Secret : Type 0 where
  pub values : List (String × String)

-- The fields of `metav1.ObjectMeta` that are read or written here. A time is an instant.
pub record ObjectMeta : Type 0 where
  pub namespace : String
  pub name : String
  pub generation : ℤ
  pub deletion_timestamp : Option ℕ
  pub finalizers : List String
  pub resource_version : String

pub record Condition : Type 0 where
  pub type : String
  pub status : String
  pub observed_generation : ℤ
  pub last_transition_time : ℕ
  pub reason : String
  pub message : String

-- `metav1.ConditionTrue` and `metav1.ConditionFalse`
abbrev pub condition_true : String
condition_true = "True"

abbrev pub condition_false : String
condition_false = "False"
