-- ===== src/Effects/Laws.antt =====
-- What the operator relies on in the libraries of Kubernetes, as their documentation has it.
use databasus_operator.Prelude.{String, ◌≡◌, ◌≢◌, true, false, some, List}
use databasus_operator.Api.Meta.{ObjectMeta, Condition}
use databasus_operator.Effects.{Kube}

-- A finalizer is there after it was added and gone after it was removed, and neither touches
-- another finalizer or the deletion timestamp.
pub record FinalizerLaws (k : Kube) : Type 0 where
  pub contains-add :
      (m : ObjectMeta) (f : String) → k.contains_finalizer (k.add_finalizer m f) f ≡ true
  pub contains-remove :
      (m : ObjectMeta) (f : String) → k.contains_finalizer (k.remove_finalizer m f) f ≡ false
  pub deletion-add :
      (m : ObjectMeta) (f : String)
      → (k.add_finalizer m f).deletion_timestamp ≡ m.deletion_timestamp
  pub deletion-remove :
      (m : ObjectMeta) (f : String)
      → (k.remove_finalizer m f).deletion_timestamp ≡ m.deletion_timestamp

-- After a condition was set, the one of its type that is found has its status, reason, message and
-- generation; conditions of other types are as before.
pub record ConditionLaws (k : Kube) : Type 0 where
  pub find-set :
      (cs : List Condition) (c : Condition)
      → (d : Condition) × (k.find_status_condition (k.set_status_condition cs c) c.type ≡ some d)
        × (d.status ≡ c.status)
        × (d.reason ≡ c.reason)
        × (d.message ≡ c.message)
        × (d.observed_generation ≡ c.observed_generation)
  pub find-set_ne :
      (cs : List Condition) (c : Condition) (t : String)
      → t ≢ c.type
      → k.find_status_condition (k.set_status_condition cs c) t ≡ k.find_status_condition cs t
