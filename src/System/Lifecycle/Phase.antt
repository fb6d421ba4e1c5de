-- ===== src/System/Lifecycle/Phase.antt =====
-- The life of an object, as a state machine: it is claimed by a finalizer, kept in step with
-- databasus, and released when it is being deleted.
use databasus_operator.Prelude.{
  String, ◌<>◌, ◌==◌, eq_iff, refl, ◌≡◌, ◌≢◌, Bool, true, false, not, Option, none,
}
use databasus_operator.Effects.{
  Event, http, updated, status_updated, Object, storage_object, notifier_object,
  database_backup_object, KubeError, HttpRequest, Transport, Env,
}
use databasus_operator.Api.Meta.{ObjectMeta}
use databasus_operator.Client.Request.{DatabasusClient, request_of}
use databasus_operator.System.Objects.{metadata_of, finalizer_of, record_id, record_path}

pub data Phase : Type 0 where
  unclaimed : Phase
  claimed : Phase
  terminating : Phase
  released : Phase

-- The arguments: whether it is being deleted, and whether the finalizer is missing.
abbrev pub phase_from : Bool → Bool → Phase
phase_from false true = unclaimed
phase_from false false = claimed
phase_from true false = terminating
phase_from true true = released

abbrev pub phase : {S : Type 0} → Env S → Object → Phase
phase E o =
    phase_from (not (E.is_zero_time (metadata_of o).deletion_timestamp))
      (not (E.contains_finalizer (metadata_of o) (finalizer_of o)))

-- The object with other metadata.
abbrev pub with_metadata : Object → ObjectMeta → Object
with_metadata (storage_object o) m = storage_object (record o { metadata = m })
with_metadata (notifier_object o) m = notifier_object (record o { metadata = m })
with_metadata (database_backup_object o) m = database_backup_object (record o { metadata = m })

-- The same object, but for its status.
abbrev pub Resembles : Object → Object → Type 0
Resembles (storage_object o) (storage_object p) = (p.metadata ≡ o.metadata) × (p.spec ≡ o.spec)
Resembles (notifier_object o) (notifier_object p) = (p.metadata ≡ o.metadata) × (p.spec ≡ o.spec)
Resembles (database_backup_object o) (database_backup_object p) =
    (p.metadata ≡ o.metadata) × (p.spec ≡ o.spec)
Resembles (storage_object o) (notifier_object p) = ⊥
Resembles (storage_object o) (database_backup_object p) = ⊥
Resembles (notifier_object o) (storage_object p) = ⊥
Resembles (notifier_object o) (database_backup_object p) = ⊥
Resembles (database_backup_object o) (storage_object p) = ⊥
Resembles (database_backup_object o) (notifier_object p) = ⊥

module _ {S : Type 0} (E : Env S) where
  abbrev pub claimed_form : Object → Object
  claimed_form o = with_metadata o (E.add_finalizer (metadata_of o) (finalizer_of o))

  abbrev pub released_form : Object → Object
  released_form o = with_metadata o (E.remove_finalizer (metadata_of o) (finalizer_of o))

-- What a reconciliation of an object may do in its phase. An unclaimed object is written with the
-- finalizer, and is claimed then. A claimed object is synchronised, by requests that delete nothing,
-- and written with another status, and stays claimed. The record of a terminating object is deleted,
-- or the object is written without the finalizer, and is released then. Of a released object, nothing
-- is left to do.
pub data IsAllowed {S : Type 0} (E : Env S) (c : DatabasusClient) (o : Object)
    : Event → Type 0 where
  claims :
      (r : Option KubeError)
      → phase E o ≡ unclaimed
      → phase E (claimed_form E o) ≡ claimed
      → IsAllowed E c o (updated (claimed_form E o) r)
  releases :
      (r : Option KubeError)
      → phase E o ≡ terminating
      → phase E (released_form E o) ≡ released
      → IsAllowed E c o (updated (released_form E o) r)
  reports :
      (p : Object) (r : Option KubeError)
      → phase E o ≡ claimed
      → Resembles o p
      → phase E p ≡ claimed
      → IsAllowed E c o (status_updated p r)
  syncs :
      {r : HttpRequest} (t : Transport)
      → phase E o ≡ claimed
      → r.method ≢ "DELETE"
      → IsAllowed E c o (http r t)
  cleans :
      (t : Transport)
      → phase E o ≡ terminating
      → record_id o ≢ ""
      → IsAllowed E c o (http (request_of c "DELETE" (record_path o <> record_id o) none) t)

-- A text that is another one.
pub differs : {a b : String} → (a == b) ≡ false → a ≢ b
differs {a} {b} h e = cc ((eq_iff a b).1 e, h)

pub phase-from :
    {S : Type 0} (E : Env S) (o : Object) (deleting unowned : Bool)
    → not (E.is_zero_time (metadata_of o).deletion_timestamp) ≡ deleting
    → not (E.contains_finalizer (metadata_of o) (finalizer_of o)) ≡ unowned
    → phase E o ≡ phase_from deleting unowned
phase-from E o deleting unowned d u = rw (d, u) refl
