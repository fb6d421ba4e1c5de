-- ===== src/System/Deletion.antt =====
-- The end of an object: what becomes of one that is being deleted and has the finalizer.
pub mod Request
use databasus_operator.Prelude.{
  String, ◌<>◌, ◌==◌, ◌≡◌, true, false, not, Option, none, some, List, ◌∷◌, inl, inr, Bool-cases,
}
use databasus_operator.Api.Storage.{Storage}
use databasus_operator.Api.Notifier.{Notifier}
use databasus_operator.Api.DatabaseBackup.{DatabaseBackup}
use databasus_operator.Effects.{
  Event, http, updated, Transport, KubeError, World, Env, Object, storage_object, notifier_object,
  database_backup_object, pure, M,
}
use databasus_operator.Effects.Plain.{◌>>=◌}
use databasus_operator.Effects.Leads.{Leads, Leads-pure, Leads-calling}
use databasus_operator.Client.Request.{DatabasusClient, request_of}
use databasus_operator.Client.Request.Gone.{Gone}
use databasus_operator.Client.Storage.{delete_storage}
use databasus_operator.Client.Notifier.{delete_notifier}
use databasus_operator.Client.Database.{delete_database}
use databasus_operator.Controller.Outcome.{Outcome, returned, finished}
use databasus_operator.Controller.Storage
use databasus_operator.Controller.Notifier
use databasus_operator.Controller.DatabaseBackup
use databasus_operator.System.Objects.{metadata_of, finalizer_of, record_id, record_path}
use databasus_operator.System.Lifecycle.{reconcile_object}
use Request.{Leads-deletion}

module _ {S : Type 0} (E : Env S) where
  -- The object without the finalizer.
  abbrev pub without_finalizer : Object → Object
  without_finalizer (storage_object o) =
      storage_object
        (record o { metadata = E.remove_finalizer o.metadata Storage.storage_finalizer })
  without_finalizer (notifier_object o) =
      notifier_object
        (record o { metadata = E.remove_finalizer o.metadata Notifier.notifier_finalizer })
  without_finalizer (database_backup_object o) = database_backup_object (record o {
    metadata = E.remove_finalizer o.metadata DatabaseBackup.database_backup_finalizer;
  })

module _ {S : Type 0} (E : Env S) (c : DatabasusClient) (o : Object) (old : List Event) where
  -- An object without a record is released. For one with a record the deletion of the record is
  -- requested: if the answer says that the record is gone, the object is released; if not, or if
  -- the request cannot be made, the object keeps the finalizer and the next turn is in 10 seconds.
  pub data IsDeleted : Outcome → List Event → Type 0 where
    no_record :
        (r : Option KubeError)
        → (record_id o == "") ≡ true
        → IsDeleted (finished r) (updated (without_finalizer E o) r ∷ old)
    gone :
        (t : Transport) (r : Option KubeError)
        → (record_id o == "") ≡ false
        → Gone t
        → IsDeleted (finished r) (
            updated (without_finalizer E o) r
            ∷ http (request_of c "DELETE" (record_path o <> record_id o) none) t
            ∷ old)
    kept :
        (t : Transport)
        → (record_id o == "") ≡ false
        → (Gone t → ⊥)
        → IsDeleted
            (returned 10 none)
            (http (request_of c "DELETE" (record_path o <> record_id o) none) t ∷ old)
    not_sent :
        (m : String)
        → (record_id o == "") ≡ false
        → E.url_error (c.base_url <> (record_path o <> record_id o)) ≡ some m
        → IsDeleted (returned 10 none) old

module _ {S : Type 0} (E : Env S) (c : DatabasusClient) where
  storage_release-Leads :
      (o : Storage) (P : Outcome → List Event → Type 0) (log : List Event)
      → ((r : Option KubeError)
          → P (finished r) (updated (without_finalizer E (storage_object o)) r ∷ log))
      → Leads P log (Storage.release E o)
  unfolding Storage.release
  storage_release-Leads o P log k = Leads-calling P log _ _ _ λ x. Leads-pure P _ _ (k _)

  storage-IsDeleted :
      (o : Storage) (old : List Event)
      → not (E.is_zero_time o.metadata.deletion_timestamp) ≡ true
      → not (E.contains_finalizer o.metadata Storage.storage_finalizer) ≡ false
      → Leads (IsDeleted E c (storage_object o) old) old (Storage.reconcile_storage E c o)
  unfolding Storage.reconcile_storage Storage.handle_deletion delete_storage
  storage-IsDeleted o old deleting owned = elim (Bool-cases (o.status.id == "")) [
    | inl empty ↦
        rw (deleting, owned, empty)
          (storage_release-Leads o (IsDeleted E c (storage_object o) old) old
            λ r. no_record r empty)
    | inr there ↦
        rw (deleting, owned, there)
          (Leads-deletion E c (record_path (storage_object o) <> o.status.id)
            (IsDeleted E c (storage_object o) old) old (Storage.release E o)
            (λ t g.
              storage_release-Leads o (IsDeleted E c (storage_object o) old) _
                λ r. gone t r there g)
            (λ t n. kept t there n) (λ m e. not_sent m there e))
  ]

  notifier_release-Leads :
      (o : Notifier) (P : Outcome → List Event → Type 0) (log : List Event)
      → ((r : Option KubeError)
          → P (finished r) (updated (without_finalizer E (notifier_object o)) r ∷ log))
      → Leads P log (Notifier.release E o)
  unfolding Notifier.release
  notifier_release-Leads o P log k = Leads-calling P log _ _ _ λ x. Leads-pure P _ _ (k _)

  notifier-IsDeleted :
      (o : Notifier) (old : List Event)
      → not (E.is_zero_time o.metadata.deletion_timestamp) ≡ true
      → not (E.contains_finalizer o.metadata Notifier.notifier_finalizer) ≡ false
      → Leads (IsDeleted E c (notifier_object o) old) old (Notifier.reconcile_notifier E c o)
  unfolding Notifier.reconcile_notifier Notifier.handle_deletion delete_notifier
  notifier-IsDeleted o old deleting owned = elim (Bool-cases (o.status.id == "")) [
    | inl empty ↦
        rw (deleting, owned, empty)
          (notifier_release-Leads o (IsDeleted E c (notifier_object o) old) old
            λ r. no_record r empty)
    | inr there ↦
        rw (deleting, owned, there)
          (Leads-deletion E c (record_path (notifier_object o) <> o.status.id)
            (IsDeleted E c (notifier_object o) old) old (Notifier.release E o)
            (λ t g.
              notifier_release-Leads o (IsDeleted E c (notifier_object o) old) _
                λ r. gone t r there g)
            (λ t n. kept t there n) (λ m e. not_sent m there e))
  ]

  database_backup_release-Leads :
      (o : DatabaseBackup) (P : Outcome → List Event → Type 0) (log : List Event)
      → ((r : Option KubeError)
          → P (finished r) (updated (without_finalizer E (database_backup_object o)) r ∷ log))
      → Leads P log (DatabaseBackup.release E o)
  unfolding DatabaseBackup.release
  database_backup_release-Leads o P log k = Leads-calling P log _ _ _ λ x. Leads-pure P _ _ (k _)

  database_backup-IsDeleted :
      (o : DatabaseBackup) (old : List Event)
      → not (E.is_zero_time o.metadata.deletion_timestamp) ≡ true
      → not (E.contains_finalizer o.metadata DatabaseBackup.database_backup_finalizer) ≡ false
      → Leads
          (IsDeleted E c (database_backup_object o) old)
          old
          (DatabaseBackup.reconcile_database_backup E c o)
  unfolding DatabaseBackup.reconcile_database_backup DatabaseBackup.handle_deletion delete_database
  database_backup-IsDeleted o old deleting owned = elim (Bool-cases (o.status.database_id == "")) [
    | inl empty ↦
        rw (deleting, owned, empty)
          (database_backup_release-Leads o (IsDeleted E c (database_backup_object o) old) old
            λ r. no_record r empty)
    | inr there ↦
        rw (deleting, owned, there)
          (Leads-deletion E c (record_path (database_backup_object o) <> o.status.database_id)
            (IsDeleted E c (database_backup_object o) old) old (DatabaseBackup.release E o)
            (λ t g.
              database_backup_release-Leads o (IsDeleted E c (database_backup_object o) old) _
                λ r. gone t r there g)
            (λ t n. kept t there n) (λ m e. not_sent m there e))
  ]

  any-IsDeleted :
      (o : Object) (old : List Event)
      → not (E.is_zero_time (metadata_of o).deletion_timestamp) ≡ true
      → not (E.contains_finalizer (metadata_of o) (finalizer_of o)) ≡ false
      → Leads (IsDeleted E c o old) old (reconcile_object E c o)
  any-IsDeleted (storage_object o) = storage-IsDeleted o
  any-IsDeleted (notifier_object o) = notifier-IsDeleted o
  any-IsDeleted (database_backup_object o) = database_backup-IsDeleted o

  -- A reconciliation of an object of any kind that is being deleted and has the finalizer makes
  -- exactly these calls. Without a record the finalizer is removed. With one, the deletion of the
  -- record is requested. If the answer is 200, 204 or says that the record does not exist, the
  -- finalizer is removed, and the result is that of the update; for any other answer, and where the
  -- request cannot be made, nothing else is called and the next turn is in 10 seconds.
  pub reconcile_object-IsDeleted :
      (o : Object) (w : World S)
      → not (E.is_zero_time (metadata_of o).deletion_timestamp) ≡ true
      → not (E.contains_finalizer (metadata_of o) (finalizer_of o)) ≡ false
      → IsDeleted E c o w.log (reconcile_object E c o w).0 (reconcile_object E c o w).1.log
  reconcile_object-IsDeleted o w deleting owned = (any-IsDeleted o w.log deleting owned).at w.state
