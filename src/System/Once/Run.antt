-- ===== src/System/Once/Run.antt =====
-- Over the life of a DatabaseBackup, its database is created once.
use databasus_operator.Prelude.{
  suc, ◌≤◌, String, ◌==◌, refl, none, some, List, inl, inr, Bool-cases, arith,
}
use databasus_operator.Api.DatabaseBackup.{DatabaseBackup}
use databasus_operator.Effects.{Event, status_updated, database_backup_object, World, Env}
use databasus_operator.Client.Request.{DatabasusClient}
use databasus_operator.System.Once.{Life, begun, synced, edited, written, creations, excuses}
use databasus_operator.System.Once.Counts.{
  open_creations, IsBounded, one-IsBounded, failed-IsBounded,
}
use databasus_operator.System.Once.Stages.{IsSettled, settled, sync-Settles}

open_creations-le : (id : String) → open_creations id ≤ 1
open_creations-le id = elim (Bool-cases (id == "")) [
  | inl h ↦ rw h (omega arith)
  | inr h ↦ rw h (omega arith)
]

module _ (c : DatabasusClient) where
  -- What a synchronisation leaves in the cluster goes on from there.
  IsSettled-IsBounded :
      (log : List Event) (o : DatabaseBackup)
      → IsSettled c log
      → IsBounded c (written log o).status.database_id log
  IsSettled-IsBounded _ o (settled p none {old = old} b) =
      one-IsBounded c p.status.database_id (status_updated (database_backup_object p) none) old refl
        b
  IsSettled-IsBounded _ o (settled p (some e) {old = old} b) =
      failed-IsBounded c o.status.database_id p.status.database_id (database_backup_object p) e old
        b

module _ {S : Type 0} (E : Env S) (c : DatabasusClient) where
  Life-IsBounded :
      (w : World S) (o : DatabaseBackup) → Life E c w o → IsBounded c o.status.database_id w.log
  Life-IsBounded _ o (begun x _) = omega (arith, open_creations-le o.status.database_id)
  Life-IsBounded _ _ (synced {w = w} {o = o} l) =
      IsSettled-IsBounded c _ o ((sync-Settles E c o).at w (Life-IsBounded w o l))
  Life-IsBounded _ p (edited {w = w} {o = o} x _ same l) = rw same (Life-IsBounded w o l)

  -- Over the life of one DatabaseBackup, in which each synchronisation starts from what the one
  -- before left in the cluster and from no older copy, however often it is synchronised, whatever
  -- the outside answers, and whatever others change in between, but for the identifier in its
  -- status, the API accepts at most one creation of its database, and one more for each write of
  -- the status that failed, each creation that it may have accepted while its answer was lost,
  -- cannot be read or has no identifier, and each accepted update whose answer has no identifier. A
  -- creation counts as accepted unless its answer has a status other than 200 and 201.
  pub Life-creations :
      (w : World S) (o : DatabaseBackup) → Life E c w o → creations c w.log ≤ suc (excuses c w.log)
  Life-creations w o l = omega (arith, Life-IsBounded w o l)
