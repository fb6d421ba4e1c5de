-- ===== src/System/Once.antt =====
-- How often the database of one DatabaseBackup is created: what is counted in the calls, and the
-- life of the object between its synchronisations.
pub mod Counts
pub mod Requests
pub mod Stages
pub mod Run
use databasus_operator.Prelude.{
  ℕ, suc, ◌+◌, ◌≤◌, String, ◌<>◌, ◌==◌, ◌≡◌, Bool, true, false, ◌&&◌, ◌||◌, not, Option, none, some,
  List, [], ◌∷◌, if◌then◌else◌,
}
use databasus_operator.Wire.Database.{DatabaseResponse}
use databasus_operator.Effects.{
  KubeError, Event, http, updated, status_updated, Object, storage_object, notifier_object,
  database_backup_object, Transport, no_response, broken_body, response, World, Env,
}
use databasus_operator.Api.DatabaseBackup.{DatabaseBackup}
use databasus_operator.Client.Request.{DatabasusClient}
use databasus_operator.Client.Saved.{not_ok, not_created, described}
use databasus_operator.Controller.DatabaseBackup.{sync}

-- The API may have accepted a request: its answer was lost, or has a status that is not refused.
abbrev pub is_possible : (ℕ → Bool) → Transport → Bool
is_possible refuses (no_response e) = true
is_possible refuses (broken_body status e) = not (refuses status)
is_possible refuses (response status body) = not (refuses status)

abbrev pub is_named : Option DatabaseResponse → Bool
is_named none = false
is_named (some a) = not (a.id == "")

abbrev pub is_nameless : Option DatabaseResponse → Bool
is_nameless none = false
is_nameless (some a) = a.id == ""

-- What came of a request that creates a database, if the event is one.
abbrev pub is_creation : Option Transport → Bool
is_creation none = false
is_creation (some t) = is_possible not_created t

-- And the program learned no identifier.
abbrev pub is_unnamed_creation : Option Transport → Bool
is_unnamed_creation none = false
is_unnamed_creation (some t) = is_possible not_created t && not (is_named (described not_created t))

-- An update that was accepted with an answer that has no identifier.
abbrev pub is_unnamed_update : Option Transport → Bool
is_unnamed_update none = false
is_unnamed_update (some t) = is_nameless (described not_ok t)

abbrev pub is_failed_write : Event → Bool
is_failed_write (http r t) = false
is_failed_write (updated o r) = false
is_failed_write (status_updated o none) = false
is_failed_write (status_updated o (some e)) = true

abbrev pub count : (Event → Bool) → List Event → ℕ
count test [] = 0
count test (e ∷ old) = if test e then suc (count test old) else count test old

module _ (c : DatabasusClient) where
  -- The answer to a POST to the path, if the event is one.
  abbrev pub posted : String → Event → Option Transport
  posted path (http r t) =
      if (r.method == "POST") && (r.url == (c.base_url <> path)) then some t else none
  posted path (updated o r) = none
  posted path (status_updated o r) = none

  -- The creations of databases that the API may have accepted.
  abbrev pub creations : List Event → ℕ
  creations = count (λ e. is_creation (posted "/api/v1/databases/create" e))

  abbrev pub is_excuse : Event → Bool
  is_excuse e =
      is_failed_write e
      || (is_unnamed_creation (posted "/api/v1/databases/create" e)
          || is_unnamed_update (posted "/api/v1/databases/update" e))

  -- The writes of a status that failed, and the creations that the API may have accepted while
  -- the program learned no identifier from the answer, and the updates that were accepted with an
  -- answer that has no identifier.
  abbrev pub excuses : List Event → ℕ
  excuses = count is_excuse

-- The object as the latest call left it in the cluster.
abbrev pub written : List Event → DatabaseBackup → DatabaseBackup
written [] o = o
written (http r t ∷ old) o = o
written (updated p r ∷ old) o = o
written (status_updated p (some e) ∷ old) o = o
written (status_updated (storage_object p) none ∷ old) o = o
written (status_updated (notifier_object p) none ∷ old) o = o
written (status_updated (database_backup_object p) none ∷ old) o = p

-- The synchronisations of one object, each of which starts from what the one before left in the
-- cluster, and from no older copy of it. Between them, what is outside and the object change in any way, but not the identifier
-- in its status, which nobody else writes.
pub data Life {S : Type 0} (E : Env S) (c : DatabasusClient)
    : World S → DatabaseBackup → Type 0 where
  begun : (x : S) (o : DatabaseBackup) → Life E c (record { state = x; log = [] }) o
  synced :
      {w : World S} {o : DatabaseBackup}
      → Life E c w o
      → Life E c (sync E c o w).1 (written (sync E c o w).1.log o)
  edited :
      {w : World S} {o : DatabaseBackup} (x : S) (p : DatabaseBackup)
      → p.status.database_id ≡ o.status.database_id
      → Life E c w o
      → Life E c (record { state = x; log = w.log }) p
