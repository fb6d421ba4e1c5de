-- ===== src/System/Release/Guard.antt =====
-- When the finalizer of an object may be taken off.
use databasus_operator.Wire.Json.{Json}
use databasus_operator.Prelude.{
  String, ◌<>◌, ◌==◌, ◌≡◌, true, false, not, none, List, [], ◌∷◌, Option,
}
use databasus_operator.Effects.{
  Event, http, updated, status_updated, Object, Env, HttpRequest, Transport,
}
use databasus_operator.Effects.Guards.{GuardedBy, AllowedBy}
use databasus_operator.Effects.Logs.{Logs, log_rules}
use databasus_operator.Client.Request.{DatabasusClient, request_of, do_request}
use databasus_operator.Client.Request.Gone.{Gone}
use databasus_operator.System.Objects.{metadata_of, record_id, record_path, finalizer_of}

module _ {S : Type 0} (E : Env S) (c : DatabasusClient) where
  -- The object is being deleted, has a record in databasus, and its finalizer is off.
  abbrev pub IsReleased : Object → Type 0
  IsReleased o =
      (not (E.is_zero_time (metadata_of o).deletion_timestamp) ≡ true)
      × ((record_id o == "") ≡ false)
      × (E.contains_finalizer (metadata_of o) (finalizer_of o) ≡ false)

  -- The latest event is the deletion of the record of the object, and the answer says that the
  -- record is gone.
  abbrev pub IsAcknowledged : Object → List Event → Type 0
  IsAcknowledged o [] = ⊥
  IsAcknowledged o (http r t ∷ _) =
      (r ≡ request_of c "DELETE" (record_path o <> record_id o) none) × Gone t
  IsAcknowledged o (updated _ _ ∷ _) = ⊥
  IsAcknowledged o (status_updated _ _ ∷ _) = ⊥

  abbrev pub Guard : Event → List Event → Type 0
  Guard (http r t) old = Unit
  Guard (status_updated o r) old = Unit
  Guard (updated o r) old = IsReleased o → IsAcknowledged o old

  -- Each update that takes a finalizer off stands right after the deletion of the record.
  abbrev pub Guarded : List Event → Type 0
  Guarded = GuardedBy Guard

  abbrev pub Harmless : Event → Type 0
  Harmless = AllowedBy Guard

  http-Harmless : (r : HttpRequest) (t : Transport) → Harmless (http r t)
  http-Harmless r t old = tt

  pub do_request-Harmless :
      (method path : String) (body : Option Json) → Logs Harmless (do_request E c method path body)
  unfolding do_request
  do_request-Harmless method path body = search (log_rules, http-Harmless)
