-- ===== src/Controller/DatabaseBackup/Success/Requests.antt =====
-- internal/client/*.go: the requests of a synchronisation, where they are sent and accepted.
use databasus_operator.Prelude.{
  ℕ, Bool, String, ◌<>◌, ◌≡◌, refl, Option, none, some, List, ◌∷◌, ◌∙◌,
}
use databasus_operator.Wire.Json.{Json}
use databasus_operator.Wire.Database.{DatabaseResponse}
use databasus_operator.Effects.{
  Transport, no_response, broken_body, response, Res, ok, Event, http, World, Env, M, pure, fail,
  handle,
}
use databasus_operator.Effects.Plain
use databasus_operator.Effects.Fallible
use databasus_operator.Effects.Leads.{Leads, bind_step}
use databasus_operator.Client.Request.{DatabasusClient, request_of, do_request, reply_of}
use databasus_operator.Client.Request.Gone.{sent, do_request-sent}
use databasus_operator.Client.Request.Accepted.{Accepted, Accepted-do_request, read_reply}
use databasus_operator.Client.Saved.{refusal, not_ok, described}
use databasus_operator.Client.Database.{get_database, read_database}
use databasus_operator.Controller.DatabaseBackup.Observed.{seen, read-seen}
use databasus_operator.Controller.DatabaseBackup.Success.{Accepts}

module _ {S : Type 0} (E : Env S) (c : DatabasusClient)
    (urls : (path : String) → E.url_error (c.base_url <> path) ≡ none) where
  module _ {A B : Type 0} (P : B → List Event → Type 0) (log : List Event) (f : Res A → M S B) where
    -- A request that saves something, and is accepted.
    pub Leads-posted :
        (prefix path : String) (decode : Json → Option A) (refuses : ℕ → Bool) (body : Json)
        → Accepts E c path refuses decode body
        → ((a : A) (t : Transport)
            → Accepted refuses decode a t
            → Leads P (http (request_of c "POST" path (some body)) t ∷ log) (f (ok a)))
        → Leads P log (
            Plain.◌>>=◌
              (Fallible.◌>>=◌
                (do_request E c "POST" path (some body))
                λ reply. pure (read_reply E prefix decode refuses refusal reply))
              f)
    Leads-posted prefix path decode refuses body accepts k = record {
      at = λ x.
          let (a, h) = accepts x in
          rw
            (bind_step _ f _ _ (ok a) (
              Accepted-do_request E prefix decode refuses refusal c "POST" path (some body) a
                (record { state = x; log = log }) (urls path) h))
            ((k a _ h).at _);
    }

  -- What a read of the database makes of an answer.
  abbrev got_from : Transport → World S → Res (Option DatabaseResponse) × World S
  got_from t = handle (reply_of t) fail (λ reply. pure (read_database E c reply))

  got_from-world : (t : Transport) (v : World S) → got_from t v ≡ ((got_from t v).0, v)
  unfolding handle fail pure
  got_from-world (no_response e) v = refl
  got_from-world (broken_body status e) v = refl
  got_from-world (response status body) v = refl

  get_database-sent :
      (id : String) (w : World S)
      → get_database E c id w
        ≡ got_from (sent E c "GET" ("/api/v1/databases/" <> id) none w).0 (record {
          state = (sent E c "GET" ("/api/v1/databases/" <> id) none w).1;
          log =
              http
                (request_of c "GET" ("/api/v1/databases/" <> id) none)
                (sent E c "GET" ("/api/v1/databases/" <> id) none w).0
              ∷ w.log;
        })
  unfolding get_database Fallible.◌>>=◌
  get_database-sent id w =
      bind_step (do_request E c "GET" ("/api/v1/databases/" <> id) none)
        (λ r. handle r fail (λ reply. pure (read_database E c reply))) w _ _
        (do_request-sent E c "GET" ("/api/v1/databases/" <> id) none w (urls _))

  -- A request whose answer is read in any way.
  pub Leads-got :
      {B : Type 0} (P : B → List Event → Type 0) (log : List Event)
      (f : Res (Option DatabaseResponse) → M S B) (id : String)
      → ((got : Res (Option DatabaseResponse)) (t : Transport)
          → seen got ≡ described not_ok t
          → Leads P (http (request_of c "GET" ("/api/v1/databases/" <> id) none) t ∷ log) (f got))
      → Leads P log (Plain.◌>>=◌ (get_database E c id) f)
  Leads-got P log f id k = record {
    at = λ x.
        let w : World S = record { state = x; log = log } in
        let t = (sent E c "GET" ("/api/v1/databases/" <> id) none w).0 in
        rw (bind_step _ f w _ _ (get_database-sent id w ∙ got_from-world t _))
          ((k _ t (read-seen E c t _)).at _);
  }
