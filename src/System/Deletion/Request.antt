-- ===== src/System/Deletion/Request.antt =====
-- The request that deletes a record, and what follows it in the three controllers.
use databasus_operator.Prelude.{
  String, ◌<>◌, ◌≡◌, none, some, Option, List, ◌∷◌, inl, inr, Option-cases,
}
use databasus_operator.Effects.{Event, http, Transport, Error, World, Env, M, pure, handle_some}
use databasus_operator.Effects.Plain.{◌>>=◌, mapped}
use databasus_operator.Effects.Leads.{Leads, bind_step, mapped_step}
use databasus_operator.Client.Request.{DatabasusClient, request_of, do_request, deleted, reply_of}
use databasus_operator.Client.Request.Gone.{
  Gone, sent, do_request-sent, do_request-unsent, deleted-Gone, Gone-deleted,
}
use databasus_operator.Controller.Outcome.{Outcome, returned, requeue}

module _ {S : Type 0} (E : Env S) (c : DatabasusClient) (path : String)
    (P : Outcome → List Event → Type 0) (old : List Event) (release : M S Outcome) where
  abbrev follows : Option Error → M S Outcome
  follows result = handle_some result (λ e. requeue 10) release

  answered :
      (t : Transport) (log : List Event)
      → (Gone t → Leads P log release)
      → ((Gone t → ⊥) → P (returned 10 none) log)
      → Leads P log (follows (deleted (reply_of t)))
  unfolding handle_some pure
  answered t log good bad = elim (Option-cases (deleted (reply_of t))) [
    | inl e ↦ rw e (good (deleted-Gone t e))
    | inr (x, e) ↦ rw e (record { at = λ s. bad (λ g. cc (Gone-deleted t g, e)) })
  ]

  pub Leads-deletion :
      ((t : Transport) → Gone t → Leads P (http (request_of c "DELETE" path none) t ∷ old) release)
      → ((t : Transport)
          → (Gone t → ⊥)
          → P (returned 10 none) (http (request_of c "DELETE" path none) t ∷ old))
      → ((m : String) → E.url_error (c.base_url <> path) ≡ some m → P (returned 10 none) old)
      → Leads P old (◌>>=◌ (mapped deleted (do_request E c "DELETE" path none)) follows)
  unfolding handle_some pure
  Leads-deletion good bad unsent = record {
    at = λ s.
        let w : World S = record { state = s; log = old } in
        elim (Option-cases (E.url_error (c.base_url <> path))) [
          | inl e ↦
              let t = (sent E c "DELETE" path none w).0 in
              rw
                (bind_step _ follows w _ _
                  (mapped_step deleted _ w _ _ (do_request-sent E c "DELETE" path none w e)))
                ((answered t _ (good t) (bad t)).at _)
          | inr (m, e) ↦
              rw
                (bind_step _ follows w _ _
                  (mapped_step deleted _ w _ _ (do_request-unsent E c "DELETE" path none w e)))
                (unsent m e)
        ];
  }
