-- ===== src/Client/Request/Gone.antt =====
-- When a delete counts as done.
use databasus_operator.Prelude.{
  ℕ, String, ◌≡◌, ◌⊎◌, inl, inr, true, Option, none, some, ◌∷◌, arith, Option-cases, Bool-cases,
  ◌<>◌, ◌↔◌, ap,
}
use databasus_operator.Prelude.Text.{contains}
use databasus_operator.Wire.Json.{Json}
use databasus_operator.Effects.{
  Transport, no_response, broken_body, response, Body, http, World, Env, err, text_error, Res,
}
use databasus_operator.Effects.Plain.{mapped}
use databasus_operator.Client.Request.{
  DatabasusClient, do_request, request_of, reply_of, deleted, is_not_found, decode_error, Reply,
}

-- A status and a body that say that a record does not exist: 404, or 400 with an error that names
-- gorm's text.
abbrev pub NotFound : ℕ → Body → Type 0
NotFound status body =
    (status ≡ 404)
    ⊎ ((status ≡ 400)
        × ((message : String) × (decode_error body ≡ some message)
            × (contains message "record not found" ≡ true)))

-- The answer is 200, 204, or one that says that the record does not exist.
abbrev pub Gone : Transport → Type 0
Gone (no_response e) = ⊥
Gone (broken_body status e) = ⊥
Gone (response status body) = (status ≡ 200) ⊎ (status ≡ 204) ⊎ NotFound status body

is_not_found-NotFound :
    (status : ℕ) (body : Body) → is_not_found status body ≡ true → NotFound status body
unfolding is_not_found
is_not_found-NotFound status body h = elim (Option-cases (decode_error body)) [
  | inl e ↦ ground arith
  | inr (m, e) ↦ ground arith
]

NotFound-is_not_found :
    (status : ℕ) (body : Body) → NotFound status body → is_not_found status body ≡ true
unfolding is_not_found
NotFound-is_not_found status body (inl h) = ground arith
NotFound-is_not_found status body (inr (h, (m, e, f))) = ground arith

-- `isNotFound` holds exactly for the status 404, and for the status 400 if the body is a JSON
-- object whose field `error` contains "record not found".
pub is_not_found_iff :
    (status : ℕ) (body : Body) → (is_not_found status body ≡ true) ↔ NotFound status body
is_not_found_iff status body =
    (is_not_found-NotFound status body, NotFound-is_not_found status body)

pub deleted-Gone : (t : Transport) → deleted (reply_of t) ≡ none → Gone t
deleted-Gone (no_response e) h = cc
deleted-Gone (broken_body status e) h = cc
deleted-Gone (response status body) h = elim (Bool-cases (is_not_found status body)) [
  | inl e ↦ inr (inr (is_not_found-NotFound status body e))
  | inr e ↦ ground arith
]

pub Gone-deleted : (t : Transport) → Gone t → deleted (reply_of t) ≡ none
Gone-deleted (no_response e) h = absurd h
Gone-deleted (broken_body status e) h = absurd h
Gone-deleted (response status body) (inl h) = ground arith
Gone-deleted (response status body) (inr (inl h)) = ground arith
Gone-deleted (response status body) (inr (inr h)) =
    ground (arith, NotFound-is_not_found status body h)

module _ {S : Type 0} (E : Env S) (c : DatabasusClient) (method path : String) (body : Option Json)
    (w : World S) where
  abbrev pub sent : Transport × S
  sent = E.transport (request_of c method path body) w.state

  pub do_request-sent :
      E.url_error (c.base_url <> path) ≡ none
      → do_request E c method path body w ≡ (
        reply_of sent.0,
        record { state = sent.1; log = http (request_of c method path body) sent.0 ∷ w.log },
      )
  unfolding do_request mapped
  do_request-sent e = rw e

  pub do_request-unsent :
      {m : String}
      → E.url_error (c.base_url <> path) ≡ some m
      → do_request E c method path body w
        ≡ (err (text_error ("failed to create request: " <> m)), w)
  unfolding do_request mapped
  do_request-unsent e = rw e

  -- A request whose answer counts as a deletion was sent, and the answer says so.
  pub do_request-Gone :
      deleted (do_request E c method path body w).0 ≡ none
      → (t : Transport) × ((do_request E c method path body w).1.log
          ≡ http (request_of c method path body) t ∷ w.log)
        × Gone t
  do_request-Gone h = elim (Option-cases (E.url_error (c.base_url <> path))) [
    | inl e ↦ (
      sent.0,
      ap (λ (x : Res Reply × World S). x.1.log) (do_request-sent e),
      deleted-Gone sent.0 (rw (do_request-sent e) at h),
    )
    | inr (m, e) ↦ cc (ap (λ (x : Res Reply × World S). deleted x.0) (do_request-unsent e))
  ]
