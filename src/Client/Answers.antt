-- ===== src/Client/Answers.antt =====
-- internal/client/*.go: when a method of the client succeeds, by the answer to its request.
pub mod Methods
use databasus_operator.Prelude.{
  ℕ, String, ◌<>◌, ◌≡◌, ◌↔◌, refl, ap, inl, inr, none, some, Bool, true, false, Option, not, nat_eq,
  nat_eq_iff, Option-cases, Bool-cases, if◌then◌else◌, arith,
}
use databasus_operator.Wire.Json.{Json, unmarshal_value}
use databasus_operator.Effects.{
  Transport, response, no_response, broken_body, Body, Error, Res, ok, err, World, Env, pure,
  handle, fail, Res-cases,
}
use databasus_operator.Effects.Fallible.{◌>>=◌}
use databasus_operator.Client.Request.{
  DatabasusClient, do_request, reply_of, unmarshal, Reply, is_not_found, parse_error, present,
}
use databasus_operator.Client.Request.Gone.{
  NotFound, is_not_found_iff, sent, do_request-sent, do_request-unsent,
}
use databasus_operator.Client.Saved.{refusal}
use databasus_operator.Client.Request.Accepted.{
  Accepted, reply-Accepted, Accepted-reply, read_reply,
}

-- A read that succeeds: the record does not exist, or the answer is 200 with a body that is decoded
-- to it.
pub data Reads {A : Type 0} (decode : Json → Option A) : Option A → Transport → Type 0 where
  missing :
      (status : ℕ) (body : Body) → NotFound status body → Reads decode none (response status body)
  present_as :
      {a : A} (status : ℕ) (body : Body)
      → status ≡ 200
      → unmarshal_value decode body.json ≡ some a
      → Reads decode (some a) (response status body)

module _ {S A : Type 0} (E : Env S) (prefix : String) (decode : Json → Option A) where
  -- What follows the request of a read.
  abbrev pub read_found : Reply → Res (Option A)
  read_found reply =
      if is_not_found reply.status reply.body
      then ok none
      else if not (nat_eq reply.status 200)
      then err (parse_error reply.status reply.body)
      else present (unmarshal E prefix decode reply.body)

  present-Reads :
      (status : ℕ) (body : Body) (o : Option A)
      → status ≡ 200
      → present (unmarshal E prefix decode body) ≡ ok o
      → Reads decode o (response status body)
  present-Reads status body o h e = elim (Option-cases (unmarshal_value decode body.json)) [
    | inl bad ↦ cc (rw (unmarshal, bad) at e)
    | inr (a, good) ↦
        let same : o ≡ some a = cc (rw (unmarshal, good) at e) in
        rw same (present_as status body h good)
  ]

  found-Reads :
      (status : ℕ) (body : Body) (o : Option A)
      → read_found (record { status = status; body = body }) ≡ ok o
      → Reads decode o (response status body)
  found-Reads status body o e = elim (Bool-cases (is_not_found status body)) [
    | inl yes_missing ↦
        let same : o ≡ none = cc (rw yes_missing at e) in
        rw same (missing status body ((is_not_found_iff status body).0 yes_missing))
    | inr there ↦ elim (Bool-cases (nat_eq status 200)) [
      | inl fine ↦
          present-Reads status body o ((nat_eq_iff status 200).0 fine) (rw (there, fine) at e)
      | inr bad ↦ cc (rw (there, bad) at e)
    ]
  ]

  reply-Reads :
      (t : Transport) (o : Option A) (v : World S)
      → (handle (reply_of t) fail (λ reply. pure (read_found reply)) v).0 ≡ ok o
      → Reads decode o t
  unfolding handle fail pure
  reply-Reads (no_response e) o v h = cc
  reply-Reads (broken_body status e) o v h = cc
  reply-Reads (response status body) o v h = found-Reads status body o h

  found_at_200 : (status : ℕ) (body : Body) → status ≡ 200 → is_not_found status body ≡ false
  unfolding is_not_found
  found_at_200 status body h = ground arith

  Reads-reply :
      (t : Transport) (o : Option A) (v : World S)
      → Reads decode o t
      → (handle (reply_of t) fail (λ reply. pure (read_found reply)) v).0 ≡ ok o
  unfolding handle fail pure
  Reads-reply _ _ v (missing status body h) = rw ((is_not_found_iff status body).1 h) refl
  Reads-reply _ _ v (present_as status body h good) =
      rw (found_at_200 status body h, (nat_eq_iff status 200).1 h) (rw (unmarshal, good) refl)

module _ {S B : Type 0} (E : Env S) (c : DatabasusClient) (read : Reply → Res B)
    (Q : B → Transport → Type 0)
    (sound : (t : Transport) (b : B) (v : World S)
      → (handle (reply_of t) fail (λ reply. pure (read reply)) v).0 ≡ ok b
      → Q b t)
    (complete : (t : Transport) (b : B) (v : World S)
      → Q b t
      → (handle (reply_of t) fail (λ reply. pure (read reply)) v).0 ≡ ok b) where
  -- A request whose answer is read, by what the reading makes of an answer.
  answer_iff :
      (method path : String) (body : Option Json) (b : B) (w : World S)
      → (((do_request E c method path body >>= λ reply. pure (read reply)) w).0 ≡ ok b)
        ↔ ((E.url_error (c.base_url <> path) ≡ none) × Q b (sent E c method path body w).0)
  unfolding ◌>>=◌
  answer_iff method path body b w = (
    λ h. elim (Option-cases (E.url_error (c.base_url <> path))) [
      | inl e ↦ (e, sound _ b _ (rw (do_request-sent E c method path body w e) at h))
      | inr (m, e) ↦ cc (rw (do_request-unsent E c method path body w e) at h)
    ],
    λ (e, q). rw (do_request-sent E c method path body w e) (complete _ b _ q),
  )

module _ {S : Type 0} (E : Env S) (c : DatabasusClient) (w : World S) where
  -- A POST of the body to the path would be sent now, and the answer is accepted.
  abbrev pub IsSaved : {A : Type 0} → String → (ℕ → Bool) → (Json → Option A) → Json → A → Type 0
  IsSaved path refuses decode body a =
      (E.url_error (c.base_url <> path) ≡ none)
      × Accepted refuses decode a (sent E c "POST" path (some body) w).0

  -- A GET of the path would be sent now, and the answer is read as the record, or as none.
  abbrev pub IsRead : {A : Type 0} → String → (Json → Option A) → Option A → Type 0
  IsRead path decode o =
      (E.url_error (c.base_url <> path) ≡ none) × Reads decode o (sent E c "GET" path none w).0

  pub IsSaved-iff :
      {A : Type 0} (prefix path : String) (decode : Json → Option A) (refuses : ℕ → Bool)
      (body : Json) (a : A)
      → (((do_request E c "POST" path (some body) >>= λ reply.
              pure (read_reply E prefix decode refuses refusal reply))
            w).0
          ≡ ok a)
        ↔ IsSaved path refuses decode body a
  IsSaved-iff prefix path decode refuses body a =
      answer_iff E c (read_reply E prefix decode refuses refusal) (Accepted refuses decode)
        (reply-Accepted E prefix decode refuses refusal)
        (λ t b v q. ap (λ r. r.0) (Accepted-reply E prefix decode refuses refusal t b v q)) "POST"
        path (some body) a w

  pub IsRead-iff :
      {A : Type 0} (prefix path : String) (decode : Json → Option A) (o : Option A)
      → (((do_request E c "GET" path none >>= λ reply. pure (read_found E prefix decode reply)) w).0
          ≡ ok o)
        ↔ IsRead path decode o
  IsRead-iff prefix path decode o =
      answer_iff E c (read_found E prefix decode) (Reads decode) (reply-Reads E prefix decode)
        (Reads-reply E prefix decode) "GET" path none o w
