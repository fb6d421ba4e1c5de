-- ===== src/Client/Request/Accepted.antt =====
-- When a request that expects a body in return succeeds.
use databasus_operator.Prelude.{
  ℕ, String, ◌<>◌, ◌≡◌, refl, ap, inl, inr, none, Bool, false, some, Option, ◌∷◌, Option-cases,
  Bool-cases, if◌then◌else◌,
}
use databasus_operator.Wire.Json.{Json, unmarshal_value}
use databasus_operator.Effects.{
  Event, Transport, response, no_response, broken_body, Body, Error, Res, ok, err, http, World, Env,
  pure, handle, fail,
}
use databasus_operator.Effects.Fallible.{◌>>=◌}
use databasus_operator.Effects.Logs.{Adds, nothing, one_more}
use databasus_operator.Client.Request.{
  DatabasusClient, do_request, request_of, reply_of, unmarshal, Reply,
}
use databasus_operator.Client.Request.Gone.{sent, do_request-sent, do_request-unsent}

-- A response with a status that is not refused, and a body that is decoded to the value.
pub data Accepted {A : Type 0} (refuses : ℕ → Bool) (decode : Json → Option A) (a : A)
    : Transport → Type 0 where
  accepted :
      (status : ℕ) (body : Body)
      → refuses status ≡ false
      → unmarshal_value decode body.json ≡ some a
      → Accepted refuses decode a (response status body)

module _ {S A : Type 0} (E : Env S) (prefix : String) (decode : Json → Option A) where
  unmarshal-ok :
      (body : Body) (a : A)
      → unmarshal E prefix decode body ≡ ok a
      → unmarshal_value decode body.json ≡ some a
  unmarshal-ok body a h = elim (Option-cases (unmarshal_value decode body.json)) [
    | inl e ↦ cc (rw (unmarshal, e) at h)
    | inr (b, e) ↦ rw e (ap (λ x. some x) (cc (rw (unmarshal, e) at h)))
  ]

module _ {S A : Type 0} (f : Reply → Res A) where
  -- Reading an answer calls nothing.
  pub reply-world :
      (t : Transport) (v : World S) → (handle (reply_of t) fail (λ reply. pure (f reply)) v).1 ≡ v
  unfolding handle fail pure
  reply-world (no_response e) v = refl
  reply-world (broken_body status e) v = refl
  reply-world (response status body) v = refl

module _ {S A : Type 0} (E : Env S) (prefix : String) (decode : Json → Option A)
    (refuses : ℕ → Bool) (refusal : Reply → Error) where
  -- What follows the request.
  abbrev pub read_reply : Reply → Res A
  read_reply reply =
      if refuses reply.status then err (refusal reply) else unmarshal E prefix decode reply.body

  read_reply-Accepted :
      (status : ℕ) (body : Body) (a : A)
      → read_reply (record { status = status; body = body }) ≡ ok a
      → Accepted refuses decode a (response status body)
  read_reply-Accepted status body a h = elim (Bool-cases (refuses status)) [
    | inl refused ↦ cc (rw refused at h)
    | inr fine ↦ accepted status body fine (unmarshal-ok E prefix decode body a (rw fine at h))
  ]

  pub reply-Accepted :
      (t : Transport) (a : A) (v : World S)
      → (handle (reply_of t) fail (λ reply. pure (read_reply reply)) v).0 ≡ ok a
      → Accepted refuses decode a t
  unfolding handle fail pure
  reply-Accepted (no_response e) a v h = cc
  reply-Accepted (broken_body status e) a v h = cc
  reply-Accepted (response status body) a v h = read_reply-Accepted status body a h

  -- A value that is read from the answer of a request: the request was sent, and accepted.
  pub do_request-Accepted :
      (c : DatabasusClient) (method path : String) (body : Option Json) (a : A) (w : World S)
      → ((do_request E c method path body >>= λ reply. pure (read_reply reply)) w).0 ≡ ok a
      → (t : Transport) × (((do_request E c method path body >>= λ reply. pure (read_reply reply))
            w).1.log
          ≡ http (request_of c method path body) t ∷ w.log)
        × Accepted refuses decode a t
  unfolding ◌>>=◌
  do_request-Accepted c method path body a w h =
      elim (Option-cases (E.url_error (c.base_url <> path))) [
        | inl e ↦
            let same = do_request-sent E c method path body w e in
            (
              (sent E c method path body w).0,
              rw same (
                  ap (λ (v : World S). v.log)
                    (reply-world read_reply (sent E c method path body w).0 _)),
              reply-Accepted _ a _ (rw same at h),
            )
        | inr (m, e) ↦ cc (rw (do_request-unsent E c method path body w e) at h)
      ]

  read_reply-ok :
      (status : ℕ) (body : Body) (a : A)
      → refuses status ≡ false
      → unmarshal_value decode body.json ≡ some a
      → read_reply (record { status = status; body = body }) ≡ ok a
  read_reply-ok status body a fine decoded = rw fine (rw (unmarshal, decoded) refl)

  pub Accepted-reply :
      (t : Transport) (a : A) (v : World S)
      → Accepted refuses decode a t
      → handle (reply_of t) fail (λ reply. pure (read_reply reply)) v ≡ (ok a, v)
  unfolding handle fail pure
  Accepted-reply _ a v (accepted status body fine decoded) =
      ap (λ (r : Res A). (r, v)) (read_reply-ok status body a fine decoded)

  -- The other way round: an accepted answer gives its value, and nothing else is called.
  pub Accepted-do_request :
      (c : DatabasusClient) (method path : String) (body : Option Json) (a : A) (w : World S)
      → E.url_error (c.base_url <> path) ≡ none
      → Accepted refuses decode a (sent E c method path body w).0
      → (do_request E c method path body >>= λ reply. pure (read_reply reply)) w ≡ (
        ok a,
        record {
          state = (sent E c method path body w).1;
          log = http (request_of c method path body) (sent E c method path body w).0 ∷ w.log;
        },
      )
  unfolding ◌>>=◌
  Accepted-do_request c method path body a w e h =
      rw (do_request-sent E c method path body w e) (Accepted-reply _ a _ h)

  -- Such a request adds itself to the log, if it can be made; and where its answer is accepted, that
  -- is the result.
  pub do_request-Adds :
      (P : Event → Type 0) (c : DatabasusClient) (method path : String) (body : Option Json)
      (w : World S)
      → ((t : Transport)
          → ((a : A)
              → Accepted refuses decode a t
              → ((do_request E c method path body >>= λ reply. pure (read_reply reply)) w).0 ≡ ok a)
          → P (http (request_of c method path body) t))
      → Adds P w.log
          ((do_request E c method path body >>= λ reply. pure (read_reply reply)) w).1.log
  unfolding ◌>>=◌
  do_request-Adds P c method path body w k =
      elim (Option-cases (E.url_error (c.base_url <> path))) [
        | inl e ↦
            let t = (sent E c method path body w).0 in
            let h = k t λ a fine.
              ap (λ (r : Res A × World S). r.0)
                (Accepted-do_request c method path body a w e fine) in
            rw (do_request-sent E c method path body w e)
              (rw (reply-world read_reply t _) (one_more h nothing))
        | inr (m, e) ↦ rw (do_request-unsent E c method path body w e) nothing
      ]
