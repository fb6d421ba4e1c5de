-- ===== src/Client/Request.antt =====
-- internal/client/client.go: the client, a request and its answer, and errors of the API.
pub mod Gone
pub mod Accepted
use databasus_operator.Prelude.{ℕ, String, ◌<>◌, Bool, true, false, Option, none, some}
use databasus_operator.Prelude.{nat_eq, not, ◌&&◌, if◌then◌else◌}
use databasus_operator.Prelude.Text.{decimal, contains}
use databasus_operator.Wire.Json.{Json, struct_of, read_str, unmarshal_value}
use databasus_operator.Effects.{
  Error, api_error, text_error, Res, ok, err, HttpRequest, Body, Transport, no_response,
  broken_body, response, Env, M, Run, fail, handle_some, send,
}
use databasus_operator.Effects.Plain.{mapped}

-- The HTTP client of the struct, with its timeout, belongs to the transport.
pub record DatabasusClient : Type 0 where
  pub base_url : String
  pub token : String
  pub workspace_id : String

pub record Config : Type 0 where
  pub base_url : String
  pub token : String
  pub workspace_id : String

unfoldable pub new : Config → DatabasusClient
new cfg = record { base_url = cfg.base_url; token = cfg.token; workspace_id = cfg.workspace_id }

unfoldable pub workspace_id_of : DatabasusClient → String
workspace_id_of c = c.workspace_id

-- The status code and the body of a response that was read.
pub record Reply : Type 0 where
  pub status : ℕ
  pub body : Body

abbrev pub reply_of : Transport → Res Reply
reply_of (no_response e) = err (text_error ("request failed: " <> e))
reply_of (broken_body status e) = err (text_error ("failed to read response body: " <> e))
reply_of (response status body) = ok (record { status = status; body = body })

abbrev content_type_of : Option Json → Option String
content_type_of none = none
content_type_of (some j) = some "application/json"

-- The request that `do` builds.
abbrev pub request_of : DatabasusClient → String → String → Option Json → HttpRequest
request_of c method path body = record {
  method = method;
  url = c.base_url <> path;
  authorization = "Bearer " <> c.token;
  content_type = content_type_of body;
  body = body;
}

module _ {S : Type 0} (E : Env S) (c : DatabasusClient) where
  -- Every body that the program sends can be marshalled.
  unfoldable pub do_request : String → String → Option Json → Run S Reply
  do_request method path body =
      handle_some (E.url_error (c.base_url <> path))
        (λ e. fail (text_error ("failed to create request: " <> e)))
        (mapped reply_of (send E (request_of c method path body)))

-- The anonymous struct with the one field `error`.
abbrev pub decode_error : Body → Option String
decode_error body = unmarshal_value (struct_of (read_str "error")) body.json

unfoldable pub parse_error : ℕ → Body → Error
unfolding read_str
parse_error status body = elim (decode_error body) [
  | none ↦ api_error status body.text
  | some message ↦ api_error status message
]

abbrev pub says_not_found : Option String → Bool
says_not_found none = false
says_not_found (some message) = contains message "record not found"

unfoldable pub is_not_found : ℕ → Body → Bool
unfolding read_str contains
is_not_found status body =
    if nat_eq status 404
    then true
    else if not (nat_eq status 400)
    then false
    else says_not_found (decode_error body)

-- `json.Unmarshal` of a body, with the prefix that the caller puts before an error.
abbrev pub unmarshal : {S A : Type 0} → Env S → String → (Json → Option A) → Body → Res A
unmarshal E prefix decode body = elim (unmarshal_value decode body.json) [
  | none ↦ err (text_error (prefix <> (": " <> E.json_error prefix body)))
  | some a ↦ ok a
]

-- A response that is there.
abbrev pub present : {A : Type 0} → Res A → Res (Option A)
present (ok a) = ok (some a)
present (err e) = err e

-- The end of a delete: a record that is not there counts as deleted.
abbrev pub deleted : Res Reply → Option Error
deleted (err e) = some e
deleted (ok reply) =
    if not (nat_eq reply.status 200)
      && not (nat_eq reply.status 204)
      && not (is_not_found reply.status reply.body)
    then some (parse_error reply.status reply.body)
    else none

abbrev pub healthy : Res Reply → Option Error
healthy (err e) = some e
healthy (ok reply) =
    if not (nat_eq reply.status 200)
    then some (text_error ("health check failed with status " <> decimal reply.status))
    else none

module _ {S : Type 0} (E : Env S) (c : DatabasusClient) where
  unfoldable pub health_check : M S (Option Error)
  unfolding do_request
  health_check = mapped healthy (do_request E c "GET" "/api/v1/system/health" none)
