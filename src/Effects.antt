-- ===== src/Effects.antt =====
-- The outside of the operator: the Kubernetes API and the HTTP transport, both parameters, and the
-- actions that call them. An action takes a world to a result and the world after it.
pub mod Plain
pub mod Fallible
pub mod Laws
pub mod Logs
pub mod Returns
pub mod Guards
pub mod Yields
pub mod Leads
pub mod Shares
use databasus_operator.Prelude.{
  ◌≡◌, refl, ◌⊎◌, inl, inr, ℕ, String, ◌<>◌, ◌==◌, Bool, Option, none, some, List, [], ◌∷◌,
}
use databasus_operator.Prelude.Text.{decimal}
use databasus_operator.Api.Meta.{NamespacedName, Secret, ObjectMeta, Condition}
use databasus_operator.Api.Storage.{Storage}
use databasus_operator.Api.Notifier.{Notifier}
use databasus_operator.Api.DatabaseBackup.{DatabaseBackup}
use databasus_operator.Wire.Json.{Json}

-- An error that the Kubernetes client returns.
pub record KubeError : Type 0 where
  pub reason : String
  pub message : String

-- Go's `error` values here: those of the Kubernetes client, `*APIError`, and those that
-- `fmt.Errorf` makes, which are read only by their text.
pub data Error : Type 0 where
  kube_error : KubeError → Error
  api_error : ℕ → String → Error
  text_error : String → Error

-- `err.Error()`
unfoldable pub error_text : Error → String
unfolding decimal
error_text (kube_error e) = e.message
error_text (api_error status message) =
    "databasus API error (status " <> (decimal status <> ("): " <> message))
error_text (text_error text) = text

-- A value, or an error that is not nil.
pub data Res (A : Type 0) : Type 0 where
  ok : A → Res A
  err : Error → Res A

pub Res-cases : {A : Type 0} (r : Res A) → ((a : A) × (r ≡ ok a)) ⊎ ((e : Error) × (r ≡ err e))
Res-cases (ok a) = inl (a, refl)
Res-cases (err e) = inr (e, refl)

pub data Got (A : Type 0) : Type 0 where
  found : A → Got A
  get_error : KubeError → Got A

pub record HttpRequest : Type 0 where
  pub method : String
  pub url : String
  pub authorization : String
  pub content_type : Option String
  pub body : Option Json

-- The bytes of a response, as a text, and the JSON value that they stand for, if they are JSON.
pub record Body : Type 0 where
  pub text : String
  pub json : Option Json

-- What the HTTP client makes of a request: no response, a response whose body cannot be read, or
-- a response. An expired deadline is one of the first two.
pub data Transport : Type 0 where
  no_response : String → Transport
  broken_body : ℕ → String → Transport
  response : ℕ → Body → Transport

pub data Object : Type 0 where
  storage_object : Storage → Object
  notifier_object : Notifier → Object
  database_backup_object : DatabaseBackup → Object

-- A call that reaches outside and may change something there, with its answer.
pub data Event : Type 0 where
  http : HttpRequest → Transport → Event
  updated : Object → Option KubeError → Event
  status_updated : Object → Option KubeError → Event

-- Functions of apimachinery and controller-runtime that compute without a call, and the texts of
-- errors of net/url and encoding/json.
pub record Kube : Type 0 where
  pub is_not_found : KubeError → Bool
  pub is_zero_time : Option ℕ → Bool
  pub contains_finalizer : ObjectMeta → String → Bool
  pub add_finalizer : ObjectMeta → String → ObjectMeta
  pub remove_finalizer : ObjectMeta → String → ObjectMeta
  pub find_status_condition : List Condition → String → Option Condition
  pub set_status_condition : List Condition → Condition → List Condition
  pub url_error : String → Option String
  pub json_error : String → Body → String

-- The calls that leave the operator, over a state `S` of everything outside. Each may change the
-- state in any way: other writers act between two calls.
pub record Env (S : Type 0) : Type 0 where
  pub kube : Kube
  pub open kube use *
  pub now : S → ℕ × S
  pub read_storage : NamespacedName → S → Got Storage × S
  pub read_notifier : NamespacedName → S → Got Notifier × S
  pub read_database_backup : NamespacedName → S → Got DatabaseBackup × S
  pub open_direct_client : S → Option KubeError × S
  pub read_secret : NamespacedName → S → Got Secret × S
  pub write : Object → S → Option KubeError × S
  pub write_status : Object → S → Option KubeError × S
  pub transport : HttpRequest → S → Transport × S

-- The state outside, and the events so far, the latest one first. The program keeps no such log:
-- it is there for statements about the calls and their order.
pub record World (S : Type 0) : Type 0 where
  pub state : S
  pub log : List Event

abbrev pub M : Type 0 → Type 0 → Type 0
M S A = World S → A × World S

-- An action that returns a value and an error, of which one is nil.
abbrev pub Run : Type 0 → Type 0 → Type 0
Run S A = M S (Res A)

module _ {S A : Type 0} where
  unfoldable pub pure : A → M S A
  pure a w = (a, w)

  unfoldable pub fail : Error → Run S A
  fail e w = (err e, w)

  -- A call that only reads.
  unfoldable pub reading : (S → A × S) → M S A
  reading call w = let (a, s) = call w.state in (a, record w { state = s })

  -- A call that is logged.
  unfoldable pub calling : (S → A × S) → (A → Event) → M S A
  calling call event w =
      let (a, s) = call w.state in (a, record { state = s; log = event a ∷ w.log })

-- What follows `if err != nil`: the first branch has the error.
module _ {S A B : Type 0} where
  unfoldable pub handle : Res A → (Error → M S B) → (A → M S B) → M S B
  handle (err e) on_error go_on = on_error e
  handle (ok a) on_error go_on = go_on a

  unfoldable pub handle_got : Got A → (KubeError → M S B) → (A → M S B) → M S B
  handle_got (get_error e) on_error go_on = on_error e
  handle_got (found a) on_error go_on = go_on a

  -- An optional value, such as an error that may be nil.
  unfoldable pub handle_some : Option A → (A → M S B) → M S B → M S B
  handle_some (some a) on_some on_none = on_some a
  handle_some none on_some on_none = on_none

module _ {S : Type 0} (E : Env S) where
  abbrev pub clock : M S ℕ
  clock = reading E.now

  abbrev pub fetch_storage : NamespacedName → M S (Got Storage)
  fetch_storage key = reading (E.read_storage key)

  abbrev pub fetch_notifier : NamespacedName → M S (Got Notifier)
  fetch_notifier key = reading (E.read_notifier key)

  abbrev pub fetch_database_backup : NamespacedName → M S (Got DatabaseBackup)
  fetch_database_backup key = reading (E.read_database_backup key)

  abbrev pub fetch_secret : NamespacedName → M S (Got Secret)
  fetch_secret key = reading (E.read_secret key)

  abbrev pub update : Object → M S (Option KubeError)
  update o = calling (E.write o) (updated o)

  abbrev pub update_status : Object → M S (Option KubeError)
  update_status o = calling (E.write_status o) (status_updated o)

  abbrev pub send : HttpRequest → M S Transport
  send r = calling (E.transport r) (http r)
