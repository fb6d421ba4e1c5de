-- ===== src/Wire/Auth.antt =====
-- The requests and responses of internal/client/auth.go, and their JSON.
use databasus_operator.Prelude.{String, Option, some, List}
use databasus_operator.Wire.Json.{
  Json, Fields, obj, end, field_str, read_str, read_list, struct_of, ◌>>=◌,
}

pub record SignInRequest : Type 0 where
  pub email : String
  pub password : String

pub record SignInResponse : Type 0 where
  pub user_id : String
  pub email : String
  pub token : String

pub record WorkspaceResponse : Type 0 where
  pub id : String
  pub name : String

pub record ListWorkspacesResponse : Type 0 where
  pub workspaces : List WorkspaceResponse

unfoldable pub encode_sign_in_request : SignInRequest → Json
encode_sign_in_request r = obj (field_str "email" r.email (field_str "password" r.password end))

decode_sign_in_response_fields : Fields → Option SignInResponse
decode_sign_in_response_fields fs = do
  user_id ← read_str "userId" fs
  email ← read_str "email" fs
  token ← read_str "token" fs
  some (record { user_id = user_id; email = email; token = token })

-- `json.Unmarshal` into a `SignInResponse`.
unfoldable pub decode_sign_in_response : Json → Option SignInResponse
unfolding decode_sign_in_response_fields read_str
decode_sign_in_response = struct_of decode_sign_in_response_fields

decode_workspace_response_fields : Fields → Option WorkspaceResponse
decode_workspace_response_fields fs = do
  id ← read_str "id" fs
  name ← read_str "name" fs
  some (record { id = id; name = name })

-- `json.Unmarshal` into a `WorkspaceResponse`.
unfoldable pub decode_workspace_response : Json → Option WorkspaceResponse
unfolding decode_workspace_response_fields read_str
decode_workspace_response = struct_of decode_workspace_response_fields

decode_list_workspaces_response_fields : Fields → Option ListWorkspacesResponse
decode_list_workspaces_response_fields fs = do
  workspaces ← read_list decode_workspace_response "workspaces" fs
  some (record { workspaces = workspaces })

-- `json.Unmarshal` into a `ListWorkspacesResponse`.
unfoldable pub decode_list_workspaces_response : Json → Option ListWorkspacesResponse
unfolding decode_list_workspaces_response_fields read_list decode_workspace_response
decode_list_workspaces_response = struct_of decode_list_workspaces_response_fields
