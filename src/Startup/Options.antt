-- ===== src/Startup/Options.antt =====
-- cmd/main.go: the flags of the command, and the options that the manager is made with.
pub mod Safe
use databasus_operator.Prelude.{String, ◌==◌, Bool, true, false, not, List, [], ◌∷◌}
use databasus_operator.Prelude.{if◌then◌else◌}

-- What `flag.Parse` leaves in the variables of `main`.
pub record Flags : Type 0 where
  pub metrics_addr : String
  pub metrics_cert_path : String
  pub metrics_cert_name : String
  pub metrics_cert_key : String
  pub webhook_cert_path : String
  pub webhook_cert_name : String
  pub webhook_cert_key : String
  pub enable_leader_election : Bool
  pub probe_addr : String
  pub secure_metrics : Bool
  pub enable_http2 : Bool

-- The values of the flags that are not given.
abbrev pub default_flags : Flags
default_flags = record {
  metrics_addr = "0";
  metrics_cert_path = "";
  metrics_cert_name = "tls.crt";
  metrics_cert_key = "tls.key";
  webhook_cert_path = "";
  webhook_cert_name = "tls.crt";
  webhook_cert_key = "tls.key";
  enable_leader_election = false;
  probe_addr = ":8081";
  secure_metrics = true;
  enable_http2 = false;
}

-- The field of `tls.Config` that the program sets. A function on it is a change in place.
pub record TlsConfig : Type 0 where
  pub next_protos : List String

-- `webhook.Options`
pub record WebhookOptions : Type 0 where
  pub tls_opts : List (TlsConfig → TlsConfig)
  pub cert_dir : String
  pub cert_name : String
  pub key_name : String

-- The values of `FilterProvider`: nil, and `filters.WithAuthenticationAndAuthorization`.
pub data FilterProvider : Type 0 where
  no_filter : FilterProvider
  with_authentication_and_authorization : FilterProvider

-- `metricsserver.Options`
pub record MetricsOptions : Type 0 where
  pub bind_address : String
  pub secure_serving : Bool
  pub tls_opts : List (TlsConfig → TlsConfig)
  pub filter_provider : FilterProvider
  pub cert_dir : String
  pub cert_name : String
  pub key_name : String

-- `ctrl.Options`, with the options of the webhook server.
pub record ManagerOptions : Type 0 where
  pub metrics : MetricsOptions
  pub webhook_server : WebhookOptions
  pub health_probe_bind_address : String
  pub leader_election : Bool
  pub leader_election_id : String

abbrev pub disable_http2 : TlsConfig → TlsConfig
disable_http2 c = record c { next_protos = "http/1.1" ∷ [] }

unfoldable pub tls_opts_of : Flags → List (TlsConfig → TlsConfig)
tls_opts_of flags = if not flags.enable_http2 then disable_http2 ∷ [] else []

unfoldable pub webhook_options : Flags → WebhookOptions
unfolding tls_opts_of
webhook_options flags =
    let options : WebhookOptions = record {
      tls_opts = tls_opts_of flags;
      cert_dir = "";
      cert_name = "";
      key_name = "";
    } in
    if not (flags.webhook_cert_path == "")
    then record options {
      cert_dir = flags.webhook_cert_path;
      cert_name = flags.webhook_cert_name;
      key_name = flags.webhook_cert_key;
    }
    else options

-- With the filter if the metrics are served over TLS, and with the certificate if there is one.
unfoldable pub metrics_options : Flags → MetricsOptions
unfolding tls_opts_of
metrics_options flags =
    let options : MetricsOptions = record {
      bind_address = flags.metrics_addr;
      secure_serving = flags.secure_metrics;
      tls_opts = tls_opts_of flags;
      filter_provider = no_filter;
      cert_dir = "";
      cert_name = "";
      key_name = "";
    } in
    let filtered : MetricsOptions =
      if flags.secure_metrics
      then record options { filter_provider = with_authentication_and_authorization }
      else options in
    if not (flags.metrics_cert_path == "")
    then record filtered {
      cert_dir = flags.metrics_cert_path;
      cert_name = flags.metrics_cert_name;
      key_name = flags.metrics_cert_key;
    }
    else filtered

unfoldable pub manager_options : Flags → ManagerOptions
unfolding metrics_options webhook_options
manager_options flags = record {
  metrics = metrics_options flags;
  webhook_server = webhook_options flags;
  health_probe_bind_address = flags.probe_addr;
  leader_election = flags.enable_leader_election;
  leader_election_id = "9b691b66.databasus.io";
}
