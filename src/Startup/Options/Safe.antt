-- ===== src/Startup/Options/Safe.antt =====
-- cmd/main.go: how the servers of the manager are protected.
use databasus_operator.Prelude.{◌==◌, ◌≡◌, ◌↔◌, refl, true, false, List, [], ◌∷◌, arith}
use databasus_operator.Startup.Options.{
  Flags, TlsConfig, with_authentication_and_authorization, ManagerOptions, manager_options,
  metrics_options, webhook_options, tls_opts_of,
}

-- A configuration after the functions of a server, which are called in their order.
abbrev pub configured : List (TlsConfig → TlsConfig) → TlsConfig → TlsConfig
configured [] c = c
configured (f ∷ rest) c = configured rest (f c)

-- Whether a server speaks a protocol, if it is started from the configuration `c`.
pub record IsSafe (flags : Flags) (options : ManagerOptions) : Type 0 where
  pub metrics_http1 :
      (c : TlsConfig)
      → flags.enable_http2 ≡ false
      → (configured options.metrics.tls_opts c).next_protos ≡ "http/1.1" ∷ []
  pub webhook_http1 :
      (c : TlsConfig)
      → flags.enable_http2 ≡ false
      → (configured options.webhook_server.tls_opts c).next_protos ≡ "http/1.1" ∷ []
  pub unchanged_http2 :
      (c : TlsConfig)
      → flags.enable_http2 ≡ true
      → (configured options.metrics.tls_opts c ≡ c)
        × (configured options.webhook_server.tls_opts c ≡ c)
  pub filtered :
      (options.metrics.filter_provider ≡ with_authentication_and_authorization)
      ↔ (options.metrics.secure_serving ≡ true)
  pub metrics_cert :
      (flags.metrics_cert_path == "") ≡ false
      → (options.metrics.cert_dir ≡ flags.metrics_cert_path)
        × (options.metrics.cert_name ≡ flags.metrics_cert_name)
        × (options.metrics.key_name ≡ flags.metrics_cert_key)
  pub webhook_cert :
      (flags.webhook_cert_path == "") ≡ false
      → (options.webhook_server.cert_dir ≡ flags.webhook_cert_path)
        × (options.webhook_server.cert_name ≡ flags.webhook_cert_name)
        × (options.webhook_server.key_name ≡ flags.webhook_cert_key)

module _ (flags : Flags) where
  metrics_tls : (metrics_options flags).tls_opts ≡ tls_opts_of flags
  unfolding metrics_options
  metrics_tls = ground arith

  webhook_tls : (webhook_options flags).tls_opts ≡ tls_opts_of flags
  unfolding webhook_options
  webhook_tls = ground arith

  metrics_secure : (metrics_options flags).secure_serving ≡ flags.secure_metrics
  unfolding metrics_options
  metrics_secure = ground arith

  metrics_filter :
      ((metrics_options flags).filter_provider ≡ with_authentication_and_authorization)
      ↔ (flags.secure_metrics ≡ true)
  unfolding metrics_options
  metrics_filter = ground arith

  http1 :
      (c : TlsConfig)
      → flags.enable_http2 ≡ false
      → (configured (tls_opts_of flags) c).next_protos ≡ "http/1.1" ∷ []
  unfolding tls_opts_of
  http1 c h = rw h refl

  http2 : (c : TlsConfig) → flags.enable_http2 ≡ true → configured (tls_opts_of flags) c ≡ c
  unfolding tls_opts_of
  http2 c h = rw h refl

  -- Unless HTTP/2 is enabled, the webhook and the metrics server speak only HTTP/1.1, whatever their
  -- TLS configuration was before; if it is enabled their configuration is left as it was. The
  -- metrics are served behind authentication and authorization exactly if they are served over TLS.
  -- Each server has the certificate of its flags, if these name one.
  pub manager_options-IsSafe : IsSafe flags (manager_options flags)
  unfolding manager_options
  manager_options-IsSafe = record {
    metrics_http1 = λ c h. rw metrics_tls (http1 c h);
    webhook_http1 = λ c h. rw webhook_tls (http1 c h);
    unchanged_http2 = λ c h. (rw metrics_tls (http2 c h), rw webhook_tls (http2 c h));
    filtered = rw metrics_secure metrics_filter;
    metrics_cert = λ h. unfold metrics_options in ground arith;
    webhook_cert = λ h. unfold webhook_options in ground arith;
  }
