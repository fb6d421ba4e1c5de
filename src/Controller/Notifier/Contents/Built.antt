-- ===== src/Controller/Notifier/Contents/Built.antt =====
-- internal/controller/notifier_controller.go: the request that is built says what it has to.
use databasus_operator.Prelude.{
  String, ◌≡◌, refl, none, some, Option, eq_iff, List, [], ◌∷◌, ◌++◌, append-nil, append_assoc, sym,
  ◌∙◌,
}
use databasus_operator.Api.Meta.{SecretKeyRef}
use databasus_operator.Api.Notifier.{
  Notifier, DiscordNotifierSpec, TelegramNotifierSpec, SlackNotifierSpec, EmailNotifierSpec,
  WebhookNotifierSpec, WebhookHeader, TeamsNotifierSpec,
}
use databasus_operator.Wire.Notifier.{NotifierRequest, WebhookHeaderRequest}
use databasus_operator.Effects.{Env, World, ok}
use databasus_operator.Effects.Yields.{
  Yields, Yields-pure, Yields-fail, Yields-if, Yields-wrap_error, Yields-bind,
}
use databasus_operator.Client.Request.{DatabasusClient}
use databasus_operator.Controller.Secret.Holds.{Holds, HoldsOr, secret-Yields}
use databasus_operator.Controller.Notifier.Build.{
  resolve_secret_ref, resolve_optional, resolve_headers, discord_request, telegram_request,
  slack_request, email_request, webhook_request, teams_request, build_notifier_request,
}
use databasus_operator.Controller.Notifier.Contents.{
  AreHeaders, no_headers, one_more, Says, is_discord, is_telegram, is_slack, is_email, is_webhook,
  is_teams, is_other,
}

module _ {S : Type 0} (E : Env S) (c : DatabasusClient) (n : Notifier) where
  abbrev Held : SecretKeyRef → String → Type 0
  Held = Holds E n.metadata.namespace

  secret-Holds :
      (ref : SecretKeyRef) → Yields (Held ref) (resolve_secret_ref E n.metadata.namespace ref)
  unfolding resolve_secret_ref
  secret-Holds ref = secret-Yields E n.metadata.namespace ref

  optional-HoldsOr :
      (prefix value : String) (o : Option SecretKeyRef)
      → Yields
          (HoldsOr E n.metadata.namespace value o)
          (resolve_optional E prefix n.metadata.namespace value o)
  unfolding resolve_optional
  optional-HoldsOr prefix value none = Yields-pure value refl
  optional-HoldsOr prefix value (some ref) = Yields-wrap_error prefix _ (secret-Holds ref)

  -- What the loop has appended to the headers so far.
  abbrev Appended :
      List WebhookHeader → List WebhookHeaderRequest → List WebhookHeaderRequest → Type 0
  Appended hs done all =
      (added : List WebhookHeaderRequest) × (all ≡ done ++ added)
      × AreHeaders E n.metadata.namespace hs added

  Appended-cons :
      {h : WebhookHeader} {hs : List WebhookHeader} (value : String)
      (done all : List WebhookHeaderRequest)
      → HoldsOr E n.metadata.namespace h.value h.value_secret_ref value
      → Appended hs (done ++ (record { key = h.key; value = value } ∷ [])) all
      → Appended (h ∷ hs) done all
  Appended-cons {h} value done all held (added, split, rest) = (
    record { key = h.key; value = value } ∷ added,
    split ∙ append_assoc done (record { key = h.key; value = value } ∷ []) added,
    one_more held rest,
  )

  headers-AreHeaders :
      (hs : List WebhookHeader) (done : List WebhookHeaderRequest)
      → Yields (Appended hs done) (resolve_headers E n.metadata.namespace hs done)
  unfolding resolve_headers
  headers-AreHeaders [] done = Yields-pure done ([], sym (append-nil done), no_headers)
  headers-AreHeaders (h ∷ hs) done =
      Yields-bind (HoldsOr E n.metadata.namespace h.value h.value_secret_ref) _ _
        (optional-HoldsOr _ h.value h.value_secret_ref)
        λ value held. record {
          at = λ w all e. Appended-cons value done all held (
              (headers-AreHeaders hs (done ++ (record { key = h.key; value = value } ∷ []))).at w
                all e);
        }

  discord-Says :
      (o : Option DiscordNotifierSpec)
      → n.spec.discord ≡ o
      → n.spec.type ≡ "DISCORD"
      → Yields (Says E c n) (discord_request E c n o)
  unfolding discord_request
  discord-Says none h t = Yields-fail _
  discord-Says (some spec) h t =
      Yields-bind (Held spec.webhook_url_secret_ref) _ _
        (Yields-wrap_error _ _ (secret-Holds spec.webhook_url_secret_ref))
        λ v held. Yields-pure _ (is_discord t h held)

  telegram-Says :
      (o : Option TelegramNotifierSpec)
      → n.spec.telegram ≡ o
      → n.spec.type ≡ "TELEGRAM"
      → Yields (Says E c n) (telegram_request E c n o)
  unfolding telegram_request
  telegram-Says none h t = Yields-fail _
  telegram-Says (some spec) h t =
      Yields-bind (Held spec.bot_token_secret_ref) _ _
        (Yields-wrap_error _ _ (secret-Holds spec.bot_token_secret_ref))
        λ v held. Yields-pure _ (is_telegram t h held)

  slack-Says :
      (o : Option SlackNotifierSpec)
      → n.spec.slack ≡ o
      → n.spec.type ≡ "SLACK"
      → Yields (Says E c n) (slack_request E c n o)
  unfolding slack_request
  slack-Says none h t = Yields-fail _
  slack-Says (some spec) h t =
      Yields-bind (Held spec.bot_token_secret_ref) _ _
        (Yields-wrap_error _ _ (secret-Holds spec.bot_token_secret_ref))
        λ v held. Yields-pure _ (is_slack t h held)

  teams-Says :
      (o : Option TeamsNotifierSpec)
      → n.spec.teams ≡ o
      → n.spec.type ≡ "TEAMS"
      → Yields (Says E c n) (teams_request E c n o)
  unfolding teams_request
  teams-Says none h t = Yields-fail _
  teams-Says (some spec) h t =
      Yields-bind (Held spec.webhook_url_secret_ref) _ _
        (Yields-wrap_error _ _ (secret-Holds spec.webhook_url_secret_ref))
        λ v held. Yields-pure _ (is_teams t h held)

  email-Says :
      (o : Option EmailNotifierSpec)
      → n.spec.email ≡ o
      → n.spec.type ≡ "EMAIL"
      → Yields (Says E c n) (email_request E c n o)
  unfolding email_request
  email-Says none h t = Yields-fail _
  email-Says (some spec) h t =
      Yields-bind (HoldsOr E n.metadata.namespace "" spec.smtp_password_secret_ref) _ _
        (optional-HoldsOr _ "" spec.smtp_password_secret_ref)
        λ v held. Yields-pure _ (is_email t h held)

  webhook-Says :
      (o : Option WebhookNotifierSpec)
      → n.spec.webhook ≡ o
      → n.spec.type ≡ "WEBHOOK"
      → Yields (Says E c n) (webhook_request E c n o)
  unfolding webhook_request
  webhook-Says none h t = Yields-fail _
  webhook-Says (some spec) h t =
      Yields-bind (Appended spec.headers []) _ _ (headers-AreHeaders spec.headers [])
        λ all (added, split, are). Yields-pure _ (is_webhook t h (rw split are))

  request-Says : Yields (Says E c n) (build_notifier_request E c n)
  unfolding build_notifier_request
  request-Says =
      Yields-if _ _ _ (λ y. discord-Says _ refl ((eq_iff _ _).0 y))
        λ n1.
          Yields-if _ _ _ (λ y. telegram-Says _ refl ((eq_iff _ _).0 y))
            λ n2.
              Yields-if _ _ _ (λ y. slack-Says _ refl ((eq_iff _ _).0 y))
                λ n3.
                  Yields-if _ _ _ (λ y. email-Says _ refl ((eq_iff _ _).0 y))
                    λ n4.
                      Yields-if _ _ _ (λ y. webhook-Says _ refl ((eq_iff _ _).0 y))
                        λ n5.
                          Yields-if _ _ _ (λ y. teams-Says _ refl ((eq_iff _ _).0 y))
                            λ n6. Yields-pure _ (is_other n1 n2 n3 n4 n5 n6)

  -- Where a request for a Notifier is built, it has the name and the type of the Notifier, the
  -- workspace of the client, and no identifier. For each of the six types it has the section of
  -- its type, which is that of the specification, with values that reads of the Secrets, in the
  -- namespace of the Notifier, gave under the keys of the references, or the empty text for a
  -- missing reference to an SMTP password; and it has no other section. The headers of a webhook
  -- are those of the specification in their order, each with the value that its reference gives,
  -- or its own if it has none. For another type the request has no section.
  pub build_notifier_request-Says :
      (r : NotifierRequest) (w : World S) → (build_notifier_request E c n w).0 ≡ ok r → Says E c n r
  build_notifier_request-Says r w = request-Says.at w r
