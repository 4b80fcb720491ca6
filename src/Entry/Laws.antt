-- ===== src/Entry/Laws.antt =====
-- The options of the client and of the servers.
use authentik_operator.Prelude.{
  ◌≡◌, refl, ap, sym, ◌∙◌, ◌==◌, eq_iff, false, List, [], ◌∷◌, ◌++◌, arith, if◌then◌else◌,
  Bool-cases, inl, inr,
}
use authentik_operator.Text.Escape.{utf8}
use authentik_operator.Authentik.Tls.{
  ClientConfig, ClientOption, set_option, set_options, config_of,
}
use authentik_operator.Entry.Options.{Flags, path_option, data_option, skip_option, client_options}
use authentik_operator.Entry.Servers.{
  ServerTls, tls_opts_of, disable_http2, cert_options, manager_options, webhook_options,
  metrics_options,
}

module _ (f : Flags) where
  -- An option that is left out would set what is there anyway.
  path_option_lem :
      (rest : List ClientOption) (cfg : ClientConfig)
      → cfg.ca_cert_path ≡ ""
      → set_options (path_option f ++ rest) cfg
        ≡ set_options rest (record cfg { ca_cert_path = f.authentik_ca_cert_path })
  unfolding path_option set_options set_option
  path_option_lem rest cfg none_yet = elim (Bool-cases (f.authentik_ca_cert_path == "")) [
    | inl e ↦
        let empty = (eq_iff f.authentik_ca_cert_path "").0 e in
        rw e (ap (λ p. set_options rest (record cfg { ca_cert_path = p })) (none_yet ∙ sym empty))
    | inr e ↦ rw e refl
  ]

  data_option_lem :
      (rest : List ClientOption) (cfg : ClientConfig)
      → cfg.ca_cert_data ≡ []
      → set_options (data_option f ++ rest) cfg
        ≡ set_options rest (record cfg { ca_cert_data = utf8 f.authentik_ca_cert_data })
  unfolding data_option set_options set_option utf8
  data_option_lem rest cfg none_yet = elim (Bool-cases (f.authentik_ca_cert_data == "")) [
    | inl e ↦
        let empty = (eq_iff f.authentik_ca_cert_data "").0 e in
        rw e (
          ap (λ p. set_options rest (record cfg { ca_cert_data = p }))
            (none_yet ∙ sym (ap utf8 empty)))
    | inr e ↦ rw e refl
  ]

  skip_option_lem :
      (cfg : ClientConfig)
      → cfg.insecure_skip_verify ≡ false
      → set_options (skip_option f) cfg
        ≡ record cfg { insecure_skip_verify = f.authentik_insecure_skip_verify }
  unfolding skip_option set_options set_option
  skip_option_lem cfg none_yet = ground arith

  -- The options that the flags give configure the client just as the flags say.
  pub config_of-client_options : config_of (client_options f) ≡ record {
    ca_cert_path = f.authentik_ca_cert_path;
    ca_cert_data = utf8 f.authentik_ca_cert_data;
    insecure_skip_verify = f.authentik_insecure_skip_verify;
  }
  unfolding config_of client_options
  config_of-client_options =
      path_option_lem (data_option f ++ skip_option f) _ refl
      ∙ data_option_lem (skip_option f) _ refl
      ∙ skip_option_lem _ refl

-- The functions of a list, one after the other.
abbrev pub apply_all : List (ServerTls → ServerTls) → ServerTls → ServerTls
apply_all [] c = c
apply_all (o ∷ opts) c = apply_all opts (o c)

-- Unless HTTP/2 is enabled, the webhook server and the metrics server speak HTTP/1.1 only, whatever
-- their configuration was; if it is enabled, both keep their configuration.
manager_options-protos :
    (f : Flags) (c : ServerTls)
    → ((apply_all (manager_options f).webhook_server.tls_opts c).next_protos
        ≡ (if f.enable_http2 then c.next_protos else "http/1.1" ∷ []))
      × ((apply_all (manager_options f).metrics.server.tls_opts c).next_protos
          ≡ (if f.enable_http2 then c.next_protos else "http/1.1" ∷ []))
unfolding manager_options webhook_options metrics_options cert_options tls_opts_of disable_http2
manager_options-protos f c = ground arith
