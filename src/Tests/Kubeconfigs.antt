-- ===== src/Tests/Kubeconfigs.antt =====
-- The theorem on the kubeconfig's secret at a concrete input.
use cluster_api_provider_cce.Prelude.{
  ℕ, String, ◌≡◌, refl, sym, Option, some, none, List, [], ◌∷◌, lookup, insert, ltb, if◌then◌else◌,
}
use cluster_api_provider_cce.Errors.{Result, ok}
use cluster_api_provider_cce.Go.{State, ret, deref, wrap, catch, ◌>>=◌}
use cluster_api_provider_cce.Call.{Call}
use cluster_api_provider_cce.Env.{Env, AuthInfo, KubeConfig}
use cluster_api_provider_cce.Sdk.{CertUser}
use cluster_api_provider_cce.Api.Meta.{NamespacedName}
use cluster_api_provider_cce.Api.ControlPlane.{ControlPlane, infra_cluster_id, label_or_empty}
use cluster_api_provider_cce.Scope.ControlPlane.{scope_infra_cluster_id}
use cluster_api_provider_cce.Service.{Service}
use cluster_api_provider_cce.Kubeconfig.{
  lift, first_user, generate_client_data, base_kubeconfig, kubeconfig_data_name,
  create_capi_kubeconfig_secret, update_capi_kubeconfig_secret,
}
use cluster_api_provider_cce.Kubeconfig.Laws.{Loads, Serves, admin_config, created, update-create}
use cluster_api_provider_cce.Tests.World.{Marks}
use cluster_api_provider_cce.Tests.Cloud.{env, formats, svc, cce, answer}
use cluster_api_provider_cce.Tests.Objects.{on_control_plane}

abbrev at_first : State ℕ (Call Marks) (ControlPlane Marks)
at_first = on_control_plane "cce-1" "vpc-1" "subnet-1"

abbrev certified : String → ℕ → Result (Option (List (Option CertUser))) × ℕ
certified certificate = answer (
    some (
      some (record { client_certificate_data = some certificate; client_key_data = some "key" })
      ∷ []))

-- The second certificate is another one.
abbrev cert_svc : Service ℕ
cert_svc = record svc {
  cce = record cce {
    create_cert = λ id days w. if ltb w 1 then certified "old" w else certified "new" w;
  };
}

abbrev client : String → AuthInfo
client certificate = record { client_certificate_data = certificate; client_key_data = "key" }

-- A kubeconfig as text, told by its certificate alone.
abbrev text_of : KubeConfig → Result String
text_of config = elim config.auth_infos [
  | [] ↦ ok ""
  | ◌∷◌ user _ ↦ elim user.1 [ none ↦ ok "" | some info ↦ ok info.client_certificate_data ]
]

abbrev file_env : Env ℕ Marks
file_env = record env {
  formats = record formats {
    config_write = text_of;
    config_load = λ text. ok (admin_config env svc at_first.obj (client text));
  };
}

abbrev ref : NamespacedName
ref = record { namespace = "default"; name = "demo" }

abbrev after : ℕ → List (Call Marks) → State ℕ (Call Marks) (ControlPlane Marks)
after w calls = record at_first { world = w; trace = calls }

abbrev asked : Call Marks
asked = Call.create_cert "cce-1" 3650

first_data :
    generate_client_data file_env cert_svc at_first ≡ (ret (client "old"), after 1 (asked ∷ []))
unfolding generate_client_data first_user scope_infra_cluster_id infra_cluster_id label_or_empty
    lookup lift deref wrap catch ◌>>=◌
first_data = refl

old_text :
    file_env.formats.config_write (admin_config file_env cert_svc at_first.obj (client "old"))
    ≡ ok "old"
unfolding base_kubeconfig
old_text = refl

new_text :
    file_env.formats.config_write (admin_config file_env cert_svc at_first.obj (client "new"))
    ≡ ok "new"
unfolding base_kubeconfig
new_text = refl

loads : (c : String) → Loads file_env (admin_config file_env cert_svc at_first.obj (client c))
unfolding base_kubeconfig
loads c text e = let p : c ≡ text = cc in rw (sym p) refl

abbrev stored : State ℕ (Call Marks) (ControlPlane Marks)
stored =
    created file_env cert_svc ref at_first (after 1 (asked ∷ [])) (client "old") "old" 2 first_data
      old_text refl

abbrev renewed : List (Call Marks)
renewed =
    asked
    ∷ (Call.event "SucessfulCreateKubeconfig"
        ∷ (Call.create_kubeconfig_secret ref "old" ∷ (asked ∷ [])))

second_data : generate_client_data file_env cert_svc stored ≡ (ret (client "new"), after 3 renewed)
unfolding generate_client_data first_user scope_infra_cluster_id infra_cluster_id label_or_empty
    lookup lift deref wrap catch ◌>>=◌
second_data = refl

abbrev secret : List (String × String)
secret = ("value", "old") ∷ []

secret_has : lookup kubeconfig_data_name secret ≡ some "old"
unfolding lookup
secret_has = refl

update-create_example :
    (create_capi_kubeconfig_secret file_env cert_svc ref at_first ≡ (ret tt, stored))
    × ((update_capi_kubeconfig_secret file_env cert_svc secret stored ≡ (
      ret tt,
      after 4 (Call.update_secret (insert kubeconfig_data_name "new" secret) ∷ renewed),
    ))
        × ((config : KubeConfig) × (file_env.formats.config_load "new" ≡ ok config)
            × Serves file_env at_first.obj (client "new") config))
update-create_example =
    update-create file_env cert_svc ref at_first (after 1 (asked ∷ [])) (client "old") "old" 2
      first_data old_text refl (client "new") (loads "old") (loads "new") (after 3 renewed) secret
      "new" 4 secret_has second_data new_text refl
