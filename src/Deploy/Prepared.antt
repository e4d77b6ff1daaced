-- ===== src/Deploy/Prepared.antt =====
-- tools/pkg/validate/checks.go: when the checks of the services, of the TEE and of the test report no
-- failure.
use darkstop.Base.{◌≡◌, ◌↔◌, ◌⊎◌, refl, true, false, [], ◌∷◌, arith}
use darkstop.Policy.{String}
use darkstop.Deploy.{has_failures, is_fail}
use darkstop.Deploy.Site.{Site, is_empty}
use darkstop.Deploy.EnvFile.{is_hex_of, is_address, is_extension_id, parse_extension_env}
use darkstop.Deploy.Readiness.{
  register_services_checks, register_tee_version_checks, register_tee_machine_checks,
  register_test_checks, proxy_status, proxy_key_status, service_id_status, id_status,
  owner_key_status, version_id_status, simulated_status, sender_status,
}
use darkstop.Deploy.Ready.{NoFailures}

-- extension.env names an extension id of the right format.
abbrev pub HasId : Site → Type 0
HasId site = is_extension_id (parse_extension_env site.file).extension_id ≡ true

proxy_status-passes : (site : Site) (url : String) → is_fail (proxy_status site url) ≡ false
unfolding proxy_status
proxy_status-passes site url = ground arith

proxy_key_status-passes : (site : Site) → is_fail (proxy_key_status site) ≡ false
unfolding proxy_key_status
proxy_key_status-passes site = ground arith

empty_id : (id : String) → is_empty id ≡ true → is_extension_id id ≡ false
unfolding is_hex_of
empty_id [] h = refl
empty_id (c ∷ cs) h = cc

-- The checks of the services fail exactly if a path of extension.env is given without a well-formed
-- extension id in the file; a port in use, an unreachable proxy or a missing proxy key only warns.
pub register_services_checks_iff :
    (site : Site) → NoFailures (register_services_checks site) ↔ (site.has_path ≡ true → HasId site)
unfolding register_services_checks has_failures service_id_status id_status
register_services_checks_iff site = ground (
  arith,
  proxy_status-passes site site.env.ext_proxy_url,
  proxy_key_status-passes site,
  empty_id (parse_extension_env site.file).extension_id,
)

owner_key_status-passes : (site : Site) → is_fail (owner_key_status site) ≡ false
unfolding owner_key_status
owner_key_status-passes site = ground arith

simulated_status-passes : (site : Site) → is_fail (simulated_status site) ≡ false
unfolding simulated_status
simulated_status-passes site = ground arith

empty_sender : (sender : String) → is_empty sender ≡ true → is_address sender ≡ false
unfolding is_hex_of
empty_sender [] h = refl
empty_sender (c ∷ cs) h = cc

-- No id is needed where extension.env is missing.
abbrev pub IsMissing : Site → Type 0
IsMissing site = ((parse_extension_env site.file).extension_id ≡ []) × (site.is_missing ≡ true)

version_id_iff :
    (site : Site) (id : String)
    → (is_fail (version_id_status site id) ≡ false) ↔ (
        site.has_path ≡ true → (is_extension_id id ≡ true) ⊎ ((id ≡ []) × (site.is_missing ≡ true)))
unfolding version_id_status is_hex_of
version_id_iff site [] = ground arith
version_id_iff site (c ∷ cs) = ground arith

-- The checks of the TEE's version fail exactly if a path of extension.env is given, the file has no
-- well-formed extension id, and it is not that the file is missing. Those of the TEE's machine
-- never fail. Those of the test fail exactly if a path is given, the file is there, and it has no
-- well-formed instruction sender.
pub readiness_iff :
    (site : Site)
    → (NoFailures (register_tee_version_checks site)
        ↔ (site.has_path ≡ true → HasId site ⊎ IsMissing site))
      × NoFailures (register_tee_machine_checks site)
      × (NoFailures (register_test_checks site) ↔ (
          site.has_path ≡ true
          → site.is_missing ≡ false
          → is_address (parse_extension_env site.file).instruction_sender ≡ true))
unfolding register_tee_version_checks register_tee_machine_checks register_test_checks has_failures
    sender_status
readiness_iff site = (
  ground (
    arith,
    owner_key_status-passes site,
    proxy_status-passes site site.env.ext_proxy_url,
    version_id_iff site (parse_extension_env site.file).extension_id,
  ),
  ground (
    arith,
    simulated_status-passes site,
    proxy_status-passes site site.env.normal_proxy_url,
    proxy_status-passes site site.env.ext_proxy_url,
  ),
  ground (
    arith,
    proxy_status-passes site site.env.ext_proxy_url,
    empty_sender (parse_extension_env site.file).instruction_sender,
  ),
)
