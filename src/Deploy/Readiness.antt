-- ===== src/Deploy/Readiness.antt =====
-- tools/pkg/validate/checks.go: the checks of the services, of the TEE's version and machine, and of the
-- test. Each function gives the results that it adds to the report, in order.
use darkstop.Base.{not, ◌&&◌, [], ◌∷◌, if◌then◌else◌}
use darkstop.Policy.{String, eq_string}
use darkstop.Deploy.{
  Status, pass, warn, fail, skip, Step, services, tee_version, tee_machine, test, s2, s5, s7, s9,
  s10, v2, v4, v6, t1, t5, t10, e1, e3, e6, stub, Report,
}
use darkstop.Deploy.Site.{Site, is_empty, string_true, string_false}
use darkstop.Deploy.EnvFile.{parse_extension_env, is_address, is_extension_id}
use darkstop.Deploy.Checks.{of, verdict, is_local}

-- S2, by EXTENSION_ID
unfoldable pub id_status : String → Status
id_status id = if is_empty id then fail else verdict (is_extension_id id)

unfoldable pub service_id_status : Site → Status
service_id_status site =
    if not site.has_path then skip else id_status (parse_extension_env site.file).extension_id

-- "7702"
abbrev default_port : String
default_port = 55 ∷ 55 ∷ 48 ∷ 50 ∷ []

abbrev port_of : String → String
port_of port = if is_empty port then default_port else port

-- A proxy that is configured is asked for its /info.
unfoldable pub proxy_status : Site → String → Status
proxy_status site url = if is_empty url then skip else if site.info_ok url then pass else warn

-- S10
unfoldable pub proxy_key_status : Site → Status
proxy_key_status site =
    if is_local site.env.local_mode
    then pass
    else if eq_string site.env.local_mode string_false && is_empty site.env.proxy_private_key
    then warn
    else pass

-- RegisterServicesChecks
unfoldable pub register_services_checks : Site → Report
register_services_checks site =
    of services s2 (service_id_status site)
    ∷ of services s5 (if site.is_listening (port_of site.env.extension_port) then warn else pass)
    ∷ of services s7 pass
    ∷ of services s9 (proxy_status site site.env.ext_proxy_url)
    ∷ of services s10 (proxy_key_status site)
    ∷ []

-- V2
unfoldable pub owner_key_status : Site → Status
owner_key_status site =
    if not (is_empty site.env.extension_owner_key)
    then pass
    else if not (is_empty site.env.deployment_private_key)
    then pass
    else if not (eq_string site.env.local_mode string_true) && not (is_empty site.env.local_mode)
    then warn
    else pass

-- V4
unfoldable pub version_id_status : Site → String → Status
version_id_status site id =
    if not site.has_path
    then skip
    else if is_empty id
    then (if site.is_missing then skip else fail)
    else verdict (is_extension_id id)

-- RegisterTeeVersionChecks
unfoldable pub register_tee_version_checks : Site → Report
register_tee_version_checks site =
    of tee_version v2 (owner_key_status site)
    ∷ of tee_version v4 (version_id_status site (parse_extension_env site.file).extension_id)
    ∷ of tee_version v6 (proxy_status site site.env.ext_proxy_url)
    ∷ []

-- T1
unfoldable pub simulated_status : Site → Status
simulated_status site =
    if eq_string site.env.simulated_tee string_true && eq_string site.env.local_mode string_false
    then warn
    else pass

-- RegisterTeeMachineChecks
unfoldable pub register_tee_machine_checks : Site → Report
register_tee_machine_checks site =
    of tee_machine t1 (simulated_status site)
    ∷ of tee_machine t5 (proxy_status site site.env.normal_proxy_url)
    ∷ of tee_machine t10 (proxy_status site site.env.ext_proxy_url)
    ∷ []

-- E1
unfoldable pub sender_status : Site → String → Status
sender_status site sender =
    if not site.has_path
    then skip
    else if site.is_missing
    then skip
    else if is_empty sender
    then fail
    else verdict (is_address sender)

-- RegisterTestChecks
unfoldable pub register_test_checks : Site → Report
register_test_checks site =
    of test e1 (sender_status site (parse_extension_env site.file).instruction_sender)
    ∷ of test e3 (proxy_status site site.env.ext_proxy_url)
    ∷ of test e6 pass
    ∷ []

-- RegisterStubChecks
unfoldable pub register_stub_checks : Step → Report
register_stub_checks s = of s stub skip ∷ []
