-- ===== src/Deploy/Examples.antt =====
-- The checks of tools/pkg/validate on a concrete site, and the theorems on it.
use darkstop.Base.{◌≡◌, ◌↔◌, refl, true, false, none, some, [], ◌∷◌}
use darkstop.Base.Big.{pos}
use darkstop.Policy.{String, eq_string}
use darkstop.Deploy.{
  Report, deploy, services, pass, warn, fail, d3, s2, summary, count_from, counted,
}
use darkstop.Deploy.Site.{Site, Client, string_false}
use darkstop.Deploy.EnvFile.{
  parse_extension_env, split_lines, parse_lines, assigned, assignment, trim_left, trim_right,
  split_assignment,
}
use darkstop.Deploy.Checks.{of, register_deploy_checks}
use darkstop.Deploy.Ready.{
  NoFailures, AreDeployed, IsFunded, HasChainId, IsEnvFile, register_deploy_checks_iff,
}

-- "# x", then " EXTENSION_ID = 0x1 "
abbrev text : String
text =
    35 ∷ 32 ∷ 120 ∷ 10 ∷ 32 ∷ 69 ∷ 88 ∷ 84 ∷ 69 ∷ 78 ∷ 83 ∷ 73 ∷ 79 ∷ 78 ∷ 95 ∷ 73 ∷ 68 ∷ 32 ∷ 61
    ∷ 32 ∷ 48 ∷ 120 ∷ 49 ∷ 32 ∷ []

parse_run : (parse_extension_env (some text)).extension_id ≡ 48 ∷ 120 ∷ 49 ∷ []
unfolding parse_extension_env parse_lines split_lines assigned assignment trim_left trim_right
    split_assignment eq_string
parse_run = refl

abbrev client : Client
client = record {
  code_at = λ addr. some (96 ∷ []);
  balance_at = λ addr. some (pos 20_000_000_000_000_000);
  fetch_chain_id = some (pos 114);
}

abbrev site : Site
site = record {
  client = some client;
  key = some 3;
  registry = none;
  allowlist = none;
  addresses = (1, 7) ∷ (2, 0) ∷ [];
  has_path = true;
  file = some text;
  is_missing = false;
  env = record {
    deployment_private_key = [];
    extension_owner_key = [];
    proxy_private_key = [];
    local_mode = string_false;
    simulated_tee = [];
    extension_port = [];
    sign_port = [];
    ext_proxy_url = [];
    normal_proxy_url = [];
  };
  is_listening = λ port. false;
  info_ok = λ url. true;
}

abbrev results : Report
results =
    of deploy (d3 1) pass ∷ of services s2 warn ∷ of deploy (d3 2) fail ∷ of services s2 pass ∷ []

summary_run : (summary results).passed ≡ 2
unfolding summary count_from counted
summary_run = refl

register_deploy_checks_iff_example : NoFailures (register_deploy_checks site) ↔ (
    AreDeployed site.client site.addresses
    × IsFunded site.client site.key
    × HasChainId site.client
    × (site.has_path ≡ true → IsEnvFile site.file))
register_deploy_checks_iff_example = register_deploy_checks_iff site

abbrev services_step : String
services_step = 115 ∷ 101 ∷ 114 ∷ 118 ∷ 105 ∷ 99 ∷ 101 ∷ 115 ∷ []
