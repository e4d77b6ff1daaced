-- ===== src/Tools/Machine/Examples.antt =====
-- tools/cmd/register-tee/main.go: the registration of a simulated machine on a concrete chain.
use darkstop.Base.{true, false, none, some, List, []}
use darkstop.Registration.{missing, stored, Command, Chain, Call}
use darkstop.Tools.{ok, err}
use darkstop.Tools.Machine.{Info, Libraries, tee_code_hash, test_platform, register_tee}

abbrev libraries : Libraries
libraries = record {
  parse_key = λ key. ok 4;
  info_hash = λ i. ok 5;
  signer = λ hash signature. ok 6;
  claims = λ attestation. err [];
}

abbrev info : Info
info = record {
  machine = record {
    extension_id = 5;
    initial_owner = 9;
    code_hash = tee_code_hash;
    platform = test_platform;
    public_key = (1, 2);
  };
  attestation = [];
  proxy_signature = [];
}

-- The chain refuses the attestation.
abbrev chain : Chain
chain = record {
  is_registered = false;
  pre_registration = some 11;
  request_attestation = none;
  request_check = λ id. none;
  check_result = λ id. none;
  to_production = λ proof. true;
  save = λ s file. stored s;
  remove = λ file. missing;
}

abbrev command : Command
command = record { registers = true; attests = false; checks = true; produces = true }

abbrev calls : List Call
calls = (register_tee libraries chain false true (ok info) (ok info) command 0 missing).1.calls
