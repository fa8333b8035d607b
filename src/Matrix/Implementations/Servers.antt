-- ===== src/Matrix/Implementations/Servers.antt =====
-- src/conformance/implementations.py: the implementations of a server.
use conformance.Prelude.{true, false, none, some, [], ◌∷◌}
use conformance.Matrix.Model.{
  player, metadata, controller, artwork, python, cmake, placeholder, ImplementationSpec,
}

abbrev pub aiosendspin : ImplementationSpec
aiosendspin = record {
  name = "aiosendspin";
  display_name = "aiosendspin";
  repo_dirname = "aiosendspin";
  remote_url = "https://github.com/Sendspin/aiosendspin.git";
  client_spec = record {
    supported = true;
    adapter_kind = python;
    build_adapter = some "python-adapters";
    entrypoint = some "conformance.adapters.aiosendspin_client";
    supports_server_initiated = true;
    supports_client_initiated = true;
    supports_flac = true;
    supports_opus = false;
    supports_discovery = true;
    supports_legacy_unencrypted = false;
    supported_role_families = player ∷ metadata ∷ controller ∷ artwork ∷ [];
    reason = none;
  };
  server_spec = record {
    supported = true;
    adapter_kind = python;
    build_adapter = some "python-adapters";
    entrypoint = some "conformance.adapters.aiosendspin_server";
    supports_server_initiated = true;
    supports_client_initiated = true;
    supports_flac = true;
    supports_opus = true;
    supports_discovery = true;
    supports_legacy_unencrypted = true;
    supported_role_families = player ∷ metadata ∷ controller ∷ artwork ∷ [];
    reason = none;
  };
}

abbrev pub sendspin_server_cpp : ImplementationSpec
sendspin_server_cpp = record {
  name = "sendspin-server-cpp";
  display_name = "sendspin-server-cpp";
  repo_dirname = "sendspin-server-cpp";
  remote_url = "https://github.com/Sendspin/sendspin-server-cpp.git";
  client_spec = record {
    supported = false;
    adapter_kind = placeholder;
    build_adapter = none;
    entrypoint = some "conformance.adapters.placeholder";
    supports_server_initiated = false;
    supports_client_initiated = false;
    supports_flac = false;
    supports_opus = false;
    supports_discovery = false;
    supports_legacy_unencrypted = false;
    supported_role_families = [];
    reason =
        some "sendspin-server-cpp is a server library; its client counterpart is sendspin-cpp.";
  };
  server_spec = record {
    supported = true;
    adapter_kind = cmake;
    build_adapter = some "sendspin-server-cpp-server";
    entrypoint = some "adapters/sendspin-server-cpp/server";
    supports_server_initiated = true;
    supports_client_initiated = true;
    supports_flac = true;
    supports_opus = true;
    supports_discovery = false;
    supports_legacy_unencrypted = false;
    supported_role_families = player ∷ metadata ∷ controller ∷ artwork ∷ [];
    reason = none;
  };
}

abbrev pub sendspin_go : ImplementationSpec
sendspin_go = record {
  name = "sendspin-go";
  display_name = "sendspin-go";
  repo_dirname = "sendspin-go";
  remote_url = "https://github.com/Sendspin/sendspin-go.git";
  client_spec = record {
    supported = false;
    adapter_kind = placeholder;
    build_adapter = none;
    entrypoint = some "conformance.adapters.placeholder";
    supports_server_initiated = false;
    supports_client_initiated = false;
    supports_flac = false;
    supports_opus = false;
    supports_discovery = false;
    supports_legacy_unencrypted = false;
    supported_role_families = [];
    reason = some "The sendspin-go client is not currently tested.";
  };
  server_spec = record {
    supported = false;
    adapter_kind = placeholder;
    build_adapter = none;
    entrypoint = some "conformance.adapters.placeholder";
    supports_server_initiated = false;
    supports_client_initiated = false;
    supports_flac = false;
    supports_opus = false;
    supports_discovery = false;
    supports_legacy_unencrypted = false;
    supported_role_families = [];
    reason =
        some
          "sendspin-go's server library expects client/hello as the first message and has no client/init or Noise handshake, so every case would end at the first RC1 handshake step.";
  };
}
