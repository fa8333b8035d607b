-- ===== src/Matrix/Implementations/Clients.antt =====
-- src/conformance/implementations.py: the implementations of a client alone.
use conformance.Prelude.{true, false, none, some, [], ◌∷◌}
use conformance.Matrix.Model.{
  player, metadata, controller, artwork, dotnet, node, cargo, swift, cmake, placeholder,
  ImplementationSpec,
}

abbrev pub sendspin_dotnet : ImplementationSpec
sendspin_dotnet = record {
  name = "sendspin-dotnet";
  display_name = "sendspin-dotnet";
  repo_dirname = "sendspin-dotnet";
  remote_url = "https://github.com/Sendspin/sendspin-dotnet.git";
  client_spec = record {
    supported = true;
    adapter_kind = dotnet;
    build_adapter = some "sendspin-dotnet-client";
    entrypoint = some "adapters/sendspin-dotnet/client/Conformance.SendspinDotnet.Client.csproj";
    supports_server_initiated = true;
    supports_client_initiated = true;
    supports_flac = true;
    supports_opus = false;
    supports_discovery = true;
    supports_legacy_unencrypted = true;
    supported_role_families = player ∷ metadata ∷ controller ∷ artwork ∷ [];
    reason = none;
  };
  server_spec = record {
    supported = false;
    adapter_kind = placeholder;
    build_adapter = none;
    entrypoint = some "conformance.adapters.placeholder";
    supports_server_initiated = false;
    supports_client_initiated = false;
    supports_flac = false;
    supports_opus = false;
    supports_discovery = false;
    supports_legacy_unencrypted = false;
    supported_role_families = [];
    reason = some "The checked-in .NET SDK exposes client host mode, not a server implementation.";
  };
}

abbrev pub sendspin_kit : ImplementationSpec
sendspin_kit = record {
  name = "SendspinKit";
  display_name = "SendspinKit";
  repo_dirname = "SendspinKit";
  remote_url = "https://github.com/Sendspin/SendspinKit.git";
  client_spec = record {
    supported = true;
    adapter_kind = swift;
    build_adapter = some "SendspinKit-client";
    entrypoint = some "adapters/SendspinKit/client:ConformanceSendspinKitClient";
    supports_server_initiated = true;
    supports_client_initiated = true;
    supports_flac = true;
    supports_opus = true;
    supports_discovery = false;
    supports_legacy_unencrypted = true;
    supported_role_families = player ∷ metadata ∷ controller ∷ artwork ∷ [];
    reason = none;
  };
  server_spec = record {
    supported = false;
    adapter_kind = placeholder;
    build_adapter = none;
    entrypoint = some "conformance.adapters.placeholder";
    supports_server_initiated = false;
    supports_client_initiated = false;
    supports_flac = false;
    supports_opus = false;
    supports_discovery = false;
    supports_legacy_unencrypted = false;
    supported_role_families = [];
    reason = some "SendspinKit is currently a client library in this workspace.";
  };
}

abbrev pub sendspin_js : ImplementationSpec
sendspin_js = record {
  name = "sendspin-js";
  display_name = "sendspin-js";
  repo_dirname = "sendspin-js";
  remote_url = "https://github.com/Sendspin/sendspin-js.git";
  client_spec = record {
    supported = true;
    adapter_kind = node;
    build_adapter = some "sendspin-js-adapters";
    entrypoint = some "adapters/sendspin-js/client.mjs";
    supports_server_initiated = true;
    supports_client_initiated = true;
    supports_flac = false;
    supports_opus = false;
    supports_discovery = false;
    supports_legacy_unencrypted = true;
    supported_role_families = player ∷ metadata ∷ controller ∷ [];
    reason = none;
  };
  server_spec = record {
    supported = false;
    adapter_kind = placeholder;
    build_adapter = none;
    entrypoint = some "conformance.adapters.placeholder";
    supports_server_initiated = false;
    supports_client_initiated = false;
    supports_flac = false;
    supports_opus = false;
    supports_discovery = false;
    supports_legacy_unencrypted = false;
    supported_role_families = [];
    reason = some "sendspin-js is currently a client library in this workspace.";
  };
}

abbrev pub sendspin_rs : ImplementationSpec
sendspin_rs = record {
  name = "sendspin-rs";
  display_name = "sendspin-rs";
  repo_dirname = "sendspin-rs";
  remote_url = "https://github.com/Sendspin/sendspin-rs.git";
  client_spec = record {
    supported = true;
    adapter_kind = cargo;
    build_adapter = some "sendspin-rs-client";
    entrypoint = some "adapters/sendspin-rs/client/Cargo.toml";
    supports_server_initiated = true;
    supports_client_initiated = true;
    supports_flac = true;
    supports_opus = false;
    supports_discovery = false;
    supports_legacy_unencrypted = true;
    supported_role_families = player ∷ metadata ∷ controller ∷ artwork ∷ [];
    reason = none;
  };
  server_spec = record {
    supported = false;
    adapter_kind = placeholder;
    build_adapter = none;
    entrypoint = some "conformance.adapters.placeholder";
    supports_server_initiated = false;
    supports_client_initiated = false;
    supports_flac = false;
    supports_opus = false;
    supports_discovery = false;
    supports_legacy_unencrypted = false;
    supported_role_families = [];
    reason = some "sendspin-rs does not yet expose a server implementation in this workspace.";
  };
}

abbrev pub sendspin_cpp : ImplementationSpec
sendspin_cpp = record {
  name = "sendspin-cpp";
  display_name = "sendspin-cpp";
  repo_dirname = "sendspin-cpp";
  remote_url = "https://github.com/Sendspin/sendspin-cpp.git";
  client_spec = record {
    supported = true;
    adapter_kind = cmake;
    build_adapter = some "sendspin-cpp-client";
    entrypoint = some "adapters/sendspin-cpp/client";
    supports_server_initiated = true;
    supports_client_initiated = true;
    supports_flac = true;
    supports_opus = true;
    supports_discovery = false;
    supports_legacy_unencrypted = true;
    supported_role_families = player ∷ metadata ∷ controller ∷ artwork ∷ [];
    reason = none;
  };
  server_spec = record {
    supported = false;
    adapter_kind = placeholder;
    build_adapter = none;
    entrypoint = some "conformance.adapters.placeholder";
    supports_server_initiated = false;
    supports_client_initiated = false;
    supports_flac = false;
    supports_opus = false;
    supports_discovery = false;
    supports_legacy_unencrypted = false;
    supported_role_families = [];
    reason =
        some "sendspin-cpp is a client library; its server counterpart is sendspin-server-cpp.";
  };
}
