-- ===== src/Matrix/Implementations.antt =====
-- src/conformance/implementations.py: the implementations, in the order of the source.
mod Clients
mod Servers
pub use Clients.*
pub use Servers.*
use conformance.Prelude.{◌*◌, List, [], ◌∷◌}
use conformance.Matrix.Model.{
  player, metadata, controller, artwork, AdapterKind, python, dotnet, node, cargo, swift, go, cmake,
  placeholder, RoleSpec, ImplementationSpec,
}

abbrev pub implementations : List ImplementationSpec
implementations =
    aiosendspin ∷ sendspin_dotnet ∷ sendspin_kit ∷ sendspin_js ∷ sendspin_rs ∷ sendspin_cpp
    ∷ sendspin_server_cpp ∷ sendspin_go ∷ []
