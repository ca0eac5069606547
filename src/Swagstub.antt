-- ===== src/Swagstub.antt =====
-- swagstub/swag.go: the registry of generated specifications, as a map from names.
use api_toolkit.Prelude.{
  String, List, Option, none, some, if◌then◌else◌, map, lookup, insert, ◌==◌, string_eq,
}

pub record Spec : Type 0 where
  pub version : String
  pub host : String
  pub base_path : String
  pub schemes : List String
  pub title : String
  pub description : String
  pub info_instance_name : String
  pub swagger_template : String
  pub left_delim : String
  pub right_delim : String

abbrev pub Registry : Type 0
Registry = List (String × Spec)

-- The nil specification is `none`.
unfoldable pub instance_name : Option Spec → String
instance_name none = "swagger"
instance_name (some spec) =
    if spec.info_instance_name == "" then "swagger" else spec.info_instance_name

unfoldable pub register : String → Option Spec → Registry → Registry
unfolding instance_name
register name none registry = registry
register name (some spec) registry =
    insert (if name == "" then instance_name (some spec) else name) spec registry

unfoldable pub get : String → Registry → Option Spec
get name registry = lookup name registry

abbrev name_of : String × Spec → String
name_of (name, spec) = name

-- The names, in any order.
unfoldable pub names : Registry → List String
names registry = map name_of registry
