-- ===== src/Specs.antt =====
-- specs/endpoints.go: the paths of the system endpoints, and their groups.
use api_toolkit.Prelude.{String}

abbrev pub livez : String
livez = "/livez"

abbrev pub readyz : String
readyz = "/readyz"

abbrev pub healthz : String
healthz = "/healthz"

abbrev pub health : String
health = "/health"

abbrev pub health_detailed : String
health_detailed = "/health/detailed"

abbrev pub docs : String
docs = "/docs"

abbrev pub docs_openapi : String
docs_openapi = "/docs/openapi.json"

abbrev pub docs_version : String
docs_version = "/docs/version"

abbrev pub docs_info : String
docs_info = "/docs/info"

abbrev pub version : String
version = "/version"

abbrev pub metrics : String
metrics = "/metrics"

pub record HealthEndpoints : Type 0 where
  pub livez : String
  pub readyz : String
  pub healthz : String
  pub health : String
  pub health_detailed : String

pub record DocsEndpoints : Type 0 where
  pub docs : String
  pub openapi : String
  pub version : String
  pub info : String

pub record SystemEndpoints : Type 0 where
  pub version : String

pub record AllEndpoints : Type 0 where
  pub health : HealthEndpoints
  pub docs : DocsEndpoints
  pub system : SystemEndpoints

abbrev pub health_endpoints : HealthEndpoints
health_endpoints = record {
  livez = livez;
  readyz = readyz;
  healthz = healthz;
  health = health;
  health_detailed = health_detailed;
}

abbrev pub docs_endpoints : DocsEndpoints
docs_endpoints = record {
  docs = docs;
  openapi = docs_openapi;
  version = docs_version;
  info = docs_info;
}

abbrev pub system_endpoints : SystemEndpoints
system_endpoints = record { version = version }

abbrev pub all_endpoints : AllEndpoints
all_endpoints = record {
  health = health_endpoints;
  docs = docs_endpoints;
  system = system_endpoints;
}
