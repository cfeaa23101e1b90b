-- ===== src/Diagnostics.antt =====
-- Diagnostics: a profile's stages of scans over one asset, run one after another
-- (backend/src/scans/diagnostic-orchestrator.service.ts, `DiagnosticBatch` of
-- backend/prisma/schema.prisma). Times are milliseconds and identifiers numbers.
pub mod Summary
pub mod Pipeline
pub mod Progress
pub mod Diff
mod Tests
use sistema_de_gestion_de_po.Common.{
  ℕ, suc, ◌+◌, Bool, true, false, Option, String, List, [], ◌∷◌, ◌++◌, ◌==◌, if◌then◌else◌, length,
}
use sistema_de_gestion_de_po.Domain.{AssetType, ScanType, same_asset_type}

pub data BatchStatus : Type 0 where
  pending in_progress completed failed cancelled : BatchStatus

abbrev pub batch_status_index : BatchStatus → ℕ
batch_status_index pending = 0
batch_status_index in_progress = 1
batch_status_index completed = 2
batch_status_index failed = 3
batch_status_index cancelled = 4

abbrev pub same_batch_status : BatchStatus → BatchStatus → Bool
same_batch_status a b = batch_status_index a == batch_status_index b

pub data Profile : Type 0 where
  perimeter_fast full_audit commerce_360 : Profile

pub record StageDefinition : Type 0 where
  pub stage : ℕ
  pub name : String
  pub description : String
  pub types : List ScanType

abbrev pub is_domain : AssetType → Bool
is_domain t = same_asset_type t AssetType.domain

abbrev discovery_stage : String → String → AssetType → List StageDefinition
discovery_stage name description t =
    if is_domain t
    then (record {
      stage = 1;
      name = name;
      description = description;
      types = ScanType.subdomain_discovery ∷ [];
    })
      ∷ []
    else []

abbrev perimeter_types : AssetType → List ScanType
perimeter_types t =
    if is_domain t
    then ScanType.port_scan ∷ ScanType.email_security ∷ []
    else ScanType.port_scan ∷ []

-- The number of a stage is one more than the stages before it.
unfoldable pub stages_for_profile : Profile → AssetType → List StageDefinition
stages_for_profile perimeter_fast t =
    (record {
      stage = 1;
      name = "Red y Puertos Abiertos";
      description = "Identificación rápida de puertos y servicios expuestos.";
      types = ScanType.port_scan ∷ [];
    })
    ∷ (record {
      stage = 2;
      name = "Seguridad Web y Certificados";
      description = "Cabeceras de protección HTTP y vigencia TLS.";
      types = ScanType.web_headers ∷ ScanType.ssl_cert ∷ [];
    })
    ∷ []
stages_for_profile full_audit t =
    let first =
      discovery_stage "Descubrimiento de Superficie Pasiva"
        "Mapeo de subdominios en Certificate Transparency." t in
    first
    ++ ((record {
      stage = length first + 1;
      name = "Perímetro, Puertos y Correo";
      description = "Escaneo de puertos, servicios y registros de correo (SPF, DMARC, DKIM).";
      types = perimeter_types t;
    })
        ∷ (record {
          stage = length first + 2;
          name = "Auditoría Web Profunda y Rutas Sensibles";
          description = "Análisis de cabeceras, rutas expuestas y certificados.";
          types = ScanType.web_headers ∷ ScanType.sensitive_paths ∷ ScanType.ssl_cert ∷ [];
        })
        ∷ [])
stages_for_profile commerce_360 t =
    let first =
      discovery_stage "Descubrimiento de Superficie Comercial"
        "Mapeo de subdominios, tiendas activas y Subdomain Takeover." t in
    first
    ++ ((record {
      stage = length first + 1;
      name = "Perímetro, Red y Autenticación de Correo";
      description =
          "Detección de puertos abiertos, servicios expuestos y protección contra spoofing/phishing.";
      types = perimeter_types t;
    })
        ∷ (record {
          stage = length first + 2;
          name = "Web Profunda, E-Commerce, Magecart y Secretos";
          description = "Mini-crawler comercial, Anti-Skimming SRI, JS secret hunter, CMS y CORS.";
          types = ScanType.web_headers ∷ ScanType.sensitive_paths ∷ ScanType.ssl_cert ∷ [];
        })
        ∷ [])
