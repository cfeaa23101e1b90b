-- ===== src/Findings/Tests.antt =====
-- The deadline of a finding twenty minutes and two days away.
use sistema_de_gestion_de_po.Common.{◌≡◌, refl, true, some, arith}
use sistema_de_gestion_de_po.Domain.{Status}
use sistema_de_gestion_de_po.Findings.Sla.{
  SlaStatus, compute_sla, due_matches, overdue_filter_disagrees,
}

overdue_filter_disagrees_example :
    (due_matches SlaStatus.overdue (some 5000000000) 5001200000 ≡ true)
    × ((compute_sla (some 5000000000) Status.open_ 5001200000).status ≡ SlaStatus.approaching)
overdue_filter_disagrees_example =
    overdue_filter_disagrees Status.open_ 5000000000 5001200000 refl (omega arith) (omega arith)
