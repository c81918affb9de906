-- ===== src/Examples/Orphans.antt =====
-- The deletion of orphaned CRs at a concrete environment without any.
use node_healthcheck_operato.Prelude.{List, [], ◌∷◌}
use node_healthcheck_operato.Api.{UnhealthyNode}
use node_healthcheck_operato.Status.{new_entry}
use node_healthcheck_operato.Examples.Data.{cr_from}

abbrev unhealthy : List UnhealthyNode
unhealthy = new_entry "worker-0" (cr_from "reboot") ∷ []
