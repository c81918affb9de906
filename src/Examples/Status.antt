-- ===== src/Examples/Status.antt =====
-- The bookkeeping of unhealthy nodes at concrete CRs.
use node_healthcheck_operato.Prelude.{none, some, List, [], ◌∷◌, ◌≡◌, refl}
use node_healthcheck_operato.Api.{UnhealthyNode}
use node_healthcheck_operato.Remediation.{get_template_name_from_cr}
use node_healthcheck_operato.Status.{
  has_gvk, remediation_of, new_entry, update_status_remediation_started, find_status_remediation,
}
use node_healthcheck_operato.Status.Unique.{IsMapByName}
use node_healthcheck_operato.Status.Tracking.{is_started_from, started_drops_second_template}
use node_healthcheck_operato.Examples.Data.{cr_from}

-- The status after a remediation from the template "reboot" has started.
abbrev started : List UnhealthyNode
started = new_entry "worker-0" (cr_from "reboot") ∷ []

started-IsMapByName : IsMapByName started
started-IsMapByName = (refl, tt)

kind-found :
    find_status_remediation "worker-0" (has_gvk (cr_from "firmware")) started
    ≡ some (remediation_of (cr_from "reboot"))
unfolding find_status_remediation
kind-found = refl

template-missing :
    find_status_remediation "worker-0"
      (is_started_from (cr_from "firmware") (get_template_name_from_cr (cr_from "firmware")))
      started
    ≡ none
unfolding find_status_remediation
template-missing = refl

started_drops_second_template_example :
    find_status_remediation "worker-0"
      (is_started_from (cr_from "firmware") "firmware")
      (update_status_remediation_started "worker-0" (cr_from "firmware") started)
    ≡ none
started_drops_second_template_example =
    started_drops_second_template "worker-0" (cr_from "firmware")
      (remediation_of (cr_from "reboot")) started started-IsMapByName kind-found template-missing
