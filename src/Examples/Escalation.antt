-- ===== src/Examples/Escalation.antt =====
-- Escalation from a reboot to a reprovisioning of a concrete node.
use node_healthcheck_operato.Prelude.{
  ◌≤◌, ◌<ℤ◌, pos, true, none, some, List, [], ◌∷◌, In, head, tail, is_some, ◌≡◌, ◌≢◌, refl,
}
use node_healthcheck_operato.Api.{EscalatingRemediation, UnhealthyNode}
use node_healthcheck_operato.Status.{find_status_remediation, mark_timed_out, new_entry}
use node_healthcheck_operato.Status.Tracking.{is_started_from}
use node_healthcheck_operato.Escalation.{
  chosen, no_template_left, verdict, current_remediation, has_remediations, makes_kind,
  get_remediation_duration,
}
use node_healthcheck_operato.Escalation.Lowest.{
  HasTimedOut, current_remediation-lowest, short_kind-blocks,
}
use node_healthcheck_operato.Escalation.Ends.{escalation_ends, begins, times_out}
use node_healthcheck_operato.Escalation.Timeout.{is_started}
use node_healthcheck_operato.Escalation.Duration.{
  total_timeout, before, get_remediation_duration_unique,
}
use node_healthcheck_operato.Examples.Data.{
  cr_from, reboot, reprovision, remediations, template_ref,
}

-- The reboot has been started, and has timed out.
abbrev started : List UnhealthyNode
started = new_entry "worker-0" (cr_from "reboot") ∷ []

abbrev timed_out : List UnhealthyNode
timed_out =
    record {
      name = "worker-0";
      remediations =
          record {
            resource = record {
              gvk = (cr_from "reboot").gvk;
              namespace = "operators";
              name = "worker-0";
              uid = "cr-1";
            };
            started = pos 0;
            timed_out = some (pos 9);
            template_name = "reboot";
          }
          ∷ [];
      conditions_healthy_timestamp = none;
      healthy_delayed = none;
    }
    ∷ []

chooses_reprovision : current_remediation "worker-0" timed_out remediations ≡ chosen reprovision
unfolding current_remediation verdict find_status_remediation
chooses_reprovision = refl

current_remediation-lowest_example :
    In reprovision remediations
    × ¬ HasTimedOut "worker-0" timed_out reprovision
    × ((q : EscalatingRemediation)
        → In q remediations
        → q.order <ℤ reprovision.order
        → HasTimedOut "worker-0" timed_out q)
current_remediation-lowest_example =
    current_remediation-lowest "worker-0" timed_out remediations reprovision chooses_reprovision

none_left : current_remediation "worker-0" timed_out (reboot ∷ []) ≡ no_template_left
unfolding current_remediation verdict find_status_remediation
none_left = refl

reboot-started :
    is_some
      (find_status_remediation "worker-0" (is_started_from (cr_from "reboot") "reboot") started)
    ≡ true
unfolding find_status_remediation
reboot-started = refl

abbrev short : EscalatingRemediation
short = record {
  remediation_template = template_ref "Fence" "fence";
  order = pos 1;
  timeout = pos 300000000000;
}

started-has_remediations : has_remediations "worker-0" started ≡ true
unfolding find_status_remediation
started-has_remediations = refl

chooses_reboot : current_remediation "worker-0" started remediations ≡ chosen reboot
unfolding current_remediation verdict find_status_remediation
chooses_reboot = refl

short_kind-blocks_example :
    (current_remediation "worker-0" started (reprovision ∷ short ∷ []) ≢ no_template_left)
    × ((r : EscalatingRemediation)
        → short.order <ℤ r.order
        → current_remediation "worker-0" started (reprovision ∷ short ∷ []) ≢ chosen r)
short_kind-blocks_example =
    short_kind-blocks "worker-0" started (reprovision ∷ short ∷ []) short started-has_remediations
      (tail (head refl)) refl

only_reboot :
    (q : EscalatingRemediation)
    → In q remediations
    → makes_kind "SelfNodeRemediation" q ≡ true
    → q ≡ reboot
only_reboot q (head e) m = absurd (none_made m)
  where
    none_made : makes_kind "SelfNodeRemediation" q ≡ true → ⊥
    none_made h = cc (rw e at h)
only_reboot q (tail (head e)) m = e
only_reboot q (tail (tail i)) m = elim i [ ]

get_remediation_duration_unique_example :
    get_remediation_duration remediations "SelfNodeRemediation"
    ≡ (reboot.timeout, total_timeout (pos 0) (before reboot.order remediations))
get_remediation_duration_unique_example =
    get_remediation_duration_unique remediations reboot "SelfNodeRemediation" (tail (head refl))
      refl only_reboot

escalation_ends_example : 1 ≤ 2
unfolding find_status_remediation
escalation_ends_example =
    escalation_ends "worker-0" remediations 1
      (mark_timed_out "worker-0" (is_started reboot.remediation_template "SelfNodeRemediation")
        (pos 9) started)
      (times_out reboot "SelfNodeRemediation" (pos 9) (begins started) chooses_reboot refl refl)
