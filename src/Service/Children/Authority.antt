-- ===== src/Service/Children/Authority.antt =====
-- What a run of a subagent has of its parent, and no more.
use lite_harness.Common.{◌+◌, ◌≡◌, true, false, some}
use lite_harness.Run.ChildBudget.Allocation.{IsAfforded}
use lite_harness.Store.Rows.{RunRow, to_run_record}
use lite_harness.Store.Tables.{get_row}
use lite_harness.Store.Resources.{AgentRow, find_agent}
use lite_harness.Service.Children.{is_subset, children_of}
use lite_harness.Service.Intake.{Intake, ChildRequest}

-- A child of a run: under the run's owner, one level below it, with no delivery of its own, with a
-- budget that the run can afford beside its own usage and its other children, and with a profile whose
-- tools and capabilities are all among those of the run's profile.
pub record IsChild (s t : Intake) (q : ChildRequest) (parent : RunRow) (profile : AgentRow)
    (child : RunRow) : Type 0 where
  pub stored : get_row t.database.store child.id ≡ some child
  pub owner : child.owner ≡ parent.owner
  pub parent_is : child.parent_run_id ≡ some parent.id
  pub depth : child.depth ≡ parent.depth + 1
  pub not_delivered : child.delivery_allowed ≡ false
  pub budget : IsAfforded (to_run_record parent) (children_of s (to_run_record parent)) child.budget
  pub agent : AgentRow
  pub agent_is : find_agent parent.owner q.agent s.database.agents ≡ some agent
  pub tools : is_subset agent.allowed_tools profile.allowed_tools ≡ true
  pub capabilities : is_subset agent.model_capabilities profile.model_capabilities ≡ true
