-- ===== src/Settings.antt =====
-- The settings that the process installs when it starts and when it reloads its configuration
-- (src/dispatcher/dispatcher.go: SetToolCatalog, SetRobotFreshness; src/dispatcher/replan.go:
-- SetReplan; src/dispatcher/location.go: SetLocationCosts; src/dispatcher/archive.go:
-- SetArchiveAfter; src/dispatcher/events.go: SetEvents; src/dispatcher/toolconfirm.go:
-- SetToolConfirmation).
use hydra_umc_job_dispatcher.Common.{
  ◌*◌, Bool, true, false, ◌&&◌, ◌||◌, not, Option, [], ◌==◌, ltb, if◌then◌else◌,
}
use hydra_umc_job_dispatcher.Time.{Duration}
use hydra_umc_job_dispatcher.Events.{EventHub}
use hydra_umc_job_dispatcher.Model.{ToolCatalog, LocationConfig, ReplanConfig, OnUnconfirmed, skip}
use hydra_umc_job_dispatcher.Engine.{Engine}

-- 24 hours in nanoseconds
abbrev longest_ttl : Duration
longest_ttl = 86400 * 1000000000

-- ToolConfirmConfig.Validate: the type of the policy leaves its lifetime to check.
abbrev valid_ttl : Bool → Duration → Bool
valid_ttl enabled ttl = not enabled || (not (ttl == 0) && not (ltb longest_ttl ttl))

module _ {S : Type 0} where
  abbrev pub set_tool_catalog : Option ToolCatalog → Engine S → Engine S
  set_tool_catalog c e = record e { tools = c }

  abbrev pub set_robot_freshness : Duration → Engine S → Engine S
  set_robot_freshness d e = record e { robot_freshness = d }

  abbrev pub set_replan : ReplanConfig → Engine S → Engine S
  set_replan c e = record e { replan = c }

  -- On a table that is valid.
  abbrev pub set_location_costs : LocationConfig → Engine S → Engine S
  set_location_costs c e = record e { location = c }

  abbrev pub set_archive_after : Duration → Engine S → Engine S
  set_archive_after d e = record e { archive_after = d }

  abbrev pub set_events : Option EventHub → Engine S → Engine S
  set_events h e = record e { events = h }

  -- `fetched` says that a way to ask the controllers was given. The answers kept so far stay while
  -- the confirmation is on.
  unfoldable pub set_tool_confirmation :
      Bool → Duration → OnUnconfirmed → Bool → Engine S → Engine S × Bool
  set_tool_confirmation enabled ttl policy fetched e =
      if enabled && not fetched
      then (e, false)
      else if not (valid_ttl enabled ttl)
      then (e, false)
      else if not enabled
      then (
        record e {
          tool_check = record { enabled = false; ttl = 0; on_unconfirmed = skip; seen = [] };
        },
        true,
      )
      else (
        record e {
          tool_check = record {
            enabled = true;
            ttl = ttl;
            on_unconfirmed = policy;
            seen = e.tool_check.seen;
          };
        },
        true,
      )
