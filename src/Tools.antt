-- ===== src/Tools.antt =====
-- The tool catalog (src/dispatcher/tools.go: Check), which only warns and remembers what it warned
-- about, and the confirmation of tools by the robots' controllers (src/dispatcher/toolconfirm.go).
use hydra_umc_job_dispatcher.Common.{
  ◌+◌, Bool, true, false, ◌&&◌, ◌||◌, not, Option, none, some, List, [], ◌∷◌, Text, eqt, is_empty,
  leb, length, ℕ, if◌then◌else◌, select,
}
use hydra_umc_job_dispatcher.Common.Keyed.{find, put, delete}
use hydra_umc_job_dispatcher.Time.{Instant}
use hydra_umc_job_dispatcher.Model.{
  Job, Robot, ToolCatalog, ToolSeen, ToolConfirmation, robot_key, tool_seen_key, is_allow, mem_text,
}
use hydra_umc_job_dispatcher.Engine.{Engine}

-- ToolCatalog.Check, on a catalog that may be nil: the catalog after the warning, and the answer.
unfoldable pub check_tool : Text → Option ToolCatalog → Option ToolCatalog × Bool
check_tool tool none = (none, true)
check_tool tool (some c) =
    if is_empty tool
    then (some c, true)
    else if mem_text tool c.known
    then (some c, true)
    else if mem_text tool c.warned
    then (some c, false)
    else (some (record c { warned = tool ∷ c.warned }), false)

-- `s, ok := seen[r.ID]; ok && now.Sub(s.at) <= TTL && !s.at.After(now)`, then the answer itself
unfoldable pub tool_confirmed : ToolConfirmation → Robot → Job → Instant → Bool
tool_confirmed c r j now =
    if not c.enabled || is_empty j.required_tool
    then true
    else elim (find tool_seen_key r.id c.seen) [
      | none ↦ is_allow c.on_unconfirmed
      | some s ↦
          if leb now (s.at + c.ttl) && leb s.at now
          then eqt s.tool j.required_tool
          else is_allow c.on_unconfirmed
    ]

-- The robots that are asked.
available_ids : List Robot → List Text
available_ids [] = []
available_ids (r ∷ rs) = if r.available then r.id ∷ available_ids rs else available_ids rs

-- The answers of the controllers; `none` is a failed request.
ask : (Text → Option Text) → List Text → List Text
ask fetch [] = []
ask fetch (id ∷ ids) = elim (fetch id) [ none ↦ ask fetch ids | some t ↦ id ∷ ask fetch ids ]

-- The entries of robots that are no longer registered are dropped.
forget_gone : List Robot → List ToolSeen → List ToolSeen
forget_gone robots =
    select (λ s. elim (find robot_key s.robot_id robots) [ none ↦ false | some _ ↦ true ])

-- Each answer is recorded, and silence is no confirmation.
record_answers : (Text → Option Text) → Instant → List Text → List ToolSeen → List ToolSeen
record_answers fetch now [] seen = seen
record_answers fetch now (id ∷ ids) seen = elim (fetch id) [
  | some t ↦
      record_answers fetch now ids
        (put tool_seen_key (record { robot_id = id; tool = t; at = now }) seen)
  | none ↦ record_answers fetch now ids (delete tool_seen_key id seen)
]

module _ {S : Type 0} where
  -- ConfirmTools, with what the controllers answer as a parameter. The lock is released while they
  -- are asked: `after` is the engine as the other operations have left it by then.
  unfoldable pub confirm_tools : (Text → Option Text) → Engine S → Engine S → Engine S × ℕ
  unfolding available_ids ask forget_gone record_answers
  confirm_tools fetch before after =
      let ids = available_ids before.robots in
      let c = after.tool_check in
      let seen = record_answers fetch after.now ids (forget_gone after.robots c.seen) in
      if not before.tool_check.enabled
      then (after, 0)
      else if not c.enabled
      then (after, 0)
      else (record after { tool_check = record c { seen = seen } }, length (ask fetch ids))
