-- ===== src/Agents/Subagents/Routes.antt =====
-- The manager leaves an agent's own tools to the agent (newSubagentManager and execute of
-- temporalai/subagent.go).
use mathlib.Core.Path.{subst}
use go_temporal_ai_sdk.Prelude.{
  String, ◌≡◌, refl, ap, ◌∙◌, false, ◌⊎◌, inl, Option, none, some, List, [], ◌∷◌, ◌==◌, if_cases,
  arith, eq_iff,
}
use go_temporal_ai_sdk.Updates.Types.{Value}
use go_temporal_ai_sdk.Agents.Types.{AgentInput, AgentToolCall, ToolDefinition}
use go_temporal_ai_sdk.Agents.Flow.{Failure}
use go_temporal_ai_sdk.Agents.Values.{Library}
use go_temporal_ai_sdk.Agents.Definitions.{find_tool, is_reserved, agent_tool_definition}
use go_temporal_ai_sdk.Agents.Agent.{
  is_some, check_subagents, check_tools, first_failure, manager_for, new_subagent_manager,
}
use go_temporal_ai_sdk.Agents.Subagents.Calls.{
  SubagentToolInput, unhandled, control_route, decode_tool_input, decoded_route, routed, route,
}

control_route-unhandled :
    (name : String) (i : SubagentToolInput)
    → is_reserved name ≡ false
    → control_route name i ≡ unhandled
unfolding control_route
control_route-unhandled name i h = ground arith

abbrev Apart : List ToolDefinition → String → Type 0
Apart subagents name = (is_some (find_tool name subagents) ≡ false) × (is_reserved name ≡ false)

check_tools-first :
    (lib : Library) (subagents rest : List ToolDefinition) (t : ToolDefinition)
    → check_tools lib subagents (t ∷ rest) ≡ none
    → Apart subagents t.name × (check_tools lib subagents rest ≡ none)
unfolding check_tools
check_tools-first lib subagents rest t c =
    if_cases (λ o. o ≡ none → Apart subagents t.name × (check_tools lib subagents rest ≡ none))
      (is_some (find_tool t.name subagents)) (λ _ e. ground arith)
      (λ a.
        if_cases (λ o. o ≡ none → Apart subagents t.name × (check_tools lib subagents rest ≡ none))
          (is_reserved t.name) (λ _ e. ground arith) (λ b e. ((a, b), e)))
      c

check_tools-Apart :
    (lib : Library) (subagents tools : List ToolDefinition) (name : String) (d : ToolDefinition)
    → check_tools lib subagents tools ≡ none
    → find_tool name tools ≡ some d
    → Apart subagents name
unfolding find_tool
check_tools-Apart lib subagents [] name d c f = ground arith
check_tools-Apart lib subagents (t ∷ rest) name d c f =
    let first = check_tools-first lib subagents rest t c in
    if_cases (λ o. o ≡ some d → Apart subagents name) (t.name == name)
      (λ e _. subst (Apart subagents) ((eq_iff t.name name).0 e) first.0)
      (λ _ g. check_tools-Apart lib subagents rest name d first.1 g) f

second_check : (lib : Library) (a b : Option Failure) → first_failure lib a b ≡ none → b ≡ none
second_check lib none b h = h
second_check lib (some e) b h = ground arith

manager_for-checks :
    (lib : Library) (subagents tools rest : List ToolDefinition) (s : ToolDefinition)
    → subagents ≡ s ∷ rest
    → manager_for lib subagents tools ≡ none
    → check_tools lib subagents tools ≡ none
manager_for-checks lib [] tools rest s e h = ground arith
manager_for-checks lib (t ∷ others) tools rest s e h =
    second_check lib (check_subagents lib [] (t ∷ others)) (check_tools lib (t ∷ others) tools) h

not_found : (o : Option ToolDefinition) → is_some o ≡ false → o ≡ none
not_found none h = refl
not_found (some d) h = ground arith

-- The manager leaves the call of an agent's own tool to the agent, if the agent has passed the checks of
-- newSubagentManager and the call's input can be decoded as that of a control tool.
pub route-unhandled :
    (decode : Value → SubagentToolInput ⊎ String) (sprint : Value → String) (lib : Library)
    (input : AgentInput) (c : AgentToolCall) (s d : ToolDefinition) (rest : List ToolDefinition)
    (i : SubagentToolInput)
    → input.subagents ≡ s ∷ rest
    → new_subagent_manager lib input ≡ none
    → agent_tool_definition input c.tool_name ≡ some d
    → decode_tool_input decode sprint c.input ≡ inl i
    → route decode sprint input.subagents c ≡ unhandled
unfolding route new_subagent_manager
route-unhandled decode sprint lib input c s d rest i e h f g =
    let checked = manager_for-checks lib input.subagents input.tools rest s e h in
    let apart = check_tools-Apart lib input.subagents input.tools c.tool_name d checked f in
    ap (routed decode sprint c) (not_found (find_tool c.tool_name input.subagents) apart.0)
    ∙ ap (decoded_route decode sprint c) g
    ∙ control_route-unhandled c.tool_name i apart.1
