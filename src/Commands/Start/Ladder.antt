-- ===== src/Commands/Start/Ladder.antt =====
-- setRoleLadderCommand of internal/supervisor/commands.go.
use durable_agent_handoff.Prelude.{
  String, ◌||◌, List, [], ◌∷◌, ◌==◌, blank, trim_space, is_empty, any, invalid, Fallible, ok, ◌>>=◌,
  ◌>>◌, refuse, join,
}
use durable_agent_handoff.Types.{Time, Sandbox, RuntimeSpec, State}
use durable_agent_handoff.Environment.{Environment, nul}
use durable_agent_handoff.Events.{DomainEvent}
use durable_agent_handoff.Runtimes.{validate_runtime}
use durable_agent_handoff.Commands.{Decision}

pub record SetRoleLadderInput : Type 0 where
  pub role : String
  pub candidates : List RuntimeSpec
  pub idempotency_key : String

unfoldable pub sandbox_text : Sandbox → String
sandbox_text Sandbox.read_only = "read-only"
sandbox_text Sandbox.workspace_write = "workspace-write"
sandbox_text (Sandbox.other_sandbox s) = s

-- runtimeSpecKey: the fields, joined by NUL
unfoldable pub runtime_spec_key : RuntimeSpec → String
unfolding sandbox_text
runtime_spec_key r = join r.name (
    join nul (
      join r.executable (
        join nul (
          join r.model (
            join nul
              (join r.effort (join nul (join (sandbox_text r.sandbox) (join nul r.arguments)))))))))

unfoldable pub check_candidates :
    Environment → List String → List String → List RuntimeSpec → Fallible (Unit {0})
check_candidates env keys names [] = ok tt
check_candidates env keys names (c ∷ cs) = validate_runtime env c >>= λ _.
    refuse (any (λ k. k == runtime_spec_key c) keys) (invalid "duplicate role ladder candidate")
    >>= λ _.
        refuse (any (λ n. n == c.name) names) (invalid "role ladder reuses provider identity")
        >>= λ _. check_candidates env (runtime_spec_key c ∷ keys) (c.name ∷ names) cs

unfoldable pub set_role_ladder : Environment → SetRoleLadderInput → State → Time → Decision
unfolding check_candidates
set_role_ladder env i s now = do
  refuse (blank i.role || is_empty i.candidates)
      (invalid "role ladder requires a role and at least one candidate")
  check_candidates env [] [] i.candidates
  ok (DomainEvent.role_ladder_set (trim_space i.role) i.candidates ∷ [], i.role)
