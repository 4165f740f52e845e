-- ===== src/Runtimes.antt =====
-- validateRuntime, sameRuntime and runtimeAllowed of internal/supervisor/commands.go.
use durable_agent_handoff.Prelude.{
  String, Bool, true, false, not, ◌&&◌, ◌||◌, ◌==◌, blank, eqb, if◌then◌else◌, any, invalid,
  Fallible, ok, ◌>>=◌, ◌>>◌, refuse, or_fail, for_each,
}
use durable_agent_handoff.Types.{Sandbox, sandbox_eq, RuntimeSpec, WorkSpec}
use Prim.Native.Char.{code}
use durable_agent_handoff.Environment.{Environment}

contains_nul : String → Bool
contains_nul String.[] = false
contains_nul (String.◌∷◌ c s) = eqb (code c) 0 || contains_nul s

abbrev pub is_known_sandbox : Sandbox → Bool
is_known_sandbox (Sandbox.other_sandbox s) = false
is_known_sandbox _ = true

validate_arguments : Environment → String → Fallible (Unit {0})
unfolding contains_nul
validate_arguments env arguments = do
  decoded ← or_fail (env.json_strings arguments) (invalid "runtime arguments must be a JSON array")
  for_each (λ a. refuse (contains_nul a) (invalid "runtime arguments cannot contain NUL")) decoded

unfoldable pub validate_runtime : Environment → RuntimeSpec → Fallible (Unit {0})
unfolding validate_arguments
validate_runtime env r = do
  refuse (blank r.name) (invalid "runtime name is required")
  refuse (not (is_known_sandbox r.sandbox)) (invalid "unsupported runtime sandbox")
  if blank r.arguments then ok tt else validate_arguments env r.arguments

unfoldable pub same_runtime : RuntimeSpec → RuntimeSpec → Bool
same_runtime a b =
    a.name == b.name
    && a.executable == b.executable
    && a.model == b.model
    && a.effort == b.effort
    && sandbox_eq a.sandbox b.sandbox
    && a.arguments == b.arguments

unfoldable pub runtime_allowed : WorkSpec → RuntimeSpec → Bool
unfolding same_runtime
runtime_allowed work wanted =
    same_runtime work.runtime wanted || any (λ c. same_runtime c wanted) work.fallbacks
