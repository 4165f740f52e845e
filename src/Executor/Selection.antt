-- ===== src/Executor/Selection.antt =====
-- What selectRuntime of internal/executor/executor.go chooses, against runtimeAllowed of
-- internal/supervisor/commands.go, by which PrepareAttempt judges the choice.
use durable_agent_handoff.Prelude.{
  String, ◌≡◌, refl, subst, inl, inr, Bool, true, false, not, ◌&&◌, Option, none, some, List, [],
  ◌∷◌, arith, ◌==◌, eq_iff, eq_refl, values, Bool-cases, Option-cases, any, find, Error, invalid,
  ok, or_fail,
}
use durable_agent_handoff.Types.{Sandbox, sandbox_eq, RuntimeSpec, WorkSpec, State}
use durable_agent_handoff.Commands.Start.Ladder.{sandbox_text}
use durable_agent_handoff.Runtimes.{same_runtime, runtime_allowed}
use durable_agent_handoff.Queries.{has_provider_unavailable}
use durable_agent_handoff.Executor.{
  runtime_key, is_used_unavailable, from_name, or_all, candidates_from, select_runtime,
}

sandbox_eq_refl : (b : Sandbox) → sandbox_eq b b ≡ true
sandbox_eq_refl Sandbox.read_only = refl
sandbox_eq_refl Sandbox.workspace_write = refl
sandbox_eq_refl (Sandbox.other_sandbox name) = eq_refl name

same_runtime_refl : (r : RuntimeSpec) → same_runtime r r ≡ true
unfolding same_runtime
same_runtime_refl r =
    rw
      (
        eq_refl r.name,
        eq_refl r.executable,
        eq_refl r.model,
        eq_refl r.effort,
        sandbox_eq_refl r.sandbox,
        eq_refl r.arguments,
      )
      refl

-- What is found passes the test, and is among the elements.
find-found :
    {A : Type 0} (p q : A → Bool) (cs : List A) (r : A)
    → find p cs ≡ some r
    → q r ≡ true
    → (any q cs ≡ true) × (p r ≡ true)
find-found p q [] r h held = cc
find-found p q (c ∷ cs) r h held = elim (Bool-cases (p c)) [
  | inl t ↦ ground arith
  | inr f ↦ ground (arith, find-found p q cs r)
]

from_name-any :
    (name : String) (p : RuntimeSpec → Bool) (cs ds : List RuntimeSpec)
    → from_name name cs ≡ some ds
    → any p ds ≡ true
    → any p cs ≡ true
from_name-any name p [] ds h held = cc
from_name-any name p (c ∷ cs) ds h held = elim (Bool-cases (c.name == name)) [
  | inl t ↦ ground arith
  | inr f ↦ ground (arith, from_name-any name p cs ds)
]

candidates_from-any :
    (work : WorkSpec) (name : String) (p : RuntimeSpec → Bool)
    → any p (candidates_from work name) ≡ true
    → any p (work.runtime ∷ work.fallbacks) ≡ true
unfolding candidates_from
candidates_from-any work name p held =
    let all = work.runtime ∷ work.fallbacks in
    elim (Option-cases (from_name name (work.runtime ∷ work.fallbacks))) [
      | inl missing ↦ subst (λ o. any p (or_all o all) ≡ true) missing held
      | inr (ds, found) ↦
          from_name-any name p all ds found (subst (λ o. any p (or_all o all) ≡ true) found held)
    ]

same_sandbox : (a b : Sandbox) → sandbox_eq a b ≡ true → sandbox_text a ≡ sandbox_text b
unfolding sandbox_text
same_sandbox Sandbox.read_only Sandbox.read_only h = refl
same_sandbox Sandbox.workspace_write Sandbox.workspace_write h = refl
same_sandbox (Sandbox.other_sandbox a) (Sandbox.other_sandbox b) h = (eq_iff a b).0 h
same_sandbox Sandbox.read_only Sandbox.workspace_write h = cc
same_sandbox Sandbox.read_only (Sandbox.other_sandbox b) h = cc
same_sandbox Sandbox.workspace_write Sandbox.read_only h = cc
same_sandbox Sandbox.workspace_write (Sandbox.other_sandbox b) h = cc
same_sandbox (Sandbox.other_sandbox a) Sandbox.read_only h = cc
same_sandbox (Sandbox.other_sandbox a) Sandbox.workspace_write h = cc

-- The same runtimes have the same key.
same_runtime-key : (a b : RuntimeSpec) → same_runtime a b ≡ true → runtime_key a ≡ runtime_key b
unfolding same_runtime runtime_key
same_runtime-key a b h =
    let name : a.name ≡ b.name = (eq_iff a.name b.name).0 (ground (arith, h)) in
    let executable : a.executable ≡ b.executable =
      (eq_iff a.executable b.executable).0 (ground (arith, h)) in
    let model : a.model ≡ b.model = (eq_iff a.model b.model).0 (ground (arith, h)) in
    let effort : a.effort ≡ b.effort = (eq_iff a.effort b.effort).0 (ground (arith, h)) in
    let sandbox : sandbox_text a.sandbox ≡ sandbox_text b.sandbox =
      same_sandbox a.sandbox b.sandbox (ground (arith, h)) in
    let arguments : a.arguments ≡ b.arguments =
      (eq_iff a.arguments b.arguments).0 (ground (arith, h)) in
    rw (name, executable, model, effort, sandbox, arguments) refl

-- What is chosen is allowed, and no launch of the activity with it found its provider unavailable.
pub record IsChosen (work : WorkSpec) (s : State) (activity_id : String) (r : RuntimeSpec)
    : Type 0 where
  pub allowed : runtime_allowed work r ≡ true
  pub fresh :
      any
        (λ a.
          a.activity_id == activity_id && (has_provider_unavailable a && same_runtime a.runtime r))
        (values s.attempts)
      ≡ false

or_fail-found : {A : Type 0} (o : Option A) (e : Error) {r : A} → or_fail o e ≡ ok r → o ≡ some r
or_fail-found none e h = cc
or_fail-found (some a) e h = cc

any-weaker :
    {A : Type 0} (p q : A → Bool) (xs : List A)
    → ((x : A) → p x ≡ true → q x ≡ true)
    → any q xs ≡ false
    → any p xs ≡ false
any-weaker p q [] f h = refl
any-weaker p q (x ∷ xs) f h = ground (arith, f x, any-weaker p q xs f)

-- The runtime that selectRuntime returns is one that PrepareAttempt takes as the node's primary or
-- fallback runtime, and no launch of the activity with this runtime found its provider unavailable.
pub select_runtime-IsChosen :
    (work : WorkSpec) (s : State) (activity_id session_runtime : String) (r : RuntimeSpec)
    → select_runtime work s activity_id session_runtime ≡ ok r
    → IsChosen work s activity_id r
unfolding select_runtime runtime_allowed is_used_unavailable
select_runtime-IsChosen work s activity_id session_runtime r h =
    let p = (λ (c : RuntimeSpec). not (is_used_unavailable s activity_id (runtime_key c))) in
    let found : find p (candidates_from work session_runtime) ≡ some r =
      or_fail-found (find p (candidates_from work session_runtime))
        (invalid "all runtime fallback candidates are provider-unavailable") h in
    let (held, unused) =
      find-found p (λ c. same_runtime c r) (candidates_from work session_runtime) r found
        (same_runtime_refl r) in
    record {
      allowed = candidates_from-any work session_runtime (λ c. same_runtime c r) held;
      fresh =
          any-weaker
            (λ a.
              a.activity_id == activity_id
              && (has_provider_unavailable a && same_runtime a.runtime r))
            (λ a.
              a.activity_id == activity_id
              && (has_provider_unavailable a && runtime_key a.runtime == runtime_key r))
            (values s.attempts)
            (λ a marked. ground (
              arith,
              marked,
              (eq_iff (runtime_key a.runtime) (runtime_key r)).1
                  (same_runtime-key a.runtime r (ground (arith, marked))),
            ))
            (ground (arith, unused));
    }
