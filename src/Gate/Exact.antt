-- ===== src/Gate/Exact.antt =====
-- A publication is settled as merged only by GitHub's word, or after its gates passed on its head.
use durable_agent_handoff.Prelude.{
  String, ◌≡◌, refl, sym, ap, ◌∙◌, ◌⊎◌, inl, inr, Bool, true, false, not, ◌&&◌, ◌||◌, Option, none,
  List, [], ◌∷◌, arith, ◌==◌, blank, Bool-cases, is_empty, any, Error, invalid, Fallible, ok, err,
  ◌>>◌, refuse, for_each, >>-eq-ok, Fallible-cases, join,
}
use durable_agent_handoff.Types.{FinalizationState, Finalization}
use durable_agent_handoff.Commands.Finalizer.{fallback_method}
use durable_agent_handoff.Reducer.Validate.{is_merge_method}
use durable_agent_handoff.Gate.{
  Check, Pr, Runner, is_success, check_gate, is_stopped, verify, inspect, merge_at_head, Outcome,
  is_merged_pr, after_merge, after_verify, judge, after_inspect, publish,
}

-- A gate is passed: a check has its name, and every check of its name succeeded.
abbrev pub passes : List Check → String → Bool
passes checks gate =
    any (λ c. c.name == gate) checks && not (any (λ c. c.name == gate && not (is_success c)) checks)

abbrev pub is_ready : Pr → List String → Bool
is_ready p gates =
    not (p.head_oid == "")
    && not (is_empty gates)
    && not (any (λ gate. not (passes p.checks gate)) gates)
    && not (is_stopped p)

abbrev pub is_ok : Fallible (Unit {0}) → Bool
is_ok (ok _) = true
is_ok (err e) = false

is_ok-then :
    (check next : Fallible (Unit {0})) → is_ok (check >> next) ≡ (is_ok check && is_ok next)
is_ok-then (ok _) next = refl
is_ok-then (err e) next = refl

is_ok-refuse : (bad : Bool) (e : Error) → is_ok (refuse bad e) ≡ not bad
is_ok-refuse true e = refl
is_ok-refuse false e = refl

is_ok-for_each :
    (f : String → Fallible (Unit {0})) (xs : List String)
    → is_ok (for_each f xs) ≡ not (any (λ x. not (is_ok (f x))) xs)
is_ok-for_each f [] = refl
is_ok-for_each f (x ∷ xs) = is_ok-then (f x) (for_each f xs) ∙ ground (arith, is_ok-for_each f xs)

check_gate-passes :
    (gate : String) (found : Bool) (cs : List Check)
    → is_ok (check_gate gate found cs) ≡ (
        (found || any (λ c. c.name == gate) cs)
        && not (any (λ c. c.name == gate && not (is_success c)) cs))
unfolding check_gate
check_gate-passes gate found [] =
    is_ok-refuse (not found) (invalid "gate %q was not found") ∙ ground arith
check_gate-passes gate found (c ∷ cs) = elim (Bool-cases (c.name == gate)) [
  | inr other ↦ rw (check_gate, other) (check_gate-passes gate found cs)
  | inl named ↦
      rw (check_gate, named)
        (is_ok-then (refuse (not (is_success c)) (invalid "gate %q is %s/%s"))
            (check_gate gate true cs)
          ∙ named_check gate found c cs
              (is_ok-refuse (not (is_success c)) (invalid "gate %q is %s/%s"))
              (check_gate-passes gate true cs))
]
  where
    named_check :
        (gate : String) (found : Bool) (c : Check) (cs : List Check)
        → is_ok (refuse (not (is_success c)) (invalid "gate %q is %s/%s"))
          ≡ not (not (is_success c))
        → is_ok (check_gate gate true cs) ≡ not (any (λ d. d.name == gate && not (is_success d)) cs)
        → (is_ok (refuse (not (is_success c)) (invalid "gate %q is %s/%s"))
            && is_ok (check_gate gate true cs))
          ≡ ((found || true)
              && not (not (is_success c) || any (λ d. d.name == gate && not (is_success d)) cs))
    named_check gate found c cs h k = ground (arith, h, k)

any-ext :
    (p q : String → Bool) (xs : List String) → ((x : String) → p x ≡ q x) → any p xs ≡ any q xs
any-ext p q [] same = refl
any-ext p q (x ∷ xs) same = ground (arith, same x, any-ext p q xs same)

all_pass :
    (p : Pr) (gates : List String)
    → is_ok (for_each (λ gate. check_gate gate false p.checks) gates)
      ≡ not (any (λ gate. not (passes p.checks gate)) gates)
all_pass p gates =
    is_ok-for_each (λ gate. check_gate gate false p.checks) gates
    ∙ ap not (
        any-ext (λ gate. not (is_ok (check_gate gate false p.checks)))
          (λ gate. not (passes p.checks gate)) gates
          (λ gate. ap not (check_gate-passes gate false p.checks)))

is_ok-guard :
    (bad : Bool) (e : Error) (next : Fallible (Unit {0})) {b : Bool}
    → is_ok next ≡ b
    → is_ok (refuse bad e >> next) ≡ (not bad && b)
is_ok-guard true e next h = refl
is_ok-guard false e next h = h

-- Verify accepts a pull request exactly if it has a head, some gate is named, every named gate has a
-- check and no check of its name that is not a completed success, and the pull request's merge state
-- is neither dirty nor blocked.
pub verify-is_ready : (p : Pr) (gates : List String) → is_ok (verify p gates) ≡ is_ready p gates
unfolding verify
verify-is_ready p gates =
    is_ok-guard (p.head_oid == "") (invalid "pull request head SHA is empty") _ (
      is_ok-guard (is_empty gates) (invalid "at least one named gate is required") _ (
        is_ok-then (for_each (λ gate. check_gate gate false p.checks) gates)
          (refuse (is_stopped p) (invalid "pull request merge state is %s"))
        ∙ joined (all_pass p gates)
            (is_ok-refuse (is_stopped p) (invalid "pull request merge state is %s"))))
    ∙ ground arith
  where
    joined : {a b c d : Bool} → a ≡ b → c ≡ d → (a && c) ≡ (b && d)
    joined h k = rw (h, k) refl

-- gh pr merge of the prepared pull request, bound to the prepared head, with a merge method's flag.
abbrev pub merge_call : Finalization → String → List String
merge_call f how =
    "pr" ∷ "merge" ∷ f.pull_request ∷ "--repo" ∷ f.repository ∷ "--match-head-commit" ∷ f.head_sha
    ∷ how ∷ []

merge_at_head-merge_call :
    (runner : Runner) (f : Finalization)
    → merge_at_head runner f.repository f.pull_request f.head_sha f.method ≡ ok tt
    → (how : String) × (runner.merge (merge_call f how) ≡ ok tt)
unfolding merge_at_head
merge_at_head-merge_call runner f h = (
  join "--" (fallback_method f.method),
  >>-eq-ok
      (refuse (not (is_merge_method (fallback_method f.method)))
        (invalid "unsupported merge method %q"))
      _ (>>-eq-ok (refuse (blank f.head_sha) (invalid "pull request head SHA is empty")) _ h),
)

-- How a publication comes to be settled as merged.
abbrev pub IsMerged : Runner → Finalization → Pr → Type 0
IsMerged runner f p =
    (is_merged_pr p ≡ true)
    ⊎ (((p.head_oid == f.head_sha) ≡ true)
        × (is_ready p f.gates ≡ true)
        × ((how : String) × (runner.merge (merge_call f how) ≡ ok tt)))

module _ (runner : Runner) (f : Finalization) (summary url : String) (e : Option Error) where
  IsSettled : Outcome → Type 0
  IsSettled outcome = outcome ≡ Outcome.settles FinalizationState.merged summary url e

  judge-IsMerged :
      (p : Pr) (merged same_head : Bool)
      → is_merged_pr p ≡ merged
      → (p.head_oid == f.head_sha) ≡ same_head
      → IsSettled (judge runner f p merged same_head)
      → (e ≡ none) × IsMerged runner f p
  unfolding IsSettled
  judge-IsMerged p true same_head m h settled = (cc, inl m)
  judge-IsMerged p false false m h settled = cc
  judge-IsMerged p false true m h settled =
      verified (verify p f.gates)
        (merge_at_head runner f.repository f.pull_request f.head_sha f.method) refl refl settled
    where
      verified :
          (passed merge_run : Fallible (Unit {0}))
          → verify p f.gates ≡ passed
          → merge_at_head runner f.repository f.pull_request f.head_sha f.method ≡ merge_run
          → IsSettled (elim passed [
            | err x ↦ after_verify runner f (err x)
            | ok _ ↦ after_merge f merge_run
          ])
          → (e ≡ none) × IsMerged runner f p
      verified (err x) merge_run v r s = cc
      verified (ok _) (err x) v r s = cc
      verified (ok _) (ok _) v r s = (
        cc,
        inr (h, sym (verify-is_ready p f.gates) ∙ ap is_ok v, merge_at_head-merge_call runner f r),
      )

-- Finalize settles a prepared publication as merged, and then without an error, only if GitHub reports
-- the pull request as merged, or if its head is the prepared one, its gates passed at that head, and gh
-- merged it without an error under --match-head-commit with exactly that head.
pub publish-IsMerged :
    (runner : Runner) (f : Finalization) (summary url : String) (e : Option Error)
    → publish runner f ≡ Outcome.settles FinalizationState.merged summary url e
    → (p : Pr) × (inspect runner f.repository f.pull_request ≡ ok p)
      × (e ≡ none)
      × IsMerged runner f p
unfolding publish IsSettled
publish-IsMerged runner f summary url e settled =
    elim (Fallible-cases (inspect runner f.repository f.pull_request)) [
      | inr (x, failed) ↦
          let kept : Outcome.keeps x ≡ Outcome.settles FinalizationState.merged summary url e =
            sym (ap (after_inspect runner f) failed) ∙ settled in
          cc
      | inl (p, seen) ↦
          let (clean, how) =
            judge-IsMerged runner f summary url e p (is_merged_pr p) (p.head_oid == f.head_sha) refl
              refl (sym (ap (after_inspect runner f) seen) ∙ settled) in
          (p, seen, clean, how)
    ]
