-- ===== src/Commands/Recovery/Divided.antt =====
-- The attempts of a supervisor that stopped are divided into the live and the inherited, by what the
-- operating system answers of their processes.
use durable_agent_handoff.Prelude.{
  String, ◌≡◌, refl, sym, ap, ◌∙◌, inl, inr, Bool, true, false, not, ◌&&◌, Option, none, some, List,
  [], ◌∷◌, ◌++◌, map, arith, ◌==◌, if◌then◌else◌, Bool-cases, Option-cases, any, keep, Fallible, ok,
  err, >>=-eq-ok, Fallible-cases,
}
use durable_agent_handoff.Types.{is_exit, ProcessIdentity, Attempt}
use durable_agent_handoff.Queries.{attempt_has_exit}
use durable_agent_handoff.Commands.Recovery.{
  Inspector, inspect_match, exact_process_match, StartupRecovery, is_gone, recovery_of, live_one,
  inherited, live_among,
}

abbrev found_alive : String → Fallible (String × Bool) → Bool
found_alive start_token (err e) = false
found_alive start_token (ok (token, alive)) = alive && token == start_token

-- Whether the operating system answers for a process that it is alive with its start token.
abbrev pub lives : Inspector → Option ProcessIdentity → Bool
lives inspector none = false
lives inspector (some p) = found_alive p.start_token (inspector p.pid)

-- An attempt that has no exit milestone, with a process that lives, or with none that does.
abbrev pub is_running_on : Inspector → Attempt → Bool
is_running_on inspector a =
    not (any (λ m. is_exit m.kind) a.milestones) && lives inspector a.process

abbrev pub is_left_behind : Inspector → Attempt → Bool
is_left_behind inspector a =
    not (any (λ m. is_exit m.kind) a.milestones) && not (lives inspector a.process)

abbrev pub recovery_for : Attempt → StartupRecovery
recovery_for a = record { attempt_id = a.id; lease_id = a.lease_id; process = a.process }

is_gone-lives :
    (inspector : Inspector) (process : Option ProcessIdentity) (gone : Bool)
    → is_gone inspector process ≡ ok gone
    → lives inspector process ≡ not gone
unfolding is_gone exact_process_match inspect_match
is_gone-lives inspector none gone h = ground (arith, h)
is_gone-lives inspector (some p) gone h = elim (Fallible-cases (inspector p.pid)) [
  | inr (e, failed) ↦ ground (arith, h, failed)
  | inl ((token, alive), found) ↦ ground (arith, h, found)
]

if-map :
    {A : Type 0} {B : Type 0} (f : A → B) (b : Bool) (x : A) (ys : List A)
    → ((if b then f x ∷ [] else []) ++ map f ys) ≡ map f (if b then x ∷ ys else ys)
if-map f true x ys = refl
if-map f false x ys = refl

recovery_of-taken :
    (inspector : Inspector) (a : Attempt) (own : List StartupRecovery)
    → recovery_of inspector a ≡ ok own
    → (own ≡ (if is_left_behind inspector a then recovery_for a ∷ [] else []))
      × (live_one inspector a ≡ ok (if is_running_on inspector a then a.id ∷ [] else []))
unfolding attempt_has_exit
recovery_of-taken inspector a own h = elim (Bool-cases (any (λ m. is_exit m.kind) a.milestones)) [
  | inl over ↦ (ground (arith, h, over), ground (arith, over))
  | inr fresh ↦ elim (Fallible-cases (is_gone inspector a.process)) [
    | inr (e, failed) ↦ absurd (ground (arith, h, fresh, failed))
    | inl (gone, g) ↦
        let there = is_gone-lives inspector a.process gone g in
        (
          ground (arith, h, fresh, g, there),
          elim (Option-cases a.process) [
            | inl z ↦ ground (arith, fresh, z)
            | inr (p, z) ↦ ground (arith, fresh, g, there, z)
          ],
        )
  ]
]

-- If the loop over the attempts of a start finds the inherited, they are in their order exactly those
-- without an exit whose process does not live, and the other loop finds exactly those without an exit
-- whose process lives.
pub inherited-live :
    (inspector : Inspector) (xs : List Attempt) (rs : List StartupRecovery)
    → inherited inspector xs ≡ ok rs
    → (rs ≡ map recovery_for (keep (is_left_behind inspector) xs))
      × (live_among inspector xs ≡ ok (map (λ a. a.id) (keep (is_running_on inspector) xs)))
unfolding inherited live_among
inherited-live inspector [] rs h = (cc, refl)
inherited-live inspector (a ∷ xs) rs h =
    let (own, one, r₀) = >>=-eq-ok (recovery_of inspector a) _ h in
    let (others, rest, r₁) = >>=-eq-ok (inherited inspector xs) _ r₀ in
    let whole : own ++ others ≡ rs = cc in
    let (taken, live) = recovery_of-taken inspector a own one in
    let (all, lives_all) = inherited-live inspector xs others rest in
    (
      sym whole
          ∙ rw (taken, all)
              (if-map recovery_for (is_left_behind inspector a) a
                (keep (is_left_behind inspector) xs)),
      rw (live, lives_all)
          (ap ok (
            if-map (λ (x : Attempt). x.id) (is_running_on inspector a) a
              (keep (is_running_on inspector) xs))),
    )
