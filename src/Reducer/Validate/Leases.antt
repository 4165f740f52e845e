-- ===== src/Reducer/Validate/Leases.antt =====
-- What validateState gives of the writer leases: one active lease for each worktree.
use durable_agent_handoff.Prelude.{
  String, ◌≡◌, false, not, some, [], ◌∷◌, arith, ◌==◌, eq_iff, eq_refl, Assoc, lookup, put,
  lookup-put, if◌then◌else◌, ok,
}
use durable_agent_handoff.Types.{Lease, State}
use durable_agent_handoff.Environment.{Environment}
use durable_agent_handoff.Reducer.Validate.{is_held, validate_leases, validate_state}

abbrev pub IsActive : Lease → Type 0
IsActive l = l.released_at ≡ 0

is_held-put :
    (roots : Assoc String) (v w id : String)
    → is_held (put v id roots) w ≡ (if v == w then not (id == "") else is_held roots w)
unfolding is_held
is_held-put roots v w id = ground (arith, lookup-put v w id roots)

-- A worktree that is held already has no active lease further on.
not-is_held :
    (s : State) (roots : Assoc String) (ls : Assoc Lease) (i : String) (l : Lease)
    → validate_leases s roots ls ≡ ok tt
    → lookup i ls ≡ some l
    → IsActive l
    → is_held roots l.canonical_worktree ≡ false
unfolding validate_leases lookup
not-is_held s roots [] i l v f a = cc
not-is_held s roots ((k, x) ∷ ls) i l v f a = ground (
  arith,
  not-is_held s roots ls i l,
  not-is_held s (put x.canonical_worktree k roots) ls i l,
  is_held-put roots x.canonical_worktree l.canonical_worktree k,
  eq_iff x.canonical_worktree l.canonical_worktree,
)

leases_exclusive :
    (s : State) (roots : Assoc String) (ls : Assoc Lease) (i j : String) (l m : Lease)
    → validate_leases s roots ls ≡ ok tt
    → lookup i ls ≡ some l
    → lookup j ls ≡ some m
    → IsActive l
    → IsActive m
    → l.canonical_worktree ≡ m.canonical_worktree
    → (i == "") ≡ false
    → (j == "") ≡ false
    → i ≡ j
unfolding validate_leases lookup
leases_exclusive s roots [] i j l m v f g a b w p q = cc
leases_exclusive s roots ((k, x) ∷ ls) i j l m v f g a b w p q = ground (
  arith,
  leases_exclusive s roots ls i j l m,
  leases_exclusive s (put x.canonical_worktree k roots) ls i j l m,
  not-is_held s (put x.canonical_worktree k roots) ls i l,
  not-is_held s (put x.canonical_worktree k roots) ls j m,
  is_held-put roots x.canonical_worktree l.canonical_worktree k,
  is_held-put roots x.canonical_worktree m.canonical_worktree k,
  eq_iff k i,
  eq_iff k j,
  eq_refl x.canonical_worktree,
)

-- In a state that validateState accepts, two active leases of one worktree, under identities that
-- are not empty, are the same lease.
pub validate_state-exclusive :
    (env : Environment) (s : State) (i j : String) (l m : Lease)
    → validate_state env s ≡ ok tt
    → lookup i s.leases ≡ some l
    → lookup j s.leases ≡ some m
    → IsActive l
    → IsActive m
    → l.canonical_worktree ≡ m.canonical_worktree
    → (i == "") ≡ false
    → (j == "") ≡ false
    → i ≡ j
unfolding validate_state
validate_state-exclusive env s i j l m v = leases_exclusive s [] s.leases i j l m (ground arith)
