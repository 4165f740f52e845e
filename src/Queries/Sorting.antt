-- ===== src/Queries/Sorting.antt =====
-- What a sort and a selection keep of a test over a list.
use durable_agent_handoff.Prelude.{
  String, ◌≡◌, refl, ap, ◌∙◌, Bool, ◌&&◌, ◌||◌, List, [], ◌∷◌, arith, ◌==◌, values, ltb, any, keep,
}
use durable_agent_handoff.Types.{Attempt, State}
use durable_agent_handoff.Queries.Ordered.{insert_by, sort_by, ordered_attempts_for_activity}

module _ {A : Type 0} (less : A → A → Bool) (p : A → Bool) where
  any-insert_by : (x : A) (ys : List A) → any p (insert_by less x ys) ≡ (p x || any p ys)
  unfolding insert_by
  any-insert_by x [] = refl
  any-insert_by x (y ∷ ys) = ground (arith, any-insert_by x ys)

  pub any-sort_by : (xs : List A) → any p (sort_by less xs) ≡ any p xs
  unfolding sort_by
  any-sort_by [] = refl
  any-sort_by (x ∷ xs) = any-insert_by x (sort_by less xs) ∙ ap (λ b. p x || b) (any-sort_by xs)

pub any-keep :
    {A : Type 0} (p q : A → Bool) (xs : List A) → any p (keep q xs) ≡ any (λ x. q x && p x) xs
any-keep p q [] = refl
any-keep p q (x ∷ xs) = ground (arith, any-keep p q xs)

-- A test holds of an attempt of an activity in their order exactly if it holds of one at all.
pub any-ordered_attempts_for_activity :
    (p : Attempt → Bool) (s : State) (id : String)
    → any p (ordered_attempts_for_activity s id)
      ≡ any (λ a. a.activity_id == id && p a) (values s.attempts)
unfolding ordered_attempts_for_activity
any-ordered_attempts_for_activity p s id =
    any-sort_by (λ a b. ltb a.ordinal b.ordinal) p
      (keep (λ a. a.activity_id == id) (values s.attempts))
    ∙ any-keep p (λ a. a.activity_id == id) (values s.attempts)
