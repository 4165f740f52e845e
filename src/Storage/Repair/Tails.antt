-- ===== src/Storage/Repair/Tails.antt =====
-- The repair of a log with a torn record at its end, and with a whole one that only lacks its newline.
use durable_agent_handoff.Prelude.{
  ℕ, zero, suc, ◌+◌, ◌<◌, ◌≡◌, refl, sym, ap, ◌∙◌, inl, inr, false, List, [], ◌∷◌, ◌++◌, arith,
  if◌then◌else◌, Bool-cases, is_empty, length, length-append, Fallible, ok,
}
use mathlib.Core.List.{append_assoc, append-nil}
use durable_agent_handoff.Storage.Bytes.{Bytes, newline, trim, trim-newline}
use durable_agent_handoff.Storage.Walk.{Format}
use durable_agent_handoff.Storage.Walk.Records.{
  IsRecord, IsLog, IsTorn, render, is_next, is_complete-newline, is_complete-plain,
  is_empty-newline, ledger_line-record, ledger_line-tail, length-render,
}
use durable_agent_handoff.Storage.Repair.{Mending, take, drop, mend, repair_from, repair_tail}

pub take-append : (s t : Bytes) → take (length s) (s ++ t) ≡ s
unfolding take
take-append [] t = refl
take-append (c ∷ s) t = ap (λ r. c ∷ r) (take-append s t)

take-whole : (s : Bytes) → take (length s) s ≡ s
unfolding take
take-whole [] = refl
take-whole (c ∷ s) = ap (λ r. c ∷ r) (take-whole s)

drop-beyond : (s : Bytes) → drop (suc (length s)) s ≡ []
unfolding drop
drop-beyond [] = refl
drop-beyond (c ∷ s) = drop-beyond s

-- What is not blank is not empty.
is_empty-trimmed : (t : Bytes) → is_empty (trim t) ≡ false → is_empty t ≡ false
unfolding trim
is_empty-trimmed [] h = h
is_empty-trimmed (c ∷ t) h = refl

pub render-append :
    (rs : List Bytes) (t : Bytes) → render (rs ++ t ∷ []) ≡ render rs ++ (t ++ newline ∷ [])
unfolding render
render-append [] t = refl
render-append (r ∷ rs) t =
    rw (render-append rs t) (sym (append_assoc r (newline ∷ render rs) (t ++ newline ∷ [])))

module _ (format : Format) where
  repair_from-record :
      (fuel n good : ℕ) (r s : Bytes)
      → IsRecord format (suc n) r
      → repair_from format (suc fuel) n good (r ++ newline ∷ s)
        ≡ repair_from format fuel (suc n) (good + length (r ++ newline ∷ [])) s
  unfolding repair_from
  repair_from-record fuel n good r s x =
      rw (ledger_line-record format r s x.0 x.1)
        (rw (is_empty-newline r, trim-newline r, x.2, is_next n x.3, is_complete-newline r) refl)

  -- Over the records of a log the loop comes to the tail, at the end of the last record.
  repair_from-log :
      (fuel n good : ℕ) (rs : List Bytes) (t : Bytes) (outcome : Fallible (ℕ × Mending))
      → length rs < fuel
      → IsLog format n rs
      → ((left : ℕ)
          → repair_from format (suc left) (n + length rs) (good + length (render rs)) t ≡ outcome)
      → repair_from format fuel n good (render rs ++ t) ≡ outcome
  unfolding render
  repair_from-log zero n good rs t outcome enough log tail = absurd (omega (arith, enough))
  repair_from-log (suc fuel) n good [] t outcome enough log tail =
      let number : n + 0 ≡ n = omega arith in
      let offset : good + 0 ≡ good = omega arith in rw (← number, ← offset) (tail fuel)
  repair_from-log (suc fuel) n good (r ∷ rs) t outcome enough log tail =
      let number : suc n + length rs ≡ n + suc (length rs) = omega arith in
      let offset : good + length (r ++ newline ∷ []) + length (render rs)
          ≡ good + length (r ++ newline ∷ render rs) =
        omega (arith, length-append r (newline ∷ []), length-append r (newline ∷ render rs)) in
      rw (append_assoc r (newline ∷ render rs) t) (
        repair_from-record fuel n good r (render rs ++ t) log.0
        ∙ repair_from-log fuel (suc n) (good + length (r ++ newline ∷ [])) rs t outcome
            (omega (arith, enough)) log.1 (λ left. rw (number, offset) (tail left)))

  -- A tail is empty, or cut off where it does not decode.
  repair_from-torn :
      (fuel n good : ℕ) (t : Bytes)
      → IsTorn format t
      → repair_from format (suc fuel) n good t
        ≡ (if is_empty t then ok (n, Mending.untouched) else ok (n, Mending.truncate_at good))
  unfolding repair_from
  repair_from-torn fuel n good t torn = rw (ledger_line-tail format t torn.0 torn.1) (elim torn.2 [
    | inl e ↦ rw e refl
    | inr (e, undecoded) ↦ elim (Bool-cases (is_empty t)) [
      | inl skipped ↦ rw skipped refl
      | inr read ↦ rw (read, undecoded, is_complete-plain t torn.0) refl
    ]
  ])

  -- A whole record that lacks its newline is given one.
  repair_from-whole :
      (fuel n good : ℕ) (t : Bytes)
      → IsRecord format (suc n) t
      → repair_from format (suc fuel) n good t ≡ ok (suc n, Mending.newline_at (good + length t))
  unfolding repair_from
  repair_from-whole fuel n good t x =
      rw (ledger_line-tail format t x.0 (omega (arith, x.1)))
        (rw (is_empty-trimmed t x.4, x.2, is_next n x.3, is_complete-plain t x.0) refl)

  repair_tail-log :
      (rs : List Bytes) (t : Bytes) (outcome : ℕ × Mending)
      → IsLog format 0 rs
      → ((left : ℕ) → repair_from format (suc left) (length rs) (length (render rs)) t ≡ ok outcome)
      → repair_tail format (render rs ++ t) ≡ ok (outcome.0, mend outcome.1 (render rs ++ t))
  unfolding repair_tail
  repair_tail-log rs t outcome log tail =
      let number : 0 + length rs ≡ length rs = omega arith in
      let offset : 0 + length (render rs) ≡ length (render rs) = omega arith in
      let reached =
        repair_from-log (suc (length (render rs ++ t))) 0 0 rs t (ok outcome)
          (omega (arith, length-render rs, length-append (render rs) t)) log
          (λ left. rw (number, offset) (tail left)) in
      rw reached refl

  -- Repair of a log with a torn record at its end restores the log, and returns its last number.
  pub repair_tail-torn :
      (rs : List Bytes) (t : Bytes)
      → IsLog format 0 rs
      → IsTorn format t
      → repair_tail format (render rs ++ t) ≡ ok (length rs, render rs)
  repair_tail-torn rs [] log torn =
      repair_tail-log rs [] (length rs, Mending.untouched) log
        (λ left. repair_from-torn left (length rs) (length (render rs)) [] torn)
      ∙ rw (append-nil (render rs)) refl
  repair_tail-torn rs (c ∷ t) log torn =
      repair_tail-log rs (c ∷ t) (length rs, Mending.truncate_at (length (render rs))) log
        (λ left. repair_from-torn left (length rs) (length (render rs)) (c ∷ t) torn)
      ∙ rw (take-append (render rs) (c ∷ t)) refl

  -- Repair of a log whose last record lacks only its newline adds it, and counts the record.
  pub repair_tail-whole :
      (rs : List Bytes) (t : Bytes)
      → IsLog format 0 rs
      → IsRecord format (suc (length rs)) t
      → repair_tail format (render rs ++ t) ≡ ok (suc (length rs), render (rs ++ t ∷ []))
  repair_tail-whole rs t log x =
      repair_tail-log rs t (suc (length rs), Mending.newline_at (length (render rs) + length t)) log
        (λ left. repair_from-whole left (length rs) (length (render rs)) t x)
      ∙ rw
          (
            ← length-append (render rs) t,
            take-whole (render rs ++ t),
            drop-beyond (render rs ++ t),
            render-append rs t,
          )
          (ap (λ file. ok (suc (length rs), file)) (append_assoc (render rs) t (newline ∷ [])))
