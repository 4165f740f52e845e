-- ===== src/Storage/Walk/Records.antt =====
-- The walk of a file of whole records, with a torn one at its end.
use durable_agent_handoff.Prelude.{
  ℕ, zero, suc, ◌^◌, ◌≤◌, ◌<◌, ◌≡◌, refl, ◌∙◌, ◌⊎◌, inl, inr, true, false, ◌||◌, List, [], ◌∷◌,
  ◌++◌, arith, eqb, Bool-cases, is_empty, length, length-append, All, Error, Fallible, ok, err,
  ◌>>=◌, >>=-ext,
}
use mathlib.Core.List.{append_assoc}
use durable_agent_handoff.Storage.Bytes.{Bytes, newline, trim, trim-newline}
use durable_agent_handoff.Storage.Lines.{first_line, after_line, is_last, read_line-eq}
use durable_agent_handoff.Storage.Walk.{
  Format, parse_sequence, next_of, is_complete, ledger_line, walk_from, walk,
}

-- No newline stands in a text.
abbrev pub IsPlain : Bytes → Type 0
IsPlain s = All (λ c. eqb c newline ≡ false) s

unfoldable pub render : List Bytes → Bytes
render [] = []
render (r ∷ rs) = r ++ newline ∷ render rs

first_line-plain : (r s : Bytes) → IsPlain r → first_line (r ++ newline ∷ s) ≡ r ++ newline ∷ []
unfolding first_line
first_line-plain [] s p = refl
first_line-plain (c ∷ r) s p = rw (p.0, first_line-plain r s p.1) refl

after_line-plain : (r s : Bytes) → IsPlain r → after_line (r ++ newline ∷ s) ≡ s
unfolding after_line
after_line-plain [] s p = refl
after_line-plain (c ∷ r) s p = rw p.0 (after_line-plain r s p.1)

is_last-plain : (r s : Bytes) → IsPlain r → is_last (r ++ newline ∷ s) ≡ false
unfolding is_last
is_last-plain [] s p = refl
is_last-plain (c ∷ r) s p = rw p.0 (is_last-plain r s p.1)

tail_line : (t : Bytes) → IsPlain t → (first_line t ≡ t) × (after_line t ≡ []) × (is_last t ≡ true)
unfolding first_line after_line is_last
tail_line [] p = (refl, refl, refl)
tail_line (c ∷ t) p = let (f, a, l) = tail_line t p.1 in (rw (p.0, f) refl, rw p.0 a, rw p.0 l)

pub is_empty-newline : (r : Bytes) → is_empty (r ++ newline ∷ []) ≡ false
is_empty-newline [] = refl
is_empty-newline (c ∷ r) = refl

pub is_next : (n : ℕ) → suc n < 2 ^ 64 → eqb (suc n) (next_of n) ≡ true
is_next n h = ground (arith, h)

pub is_complete-newline : (r : Bytes) → is_complete (r ++ newline ∷ []) ≡ true
unfolding is_complete
is_complete-newline [] = refl
is_complete-newline (c ∷ []) = refl
is_complete-newline (c ∷ d ∷ r) = is_complete-newline (d ∷ r)

pub is_complete-plain : (t : Bytes) → IsPlain t → is_complete t ≡ false
unfolding is_complete
is_complete-plain [] p = refl
is_complete-plain (c ∷ []) p = p.0
is_complete-plain (c ∷ d ∷ t) p = is_complete-plain (d ∷ t) p.1

-- A record of a log under a sequence number: a line within the limit that has the number, which a
-- uint64 holds.
abbrev pub IsRecord : Format → ℕ → Bytes → Type 0
IsRecord format n r =
    IsPlain r
    × (length r < format.max_record_bytes)
    × (parse_sequence format (trim r) ≡ ok n)
    × (n < 2 ^ 64)
    × (is_empty (trim r) ≡ false)

-- The records after the number n.
abbrev pub IsLog : Format → ℕ → List Bytes → Type 0
IsLog format n [] = Unit {0}
IsLog format n (r ∷ rs) = IsRecord format (suc n) r × IsLog format (suc n) rs

-- What a torn append leaves: nothing, or a line without its end that does not decode.
abbrev pub IsTorn : Format → Bytes → Type 0
IsTorn format t =
    IsPlain t
    × (length t ≤ format.max_record_bytes)
    × ((t ≡ []) ⊎ ((e : Error) × (parse_sequence format (trim t) ≡ err e)))

pub ledger_line-record :
    (format : Format) (r s : Bytes)
    → IsPlain r
    → length r < format.max_record_bytes
    → ledger_line format (r ++ newline ∷ s)
      ≡ ok (record { text = r ++ newline ∷ []; following = s; at_end = false })
unfolding ledger_line
ledger_line-record format r s p short =
    read_line-eq format.max_record_bytes 65535 (suc (length (r ++ newline ∷ s))) []
      (r ++ newline ∷ s) (omega arith)
    ∙ rw (first_line-plain r s p, after_line-plain r s p, is_last-plain r s p)
        (ground (arith, length-append r (newline ∷ [])))

pub ledger_line-tail :
    (format : Format) (t : Bytes)
    → IsPlain t
    → length t ≤ format.max_record_bytes
    → ledger_line format t ≡ ok (record { text = t; following = []; at_end = true })
unfolding ledger_line
ledger_line-tail format t p short =
    let (f, a, l) = tail_line t p in
    read_line-eq format.max_record_bytes 65535 (suc (length t)) [] t (omega arith)
    ∙ rw (f, a, l) (ground arith)

module _ {ℓ} {S : Type ℓ} (visit : S → ℕ → Bytes → Fallible S) where
  -- The visits of records after the number n, and the number reached.
  unfoldable pub visit_records : ℕ → S → List Bytes → Fallible (ℕ × S)
  visit_records n state [] = ok (n, state)
  visit_records n state (r ∷ rs) =
      visit state (suc n) (trim r) >>= λ next. visit_records (suc n) next rs

  module _ (format : Format) where
    walk_from-torn :
        (fuel n : ℕ) (state : S) (t : Bytes)
        → IsTorn format t
        → walk_from format true visit (suc fuel) n state t ≡ ok (n, state)
    unfolding walk_from
    walk_from-torn fuel n state t torn = rw (ledger_line-tail format t torn.0 torn.1) (elim torn.2 [
      | inl e ↦ rw e refl
      | inr (e, undecoded) ↦ elim (Bool-cases (is_empty t || is_empty (trim t))) [
        | inl skipped ↦ rw skipped refl
        | inr read ↦ rw (read, undecoded, is_complete-plain t torn.0) refl
      ]
    ])

    walk_from-record :
        (fuel n : ℕ) (state : S) (r s : Bytes)
        → IsRecord format (suc n) r
        → walk_from format true visit (suc fuel) n state (r ++ newline ∷ s) ≡ (
            visit state (suc n) (trim r) >>= λ next.
            walk_from format true visit fuel (suc n) next s)
    unfolding walk_from
    walk_from-record fuel n state r s x =
        rw (ledger_line-record format r s x.0 x.1)
          (rw (is_empty-newline r, trim-newline r, x.4, x.2, is_next n x.3, trim-newline r) refl)

    walk_from-log :
        (fuel n : ℕ) (state : S) (rs : List Bytes) (t : Bytes)
        → length rs < fuel
        → IsLog format n rs
        → IsTorn format t
        → walk_from format true visit fuel n state (render rs ++ t) ≡ visit_records n state rs
    unfolding render visit_records
    walk_from-log zero n state rs t enough log torn = absurd (omega (arith, enough))
    walk_from-log (suc fuel) n state [] t enough log torn = walk_from-torn fuel n state t torn
    walk_from-log (suc fuel) n state (r ∷ rs) t enough log torn =
        rw (append_assoc r (newline ∷ render rs) t) (
          walk_from-record fuel n state r (render rs ++ t) log.0
          ∙ >>=-ext (visit state (suc n) (trim r))
              (λ next. walk_from format true visit fuel (suc n) next (render rs ++ t))
              (λ next. visit_records (suc n) next rs)
              (λ next. walk_from-log fuel (suc n) next rs t (omega (arith, enough)) log.1 torn))

pub length-render : (rs : List Bytes) → length rs ≤ length (render rs)
unfolding render
length-render [] = omega arith
length-render (r ∷ rs) = omega (arith, length-render rs, length-append r (newline ∷ render rs))

-- The walk of a log with a torn record at its end visits the log's records in order, each trimmed and
-- under its number from 1, stops at the first error of a visit, and does not mention the torn record.
pub walk-log {ℓ} :
    {S : Type ℓ} (visit : S → ℕ → Bytes → Fallible S) (format : Format) (state : S)
    (rs : List Bytes) (t : Bytes)
    → IsLog format 0 rs
    → IsTorn format t
    → walk format true visit state (render rs ++ t) ≡ visit_records visit 0 state rs
unfolding walk
walk-log visit format state rs t log torn =
    walk_from-log visit format (suc (length (render rs ++ t))) 0 state rs t
      (omega (arith, length-render rs, length-append (render rs) t)) log torn
