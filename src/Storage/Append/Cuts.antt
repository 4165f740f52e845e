-- ===== src/Storage/Append/Cuts.antt =====
-- A log that grows by a record, and a record that is cut off.
use durable_agent_handoff.Prelude.{
  ℕ, zero, suc, ◌+◌, ◌^◌, ◌≤◌, ◌<◌, ◌≡◌, refl, ap, subst, ◌⊎◌, inl, inr, true, false, List, [], ◌∷◌,
  ◌++◌, arith, ltb, eqb, length, Error, Fallible, ok, err, ◌>>=◌, ◌>>◌,
}
use durable_agent_handoff.Storage.Bytes.{Bytes, newline, trim}
use durable_agent_handoff.Storage.Walk.{Format, parse_sequence, next_of}
use durable_agent_handoff.Storage.Walk.Records.{IsPlain, IsRecord, IsLog}
use durable_agent_handoff.Storage.Repair.{take}

-- A record that is cut off does not decode.
abbrev pub IsUncuttable : Format → Bytes → Type 0
IsUncuttable format r =
    (k : ℕ)
    → k < length r
    → (take k r ≡ []) ⊎ ((e : Error) × (parse_sequence format (trim (take k r)) ≡ err e))

pub IsLog-append :
    (format : Format) (n : ℕ) (rs : List Bytes) (r : Bytes)
    → IsLog format n rs
    → IsRecord format (n + suc (length rs)) r
    → IsLog format n (rs ++ r ∷ [])
IsLog-append format n [] r log x =
    let number : n + 1 ≡ suc n = omega arith in (subst (λ m. IsRecord format m r) number x, tt)
IsLog-append format n (s ∷ rs) r log x =
    let number : n + suc (suc (length rs)) ≡ suc n + suc (length rs) = omega arith in
    (log.0, IsLog-append format (suc n) rs r log.1 (subst (λ m. IsRecord format m r) number x))

pub IsPlain-take : (k : ℕ) (s : Bytes) → IsPlain s → IsPlain (take k s)
unfolding take
IsPlain-take zero s p = tt
IsPlain-take (suc k) [] p = tt
IsPlain-take (suc k) (c ∷ s) p = (p.0, IsPlain-take k s p.1)

pub length-take-le : (k : ℕ) (s : Bytes) → length (take k s) ≤ length s
unfolding take
length-take-le zero s = omega arith
length-take-le (suc k) [] = omega arith
length-take-le (suc k) (c ∷ s) = omega (arith, length-take-le k s)

-- What a write of a record and a newline leaves that stops at some byte: a part of the record, the
-- record, or both.
pub take-cases :
    (k : ℕ) (r : Bytes)
    → ((k < length r) × (take k (r ++ newline ∷ []) ≡ take k r))
      ⊎ (take k (r ++ newline ∷ []) ≡ r)
      ⊎ (take k (r ++ newline ∷ []) ≡ r ++ newline ∷ [])
unfolding take
take-cases zero [] = inr (inl refl)
take-cases (suc zero) [] = inr (inr refl)
take-cases (suc (suc k)) [] = inr (inr refl)
take-cases zero (c ∷ r) = inl (omega arith, refl)
take-cases (suc k) (c ∷ r) = elim (take-cases k r) [
  | inl (h, e) ↦ inl (omega (arith, h), ap (λ s. c ∷ s) e)
  | inr (inl e) ↦ inr (inl (ap (λ s. c ∷ s) e))
  | inr (inr e) ↦ inr (inr (ap (λ s. c ∷ s) e))
]

pub next_of-eq : (n : ℕ) → suc n < 2 ^ 64 → next_of n ≡ suc n
next_of-eq n h = omega (arith, h)

pub eqb_refl : (n : ℕ) → eqb n n ≡ true
eqb_refl n = ground arith

pub fits : (r : Bytes) (limit : ℕ) → length r < limit → ltb limit (length r + 1) ≡ false
fits r limit h = ground (arith, h)

pub gather :
    (c a b : Fallible (Unit {0})) (p : ℕ × Bytes)
    → (c >> a >> b >> ok p) ≡ ((c >> ok p) >>= λ next. a >> b >> ok next)
gather (err e) a b p = refl
gather (ok _) a b p = refl
