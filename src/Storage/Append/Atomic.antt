-- ===== src/Storage/Append/Atomic.antt =====
-- An append that stops at any byte leaves a file that is repaired to the log before or after it.
use durable_agent_handoff.Prelude.{
  ℕ, suc, ◌+◌, ◌≡◌, refl, subst, ◌⊎◌, inl, inr, false, not, some, List, [], ◌∷◌, ◌++◌, arith,
  is_empty, length, length-append, Error, invalid, Fallible, ok, err, ◌>>◌, refuse,
}
use mathlib.Core.List.{append-nil}
use durable_agent_handoff.Storage.Bytes.{Bytes, newline, trim, trim-trim}
use durable_agent_handoff.Storage.Walk.{Format, parse_sequence}
use durable_agent_handoff.Storage.Walk.Records.{IsRecord, IsLog, IsTorn, render}
use durable_agent_handoff.Storage.Repair.{take, repair_tail}
use durable_agent_handoff.Storage.Repair.Tails.{repair_tail-torn, repair_tail-whole, render-append}
use durable_agent_handoff.Storage.Append.{
  Write, Answers, encoded_record, written, finish, after_repair, append_record,
}
use durable_agent_handoff.Storage.Append.Cuts.{
  IsUncuttable, IsLog-append, IsPlain-take, length-take-le, take-cases, next_of-eq, eqb_refl, fits,
  gather,
}

-- The file is repaired to the log of these records.
abbrev pub Repairs : Format → Bytes → List Bytes → Type 0
Repairs format file rs = repair_tail format file ≡ ok (length rs, render rs)

-- What is said of a file and a result: the file is repaired to the log of the old records or of all of
-- them, and either the number of the last of all is returned and the file is their log, or an error is.
abbrev pub IsAtomic : Format → List Bytes → Bytes → Bytes × Fallible ℕ → Type 0
IsAtomic format rs r (file, result) =
    (Repairs format file rs ⊎ Repairs format file (rs ++ r ∷ []))
    × (((result ≡ ok (suc (length rs))) × (file ≡ render (rs ++ r ∷ [])))
        ⊎ ((e : Error) × (result ≡ err e)))

module _ (format : Format) (rs : List Bytes) (log : IsLog format 0 rs) where
  pub nothing-IsTorn : IsTorn format []
  nothing-IsTorn = (tt, omega arith, inl refl)

  render-Repairs : (all : List Bytes) → IsLog format 0 all → Repairs format (render all) all
  render-Repairs all whole =
      subst (λ file. Repairs format file all) (append-nil (render all))
        (repair_tail-torn format all [] whole nothing-IsTorn)

  module _ (r : Bytes) (x : IsRecord format (suc (length rs)) r) (u : IsUncuttable format r) where
    pub all_records : IsLog format 0 (rs ++ r ∷ [])
    all_records =
        let number : suc (length rs) ≡ 0 + suc (length rs) = omega arith in
        IsLog-append format 0 rs r log (subst (λ m. IsRecord format m r) number x)

    length-all : length (rs ++ r ∷ []) ≡ suc (length rs)
    length-all = omega (arith, length-append rs (r ∷ []))

    -- A write that stops at any byte.
    written-Repairs :
        (k : ℕ)
        → Repairs format (render rs ++ take k (r ++ newline ∷ [])) rs
          ⊎ Repairs format (render rs ++ take k (r ++ newline ∷ [])) (rs ++ r ∷ [])
    written-Repairs k = elim (take-cases k r) [
      | inl (h, e) ↦ inl (
          rw e (
            repair_tail-torn format rs (take k r) log
              (IsPlain-take k r x.0, omega (arith, length-take-le k r, x.1), u k h)))
      | inr (inl e) ↦ inr (rw (e, length-all) (repair_tail-whole format rs r log x))
      | inr (inr e) ↦ inr (rw (e, ← render-append rs r) (render-Repairs (rs ++ r ∷ []) all_records))
    ]

    write-IsAtomic :
        (w : Write) (answers : Answers)
        → IsAtomic format rs r
            (written (record answers { write = w }) (render rs) (suc (length rs), r))
    write-IsAtomic Write.finished answers = rw (← render-append rs r) (
      inr (render-Repairs (rs ++ r ∷ []) all_records),
      returned (answers.synced >> answers.pinned_after >> answers.closed),
    )
      where
        returned :
            (checked : Fallible (Unit {0}))
            → (((checked >> ok (suc (length rs))) ≡ ok (suc (length rs)))
                × (render (rs ++ r ∷ []) ≡ render (rs ++ r ∷ [])))
              ⊎ ((e : Error) × ((checked >> ok (suc (length rs))) ≡ err e))
        returned (ok _) = inl (refl, refl)
        returned (err e) = inr (e, refl)
    write-IsAtomic (Write.stopped k e) answers = (written-Repairs k, inr (e, refl))

    -- The file is left as it was, or repaired.
    kept-IsAtomic :
        (t : Bytes) (e : Error) → IsTorn format t → IsAtomic format rs r (render rs ++ t, err e)
    kept-IsAtomic t e torn = (inl (repair_tail-torn format rs t log torn), inr (e, refl))

    pub encoded_record-eq :
        (encode : ℕ → Fallible Bytes) (encoded : Bytes)
        → encode (suc (length rs)) ≡ ok encoded
        → trim encoded ≡ r
        → encoded_record format encode (length rs) ≡ (
            refuse (not (format.is_json r)) (invalid "secure ledger event is not valid JSON")
            >> ok (suc (length rs), r))
    unfolding encoded_record
    encoded_record-eq encode encoded e same =
        let trimmed : trim r ≡ r = subst (λ q. trim q ≡ q) same (trim-trim encoded) in
        let filled : is_empty r ≡ false = subst (λ q. is_empty q ≡ false) trimmed x.4 in
        let numbered : parse_sequence format r ≡ ok (suc (length rs)) =
          subst (λ q. parse_sequence format q ≡ ok (suc (length rs))) trimmed x.2 in
        rw
          (
            next_of-eq (length rs) x.3,
            e,
            same,
            filled,
            numbered,
            eqb_refl (suc (length rs)),
            fits r format.max_record_bytes x.1,
          )
          refl

    finish-IsAtomic :
        (answers : Answers) (checked : Fallible (Unit {0}))
        → IsAtomic format rs r (finish answers (render rs) (checked >> ok (suc (length rs), r)))
    finish-IsAtomic answers (ok _) = write-IsAtomic answers.write answers
    finish-IsAtomic answers (err e) = (inl (render-Repairs rs log), inr (e, refl))

    after_repair-IsAtomic :
        (answers : Answers) (encode : ℕ → Fallible Bytes) (encoded t : Bytes)
        (checked : Fallible (Unit {0}))
        → encode (suc (length rs)) ≡ ok encoded
        → trim encoded ≡ r
        → IsTorn format t
        → IsAtomic format rs r (
            after_repair answers format encode
              (render rs ++ t)
              (checked >> ok (length rs, render rs)))
    after_repair-IsAtomic answers encode encoded t (err e) h same torn = kept-IsAtomic t e torn
    after_repair-IsAtomic answers encode encoded t (ok _) h same torn =
        rw (encoded_record-eq encode encoded h same) (
          subst (λ z. IsAtomic format rs r (finish answers (render rs) z))
            (gather is_json answers.valid_at_append answers.pinned_before (suc (length rs), r))
            (finish-IsAtomic answers (is_json >> answers.valid_at_append >> answers.pinned_before)))
      where
        is_json : Fallible (Unit {0})
        is_json = refuse (not (format.is_json r)) (invalid "secure ledger event is not valid JSON")

-- Let a log, with a torn record at its end or not, be appended to, and let what is encoded be the next
-- record, one that does not decode when it is cut off. Whatever the file system answers, also if it
-- stops the write at some byte, the file is then repaired either to the log of the old records or to
-- that of the old ones and the new one; and what is returned is an error, or the
-- number of the new record, and then the file is that second log.
pub append-IsAtomic :
    (answers : Answers) (format : Format) (encode : ℕ → Fallible Bytes) (rs : List Bytes)
    (t encoded : Bytes)
    → IsLog format 0 rs
    → IsTorn format t
    → encode (suc (length rs)) ≡ ok encoded
    → IsRecord format (suc (length rs)) (trim encoded)
    → IsUncuttable format (trim encoded)
    → IsAtomic format rs
        (trim encoded)
        (append_record answers format (some encode) (render rs ++ t))
unfolding append_record
append-IsAtomic answers format encode rs t encoded log torn h x u =
    rw (repair_tail-torn format rs t log torn) (
      after_repair-IsAtomic format rs log (trim encoded) x u answers encode encoded t
        (answers.valid_at_open >> answers.opened >> answers.valid_at_repair) h refl torn)
