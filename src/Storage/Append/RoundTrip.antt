-- ===== src/Storage/Append/RoundTrip.antt =====
-- What is appended is read back, in order, after the records before it.
use durable_agent_handoff.Prelude.{
  ℕ, suc, ◌≡◌, refl, sym, ap, ◌∙◌, true, some, List, [], ◌∷◌, ◌++◌, length, Fallible, ok, ◌>>=◌,
  >>=-ext, >>=-assoc,
}
use mathlib.Core.List.{append-nil}
use durable_agent_handoff.Storage.Bytes.{Bytes, trim, trim-trim}
use durable_agent_handoff.Storage.Walk.{Format, walk}
use durable_agent_handoff.Storage.Walk.Records.{
  IsRecord, IsLog, IsTorn, render, visit_records, walk-log,
}
use durable_agent_handoff.Storage.Repair.Tails.{repair_tail-torn, render-append}
use durable_agent_handoff.Storage.Append.{Write, Answers, append_record}
use durable_agent_handoff.Storage.Append.Cuts.{IsUncuttable}
use durable_agent_handoff.Storage.Append.Atomic.{encoded_record-eq, all_records, nothing-IsTorn}

-- A file system without faults
abbrev pub untroubled : Answers
untroubled = record {
  valid_at_open = ok tt;
  opened = ok tt;
  valid_at_repair = ok tt;
  valid_at_append = ok tt;
  pinned_before = ok tt;
  write = Write.finished;
  synced = ok tt;
  pinned_after = ok tt;
  closed = ok tt;
}

visit_records-append {ℓ} :
    {S : Type ℓ} (visit : S → ℕ → Bytes → Fallible S) (n : ℕ) (state : S) (rs : List Bytes)
    (r : Bytes)
    → visit_records visit n state (rs ++ r ∷ []) ≡ (
        visit_records visit n state rs >>= λ (m, next).
        visit next (suc m) (trim r) >>= λ last. ok (suc m, last))
unfolding visit_records
visit_records-append visit n state [] r = refl
visit_records-append visit n state (s ∷ rs) r =
    >>=-ext (visit state (suc n) (trim s)) (λ next. visit_records visit (suc n) next (rs ++ r ∷ []))
      (λ next. visit_records visit (suc n) next rs >>= λ (m, at).
        visit at (suc m) (trim r) >>= λ last. ok (suc m, last))
      (λ next. visit_records-append visit (suc n) next rs r)
    ∙ sym (
        >>=-assoc (visit state (suc n) (trim s)) (λ next. visit_records visit (suc n) next rs)
          (λ (m, at). visit at (suc m) (trim r) >>= λ last. ok (suc m, last)))

append-stores :
    (format : Format) (encode : ℕ → Fallible Bytes) (rs : List Bytes) (t encoded : Bytes)
    → IsLog format 0 rs
    → IsTorn format t
    → encode (suc (length rs)) ≡ ok encoded
    → IsRecord format (suc (length rs)) (trim encoded)
    → IsUncuttable format (trim encoded)
    → format.is_json (trim encoded) ≡ true
    → append_record untroubled format (some encode) (render rs ++ t)
      ≡ (render (rs ++ trim encoded ∷ []), ok (suc (length rs)))
unfolding append_record
append-stores format encode rs t encoded log torn h x u j =
    rw
      (
        repair_tail-torn format rs t log torn,
        encoded_record-eq format rs log (trim encoded) x u encode encoded h refl,
        j,
        render-append rs (trim encoded),
      )
      refl

-- Where the file system has no faults, an append to a log, with a torn record at its end or not, of a
-- JSON text that is the next record returns the record's number; and a walk of the file then visits
-- what a walk of it visited before, under the same numbers, and after that the text, without the white
-- space around it, under the next number.
pub append-walk {ℓ} :
    {S : Type ℓ} (visit : S → ℕ → Bytes → Fallible S) (state : S) (format : Format)
    (encode : ℕ → Fallible Bytes) (rs : List Bytes) (t encoded : Bytes)
    → IsLog format 0 rs
    → IsTorn format t
    → encode (suc (length rs)) ≡ ok encoded
    → IsRecord format (suc (length rs)) (trim encoded)
    → IsUncuttable format (trim encoded)
    → format.is_json (trim encoded) ≡ true
    → let file = render rs ++ t in
      let (stored, result) = append_record untroubled format (some encode) file in
      (result ≡ ok (suc (length rs)))
      × (walk format true visit state stored ≡ (
          walk format true visit state file >>= λ (m, next).
          visit next (suc m) (trim encoded) >>= λ last. ok (suc m, last)))
append-walk visit state format encode rs t encoded log torn h x u j =
    let stores = append-stores format encode rs t encoded log torn h x u j in
    let all = all_records format rs log (trim encoded) x u in
    let walked =
      walk-log visit format state (rs ++ trim encoded ∷ []) [] all (nothing-IsTorn format rs log) in
    rw (stores, walk-log visit format state rs t log torn)
      (
        refl,
        ap (walk format true visit state) (sym (append-nil (render (rs ++ trim encoded ∷ []))))
            ∙ walked
            ∙ visit_records-append visit 0 state rs (trim encoded)
            ∙ rw (trim-trim encoded) refl,
      )
