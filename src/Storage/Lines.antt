-- ===== src/Storage/Lines.antt =====
-- Ledger.readLine: the slices of a buffered reader put together up to the end of a line.
use durable_agent_handoff.Prelude.{
  ℕ, zero, suc, ◌+◌, ◌<◌, ◌≡◌, refl, inl, inr, Bool, true, false, [], ◌∷◌, ◌++◌, arith, ltb, eqb,
  if◌then◌else◌, Bool-cases, length, length-append, invalid, out_of_fuel, Fallible, ok, err,
}
use mathlib.Core.List.{append_assoc}
use durable_agent_handoff.Storage.Bytes.{Bytes, newline}

-- How a slice ends: after a newline, with the buffer full, or with the file.
pub data Stop : Type 0 where
  found full ended : Stop

pub record Slice : Type 0 where
  pub part : Bytes
  pub rest : Bytes
  pub stop : Stop

abbrev with_byte : ℕ → Slice → Slice
with_byte c x = record x { part = c ∷ x.part }

-- bufio.Reader.ReadSlice('\n') with room for so many bytes in the buffer
unfoldable pub read_slice : ℕ → Bytes → Slice
read_slice zero s = record { part = []; rest = s; stop = Stop.full }
read_slice (suc k) [] = record { part = []; rest = []; stop = Stop.ended }
read_slice (suc k) (c ∷ s) = elim (eqb c newline) [
  | true ↦ record { part = c ∷ []; rest = s; stop = Stop.found }
  | false ↦ with_byte c (read_slice k s)
]

-- A line with what follows it, and whether the file ended with it.
pub record Line : Type 0 where
  pub text : Bytes
  pub following : Bytes
  pub at_end : Bool

-- What the loop of readLine does with a slice: the line so far, and how the loop goes on.
abbrev use_slice : ℕ → Bytes → (Bytes → Bytes → Fallible Line) → Slice → Fallible Line
use_slice limit line again x =
    let read = line ++ x.part in
    if ltb limit (length read)
    then err (invalid "secure ledger event exceeds %d bytes")
    else elim x.stop [
      | Stop.full ↦ again read x.rest
      | Stop.found ↦ ok (record { text = read; following = x.rest; at_end = false })
      | Stop.ended ↦ ok (record { text = read; following = x.rest; at_end = true })
    ]

-- readLine, with the size of its buffer less one, and the line so far
unfoldable pub read_line : (max_record_bytes buffer : ℕ) → ℕ → Bytes → Bytes → Fallible Line
read_line limit buffer zero line s = err out_of_fuel
read_line limit buffer (suc fuel) line s =
    use_slice limit line (read_line limit buffer fuel) (read_slice (suc buffer) s)

-- The line in front, what follows it, and whether the file ends with it, without a buffer.
unfoldable pub first_line : Bytes → Bytes
first_line [] = []
first_line (c ∷ s) = if eqb c newline then c ∷ [] else c ∷ first_line s

unfoldable pub after_line : Bytes → Bytes
after_line [] = []
after_line (c ∷ s) = if eqb c newline then s else after_line s

unfoldable pub is_last : Bytes → Bool
is_last [] = true
is_last (c ∷ s) = if eqb c newline then false else is_last s

abbrev pub line_of : Bytes → Bytes → Line
line_of line s = record {
  text = line ++ first_line s;
  following = after_line s;
  at_end = is_last s;
}

-- What a slice with a certain end says of the line in front.
abbrev Sliced : ℕ → Bytes → Bytes → Bytes → Stop → Type 0
Sliced k s part rest Stop.full =
    (first_line s ≡ part ++ first_line rest)
    × (after_line s ≡ after_line rest)
    × (is_last s ≡ is_last rest)
    × (k + length rest ≡ length s)
Sliced k s part rest Stop.found =
    (first_line s ≡ part) × (after_line s ≡ rest) × (is_last s ≡ false)
Sliced k s part rest Stop.ended = (first_line s ≡ part) × (after_line s ≡ rest) × (is_last s ≡ true)

with_byte-Sliced :
    (k c : ℕ) (s part rest : Bytes) (stop : Stop)
    → eqb c newline ≡ false
    → Sliced k s part rest stop
    → Sliced (suc k) (c ∷ s) (c ∷ part) rest stop
unfolding first_line after_line is_last
with_byte-Sliced k c s part rest Stop.full n h =
    (rw (n, h.0) refl, rw n h.1, rw n h.2, omega (arith, h.3))
with_byte-Sliced k c s part rest Stop.found n h = (rw (n, h.0) refl, rw n h.1, rw n h.2)
with_byte-Sliced k c s part rest Stop.ended n h = (rw (n, h.0) refl, rw n h.1, rw n h.2)

Agrees : ℕ → Bytes → Slice → Type 0
Agrees k s x = Sliced k s x.part x.rest x.stop

module _ (k c : ℕ) (s : Bytes) where
  read_slice-newline :
      eqb c newline ≡ true
      → read_slice (suc k) (c ∷ s) ≡ record { part = c ∷ []; rest = s; stop = Stop.found }
  unfolding read_slice
  read_slice-newline y = rw (read_slice, y) refl

  read_slice-byte :
      eqb c newline ≡ false → read_slice (suc k) (c ∷ s) ≡ with_byte c (read_slice k s)
  unfolding read_slice
  read_slice-byte n = rw (read_slice, n) refl

read_slice-Agrees : (k : ℕ) (s : Bytes) → Agrees k s (read_slice k s)
unfolding read_slice first_line after_line is_last Agrees
read_slice-Agrees zero s = (refl, refl, refl, omega arith)
read_slice-Agrees (suc k) [] = (refl, refl, refl)
read_slice-Agrees (suc k) (c ∷ s) = elim (Bool-cases (eqb c newline)) [
  | inl y ↦ rw (read_slice-newline k c s y) (rw y refl, rw y refl, rw y refl)
  | inr n ↦
      let x = read_slice k s in
      rw (read_slice-byte k c s n)
        (with_byte-Sliced k c s x.part x.rest x.stop n (read_slice-Agrees k s))
]

-- The outcome of reading a line of a file whose line so far is known.
abbrev pub limited : ℕ → Line → Fallible Line
limited limit x =
    if ltb limit (length x.text) then err (invalid "secure ledger event exceeds %d bytes") else ok x

-- A line whose beginning is too long is too long.
limited-append :
    (limit : ℕ) (read more rest : Bytes) (last : Bool)
    → (if ltb limit (length read)
        then err (invalid "secure ledger event exceeds %d bytes")
        else limited limit (record { text = read ++ more; following = rest; at_end = last }))
      ≡ limited limit (record { text = read ++ more; following = rest; at_end = last })
limited-append limit read more rest last = ground (arith, length-append read more)

use_slice-eq :
    (limit buffer : ℕ) (line s part rest : Bytes) (stop : Stop)
    (again : Bytes → Bytes → Fallible Line)
    → Sliced (suc buffer) s part rest stop
    → ((read : Bytes)
        → length rest < length s
        → again read rest ≡ limited limit (line_of read rest))
    → use_slice limit line again (record { part = part; rest = rest; stop = stop })
      ≡ limited limit (line_of line s)
use_slice-eq limit buffer line s part rest Stop.full again h goes_on =
    let next = goes_on (line ++ part) (omega (arith, h.3)) in
    rw (h.0, h.1, h.2, next, ← append_assoc line part (first_line rest))
      (limited-append limit (line ++ part) (first_line rest) (after_line rest) (is_last rest))
use_slice-eq limit buffer line s part rest Stop.found again h goes_on = rw (h.0, h.1, h.2) refl
use_slice-eq limit buffer line s part rest Stop.ended again h goes_on = rw (h.0, h.1, h.2) refl

-- With fuel for one slice more than there are bytes, read_line returns the line in front and what
-- follows it, or the error of a line that is longer than a record may be, whatever the buffer's size.
pub read_line-eq :
    (limit buffer fuel : ℕ) (line s : Bytes)
    → length s < fuel
    → read_line limit buffer fuel line s ≡ limited limit (line_of line s)
unfolding read_line Agrees
read_line-eq limit buffer zero line s h = absurd (omega (arith, h))
read_line-eq limit buffer (suc fuel) line s h =
    let x = read_slice (suc buffer) s in
    use_slice-eq limit buffer line s x.part x.rest x.stop (read_line limit buffer fuel)
      (read_slice-Agrees (suc buffer) s)
      (λ read shorter. read_line-eq limit buffer fuel read x.rest (omega arith))
