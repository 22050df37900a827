-- ===== src/Encoding/Match/Found.antt =====
-- What is known of the row that is found for an instruction.
use lacc.Base.{
  ℕ, zero, suc, ◌≡◌, refl, Bool, true, false, ◌==◌, ◌&&◌, ◌||◌, List, [], ◌∷◌, get_elem?, drop, Run,
  ok, err, assertion, diagnostic, undefined, demand, guard, guarded, guard-eq-ok, >>=-eq-ok,
  ok_injective, if◌then◌else◌,
}
use mathlib.Core.Path.{subst}
use lacc.Encoding.Defs.{Instruction, Encoding}
use lacc.Encoding.Table.{encodings}
use lacc.Encoding.Match.{
  has_optype, ◌and_then◌, match_instruction_encoding, next_row, find_from, find_encoding,
}

abbrev pub all_rows : (Encoding → Bool) → List Encoding → Bool
all_rows p [] = true
all_rows p (enc ∷ rest) = p enc && all_rows p rest

pub and_first : (a b : Bool) → (a && b) ≡ true → a ≡ true
and_first true b h = refl
and_first false b h = h

pub and_second : (a b : Bool) → (a && b) ≡ true → b ≡ true
and_second true b h = h
and_second false b h = cc

pub all_rows-drop :
    (p : Encoding → Bool) (n : ℕ) (rows : List Encoding)
    → all_rows p rows ≡ true
    → all_rows p (drop n rows) ≡ true
all_rows-drop p zero rows h = h
all_rows-drop p (suc n) [] h = refl
all_rows-drop p (suc n) (enc ∷ rest) h = all_rows-drop p n rest (and_second (p enc) _ h)

and_then-true : (test : Bool) (more : Run Bool) → (ok test and_then more) ≡ ok true → test ≡ true
and_then-true true more h = refl
and_then-true false more h = ok_injective h

pub match_instruction_encoding-has_optype :
    (instr : Instruction) (enc : Encoding)
    → match_instruction_encoding instr enc ≡ ok true
    → ((instr.opcode == enc.opc || enc.opc == 0) ≡ true) × (has_optype instr.optype enc ≡ true)
unfolding match_instruction_encoding
match_instruction_encoding-has_optype instr enc h =
    let (_, same, k) = >>=-eq-ok (guard (instr.opcode == enc.opc || enc.opc == 0) assertion) _ h in
    (guard-eq-ok _ assertion same, and_then-true (has_optype instr.optype enc) _ k)

next_row_ok :
    (instr : Instruction) (rows : List Encoding) (next : Run Encoding) {enc : Encoding}
    → next_row instr rows next ≡ ok enc
    → next ≡ ok enc
next_row_ok instr [] next h = cc
next_row_ok instr (row ∷ rest) next {enc} h =
    elim (row.opc == instr.opcode)
        as (λ test. (if test then next else err diagnostic) ≡ ok enc → next ≡ ok enc) [
          | true ↦ λ h. h
          | false ↦ λ h. cc
        ]
      h

-- The row that is found is one of the rows, and matches.
pub find_from-match_instruction_encoding :
    (p : Encoding → Bool) (instr : Instruction) (rows : List Encoding) {enc : Encoding}
    → all_rows p rows ≡ true
    → find_from instr rows ≡ ok enc
    → (p enc ≡ true) × (match_instruction_encoding instr enc ≡ ok true)
unfolding find_from
find_from-match_instruction_encoding p instr [] all h = cc
find_from-match_instruction_encoding p instr (row ∷ rest) {enc} all h =
    let (matches, e, k) = >>=-eq-ok (match_instruction_encoding instr row) _ h in
    elim matches
        as (λ matches.
          match_instruction_encoding instr row ≡ ok matches
          → (if matches then ok row else next_row instr rest (find_from instr rest)) ≡ ok enc
          → (p enc ≡ true) × (match_instruction_encoding instr enc ≡ ok true)) [
            | true ↦ λ e k.
                let same = ok_injective k in
                (
                  subst (λ enc. p enc ≡ true) same (and_first (p row) _ all),
                  subst (λ enc. match_instruction_encoding instr enc ≡ ok true) same e,
                )
            | false ↦ λ e k.
                find_from-match_instruction_encoding p instr rest (and_second (p row) _ all)
                  (next_row_ok instr rest _ k)
          ]
      e k

pub find_encoding-match_instruction_encoding :
    (p : Encoding → Bool) (instr : Instruction) {enc : Encoding}
    → all_rows p encodings ≡ true
    → find_encoding instr ≡ ok enc
    → (p enc ≡ true) × (match_instruction_encoding instr enc ≡ ok true)
unfolding find_encoding
find_encoding-match_instruction_encoding p instr {enc} all h =
    let (row, _, k) = >>=-eq-ok (demand (get_elem? encodings instr.opcode) undefined) _ h in
    let found = guarded _ _ _ (guarded (row.opc == 0 || row.opc == instr.opcode) _ _ k) in
    find_from-match_instruction_encoding p instr (drop instr.opcode encodings)
      (all_rows-drop p instr.opcode encodings all) found
