-- ===== src/Encoding/Match/Start.antt =====
-- The search for a row from its start.
use lacc.Base.{
  ℕ, zero, suc, ◌-◌, ◌+◌, ◌≤◌, ◌≡◌, refl, ap, sym, ◌∙◌, arith, Bool, true, false, ◌==◌, leb, leb→le,
  ◌&&◌, ◌||◌, not, Option, some, none, List, [], ◌∷◌, get_elem?, drop, Run, ok, assertion,
  undefined, demand, guard, ◌>>=◌, ◌>>◌, if◌then◌else◌,
}
use mathlib.Core.Path.{subst}
use mathlib.Core.Option.{some-injective}
use lacc.Encoding.Defs.{Instruction, Encoding}
use lacc.Encoding.Table.{encodings}
use lacc.Encoding.Match.{match_instruction_encoding, find_from, find_encoding}
use lacc.Encoding.Match.Found.{all_rows, all_rows-drop, and_first, and_second}
use lacc.Encoding.Match.Reach.{has_shape, is_sound, sound_table, match_instruction_encoding-Ends}

-- Row `k` of the list can be reached: the rows up to it have the opcode.
abbrev leads : ℕ → ℕ → List Encoding → Bool
leads o zero rows = true
leads o (suc k) [] = false
leads o (suc k) (row ∷ []) = false
leads o (suc k) (row ∷ next ∷ rest) = o == row.opc && o == next.opc && leads o k (next ∷ rest)

-- The opcode with which row `i` is looked for.
abbrev pub opcode_of : ℕ → Encoding → ℕ
opcode_of i enc = if enc.opc == 0 then i else enc.opc

-- The assertions of the search hold for an opcode.
abbrev starts : ℕ → Bool
starts o =
    elim (get_elem? encodings o) [ some enc ↦ enc.opc == 0 || enc.opc == o | none ↦ false ]
    && (o == 0
        || elim (get_elem? encodings (o - 1)) [ some before ↦ not (before.opc == o) | none ↦ true ])

abbrev reachable : ℕ → Encoding → Bool
reachable i enc =
    let o = opcode_of i enc in leb o i && starts o && leads o (i - o) (drop o encodings)

abbrev all_numbered : (ℕ → Encoding → Bool) → ℕ → List Encoding → Bool
all_numbered p i [] = true
all_numbered p i (enc ∷ rest) = p i enc && all_numbered p (suc i) rest

plus_zero : (i : ℕ) → i ≡ i + 0
plus_zero i = omega arith

zero_plus : (i : ℕ) → 0 + i ≡ i
zero_plus i = omega arith

plus_suc : (i k : ℕ) → suc i + k ≡ i + suc k
plus_suc i k = omega arith

all_numbered-get_elem? :
    (p : ℕ → Encoding → Bool) (i k : ℕ) (rows : List Encoding) {enc : Encoding}
    → all_numbered p i rows ≡ true
    → get_elem? rows k ≡ some enc
    → p (i + k) enc ≡ true
all_numbered-get_elem? p i k [] h e = cc
all_numbered-get_elem? p i zero (row ∷ rest) {enc} h e =
    let same = some-injective _ _ e in
    subst (λ n. p n enc ≡ true) (plus_zero i)
      (subst (λ row. p i row ≡ true) same (and_first (p i row) _ h))
all_numbered-get_elem? p i (suc k) (row ∷ rest) {enc} h e =
    subst (λ n. p n enc ≡ true) (plus_suc i k)
      (all_numbered-get_elem? p (suc i) k rest (and_second (p i row) _ h) e)

reachable_table : all_numbered reachable 0 encodings ≡ true
unfolding encodings
reachable_table = refl

==_symm : (a b : ℕ) → (a == b) ≡ true → (b == a) ≡ true
==_symm a b h = ground arith

or_left : (a b : Bool) → a ≡ true → (a || b) ≡ true
or_left true b h = refl
or_left false b h = cc

-- A row that matches is the result, after another the search goes on.
goes_on :
    (instr : Instruction) (row next : Encoding) (rest : List Encoding) (b : Bool) {found : Encoding}
    → match_instruction_encoding instr row ≡ ok b
    → (next.opc == instr.opcode) ≡ true
    → find_from instr (next ∷ rest) ≡ ok found
    → (found : Encoding) × (find_from instr (row ∷ next ∷ rest) ≡ ok found)
unfolding find_from
goes_on instr row next rest true e same f = (row, rw e refl)
goes_on instr row next rest false {found} e same f = (found, rw e (rw same f))

find_from_reaches :
    (instr : Instruction) (k : ℕ) (rows : List Encoding) {enc : Encoding}
    → has_shape instr.optype instr.source instr.dest ≡ true
    → all_rows is_sound rows ≡ true
    → leads instr.opcode k rows ≡ true
    → get_elem? rows k ≡ some enc
    → match_instruction_encoding instr enc ≡ ok true
    → (found : Encoding) × (find_from instr rows ≡ ok found)
unfolding find_from
find_from_reaches instr k [] shape sound lead h m = cc
find_from_reaches instr zero (row ∷ rest) shape sound lead h m =
    let same = some-injective _ _ h in
    (row, rw (subst (λ enc. match_instruction_encoding instr enc ≡ ok true) (sym same) m) refl)
find_from_reaches instr (suc k) (row ∷ []) shape sound lead h m = cc
find_from_reaches instr (suc k) (row ∷ next ∷ rest) shape sound lead h m =
    let both = and_first (instr.opcode == row.opc && instr.opcode == next.opc) _ lead in
    let here = and_first (instr.opcode == row.opc) (instr.opcode == next.opc) both in
    let same =
      ==_symm instr.opcode next.opc
        (and_second (instr.opcode == row.opc) (instr.opcode == next.opc) both) in
    let (found, e) =
      find_from_reaches instr k (next ∷ rest) shape (and_second (is_sound row) _ sound)
        (and_second (instr.opcode == row.opc && instr.opcode == next.opc) _ lead) h m in
    let (b, matches) =
      match_instruction_encoding-Ends instr row (and_first (is_sound row) _ sound) shape
        (or_left (instr.opcode == row.opc) _ here) in
    goes_on instr row next rest b matches same e

get_elem?-drop :
    (k i : ℕ) (rows : List Encoding) → k ≤ i → get_elem? (drop k rows) (i - k) ≡ get_elem? rows i
get_elem?-drop zero i rows h = ap (get_elem? rows) (omega arith)
get_elem?-drop (suc k) i [] h = refl
get_elem?-drop (suc k) zero (row ∷ rest) h = absurd (omega arith)
get_elem?-drop (suc k) (suc i) (row ∷ rest) h =
    ap (get_elem? (drop k rest)) (omega arith) ∙ get_elem?-drop k i rest (omega arith)

-- The assertions hold, so the search is made.
starts_run :
    (o : ℕ) (at before : Option Encoding) (next : Run Encoding) {found : Encoding}
    → (elim at [ some enc ↦ enc.opc == 0 || enc.opc == o | none ↦ false ]
        && (o == 0 || elim before [ some b ↦ not (b.opc == o) | none ↦ true ]))
      ≡ true
    → next ≡ ok found
    → (do
      enc ← demand at undefined
      guard (enc.opc == 0 || enc.opc == o) assertion
      guard (o == 0 || elim before [ some b ↦ not (b.opc == o) | none ↦ true ]) assertion
      next)
      ≡ ok found
starts_run o none before next h e = cc
starts_run o (some enc) before next h e =
    rw (and_first (enc.opc == 0 || enc.opc == o) _ h)
      (rw (and_second (enc.opc == 0 || enc.opc == o) _ h) e)

-- The row with number `i` matches: then the search with its opcode finds a row.
pub find_encoding_reaches :
    (instr : Instruction) (i : ℕ) (enc : Encoding)
    → get_elem? encodings i ≡ some enc
    → instr.opcode ≡ opcode_of i enc
    → has_shape instr.optype instr.source instr.dest ≡ true
    → match_instruction_encoding instr enc ≡ ok true
    → (found : Encoding) × (find_encoding instr ≡ ok found)
unfolding find_encoding
find_encoding_reaches instr i enc h o shape m =
    let known : reachable i enc ≡ true =
      subst (λ n. reachable n enc ≡ true) (zero_plus i)
        (all_numbered-get_elem? reachable 0 i encodings reachable_table h) in
    let o' = opcode_of i enc in
    let begun = and_first (leb o' i && starts o') _ known in
    let below = leb→le o' i (and_first (leb o' i) (starts o') begun) in
    let start = subst (λ n. starts n ≡ true) (sym o) (and_second (leb o' i) (starts o') begun) in
    let lead =
      subst (λ n. leads n (i - n) (drop n encodings) ≡ true) (sym o)
        (and_second (leb o' i && starts o') _ known) in
    let (found, e) =
      find_from_reaches instr (i - instr.opcode) (drop instr.opcode encodings) shape
        (all_rows-drop is_sound instr.opcode encodings sound_table) lead
        (get_elem?-drop instr.opcode i encodings (subst (λ n. n ≤ i) (sym o) below) ∙ h) m in
    (
      found,
      starts_run instr.opcode (get_elem? encodings instr.opcode)
          (get_elem? encodings (instr.opcode - 1)) (find_from instr (drop instr.opcode encodings))
          start e,
    )
