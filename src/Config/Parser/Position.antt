-- ===== src/Config/Parser/Position.antt =====
-- The row and the column of a parse error.
use lura_p.Common.{
  ℕ, zero, suc, ◌+◌, ◌-◌, ◌≤◌, ◌<◌, ltb, length, ◌≡◌, ◌≢◌, ◌⊎◌, inl, inr, refl, List, [], ◌∷◌, ◌++◌,
  All, Bool-cases, ◌==◌, arith, true, false, if◌then◌else◌, take, ap, String, subst,
}
use lura_p.Common.Int.{ℤ, pos, negsuc}
use lura_p.Config.{ServiceConfig}
use lura_p.Config.Fallible.{Result, failed, done}
use lura_p.Config.Init.{init}
use lura_p.Config.Parser.Types.{ParseableServiceConfig}
use lura_p.Config.Parser.Normalize.{normalize}
use lura_p.Config.Parser.{
  newline, carriage_return, scan, rounds, get_error_row_col, at_position, at_path, in_file,
  check_err, new_parse_error, GoError, syntax_error, unmarshal_type_error, path_error, invalid,
  other_error, ParseError, Runtime, parse, Parsed, parsed, rejected, parsed_or, Attempt, error,
  returned, decoded_or, read_or,
}

-- The newlines of a text.
abbrev pub newlines : List ℕ → ℕ
newlines [] = 0
newlines (v ∷ vs) = (if v == newline then 1 else 0) + newlines vs

-- The bytes of a text that take a column.
abbrev pub columns : List ℕ → ℕ
columns [] = 0
columns (v ∷ vs) = (if v == carriage_return then 0 else 1) + columns vs

-- Where a reader that starts at a row and a column stands after a text: further on in the same row
-- where it has no newline, else in the text's last row.
abbrev pub IsReadFrom : ℕ × ℕ → List ℕ → ℕ × ℕ → Type 0
IsReadFrom (r, c) passed (row, col) =
    (All (λ v. v ≢ newline) passed × (row ≡ r) × (col ≡ c + columns passed))
    ⊎ ((before : List ℕ) × (line : List ℕ) × (passed ≡ before ++ (newline ∷ line))
        × All (λ v. v ≢ newline) line
        × (row ≡ r + (newlines before + 1))
        × (col ≡ columns line))

-- One byte more in front, by what it is.
carriage_return-step :
    (v r c : ℕ) (vs : List ℕ) (at : ℕ × ℕ)
    → (v == carriage_return) ≡ true
    → IsReadFrom (r, c) vs at
    → IsReadFrom (r, c) (v ∷ vs) at
carriage_return-step v r c vs (row, col) e (inl (free, er, ec)) =
    inl ((ground arith, free), er, ground arith)
carriage_return-step v r c vs (row, col) e (inr (before, line, ev, free, er, ec)) =
    inr (v ∷ before, line, ap (λ l. v ∷ l) ev, free, ground arith, ec)

newline-step :
    (v r c : ℕ) (vs : List ℕ) (at : ℕ × ℕ)
    → (v == newline) ≡ true
    → IsReadFrom (r + 1, 0) vs at
    → IsReadFrom (r, c) (v ∷ vs) at
newline-step v r c vs (row, col) e (inl (free, er, ec)) =
    inr ([], vs, ap (λ w. w ∷ vs) (ground arith), free, ground arith, omega (arith, ec))
newline-step v r c vs (row, col) e (inr (before, line, ev, free, er, ec)) =
    inr (v ∷ before, line, ap (λ l. v ∷ l) ev, free, ground arith, ec)

column-step :
    (v r c : ℕ) (vs : List ℕ) (at : ℕ × ℕ)
    → (v == carriage_return) ≡ false
    → (v == newline) ≡ false
    → IsReadFrom (r, c + 1) vs at
    → IsReadFrom (r, c) (v ∷ vs) at
column-step v r c vs (row, col) e n (inl (free, er, ec)) =
    inl ((ground arith, free), er, ground arith)
column-step v r c vs (row, col) e n (inr (before, line, ev, free, er, ec)) =
    inr (v ∷ before, line, ap (λ l. v ∷ l) ev, free, ground arith, ec)

-- `scan` at one byte.
abbrev moved : ℕ → ℕ → ℕ → ℕ × ℕ
moved v r c =
    if v == carriage_return then (r, c) else if v == newline then (r + 1, 0) else (r, c + 1)

moved-step :
    (v r c : ℕ) (vs : List ℕ) (at : ℕ × ℕ)
    → IsReadFrom (moved v r c) vs at
    → IsReadFrom (r, c) (v ∷ vs) at
moved-step v r c vs at h = elim (Bool-cases (v == carriage_return)) [
  | inl e ↦ carriage_return-step v r c vs at e (rw e at h)
  | inr e ↦ elim (Bool-cases (v == newline)) [
    | inl w ↦ newline-step v r c vs at w (rw (e, w) at h)
    | inr w ↦ column-step v r c vs at e w (rw (e, w) at h)
  ]
]

pub scan-IsReadFrom :
    (n : ℕ) (source : List ℕ) (at : ℕ × ℕ) → IsReadFrom at (take n source) (scan n source at)
unfolding scan
scan-IsReadFrom zero source (r, c) = inl (tt, refl, omega arith)
scan-IsReadFrom (suc n) [] (r, c) = inl (tt, refl, omega arith)
scan-IsReadFrom (suc n) (v ∷ source) (r, c) =
    moved-step v r c (take n source) (scan (suc n) (v ∷ source) (r, c))
      (scan-IsReadFrom n source (moved v r c))

-- What of a text is read up to an offset: as many bytes as it says, all but the last byte where the text
-- has fewer, and nothing for a negative one.
abbrev pub IsRead : List ℕ → ℤ → List ℕ → Type 0
IsRead source (pos n) passed =
    ((n ≤ length source) × (length passed ≡ n))
    ⊎ ((length source < n) × (length passed ≡ length source - 1))
IsRead source (negsuc n) passed = passed ≡ []

length-take : (n : ℕ) (source : List ℕ) → n ≤ length source → length (take n source) ≡ n
length-take zero source h = refl
length-take (suc n) [] h = omega (arith, h)
length-take (suc n) (v ∷ source) h = ap suc (length-take n source (omega (arith, h)))

take-append : (n : ℕ) (source : List ℕ) → (rest : List ℕ) × (source ≡ take n source ++ rest)
take-append zero source = (source, refl)
take-append (suc n) [] = ([], refl)
take-append (suc n) (v ∷ source) = let (rest, e) = take-append n source in (rest, ap (λ l. v ∷ l) e)

rounds-IsRead :
    (source : List ℕ) (offset : ℤ) → IsRead source offset (take (rounds source offset) source)
rounds-IsRead source (negsuc n) = refl
rounds-IsRead source (pos n) = elim (Bool-cases (ltb (length source) n)) [
  | inl behind ↦
      rw behind (inr (ground (arith, behind), length-take (length source - 1) source (omega arith)))
  | inr before ↦
      let within : n ≤ length source = ground (arith, before) in
      rw before (inl (within, length-take n source within))
]

-- A parse error of a file stands at its offset.
abbrev pub IsAt : Runtime → String → ParseError → Type 0
IsAt env file p =
    let source = env.on_disk file in
    (p.config_file ≡ file)
    × ((passed : List ℕ) × (rest : List ℕ) × (source ≡ passed ++ rest)
        × IsRead source p.offset passed
        × IsReadFrom (0, 0) passed (p.row, p.col))

new_parse_error-IsAt :
    (env : Runtime) (e : GoError) (file : String) (offset : ℤ)
    → IsAt env file (new_parse_error env.on_disk e file offset)
unfolding new_parse_error get_error_row_col
new_parse_error-IsAt env e file offset =
    let source = env.on_disk file in
    let n = rounds source offset in
    let (rest, split) = take-append n source in
    (
      refl,
      (take n source, rest, split, rounds-IsRead source offset, scan-IsReadFrom n source (0, 0)),
    )

-- What a rejection says of its position, if it has one.
abbrev pub IsLocated : Runtime → String → Parsed → Type 0
IsLocated env file (parsed s) = Unit
IsLocated env file (rejected (at_position p)) = IsAt env file p
IsLocated env file (rejected (at_path f op t)) = Unit
IsLocated env file (rejected (in_file f e)) = Unit

check_err-IsLocated :
    (env : Runtime) (e : GoError) (file : String)
    → IsLocated env file (rejected (check_err env.on_disk e file))
unfolding check_err
check_err-IsLocated env (syntax_error o t) file = new_parse_error-IsAt env (syntax_error o t) file o
check_err-IsLocated env (unmarshal_type_error o t) file =
    new_parse_error-IsAt env (unmarshal_type_error o t) file o
check_err-IsLocated env (path_error op t) file = tt
check_err-IsLocated env (invalid e) file = tt
check_err-IsLocated env (other_error t) file = tt

parsed_or-IsLocated :
    (env : Runtime) (file : String) (r : Result ServiceConfig)
    → IsLocated env file (parsed_or (λ e. rejected (check_err env.on_disk e file)) r)
parsed_or-IsLocated env file (failed e) = check_err-IsLocated env (invalid e) file
parsed_or-IsLocated env file (done s) = tt

decoded_or-IsLocated :
    (env : Runtime) (file : String) (r : Attempt ParseableServiceConfig)
    → IsLocated env file (decoded_or (λ e. rejected (check_err env.on_disk e file)) env r)
decoded_or-IsLocated env file (error e) = check_err-IsLocated env e file
decoded_or-IsLocated env file (returned cfg) =
    parsed_or-IsLocated env file (init env.platform (normalize env.parse_text cfg))

read_or-IsLocated :
    (env : Runtime) (file : String) (r : Attempt (List ℕ))
    → IsLocated env file (read_or (λ e. rejected (check_err env.on_disk e file)) env r)
read_or-IsLocated env file (error e) = check_err-IsLocated env e file
read_or-IsLocated env file (returned bytes) = decoded_or-IsLocated env file (env.unmarshal bytes)

-- Where a parser rejects a file with a position, its row and column are those at which a reader stands who
-- has read as many bytes of the file that is on the disk as the error's offset says, all but the last
-- byte where the file has fewer, and nothing where the offset is negative: the row is the number of newlines that were read, and the column the
-- number of bytes after the last of them that are no carriage returns.
pub parse-IsAt :
    (env : Runtime) (file : String) (p : ParseError)
    → parse env file ≡ rejected (at_position p)
    → IsAt env file p
unfolding parse
parse-IsAt env file p h =
    subst (IsLocated env file) h (read_or-IsLocated env file (env.file_reader file))
