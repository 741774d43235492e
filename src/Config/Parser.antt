-- ===== src/Config/Parser.antt =====
-- config/parser.go: the parser of a configuration file. What the file reader, `os.ReadFile` and
-- encoding/json answer are arguments. A file is the list of its bytes.
pub mod Types
pub mod Normalize
pub mod Position
pub mod Written
use lura_p.Common.{
  ℕ, zero, suc, ◌+◌, ◌-◌, Bool, String, List, [], ◌∷◌, Option, none, some, ltb, length, ◌==◌,
  if◌then◌else◌,
}
use lura_p.Common.Int.{ℤ, pos, negsuc}
use lura_p.Config.{ServiceConfig}
use lura_p.Config.Fallible.{ConfigError, Result, failed, done}
use lura_p.Config.Uri.{Platform}
use lura_p.Config.Init.{init}
use lura_p.Config.Parser.Types.{ParseableServiceConfig}
use lura_p.Config.Parser.Normalize.{normalize}

-- The errors that `CheckErr` tells apart.
pub data GoError : Type 0 where
  syntax_error : ℤ → String → GoError
  unmarshal_type_error : ℤ → String → GoError
  path_error : String → String → GoError
  invalid : ConfigError → GoError
  other_error : String → GoError

pub record ParseError : Type 0 where
  pub config_file : String
  pub offset : ℤ
  pub row : ℕ
  pub col : ℕ
  pub err : GoError

-- What `CheckErr` makes: a `*ParseError`, or a text with the file's name and these parts.
pub data ParserError : Type 0 where
  at_position : ParseError → ParserError
  at_path : String → String → String → ParserError
  in_file : String → GoError → ParserError

abbrev pub newline : ℕ
newline = 10

abbrev pub carriage_return : ℕ
carriage_return = 13

-- The loop of `getErrorRowCol` for `n` more bytes.
unfoldable pub scan : ℕ → List ℕ → ℕ × ℕ → ℕ × ℕ
scan zero source at = at
scan (suc n) [] at = at
scan (suc n) (v ∷ source) (row, col) = scan n source (
    if v == carriage_return
    then (row, col)
    else if v == newline
    then (row + 1, 0)
    else (row, col + 1))

-- The bytes that the loop goes through.
abbrev pub rounds : List ℕ → ℤ → ℕ
rounds source (pos n) = if ltb (length source) n then length source - 1 else n
rounds source (negsuc n) = 0

-- `getErrorRowCol(source, offset)`
unfoldable pub get_error_row_col : List ℕ → ℤ → ℕ × ℕ
unfolding scan
get_error_row_col source offset = scan (rounds source offset) source (0, 0)

-- `NewParseError(err, configFile, offset)`; `on_disk` is what `os.ReadFile` returns, whatever its error.
unfoldable pub new_parse_error : (String → List ℕ) → GoError → String → ℤ → ParseError
unfolding get_error_row_col
new_parse_error on_disk err config_file offset =
    let at : ℕ × ℕ = get_error_row_col (on_disk config_file) offset in
    record { config_file = config_file; offset = offset; row = at.0; col = at.1; err = err }

-- `CheckErr(err, configFile)`
unfoldable pub check_err : (String → List ℕ) → GoError → String → ParserError
unfolding new_parse_error
check_err on_disk (syntax_error offset t) file =
    at_position (new_parse_error on_disk (syntax_error offset t) file offset)
check_err on_disk (unmarshal_type_error offset t) file =
    at_position (new_parse_error on_disk (unmarshal_type_error offset t) file offset)
check_err on_disk (path_error op e) file = at_path file op e
check_err on_disk (invalid e) file = in_file file (invalid e)
check_err on_disk (other_error t) file = in_file file (other_error t)

-- What a call gives that returns an error: the error, or its result.
pub data Attempt {ℓ} (A : Type ℓ) : Type ℓ where
  error : GoError → Attempt A
  returned : A → Attempt A

pub data Parsed : Type 0 where
  rejected : ParserError → Parsed
  parsed : ServiceConfig → Parsed

pub record Runtime : Type 0 where
  pub platform : Platform
  -- `time.ParseDuration`
  pub parse_text : String → Option ℤ
  -- `os.ReadFile`, its error dropped
  pub on_disk : String → List ℕ
  -- `p.fileReader`
  pub file_reader : String → Attempt (List ℕ)
  -- `json.Unmarshal(data, &cfg)`
  pub unmarshal : List ℕ → Attempt ParseableServiceConfig

-- The end of `Parse`: a configuration that `Init` accepts, or its error.
abbrev pub parsed_or : (GoError → Parsed) → Result ServiceConfig → Parsed
parsed_or reject (failed e) = reject (invalid e)
parsed_or reject (done s) = parsed s

abbrev pub decoded_or : (GoError → Parsed) → Runtime → Attempt ParseableServiceConfig → Parsed
decoded_or reject env (error e) = reject e
decoded_or reject env (returned cfg) =
    parsed_or reject (init env.platform (normalize env.parse_text cfg))

abbrev pub read_or : (GoError → Parsed) → Runtime → Attempt (List ℕ) → Parsed
read_or reject env (error e) = reject e
read_or reject env (returned bytes) = decoded_or reject env (env.unmarshal bytes)

-- `p.Parse(configFile)`. The configuration that stands beside an error is not kept.
unfoldable pub parse : Runtime → String → Parsed
unfolding check_err
parse env config_file =
    read_or (λ e. rejected (check_err env.on_disk e config_file)) env (env.file_reader config_file)
