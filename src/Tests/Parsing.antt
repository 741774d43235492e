-- ===== src/Tests/Parsing.antt =====
-- A configuration file that is parsed, and one with an error in its second row.
use Prim.Native.String.{◌∷◌ as string_cons, [], ◌∷◌}
use Prim.Native.Char.{code}
use lura_p.Common.{
  ℕ, zero, suc, String, List, [], ◌∷◌, Option, none, some, ◌≡◌, refl, ap, ◌==◌, if◌then◌else◌,
  contains, string_lt,
}
use lura_p.Common.Int.{ℤ, pos, negsuc}
use lura_p.Value.{end}
use lura_p.Config.{ServiceConfig, Backend}
use lura_p.Config.Parser.Types.{ParseableServiceConfig}
use lura_p.Tests.Pipe.{backend, endpoint}
use lura_p.Config.Uri.{safe_clean_host, safe_clean_hosts, clean_path, get_endpoint_path}
use lura_p.Config.Urls.{unique_from, unique_output, map_outputs, init_backend_url_mappings}
use lura_p.Config.Init.{
  init, init_global_params, backend_hosts, init_async_agent, init_agent_backend,
  init_async_agent_defaults, validate, init_endpoint_defaults, init_backend_defaults, init_backend,
  init_endpoint,
}
use lura_p.Config.Parser.{
  syntax_error, ParseError, at_position, Parsed, rejected, parsed, Runtime, parse, check_err,
  new_parse_error, get_error_row_col, scan, Attempt, error, returned,
}
use lura_p.Config.Parser.Normalize.{
  normalize, normalize_endpoint, normalize_agent, normalize_backend,
}
use lura_p.Config.Parser.Position.{IsAt, parse-IsAt}
use lura_p.Config.Parser.Written.{written, normalize-written}
use lura_p.Tests.Settings.{platform, service, agent}

-- A text of an integer: a sign, and as many ones as it is large.
ones : ℕ → String
ones zero = ""
ones (suc n) = string_cons "1" (ones n)

size : String → ℕ
size [] = 0
size (c ∷ s) = suc (size s)

size-ones : (n : ℕ) → size (ones n) ≡ n
unfolding size ones
size-ones zero = refl
size-ones (suc n) = ap suc (size-ones n)

abbrev show : ℤ → String
show (pos n) = string_cons "+" (ones n)
show (negsuc n) = string_cons "-" (ones n)

read_int : String → Option ℤ
read_int [] = none
read_int (c ∷ s) = some (if code c == 43 then pos (size s) else negsuc (size s))

read_int-show : (d : ℤ) → read_int (show d) ≡ some d
unfolding read_int
read_int-show (pos n) = ap (λ m. some (pos m)) (size-ones n)
read_int-show (negsuc n) = ap (λ m. some (negsuc m)) (size-ones n)

abbrev fresh : Backend
fresh = record (backend end) {
  sd_scheme = "http";
  decoder = none;
  timeout = pos 0;
  concurrent_calls = pos 0;
}

abbrev writable : ServiceConfig
writable = record service {
  endpoints = record endpoint { backend = fresh ∷ [] } ∷ [];
  async_agents = record agent { backend = fresh ∷ [] } ∷ [];
  timeout = negsuc 4;
}

normalize-written_example : normalize read_int (written show writable) ≡ writable
normalize-written_example = normalize-written read_int show read_int-show writable (
  ((((refl, refl, refl, refl, refl, refl, refl), tt), tt)),
  ((((refl, refl, refl, refl, refl, refl, refl), tt), tt)),
  refl,
  refl,
)

-- The file `{`, newline, `x`.
abbrev broken : List ℕ
broken = 123 ∷ 10 ∷ 120 ∷ []

abbrev runtime : Attempt ParseableServiceConfig → Runtime
runtime decoded = record {
  platform = platform;
  parse_text = read_int;
  on_disk = λ f. broken;
  file_reader = λ f. returned broken;
  unmarshal = λ b. decoded;
}

abbrev misread : Runtime
misread = runtime (error (syntax_error (pos 3) "invalid character"))

abbrev misplaced : ParseError
misplaced = record {
  config_file = "lura.json";
  offset = pos 3;
  row = 1;
  col = 1;
  err = syntax_error (pos 3) "invalid character";
}

misread-rejected : parse misread "lura.json" ≡ rejected (at_position misplaced)
unfolding parse check_err new_parse_error get_error_row_col scan
misread-rejected = refl

parse-IsAt_example : IsAt misread "lura.json" misplaced
parse-IsAt_example = parse-IsAt misread "lura.json" misplaced misread-rejected

abbrev reading : Runtime
reading = runtime (returned (written show service))

abbrev or_service : Parsed → ServiceConfig
or_service (rejected e) = service
or_service (parsed s) = s

abbrev result : ServiceConfig
result = or_service (parse reading "lura.json")

reading-parsed : parse reading "lura.json" ≡ parsed result
unfolding parse normalize normalize_endpoint normalize_agent normalize_backend read_int init
    init_global_params backend_hosts init_async_agent init_agent_backend ones size
    init_async_agent_defaults validate init_endpoint_defaults init_backend_defaults unique_from
    unique_output map_outputs init_backend_url_mappings init_backend init_endpoint safe_clean_host
    safe_clean_hosts clean_path get_endpoint_path contains string_lt
reading-parsed = refl
