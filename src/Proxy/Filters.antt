-- ===== src/Proxy/Filters.antt =====
-- proxy/headers_filter.go and proxy/query_strings_filter.go: what the next proxy of the pipe is asked.
pub mod Count
pub mod Passed
use lura_p.Common.{
  ℕ, suc, String, List, [], ◌∷◌, Option, none, some, is_some, str_eq, ◌==◌, if◌then◌else◌, length,
}
use lura_p.Proxy.{Request}

-- A map from names to lists of values: http.Header, url.Values.
abbrev pub Values : Type 0
Values = List (String × List String)

-- `values, ok := m[v]`
unfoldable pub lookup : String → Values → Option (List String)
lookup k [] = none
lookup k ((j, vs) ∷ m) = if str_eq j k then some vs else lookup k m

-- `m[k] = vs`
unfoldable pub insert : String → List String → Values → Values
insert k vs [] = (k, vs) ∷ []
insert k vs ((j, ws) ∷ m) = if str_eq j k then (k, vs) ∷ m else (j, ws) ∷ insert k vs m

-- The loop that counts the names to pass.
unfoldable pub num_to_pass : List String → Values → ℕ
num_to_pass [] m = 0
num_to_pass (v ∷ to_pass) m =
    let rest : ℕ = num_to_pass to_pass m in if is_some (lookup v m) then suc rest else rest

-- The loop that copies the values of the names to pass.
unfoldable pub copy_passed : List String → Values → Values → Values
copy_passed [] m acc = acc
copy_passed (v ∷ to_pass) m acc =
    copy_passed to_pass m (elim (lookup v m) [ none ↦ acc | some values ↦ insert v values acc ])

-- `NewFilterHeadersMiddleware`: the headers that the next proxy gets.
unfoldable pub filter_headers : List String → Request → Request
filter_headers [] request = request
filter_headers (h ∷ to_pass) request =
    if length request.headers == 0
    then request
    else if num_to_pass (h ∷ to_pass) request.headers == length request.headers
    then request
    else record request { headers = copy_passed (h ∷ to_pass) request.headers [] }

-- `NewFilterQueryStringsMiddleware`
unfoldable pub filter_query_strings : List String → Request → Request
filter_query_strings [] request = request
filter_query_strings (q ∷ to_pass) request =
    if length request.query == 0
    then request
    else if num_to_pass (q ∷ to_pass) request.query == length request.query
    then request
    else record request { query = copy_passed (q ∷ to_pass) request.query [] }
