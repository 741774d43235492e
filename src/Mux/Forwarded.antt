-- ===== src/Mux/Forwarded.antt =====
-- What of a client's request reaches the proxy.
use lura_p.Common.{
  Bool, false, String, List, [], ◌∷◌, Option, none, some, is_some, ◌≡◌, refl, ◌∙◌, str_eq, eq_iff,
  if◌then◌else◌, contains, Option-cases, inl, inr, arith,
}
use lura_p.Proxy.Filters.{Values, lookup, insert}
use lura_p.Proxy.Filters.Passed.{lookup-insert, lookup-nil}
use lura_p.Mux.{Site, HttpRequest, copy_named, nonempty, forwarded, new_request}

-- What is found for `j` where the list names it.
abbrev named : (String → Option (List String)) → List String → String → Option (List String)
named find names j = if contains names j then find j else none

lookup-copy_named :
    (find : String → Option (List String)) (every : Values) (names : List String) (acc : Values)
    (j : String)
    → contains names "*" ≡ false
    → lookup j (copy_named find every names acc)
      ≡ (if is_some (named find names j) then named find names j else lookup j acc)
unfolding copy_named contains
lookup-copy_named find every [] acc j h = refl
lookup-copy_named find every (k ∷ names) acc j h =
    let star : str_eq k "*" ≡ false = ground (arith, h) in
    let more : contains names "*" ≡ false = ground (arith, h) in
    elim (Option-cases (find k)) [
      | inl e ↦
          rw (e, copy_named, star)
            (ground (arith, eq_iff k j, lookup-copy_named find every names acc j more))
      | inr (vs, e) ↦
          rw (e, copy_named, star)
            (ground (
              arith,
              eq_iff k j,
              lookup-copy_named find every names (insert k vs acc) j more,
              lookup-insert k j vs acc,
            ))
    ]

-- The headers that the router itself sets.
abbrev pub is_own : String → Bool
is_own j =
    contains ("X-Forwarded-For" ∷ "X-Forwarded-Host" ∷ "X-Forwarded-Via" ∷ "User-Agent" ∷ []) j

lookup-forwarded :
    (site : Site) (ip host j : String) (h : Values)
    → is_own j ≡ false
    → lookup j (forwarded site ip host h) ≡ lookup j h
unfolding contains
lookup-forwarded site ip host j h own =
    let one = insert "X-Forwarded-For" (ip ∷ []) h in
    let two = insert "X-Forwarded-Host" (host ∷ []) one in
    ground (
      arith,
      own,
      lookup-insert "X-Forwarded-For" j (ip ∷ []) h,
      lookup-insert "X-Forwarded-Host" j (host ∷ []) one,
      lookup-insert "X-Forwarded-Via" j (site.user_agent ∷ []) two,
      lookup-insert "User-Agent" j (site.user_agent ∷ []) two,
    )

-- Of lists that do not name "*", the proxy sees of a client's query exactly the listed parameters that
-- have a value, and of its headers, besides those that the router sets, exactly the listed ones.
pub new_request-lookup :
    (site : Site) (r : HttpRequest) (params : List (String × String)) (ip : String)
    (query_string headers_to_send : List String) (j : String)
    → contains query_string "*" ≡ false
    → contains headers_to_send "*" ≡ false
    → is_own j ≡ false
    → (lookup j (new_request site r params ip query_string headers_to_send).query
        ≡ (if contains query_string j then nonempty (lookup j r.query) else none))
      × (lookup j (new_request site r params ip query_string headers_to_send).headers
          ≡ (if contains headers_to_send j then lookup (site.canonical j) r.header else none))
unfolding new_request
new_request-lookup site r params ip query_string headers_to_send j q h own =
    let found = λ (k : String). nonempty (lookup k r.query) in
    let asked = λ (k : String). lookup (site.canonical k) r.header in
    (
      lookup-copy_named found r.query query_string [] j q ∙ only (named found query_string j) j,
      lookup-forwarded site ip r.host j (copy_named asked r.header headers_to_send []) own
          ∙ lookup-copy_named asked r.header headers_to_send [] j h
          ∙ only (named asked headers_to_send j) j,
    )
  where
    only : (o : Option (List String)) (j : String) → (if is_some o then o else lookup j []) ≡ o
    only none j = lookup-nil j
    only (some vs) j = refl
