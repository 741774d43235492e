-- ===== src/Proxy/Filters/Passed.antt =====
-- What a filter lets through.
use lura_p.Common.{
  true, false, ◌&&◌, String, List, [], ◌∷◌, ◌≡◌, refl, none, some, is_some, str_eq, ◌==◌, ==_iff,
  if◌then◌else◌, length, contains, nodup, arith, eq_iff, Bool-cases, Option-cases, inl, inr,
  eq_refl,
}
use lura_p.Proxy.{Request}
use lura_p.Proxy.Filters.{
  Values, lookup, insert, num_to_pass, copy_passed, filter_headers, filter_query_strings,
}
use lura_p.Proxy.Filters.Count.{counted_all}

pub lookup-insert :
    (k j : String) (vs : List String) (m : Values)
    → lookup j (insert k vs m) ≡ (if str_eq k j then some vs else lookup j m)
unfolding lookup insert
lookup-insert k j vs [] = refl
lookup-insert k j vs ((i, ws) ∷ m) =
    ground (arith, eq_iff k j, eq_iff i k, eq_iff i j, lookup-insert k j vs m)

lookup-copy_passed :
    (to_pass : List String) (m acc : Values) (j : String)
    → lookup j (copy_passed to_pass m acc)
      ≡ (if contains to_pass j && is_some (lookup j m) then lookup j m else lookup j acc)
unfolding copy_passed contains
lookup-copy_passed [] m acc j = refl
lookup-copy_passed (v ∷ to_pass) m acc j = elim (Option-cases (lookup v m)) [
  | inl e ↦ rw (e, copy_passed) (ground (arith, eq_iff v j, lookup-copy_passed to_pass m acc j))
  | inr (vs, e) ↦
      rw (e, copy_passed)
        (ground (
          arith,
          eq_iff v j,
          lookup-copy_passed to_pass m (insert v vs acc) j,
          lookup-insert v j vs acc,
        ))
]

pub lookup-nil : (j : String) → lookup j [] ≡ none
unfolding lookup
lookup-nil j = refl

-- The two ways of a filter, over the map that it filters.
abbrev filtered : List String → Values → Values
filtered to_pass m =
    if length m == 0
    then m
    else if num_to_pass to_pass m == length m
    then m
    else copy_passed to_pass m []

lookup-filtered :
    (to_pass : List String) (m : Values) (j : String)
    → nodup to_pass ≡ true
    → lookup j (filtered to_pass m) ≡ (if contains to_pass j then lookup j m else none)
lookup-filtered to_pass [] j h = ground (arith, lookup-nil j)
lookup-filtered to_pass (e ∷ m) j h =
    elim (Bool-cases (num_to_pass to_pass (e ∷ m) == length (e ∷ m))) [
      | inl full ↦ elim (Option-cases (lookup j (e ∷ m))) [
        | inl q ↦ ground arith
        | inr (vs, q) ↦ ground (arith, counted_all to_pass (e ∷ m) j h ((==_iff _ _).0 full) q)
      ]
      | inr part ↦ ground (arith, lookup-copy_passed to_pass (e ∷ m) [] j, lookup-nil j)
    ]

-- With a list of headers to pass that names none twice, the next proxy sees exactly the listed
-- headers, each with its values, and the rest of the request as it came.
pub filter_headers-lookup :
    (h : String) (to_pass : List String) (r : Request) (j : String)
    → nodup (h ∷ to_pass) ≡ true
    → (lookup j (filter_headers (h ∷ to_pass) r).headers
        ≡ (if contains (h ∷ to_pass) j then lookup j r.headers else none))
      × (filter_headers (h ∷ to_pass) r
          ≡ record r { headers = (filter_headers (h ∷ to_pass) r).headers })
unfolding filter_headers
filter_headers-lookup h to_pass r j distinct =
    let passed = lookup-filtered (h ∷ to_pass) r.headers j distinct in
    elim (Bool-cases (length r.headers == 0)) [
      | inl empty ↦ (rw empty (rw empty at passed), rw empty)
      | inr full ↦ elim (Bool-cases (num_to_pass (h ∷ to_pass) r.headers == length r.headers)) [
        | inl q ↦ (rw (full, q) (rw (full, q) at passed), rw (full, q))
        | inr q ↦ (rw (full, q) (rw (full, q) at passed), rw (full, q))
      ]
    ]

-- With a list of query strings to pass that names none twice, the next proxy sees exactly the listed
-- query strings, each with its values, and the rest of the request as it came.
pub filter_query_strings-lookup :
    (q : String) (to_pass : List String) (r : Request) (j : String)
    → nodup (q ∷ to_pass) ≡ true
    → (lookup j (filter_query_strings (q ∷ to_pass) r).query
        ≡ (if contains (q ∷ to_pass) j then lookup j r.query else none))
      × (filter_query_strings (q ∷ to_pass) r
          ≡ record r { query = (filter_query_strings (q ∷ to_pass) r).query })
unfolding filter_query_strings
filter_query_strings-lookup q to_pass r j distinct =
    let passed = lookup-filtered (q ∷ to_pass) r.query j distinct in
    elim (Bool-cases (length r.query == 0)) [
      | inl empty ↦ (rw empty (rw empty at passed), rw empty)
      | inr full ↦ elim (Bool-cases (num_to_pass (q ∷ to_pass) r.query == length r.query)) [
        | inl e ↦ (rw (full, e) (rw (full, e) at passed), rw (full, e))
        | inr e ↦ (rw (full, e) (rw (full, e) at passed), rw (full, e))
      ]
    ]

-- A list that names one header twice lets a second header through that it does not name.
pub filter_headers_duplicate :
    (a b : String) (vs ws : List String) (r : Request)
    → str_eq a b ≡ false
    → r.headers ≡ (a, vs) ∷ (b, ws) ∷ []
    → lookup b (filter_headers (a ∷ a ∷ []) r).headers ≡ some ws
unfolding filter_headers num_to_pass lookup
filter_headers_duplicate a b vs ws r differ e = rw e (rw eq_refl (rw differ (rw eq_refl)))
