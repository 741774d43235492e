-- ===== src/Mux/Completed.antt =====
-- The header that tells a client whether the response is complete.
use lura_p.Common.{
  Bool, true, false, not, ◌&&◌, String, List, [], ◌∷◌, ◌++◌, Option, none, some, ◌≡◌, refl, ap, ◌∙◌,
  str_eq, eq_iff, if◌then◌else◌, Bool-cases, Option-cases, inl, inr, arith, sym, subst,
}
use lura_p.Common.Int.{is_zero}
use lura_p.Config.{EndpointConfig}
use lura_p.Proxy.{Response, Error}
use lura_p.Proxy.Filters.{Values, lookup, insert}
use lura_p.Proxy.Filters.Passed.{lookup-insert}
use lura_p.Mux.{
  Site, completed_header, add_header, add_values, add_all, has_data, with_response, reply_with,
  late_error, handle_endpoint,
}

-- `h.Get(k)`: the first value.
abbrev pub first : Option (List String) → Option String
first none = none
first (some []) = none
first (some (v ∷ vs)) = some v

first-append :
    (vs : List String) (w v : String)
    → first (some vs) ≡ some v
    → first (some (vs ++ w ∷ [])) ≡ some v
first-append [] w v h = ground (arith, h)
first-append (x ∷ vs) w v h = h

first-insert :
    (j k : String) (v : String) (h : Values)
    → str_eq k j ≡ true
    → first (lookup j (insert k (v ∷ []) h)) ≡ some v
first-insert j k v h e = ap first (lookup-insert k j (v ∷ []) h) ∙ rw e refl

-- An added value never comes first where there is one.
add_header-first :
    (site : Site) (j k w v : String) (h : Values)
    → first (lookup j h) ≡ some v
    → first (lookup j (add_header site k w h)) ≡ some v
add_header-first site j k w v h f =
    let name = site.canonical k in
    elim (Option-cases (lookup name h)) [
      | inl e ↦ elim (Bool-cases (str_eq name j)) [
        | inl q ↦
            let same : name ≡ j = ground (arith, eq_iff name j) in
            let gone : lookup j h ≡ none = subst (λ x. lookup x h ≡ none) same e in
            ground (arith, f, gone)
        | inr q ↦ rw (add_header, e) (ap first (lookup-insert name j (w ∷ []) h) ∙ rw q f)
      ]
      | inr (vs, e) ↦ elim (Bool-cases (str_eq name j)) [
        | inl q ↦
            let same : name ≡ j = ground (arith, eq_iff name j) in
            let there : lookup j h ≡ some vs = subst (λ x. lookup x h ≡ some vs) same e in
            rw (add_header, e)
              (ap first (lookup-insert name j (vs ++ w ∷ []) h)
                ∙ rw q (first-append vs w v (sym (ap first there) ∙ f)))
        | inr q ↦ rw (add_header, e) (ap first (lookup-insert name j (vs ++ w ∷ []) h) ∙ rw q f)
      ]
    ]

add_values-first :
    (site : Site) (j k v : String) (ws : List String) (h : Values)
    → first (lookup j h) ≡ some v
    → first (lookup j (add_values site k ws h)) ≡ some v
add_values-first site j k v [] h f = f
add_values-first site j k v (w ∷ ws) h f =
    add_values-first site j k v ws (add_header site k w h) (add_header-first site j k w v h f)

add_all-first :
    (site : Site) (j v : String) (m h : Values)
    → first (lookup j h) ≡ some v
    → first (lookup j (add_all site m h)) ≡ some v
add_all-first site j v [] h f = f
add_all-first site j v ((k, ws) ∷ m) h f =
    add_all-first site j v m (add_values site k ws h) (add_values-first site j k v ws h f)

-- A response with data that is complete.
abbrev pub is_whole : Option Response → Bool
is_whole none = false
is_whole (some r) = has_data (some r) && r.is_complete

abbrev pub flag : Bool → String
flag true = "true"
flag false = "false"

if-first :
    (b : Bool) (j v : String) (x y : Values)
    → first (lookup j x) ≡ some v
    → first (lookup j y) ≡ some v
    → first (lookup j (if b then x else y)) ≡ some v
if-first true j v x y hx hy = hx
if-first false j v x y hx hy = hy

with_response-first :
    (site : Site) (cfg : EndpointConfig) (r : Response) (h : Values)
    → first (lookup completed_header (with_response site cfg r h)) ≡ some (flag r.is_complete)
with_response-first site cfg r h =
    let complete = insert completed_header ("true" ∷ []) h in
    let cached = insert "Cache-Control" (site.cache_value cfg.cache_ttl ∷ []) complete in
    let set_true = first-insert completed_header completed_header "true" h refl in
    let kept : first (lookup completed_header cached) ≡ some "true" =
      ap first (
        lookup-insert "Cache-Control" completed_header (site.cache_value cfg.cache_ttl ∷ [])
          complete)
      ∙ set_true in
    let set_false = first-insert completed_header completed_header "false" h refl in
    let chosen : first (
          lookup completed_header (
            if r.is_complete
            then (if not (is_zero cfg.cache_ttl) then cached else complete)
            else insert completed_header ("false" ∷ []) h))
        ≡ some (flag r.is_complete) =
      elim (Bool-cases r.is_complete) [
        | inl e ↦ simp e (
            if-first (not (is_zero cfg.cache_ttl)) completed_header "true" cached complete kept
              set_true)
        | inr e ↦ simp e set_false
      ] in
    add_all-first site completed_header (flag r.is_complete) r.metadata.headers _ chosen

reply_with-first :
    (site : Site) (cfg : EndpointConfig) (response : Option Response) (err : Option Error)
    (h : Values)
    → first (lookup completed_header (reply_with site cfg response err h).headers)
      ≡ some (flag (is_whole response))
reply_with-first site cfg none err h = first-insert completed_header completed_header "false" h refl
reply_with-first site cfg (some r) err h = elim (Bool-cases (has_data (some r))) [
  | inl e ↦ rw (reply_with, is_whole, e) (with_response-first site cfg r h)
  | inr e ↦
      rw (reply_with, is_whole, e) (first-insert completed_header completed_header "false" h refl)
]

-- On every path of the handler, the first value of the header X-Krakend-Completed is "true" where the
-- method is the endpoint's and the response has data and is complete, and "false" otherwise, whatever
-- headers the backends sent.
pub handle_endpoint-first :
    (site : Site) (cfg : EndpointConfig) (method : String) (response : Option Response)
    (err : Option Error) (timed_out : Bool)
    → first
        (lookup completed_header (handle_endpoint site cfg method response err timed_out).headers)
      ≡ some (flag (str_eq method (site.to_title cfg.method) && is_whole response))
unfolding handle_endpoint
handle_endpoint-first site cfg method response err timed_out =
    let h = insert "X-Krakend" (site.version ∷ []) [] in
    elim (Bool-cases (str_eq method (site.to_title cfg.method))) [
      | inl e ↦ rw e (reply_with-first site cfg response (late_error timed_out err) h)
      | inr e ↦ rw e (first-insert completed_header completed_header "false" h refl)
    ]
