-- ===== src/Graphql/Carried.antt =====
-- The query of a GraphQL request that is sent by GET.
use lura_p.Common.{
  ◌≡◌, refl, ap, sym, ◌∙◌, Bool, true, false, String, List, [], ◌∷◌, ◌++◌, Option, some, str_eq,
  eq_iff, Bool-cases, inl, inr, if◌then◌else◌, arith, ◌==◌,
}
use lura_p.Value.{Dict, end, field, len}
use lura_p.Proxy.Filters.{Values, lookup, insert}
use lura_p.Proxy.Filters.Passed.{lookup-insert}
use lura_p.Graphql.{Platform, GraphqlRequest, query_of}
use lura_p.Graphql.Middleware.{values_or_none, add_all}

-- The values of a name.
abbrev pub values_at : String → Values → List String
values_at k m = values_or_none (lookup k m)

-- All values that a list of additions has for a name.
abbrev values_in : String → Values → List String
values_in k [] = []
values_in k ((j, vs) ∷ q) = (if str_eq j k then vs else []) ++ values_in k q

append_assoc : (xs ys zs : List String) → (xs ++ ys) ++ zs ≡ xs ++ (ys ++ zs)
append_assoc [] ys zs = refl
append_assoc (x ∷ xs) ys zs = ap (λ l. x ∷ l) (append_assoc xs ys zs)

append_nil : (xs : List String) → xs ++ [] ≡ xs
append_nil [] = refl
append_nil (x ∷ xs) = ap (λ l. x ∷ l) (append_nil xs)

values_at-insert :
    (k j : String) (vs : List String) (m : Values)
    → values_at k (insert j (values_at j m ++ vs) m)
      ≡ values_at k m ++ (if str_eq j k then vs else [])
values_at-insert k j vs m = elim (Bool-cases (str_eq j k)) [
  | inl e ↦
      ap values_or_none (lookup-insert j k (values_at j m ++ vs) m)
      ∙ rw e (ap (λ x. values_at x m ++ vs) ((eq_iff j k).0 e))
  | inr e ↦
      ap values_or_none (lookup-insert j k (values_at j m ++ vs) m)
      ∙ rw e (sym (append_nil (values_at k m)))
]

values_at-add_all :
    (k : String) (q m : Values) → values_at k (add_all q m) ≡ values_at k m ++ values_in k q
unfolding add_all
values_at-add_all k [] m = sym (append_nil (values_at k m))
values_at-add_all k ((j, vs) ∷ q) m =
    values_at-add_all k q (insert j (values_at j m ++ vs) m)
    ∙ ap (λ l. l ++ values_in k q) (values_at-insert k j vs m)
    ∙ append_assoc (values_at k m) (if str_eq j k then vs else []) (values_in k q)

-- The variables, where there are some.
abbrev variables_of : Platform → Dict → List String
variables_of env end = []
variables_of env (field k v d) = env.encode_map (field k v d) ∷ []

-- What a request of GraphQL adds to a query under a name.
abbrev pub carried : Platform → GraphqlRequest → String → List String
carried env gr k =
    if str_eq "query" k
    then gr.query ∷ []
    else if str_eq "operationName" k
    then (if str_eq gr.operation_name "" then [] else gr.operation_name ∷ [])
    else if str_eq "variables" k
    then variables_of env gr.variables
    else []

values_in-append :
    (k : String) (q r : Values) → values_in k (q ++ r) ≡ values_in k q ++ values_in k r
values_in-append k [] r = refl
values_in-append k ((j, vs) ∷ q) r =
    ap (λ l. (if str_eq j k then vs else []) ++ l) (values_in-append k q r)
    ∙ sym (append_assoc (if str_eq j k then vs else []) (values_in k q) (values_in k r))

-- One name with its values, if there are any.
named_lem :
    (j k : String) (b : Bool) (v : String)
    → values_in k (if b then [] else ((j, v ∷ []) ∷ []))
      ≡ (if str_eq j k then (if b then [] else v ∷ []) else [])
named_lem j k true v = elim (Bool-cases (str_eq j k)) [ inl e ↦ rw e refl | inr e ↦ rw e refl ]
named_lem j k false v = append_nil (if str_eq j k then v ∷ [] else [])

variables_lem :
    (env : Platform) (d : Dict)
    → (if len d == 0 then [] else env.encode_map d ∷ []) ≡ variables_of env d
unfolding len
variables_lem env end = refl
variables_lem env (field k v d) =
    let some_left : (len (field k v d) == 0) ≡ false = ground arith in rw some_left refl

-- No name is another.
apart : (j i k : String) → str_eq j i ≡ false → str_eq j k ≡ true → str_eq i k ≡ false
apart j i k d e = ground (arith, d, e, eq_iff j i, eq_iff j k, eq_iff i k)

values_in-query_of :
    (env : Platform) (gr : GraphqlRequest) (k : String)
    → values_in k (query_of env gr) ≡ carried env gr k
unfolding query_of
values_in-query_of env gr k =
    let name : Values =
      if str_eq gr.operation_name ""
      then []
      else (("operationName", gr.operation_name ∷ []) ∷ []) in
    let vars : Values =
      if len gr.variables == 0
      then []
      else (("variables", env.encode_map gr.variables ∷ []) ∷ []) in
    ap (λ l. (if str_eq "query" k then gr.query ∷ [] else []) ++ l)
      (values_in-append k name vars ∙ (λ i.
        named_lem "operationName" k (str_eq gr.operation_name "") gr.operation_name i
        ++ named_lem "variables" k (len gr.variables == 0) (env.encode_map gr.variables) i))
    ∙ by_name
  where
    by_name :
        ((if str_eq "query" k then gr.query ∷ [] else [])
          ++ ((if str_eq "operationName" k
                then (if str_eq gr.operation_name "" then [] else gr.operation_name ∷ [])
                else [])
              ++ (if str_eq "variables" k
                  then (if len gr.variables == 0 then [] else env.encode_map gr.variables ∷ [])
                  else [])))
        ≡ carried env gr k
    by_name = elim (Bool-cases (str_eq "query" k)) [
      | inl q ↦
          rw (q, apart "query" "operationName" k refl q, apart "query" "variables" k refl q) refl
      | inr q ↦ elim (Bool-cases (str_eq "operationName" k)) [
        | inl o ↦ rw (q, o, apart "operationName" "variables" k refl o) (append_nil _)
        | inr o ↦ elim (Bool-cases (str_eq "variables" k)) [
          | inl v ↦ rw (q, o, v) (variables_lem env gr.variables)
          | inr v ↦ rw (q, o, v) refl
        ]
      ]
    ]

-- The query with what a request of GraphQL adds to it.
pub values_at-carried :
    (env : Platform) (gr : GraphqlRequest) (m : Values) (k : String)
    → values_at k (add_all (query_of env gr) m) ≡ values_at k m ++ carried env gr k
values_at-carried env gr m k =
    values_at-add_all k (query_of env gr) m
    ∙ ap (λ l. values_at k m ++ l) (values_in-query_of env gr k)

-- A header of a request with a content type and a length, given what it was before.
abbrev pub header_for : String → String → Option (List String) → Option (List String)
header_for size k old =
    if str_eq "Content-Type" k
    then some ("application/json" ∷ [])
    else if str_eq "Content-Length" k
    then some (size ∷ [])
    else old

pub lookup-sized :
    (size k : String) (h : Values)
    → lookup k
        (insert "Content-Type" ("application/json" ∷ []) (insert "Content-Length" (size ∷ []) h))
      ≡ header_for size k (lookup k h)
lookup-sized size k h =
    lookup-insert "Content-Type" k ("application/json" ∷ []) (insert "Content-Length" (size ∷ []) h)
    ∙ ap (λ x. if str_eq "Content-Type" k then some ("application/json" ∷ []) else x)
        (lookup-insert "Content-Length" k (size ∷ []) h)
