-- ===== src/Proxy/Merging/Sequential/Keeps.antt =====
-- What keeps through each change of the variables keeps through all replacements.
use lura_p.Common.{
  ℕ, Bool, true, false, not, String, List, [], ◌∷◌, Option, none, some, str_eq, leb, if◌then◌else◌,
  Bool-cases, inl, inr, get_elem?, ◌>>=◌,
}
use lura_p.Value.{Value, get}
use lura_p.Proxy.{Response, Request}
use lura_p.Proxy.Merging.Progress.{
  Replacement, Progress, found_in, assign, drained, set_param, param_of, last_key, descend, data_of,
}
use lura_p.Proxy.Merging.Sequential.{replace_from, replace, propagate}

module _ (sprint : Value → String) (read_all : String → Option String) (Q : Progress → Type 0)
    (on_request : (q : Request) (st : Progress) → Q st → Q (record st { request = q }))
    (on_assign : (k v : String) (st : Progress) → Q st → Q (assign k v st))
    (on_drained : (j : ℕ) (st : Progress) → Q st → Q (drained j st)) where
  if-keeps :
      (a b : Bool) (x y z : Progress) → Q x → Q y → Q z → Q (if a then x else if b then y else z)
  if-keeps true b x y z hx hy hz = hx
  if-keeps false true x y z hx hy hz = hy
  if-keeps false false x y z hx hy hz = hz

  read-keeps :
      (j : String) (i : ℕ) (st : Progress) (o : Option String)
      → Q st
      → Q (elim o as (λ _. Progress) [ none ↦ st | some buf ↦ assign j buf (drained i st) ])
  read-keeps j i st none h = h
  read-keeps j i st (some buf) h = on_assign j buf (drained i st) (on_drained i st h)

  body-keeps :
      (j : String) (i : ℕ) (st : Progress) (o : Option String)
      → Q st
      → Q (elim o as (λ _. Progress) [
        | none ↦ st
        | some content ↦ elim (read_all content) [
          | none ↦ st
          | some buf ↦ assign j buf (drained i st)
        ]
      ])
  body-keeps j i st none h = h
  body-keeps j i st (some c) h = read-keeps j i st (read_all c) h

  value-keeps :
      (j : String) (st : Progress) (o : Option Value)
      → Q st
      → Q (elim o as (λ _. Progress) [ none ↦ st | some w ↦ assign j (param_of sprint w) st ])
  value-keeps j st none h = h
  value-keeps j st (some w) h = on_assign j (param_of sprint w) st h

  replace_from-keeps :
      (r : Replacement) (p : Response) (st : Progress)
      → Q st
      → Q (replace_from sprint read_all r p st)
  unfolding replace_from
  replace_from-keeps r p st h =
      if-keeps (not (str_eq (found_in st.registry r.destination) "")) r.full_response _ _ _
        (on_request (set_param r.destination (found_in st.registry r.destination) st.request) st h)
        (body-keeps r.destination r.backend_index st p.io h)
        (value-keeps r.destination st
          (get (last_key r.source) (descend r.source (data_of st r.backend_index p))) h)

  part-keeps :
      (r : Replacement) (st : Progress) (o : Option Response)
      → Q st
      → Q (elim o as (λ _. Progress) [ none ↦ st | some p ↦ replace_from sprint read_all r p st ])
  part-keeps r st none h = h
  part-keeps r st (some p) h = replace_from-keeps r p st h

  replace-keeps :
      (i : ℕ) (r : Replacement) (st : Progress) → Q st → Q (replace sprint read_all i r st)
  unfolding replace
  replace-keeps i r st h = elim (Bool-cases (leb i r.backend_index)) [
    | inl e ↦ rw e h
    | inr e ↦ rw e (part-keeps r st (get_elem? st.parts r.backend_index >>= (λ p. p)) h)
  ]

  pub propagate-keeps :
      (i : ℕ) (rs : List Replacement) (st : Progress) → Q st → Q (propagate sprint read_all i rs st)
  unfolding propagate
  propagate-keeps i [] st h = h
  propagate-keeps i (r ∷ rs) st h =
      propagate-keeps i rs (replace sprint read_all i r st) (replace-keeps i r st h)
