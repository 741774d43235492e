-- ===== src/Proxy/Merging/Sequential/Registry.antt =====
-- A value that was once taken for a parameter stays.
use lura_p.Common.{
  ℕ, Bool, true, false, not, String, List, [], ◌∷◌, Option, none, some, ◌≡◌, refl, str_eq, eq_iff,
  leb, if◌then◌else◌, Bool-cases, inl, inr, arith, get_elem?, ◌>>=◌, ◌∙◌, subst, sym,
}
use lura_p.Value.{Value, get}
use lura_p.Register.{get as find}
use lura_p.Register.Laws.{get-register}
use lura_p.Proxy.{Response}
use lura_p.Proxy.Merging.Progress.{
  Replacement, Progress, found_in, assign, drained, param_of, last_key, descend, data_of,
}
use lura_p.Proxy.Merging.Sequential.{replace_from, replace, propagate}

-- The registry, and with it the parameter, holds `v` for `k`.
abbrev pub IsHeld : String → String → Progress → Type 0
IsHeld k v st = find st.registry k ≡ some v

module _ (sprint : Value → String) (read_all : String → Option String) where
  -- A replacement that would assign finds no value yet.
  assign-IsHeld :
      (k v j w : String) (st : Progress)
      → str_eq j k ≡ false
      → IsHeld k v st
      → IsHeld k v (assign j w st)
  assign-IsHeld k v j w st differ h = get-register st.registry j w k ∙ rw differ h

  if-IsHeld :
      (k v : String) (a b : Bool) (x y z : Progress)
      → IsHeld k v x
      → IsHeld k v y
      → IsHeld k v z
      → IsHeld k v (if a then x else if b then y else z)
  if-IsHeld k v true b x y z hx hy hz = hx
  if-IsHeld k v false true x y z hx hy hz = hy
  if-IsHeld k v false false x y z hx hy hz = hz

  read-IsHeld :
      (k v j : String) (i : ℕ) (st : Progress) (o : Option String)
      → str_eq j k ≡ false
      → IsHeld k v st
      → IsHeld k v
          (elim o as (λ _. Progress) [ none ↦ st | some buf ↦ assign j buf (drained i st) ])
  read-IsHeld k v j i st none differ h = h
  read-IsHeld k v j i st (some buf) differ h = assign-IsHeld k v j buf (drained i st) differ h

  body-IsHeld :
      (k v j : String) (i : ℕ) (st : Progress) (o : Option String)
      → str_eq j k ≡ false
      → IsHeld k v st
      → IsHeld k v (elim o as (λ _. Progress) [
        | none ↦ st
        | some content ↦ elim (read_all content) [
          | none ↦ st
          | some buf ↦ assign j buf (drained i st)
        ]
      ])
  body-IsHeld k v j i st none differ h = h
  body-IsHeld k v j i st (some c) differ h = read-IsHeld k v j i st (read_all c) differ h

  value-IsHeld :
      (k v j : String) (st : Progress) (o : Option Value)
      → str_eq j k ≡ false
      → IsHeld k v st
      → IsHeld k v
          (elim o as (λ _. Progress) [ none ↦ st | some w ↦ assign j (param_of sprint w) st ])
  value-IsHeld k v j st none differ h = h
  value-IsHeld k v j st (some w) differ h = assign-IsHeld k v j (param_of sprint w) st differ h

  found-held :
      (k v j : String) (st : Progress)
      → str_eq j k ≡ true
      → IsHeld k v st
      → found_in st.registry j ≡ v
  found-held k v j st e h =
      let same : j ≡ k = ground (arith, eq_iff j k) in
      subst (λ x. found_in st.registry x ≡ v) (sym same) (rw (found_in, h) refl)

  replace_from-IsHeld :
      (k v : String) (r : Replacement) (p : Response) (st : Progress)
      → str_eq v "" ≡ false
      → IsHeld k v st
      → IsHeld k v (replace_from sprint read_all r p st)
  unfolding replace_from
  replace_from-IsHeld k v r p st given h = elim (Bool-cases (str_eq r.destination k)) [
    | inl e ↦ rw (found-held k v r.destination st e h, given) h
    | inr e ↦
        if-IsHeld k v (not (str_eq (found_in st.registry r.destination) "")) r.full_response _ _ _ h
          (body-IsHeld k v r.destination r.backend_index st p.io e h)
          (value-IsHeld k v r.destination st
            (get (last_key r.source) (descend r.source (data_of st r.backend_index p))) e h)
  ]

  part-IsHeld :
      (k v : String) (r : Replacement) (st : Progress) (o : Option Response)
      → str_eq v "" ≡ false
      → IsHeld k v st
      → IsHeld k v
          (elim o as (λ _. Progress) [ none ↦ st | some p ↦ replace_from sprint read_all r p st ])
  part-IsHeld k v r st none given h = h
  part-IsHeld k v r st (some p) given h = replace_from-IsHeld k v r p st given h

  replace-IsHeld :
      (k v : String) (i : ℕ) (r : Replacement) (st : Progress)
      → str_eq v "" ≡ false
      → IsHeld k v st
      → IsHeld k v (replace sprint read_all i r st)
  unfolding replace
  replace-IsHeld k v i r st given h = elim (Bool-cases (leb i r.backend_index)) [
    | inl e ↦ rw e h
    | inr e ↦ rw e (part-IsHeld k v r st (get_elem? st.parts r.backend_index >>= (λ p. p)) given h)
  ]

  -- A value other than the empty text that was registered for a destination stays registered for it,
  -- whatever replacements follow.
  pub propagate-IsHeld :
      (k v : String) (i : ℕ) (rs : List Replacement) (st : Progress)
      → str_eq v "" ≡ false
      → IsHeld k v st
      → IsHeld k v (propagate sprint read_all i rs st)
  unfolding propagate
  propagate-IsHeld k v i [] st given h = h
  propagate-IsHeld k v i (r ∷ rs) st given h =
      propagate-IsHeld k v i rs (replace sprint read_all i r st) given
        (replace-IsHeld k v i r st given h)
