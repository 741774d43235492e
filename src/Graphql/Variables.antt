-- ===== src/Graphql/Variables.antt =====
-- Which variables a GraphQL request has.
use mathlib.Core.Option
use lura_p.Common.{
  ◌≡◌, refl, ap, sym, subst, ◌∙◌, Bool, true, false, String, List, [], ◌∷◌, Option, none, some,
  str_eq, Bool-cases, inl, inr, if◌then◌else◌, eq_iff,
}
use lura_p.Value.{Value, text, Dict, end, field, get, set, set_all, IsMap}
use lura_p.Value.Laws.{get-set, get-set_all}
use lura_p.Graphql.{
  Options, Placeholder, named, plain, panicked, placeholder, with_placeholder, with_text, text_of,
  replacements, param, replace_all, extract,
}

-- The name of a placeholder, and of a value that is one.
abbrev pub name_in : Placeholder → Option String
name_in (named n) = some n
name_in plain = none
name_in panicked = none

abbrev name_of_text : (String → String) → Option String → Option String
name_of_text title none = none
name_of_text title (some s) = name_in (placeholder title s)

-- The name that the last replacement of a variable has.
abbrev last_name : String → List (String × String) → Option String
last_name j [] = none
last_name j ((k, n) ∷ rs) = elim (last_name j rs) [
  | none ↦ if str_eq k j then some n else none
  | some m ↦ some m
]

-- The name that belongs to a key of a map.
abbrev name_at : (String → String) → Option Value → Option String
name_at title none = none
name_at title (some v) = name_of_text title (text_of v)

module _ (title : String → String) (j : String) where
  -- What a round of the loop leaves, if `before` stands for the later entries.
  abbrev here_or : String → Option String → Option String → Option String
  here_or k name before = if str_eq k j then name else before

  last_name-cons :
      (k n : String) (rs : List (String × String)) (before : Option String)
      → last_name j rs ≡ before
      → (str_eq k j ≡ true → before ≡ none)
      → last_name j ((k, n) ∷ rs) ≡ here_or k (some n) before
  last_name-cons k n rs none e h = rw (e, last_name) refl
  last_name-cons k n rs (some m) e h = elim (Bool-cases (str_eq k j)) [
    | inl s ↦ let absurd_ : Option.some m ≡ none = h s in cc
    | inr s ↦ rw (e, s, last_name) refl
  ]

  keeps :
      (k : String) (rs : List (String × String)) (before : Option String)
      → last_name j rs ≡ before
      → (str_eq k j ≡ true → before ≡ none)
      → last_name j rs ≡ here_or k none before
  keeps k rs before e h = elim (Bool-cases (str_eq k j)) [ inl s ↦ rw s (e ∙ h s) | inr s ↦ rw s e ]

  by_placeholder :
      (k : String) (p : Placeholder) (r : Option (List (String × String)))
      (rs : List (String × String)) (before : Option String)
      → with_placeholder k p r ≡ some rs
      → ((qs : List (String × String)) → r ≡ some qs → last_name j qs ≡ before)
      → (str_eq k j ≡ true → before ≡ none)
      → last_name j rs ≡ here_or k (name_in p) before
  by_placeholder k (named n) none rs before e ih h = cc
  by_placeholder k (named n) (some qs) rs before e ih h =
      let same : (k, n) ∷ qs ≡ rs = cc in
      subst (λ (l : List (String × String)). last_name j l ≡ here_or k (some n) before) same
        (last_name-cons k n qs before (ih qs refl) h)
  by_placeholder k plain r rs before e ih h = keeps k rs before (ih rs e) h
  by_placeholder k panicked r rs before e ih h = cc

  by_text :
      (k : String) (o : Option String) (r : Option (List (String × String)))
      (rs : List (String × String)) (before : Option String)
      → with_text title k o r ≡ some rs
      → ((qs : List (String × String)) → r ≡ some qs → last_name j qs ≡ before)
      → (str_eq k j ≡ true → before ≡ none)
      → last_name j rs ≡ here_or k (name_of_text title o) before
  by_text k none r rs before e ih h = keeps k rs before (ih rs e) h
  by_text k (some s) r rs before e ih h = by_placeholder k (placeholder title s) r rs before e ih h

  last_name-replacements :
      (d : Dict) (rs : List (String × String))
      → IsMap d
      → replacements title d ≡ some rs
      → last_name j rs ≡ name_at title (get j d)
  unfolding replacements get IsMap
  last_name-replacements end rs m e = let same : [] ≡ rs = cc in ap (last_name j) (sym same)
  last_name-replacements (field k v d) rs m e =
      by_text k (text_of v) (replacements title d) rs (name_at title (get j d)) e
        (λ qs q. last_name-replacements d qs m.1 q)
        (λ s.
          ap (λ (x : String). name_at title (get x d)) (sym ((eq_iff k j).0 s))
          ∙ ap (name_at title) m.0)
      ∙ elim (Bool-cases (str_eq k j)) [ inl s ↦ rw s refl | inr s ↦ rw s refl ]

-- What a variable has once its name is replaced, if it has one.
abbrev filled : List (String × String) → Option String → Option Value → Option Value
filled params none w = w
filled params (some n) w = some (text (param n params))

filled_if :
    (params : List (String × String)) (o : Option String) (b : Bool) (n : String) (w : Option Value)
    → filled params o (if b then some (text (param n params)) else w)
      ≡ filled params (elim o [ none ↦ if b then some n else none | some m ↦ some m ]) w
filled_if params none true n w = refl
filled_if params none false n w = refl
filled_if params (some m) b n w = refl

get-replace_all :
    (j : String) (rs : List (String × String)) (params : List (String × String)) (d : Dict)
    → get j (replace_all rs params d) ≡ filled params (last_name j rs) (get j d)
unfolding replace_all
get-replace_all j [] params d = refl
get-replace_all j ((k, n) ∷ rs) params d =
    get-replace_all j rs params (set k (text (param n params)) d)
    ∙ ap (filled params (last_name j rs)) (get-set k j (text (param n params)) d)
    ∙ filled_if params (last_name j rs) (str_eq k j) n (get j d)

-- A variable's value: of a placeholder the parameter that it names, empty where there is none, and of
-- anything else the value itself.
abbrev pub value_for : (String → String) → List (String × String) → Value → Value
value_for title params v = elim (name_of_text title (text_of v)) [
  | none ↦ v
  | some n ↦ text (param n params)
]

filled-name_at :
    (title : String → String) (params : List (String × String)) (o : Option Value)
    → filled params (name_at title o) o ≡ Option.map (value_for title params) o
filled-name_at title params none = refl
filled-name_at title params (some v) = chosen (name_of_text title (text_of v)) v
  where
    chosen :
        (n : Option String) (v : Value)
        → filled params n (some v) ≡ some (elim n [ none ↦ v | some n ↦ text (param n params) ])
    chosen none v = refl
    chosen (some n) v = refl

copied : (j : String) (d : Dict) → IsMap d → get j (set_all d end) ≡ get j d
unfolding get
copied j d m = get-set_all j d end m ∙ (same (get j d))
  where
    same : (o : Option Value) → (elim o [ none ↦ none | some v ↦ some v ]) ≡ o
    same none = refl
    same (some v) = refl

-- Where the variables of the options are a map and `New` does not panic, the request that is made of
-- some parameters has the variables of the options, each with the value of the parameter that its
-- placeholder names, or with its own value where it is no placeholder.
pub extract-value_for :
    (title : String → String) (opt : Options) (rs params : List (String × String)) (j : String)
    → IsMap opt.request.variables
    → replacements title opt.request.variables ≡ some rs
    → get j (extract opt rs params).variables
      ≡ Option.map (value_for title params) (get j opt.request.variables)
unfolding extract
extract-value_for title opt [] params j m e =
    ap (λ (n : Option String). filled params n (get j opt.request.variables))
      (last_name-replacements title j opt.request.variables [] m e)
    ∙ filled-name_at title params (get j opt.request.variables)
extract-value_for title opt (r ∷ rs) params j m e =
    let d = opt.request.variables in
    get-replace_all j (r ∷ rs) params (set_all d end)
    ∙ ap (filled params (last_name j (r ∷ rs))) (copied j d m)
    ∙ ap (λ (n : Option String). filled params n (get j d))
        (last_name-replacements title j d (r ∷ rs) m e)
    ∙ filled-name_at title params (get j d)
