-- ===== src/Register/Laws.antt =====
-- A register holds what was last registered under each name.
use lura_p.Common.{
  true, ◌&&◌, String, [], ◌∷◌, Option, none, some, ◌≡◌, refl, str_eq, eq_iff, if◌then◌else◌,
  Bool-cases, Option-cases, inl, inr, arith, subst,
}
use lura_p.Register.{Untyped, get, register, Namespaced, register_in, get_in, copy, clone}

pub get-register :
    {A : Type 0} (u : Untyped A) (name : String) (v : A) (asked : String)
    → get (register u name v) asked ≡ (if str_eq name asked then some v else get u asked)
unfolding get register
get-register [] name v asked = refl
get-register ((k, w) ∷ u) name v asked =
    let rest = get-register u name v asked in
    elim (Bool-cases (str_eq k name)) [
      | inl e ↦ ground (arith, eq_iff k name)
      | inr e ↦ ground (arith, eq_iff k name, eq_iff k asked, eq_iff name asked, rest)
    ]

-- A register that is put back with one more entry.
put_lem :
    {A : Type 0} (n : Namespaced A) (namespace name : String) (u : Untyped A) (v : A)
    (space asked : String)
    → get_in (register n namespace (register u name v)) space asked ≡ (
        if str_eq namespace space
        then (if str_eq name asked then some v else get u asked)
        else get_in n space asked)
put_lem n namespace name u v space asked =
    rw (get_in, get-register n namespace (register u name v) space)
      elim (Bool-cases (str_eq namespace space)) [
        | inl e ↦ rw e (get-register u name v asked)
        | inr e ↦ rw e refl
      ]

-- What stands in a namespace, given what stands under its name.
get_in_lem :
    {A : Type 0} (n : Namespaced A) (namespace space asked : String) (o : Option (Untyped A))
    → get n namespace ≡ o
    → str_eq namespace space ≡ true
    → get_in n space asked ≡ elim o [ none ↦ none | some u ↦ get u asked ]
get_in_lem n namespace space asked o e q =
    let same : namespace ≡ space = ground (arith, eq_iff namespace space) in
    subst (λ x. get_in n x asked ≡ elim o [ none ↦ none | some u ↦ get u asked ]) same
      (rw (get_in, e) refl)

-- After a registration, the asked name of the asked namespace holds the new value where both are those
-- registered, and what it held before everywhere else.
pub get_in-register_in :
    {A : Type 0} (n : Namespaced A) (namespace name : String) (v : A) (space asked : String)
    → get_in (register_in n namespace name v) space asked
      ≡ (if str_eq namespace space && str_eq name asked then some v else get_in n space asked)
unfolding register_in get
get_in-register_in n namespace name v space asked = elim (Bool-cases (str_eq namespace space)) [
  | inl q ↦ elim (Option-cases (get n namespace)) [
    | inl e ↦
        rw
          (
            register_in,
            e,
            put_lem n namespace name [] v space asked,
            get_in_lem n namespace space asked none e q,
            q,
          )
          refl
    | inr (u, e) ↦
        rw
          (
            register_in,
            e,
            put_lem n namespace name u v space asked,
            get_in_lem n namespace space asked (some u) e q,
            q,
          )
          refl
  ]
  | inr q ↦ elim (Option-cases (get n namespace)) [
    | inl e ↦ rw (register_in, e, put_lem n namespace name [] v space asked, q) refl
    | inr (u, e) ↦ rw (register_in, e, put_lem n namespace name u v space asked, q) refl
  ]
]

-- A map holds each name once.
abbrev pub IsUnique : {A : Type 0} → Untyped A → Type 0
IsUnique [] = Unit
IsUnique ((k, v) ∷ u) = (get u k ≡ none) × IsUnique u

get_nil : (A : Type 0) (asked : String) → get {A = A} [] asked ≡ none
unfolding get
get_nil A asked = refl

get-cons :
    {A : Type 0} (k : String) (v : A) (u : Untyped A) (asked : String)
    → get ((k, v) ∷ u) asked ≡ (if str_eq k asked then some v else get u asked)
unfolding get
get-cons k v u asked = refl

get-copy :
    {A : Type 0} (u res : Untyped A) (asked : String)
    → IsUnique u
    → get (copy u res) asked ≡ elim (get u asked) [ none ↦ get res asked | some v ↦ some v ]
unfolding copy
get-copy {A} [] res asked h = rw (get_nil A asked) refl
get-copy ((k, v) ∷ u) res asked (fresh, h) =
    let rest = get-copy u (register res k v) asked h in
    let here = get-register res k v asked in
    elim (Bool-cases (str_eq k asked)) [
      | inl e ↦
          let same : k ≡ asked = ground (arith, eq_iff k asked) in
          let none_left : get u asked ≡ none = subst (λ x. get u x ≡ none) same fresh in
          rw (get-cons k v u asked, e, rest, none_left, here, e) refl
      | inr e ↦ elim (Option-cases (get u asked)) [
        | inl q ↦ rw (get-cons k v u asked, e, rest, q, here, e) refl
        | inr (w, q) ↦ rw (get-cons k v u asked, e, rest, q) refl
      ]
    ]

-- A clone of a register that holds each name once has under each name what the register has.
pub get-clone :
    {A : Type 0} (u : Untyped A) (asked : String) → IsUnique u → get (clone u) asked ≡ get u asked
unfolding clone
get-clone {A} u asked h = elim (Option-cases (get u asked)) [
  | inl e ↦ rw (get-copy {A = A} u [] asked h, e) (get_nil A asked)
  | inr (v, e) ↦ rw (get-copy {A = A} u [] asked h, e) refl
]
