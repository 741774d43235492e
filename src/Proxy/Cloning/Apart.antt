-- ===== src/Proxy/Cloning/Apart.antt =====
-- What is done through a deep clone does not show in the original.
use lura_p.Common.{
  ℕ, ◌≤◌, ◌<◌, ◌≡◌, refl, ap, sym, subst, ◌∙◌, String, List, [], ◌∷◌, Option, none, some, map,
  arith, Bool-cases, inl, inr, str_eq, if◌then◌else◌,
}
use lura_p.Proxy.Cloning.{
  Store, RequestRef, view, entries, slice_of, pointee, clone_request, update, new_slice,
}
use lura_p.Proxy.Cloning.Places.{IsFrom, AreBelow, AreFrom, map-slice_of, update-same}
use lura_p.Proxy.Cloning.Copies.{IsReparsed, IsWithin, IsDistinct, entries_kept}
use lura_p.Proxy.Cloning.Shown.{IsApart, clone_request-view, clone_request-IsApart}

-- What a holder of a request can do to the store through its headers, parameters and body:
-- `r.Headers[k] = vs`, `r.Headers[k][i] = v` and the like, which change the slice that stands at `k`,
-- `r.Params[k] = v`, and reading the body, which leaves `rest`.
pub data Change : Type 0 where
  set_header : String → List String → Change
  edit_header : String → List String → Change
  set_param : String → String → Change
  read_body : String → Change

-- `m[k] = a`
abbrev pub put : {A : Type 0} → String → A → List (String × A) → List (String × A)
put k a [] = (k, a) ∷ []
put k a ((j, b) ∷ es) = if str_eq j k then (j, a) ∷ es else (j, b) ∷ put k a es

-- `m[k]`, for a place.
abbrev pub place_of : String → List (String × ℕ) → Option ℕ
place_of k [] = none
place_of k ((j, p) ∷ es) = if str_eq j k then some p else place_of k es

abbrev pub update_at : {A : Type 0} → (ℕ → A) → Option ℕ → A → ℕ → A
update_at f none a = f
update_at f (some p) a = update f p a

abbrev pub change : RequestRef → Change → Store → Store
change c (set_header k xs) s = record (new_slice xs s) {
  lists = update_at s.lists c.headers (put k s.next (entries s.lists c.headers));
}
change c (edit_header k xs) s = record s {
  slice = update_at s.slice (place_of k (entries s.lists c.headers)) xs;
}
change c (set_param k v) s = record s {
  texts = update_at s.texts c.params (put k v (entries s.texts c.params));
}
change c (read_body rest) s = record s { reader = update_at s.reader c.body rest }

abbrev pub change_all : RequestRef → List Change → Store → Store
change_all c [] s = s
change_all c (x ∷ xs) s = change_all c xs (change c x s)

update_at-below :
    {A : Type 0} (f : ℕ → A) (n : ℕ) (p : Option ℕ) (a : A)
    → IsFrom n p
    → (q : ℕ) → q < n
    → update_at f p a q ≡ f q
update_at-below f n none a h q lt = refl
update_at-below f n (some p) a h q lt = ground arith

pointee-update_at :
    {A : Type 0} (f : ℕ → A) (p q : Option ℕ) (a : A)
    → IsDistinct q p
    → pointee (update_at f p a) q ≡ pointee f q
pointee-update_at f none q a h = refl
pointee-update_at f (some p) none a h = refl
pointee-update_at f (some p) (some q) a h = ground arith

put-AreFrom :
    (n : ℕ) (k : String) (q : ℕ) (es : List (String × ℕ))
    → n ≤ q
    → AreFrom n es
    → AreFrom n (put k q es)
put-AreFrom n k q [] le h = (le, tt)
put-AreFrom n k q ((j, p) ∷ es) le h = elim (Bool-cases (str_eq j k)) [
  | inl e ↦ rw e (le, h.1)
  | inr e ↦ rw e (h.0, put-AreFrom n k q es le h.1)
]

place_of-IsFrom :
    (n : ℕ) (k : String) (es : List (String × ℕ)) → AreFrom n es → IsFrom n (place_of k es)
place_of-IsFrom n k [] h = tt
place_of-IsFrom n k ((j, p) ∷ es) h = elim (Bool-cases (str_eq j k)) [
  | inl e ↦ rw e h.0
  | inr e ↦ rw e (place_of-IsFrom n k es h.1)
]

entries-update_at :
    (f : ℕ → List (String × ℕ)) (n : ℕ) (p : Option ℕ) (es : List (String × ℕ))
    → AreFrom n es
    → AreFrom n (entries (update_at f p es) p)
entries-update_at f n none es h = tt
entries-update_at f n (some p) es h = subst (AreFrom n) (sym (update-same f p es)) h

-- Below `n`, a store has in its slices and maps what another one has.
abbrev IsSameBelow : ℕ → Store → Store → Type 0
IsSameBelow n s t =
    ((p : ℕ) → p < n → t.slice p ≡ s.slice p)
    × ((p : ℕ) → p < n → t.lists p ≡ s.lists p)
    × ((p : ℕ) → p < n → t.texts p ≡ s.texts p)
    × (t.url ≡ s.url)

-- One change keeps what stands below `n`, the original's reader, and the two requests apart.
abbrev IsHarmless : ℕ → Store → Store → RequestRef → RequestRef → Type 0
IsHarmless n s t r c =
    IsSameBelow n s t
    × (pointee t.reader r.body ≡ pointee s.reader r.body)
    × (s.next ≤ t.next)
    × AreFrom n (entries t.lists c.headers)

change-IsHarmless :
    (n : ℕ) (s : Store) (r c : RequestRef) (x : Change)
    → IsApart n s r c
    → IsHarmless n s (change c x s) r c
change-IsHarmless n s r c (set_header k xs) a =
    let es = put k s.next (entries s.lists c.headers) in
    (
      (λ p h. ground arith, update_at-below s.lists n c.headers es a.7, λ p h. refl, refl),
      refl,
      omega arith,
      entries-update_at s.lists n c.headers es
          (put-AreFrom n k s.next (entries s.lists c.headers) a.0 a.8),
    )
change-IsHarmless n s r c (edit_header k xs) a =
    let p = place_of k (entries s.lists c.headers) in
    (
      (
        update_at-below s.slice n p xs (place_of-IsFrom n k (entries s.lists c.headers) a.8),
        λ p h. refl,
        λ p h. refl,
        refl,
      ),
      refl,
      omega arith,
      a.8,
    )
change-IsHarmless n s r c (set_param k v) a = (
  (
    λ p h. refl,
    λ p h. refl,
    update_at-below s.texts n c.params (put k v (entries s.texts c.params)) a.9,
    refl,
  ),
  refl,
  omega arith,
  a.8,
)
change-IsHarmless n s r c (read_body rest) a = (
  (λ p h. refl, λ p h. refl, λ p h. refl, refl),
  pointee-update_at s.reader c.body r.body rest a.10,
  omega arith,
  a.8,
)

module _ (n : ℕ) (s t : Store) (r c : RequestRef) (a : IsApart n s r c)
    (h : IsHarmless n s t r c) where
  query_same : entries t.lists r.query ≡ entries s.lists r.query
  query_same = entries_kept s.lists t.lists n r.query h.0.1 a.2

  headers_same : entries t.lists r.headers ≡ entries s.lists r.headers
  headers_same = entries_kept s.lists t.lists n r.headers h.0.1 a.4

  lists_same :
      (p : Option ℕ)
      → entries t.lists p ≡ entries s.lists p
      → AreBelow n (entries s.lists p)
      → map (slice_of t.slice) (entries t.lists p) ≡ map (slice_of s.slice) (entries s.lists p)
  lists_same p e b =
      ap (map (slice_of t.slice)) e ∙ map-slice_of s.slice t.slice n (entries s.lists p) h.0.0 b

  harmless-view : view t r ≡ view s r
  harmless-view = λ i. record (view s r) {
    url = pointee (h.0.3 i) r.url;
    query = lists_same r.query query_same a.5 i;
    body = h.1 i;
    params = entries_kept s.texts t.texts n r.params h.0.2 a.3 i;
    headers = lists_same r.headers headers_same a.6 i;
  }

  harmless-IsApart : IsApart n t r c
  harmless-IsApart = (
    omega (arith, a.0, h.2),
    a.1,
    a.2,
    a.3,
    a.4,
    subst (AreBelow n) (sym query_same) a.5,
    subst (AreBelow n) (sym headers_same) a.6,
    a.7,
    h.3,
    a.9,
    a.10,
  )

change_all-view :
    (n : ℕ) (s : Store) (r c : RequestRef) (xs : List Change)
    → IsApart n s r c
    → view (change_all c xs s) r ≡ view s r
change_all-view n s r c [] a = refl
change_all-view n s r c (x ∷ xs) a =
    let h = change-IsHarmless n s r c x a in
    let t = change c x s in
    change_all-view n t r c xs (harmless-IsApart n s t r c a h) ∙ harmless-view n s t r c a h

-- Where the request's URL and maps stand in the store and the text of its URL can be parsed again,
-- whatever is then done through the deep clone with its headers, their values, its parameters and
-- its body, in any order, the original still shows what the request showed before it was cloned.
pub clone_request-change_all :
    (reparse : String → Option String) (r : RequestRef) (s : Store) (xs : List Change)
    → IsWithin s r
    → IsReparsed reparse s r.url
    → let done = clone_request reparse r s in
      view (change_all done.1.1 xs done.0) done.1.0 ≡ view s r
clone_request-change_all reparse r s xs within parsed =
    let done = clone_request reparse r s in
    change_all-view s.next done.0 done.1.0 done.1.1 xs
      (clone_request-IsApart reparse r s within parsed)
    ∙ (clone_request-view reparse r s within parsed).0
