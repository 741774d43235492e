-- ===== src/Proxy/Cloning/Shown.antt =====
-- What a deep clone shows, and where it stands.
use lura_p.Common.{ℕ, ◌≤◌, ◌<◌, ◌≡◌, refl, ap, sym, subst, ◌∙◌, String, Option, some, map, arith}
use lura_p.Proxy.Cloning.{
  Store, RequestRef, view, entries, slice_of, pointee, clone, clone_url, clone_request_headers,
  clone_request_params, clone_body, clone_request,
}
use lura_p.Proxy.Cloning.Places.{
  IsBelow, AreBelow, IsKept, IsKept-trans, AreBelow-mono, AreFrom, AreFrom-mono, IsFrom,
  IsKept-new_texts, update-same, slices_kept,
}
use lura_p.Proxy.Cloning.Copies.{
  IsListsCopy, clone_request_headers-IsListsCopy, IsReparsed, IsWithin, entries_kept, pointee_kept,
  lists_kept, IsUrlCopy, clone_url-IsUrlCopy, AreReaders, IsDistinct, clone_body-AreReaders,
}

-- A request in the old store, with any body, is seen in a later one as it was, but for its body.
view_kept :
    (s t : Store) (r : RequestRef) (body : Option ℕ)
    → IsKept s t
    → IsWithin s r
    → view t (record r { body = body }) ≡ record (view s r) { body = pointee t.reader body }
view_kept s t r body k (url, query, params, headers, qs, hs) = λ i. record (view s r) {
  url = pointee_kept s.url t.url s.next r.url k.4 url i;
  query = lists_kept s t r.query k query qs i;
  body = pointee t.reader body;
  params = entries_kept s.texts t.texts s.next r.params k.3 params i;
  headers = lists_kept s t r.headers k headers hs i;
}

-- Two requests: the URL and the maps of the one stand below `n`, the headers and the parameters of
-- the other at `n` and above, and their readers are distinct.
abbrev pub IsApart : ℕ → Store → RequestRef → RequestRef → Type 0
IsApart n t r c =
    (n ≤ t.next)
    × IsBelow n r.url
    × IsBelow n r.query
    × IsBelow n r.params
    × IsBelow n r.headers
    × AreBelow n (entries t.lists r.query)
    × AreBelow n (entries t.lists r.headers)
    × IsFrom n c.headers
    × AreFrom n (entries t.lists c.headers)
    × IsFrom n c.params
    × IsDistinct r.body c.body

module _ (reparse : String → Option String) (r : RequestRef) (s : Store) (within : IsWithin s r)
    (parsed : IsReparsed reparse s r.url) where
  abbrev cloned : Store × Option ℕ
  cloned = clone_url reparse r.url s

  abbrev with_headers : Store × ℕ
  with_headers = clone_request_headers r.headers cloned.0

  abbrev with_params : Store × ℕ
  with_params = clone_request_params r.params with_headers.0

  abbrev with_bodies : Store × (Option ℕ × Option ℕ)
  with_bodies = clone_body r.body with_params.0

  abbrev original : RequestRef
  original = record r { body = with_bodies.1.0 }

  abbrev deep : RequestRef
  deep = record r {
    url = cloned.1;
    headers = some with_headers.1;
    params = some with_params.1;
    body = with_bodies.1.1;
  }

  url_copy : IsUrlCopy s r.url cloned
  url_copy = clone_url-IsUrlCopy reparse r.url s parsed

  headers_kept : entries cloned.0.lists r.headers ≡ entries s.lists r.headers
  headers_kept = entries_kept s.lists cloned.0.lists s.next r.headers url_copy.0.2 within.3

  headers_copy : IsListsCopy cloned.0 (entries cloned.0.lists r.headers) with_headers
  headers_copy = clone_request_headers-IsListsCopy r.headers cloned.0 (
      subst (AreBelow cloned.0.next) (sym headers_kept)
        (AreBelow-mono s.next cloned.0.next (entries s.lists r.headers) url_copy.0.0 within.5))

  past_params : IsKept with_headers.0 with_params.0
  unfolding clone_request_params
  past_params = IsKept-new_texts with_headers.0 (entries with_headers.0.texts r.params)

  params_there : with_params.0.texts with_params.1 ≡ entries with_headers.0.texts r.params
  unfolding clone_request_params
  params_there =
      update-same with_headers.0.texts with_headers.0.next (entries with_headers.0.texts r.params)

  params_below : with_params.1 < with_params.0.next
  unfolding clone_request_params
  params_below = omega arith

  until_headers : IsKept s with_headers.0
  until_headers = IsKept-trans s cloned.0 with_headers.0 url_copy.0 headers_copy.0

  params_readers : with_params.0.reader ≡ with_headers.0.reader
  unfolding clone_request_params
  params_readers = refl

  bodies : AreReaders with_params.0 r.body with_bodies
  bodies = clone_body-AreReaders r.body with_params.0

  -- From the store after the headers to the last one, and from the first one.
  from_headers : IsKept with_headers.0 with_bodies.0
  from_headers = IsKept-trans with_headers.0 with_params.0 with_bodies.0 past_params bodies.0

  from_url : IsKept cloned.0 with_bodies.0
  from_url = IsKept-trans cloned.0 with_headers.0 with_bodies.0 headers_copy.0 from_headers

  throughout : IsKept s with_bodies.0
  throughout = IsKept-trans s cloned.0 with_bodies.0 url_copy.0 from_url

  body_content : pointee with_params.0.reader r.body ≡ pointee s.reader r.body
  body_content =
      ap (λ (f : ℕ → String). pointee f r.body) (params_readers ∙ headers_copy.1 ∙ url_copy.1)

  original-view : view with_bodies.0 original ≡ view s r
  original-view =
      view_kept s with_bodies.0 r with_bodies.1.0 throughout within
      ∙ (λ i. record (view s r) { body = (bodies.1 ∙ body_content) i })

  deep_url : pointee with_bodies.0.url cloned.1 ≡ pointee s.url r.url
  deep_url =
      pointee_kept cloned.0.url with_bodies.0.url cloned.0.next cloned.1 from_url.4 url_copy.2
      ∙ url_copy.3

  deep_params : with_bodies.0.texts with_params.1 ≡ entries s.texts r.params
  deep_params =
      bodies.0.3 with_params.1 params_below
      ∙ params_there
      ∙ entries_kept s.texts with_headers.0.texts s.next r.params (λ q h. until_headers.3 q h)
          within.2

  deep_headers :
      map (slice_of with_bodies.0.slice) (with_bodies.0.lists with_headers.1)
      ≡ map (slice_of s.slice) (entries s.lists r.headers)
  deep_headers =
      ap (map (slice_of with_bodies.0.slice)) (from_headers.2 with_headers.1 headers_copy.3)
      ∙ slices_kept with_headers.0 with_bodies.0 (with_headers.0.lists with_headers.1) from_headers
          headers_copy.5
      ∙ headers_copy.6
      ∙ lists_kept s cloned.0 r.headers url_copy.0 within.3 within.5

  deep-view : view with_bodies.0 deep ≡ view s r
  deep-view = λ i. record (view s r) {
    url = deep_url i;
    query = lists_kept s with_bodies.0 r.query throughout within.1 within.4 i;
    body = (bodies.2 ∙ body_content) i;
    params = deep_params i;
    headers = deep_headers i;
  }

  query_there : AreBelow s.next (entries with_bodies.0.lists r.query)
  query_there =
      subst (AreBelow s.next)
        (sym (entries_kept s.lists with_bodies.0.lists s.next r.query throughout.2 within.1))
        within.4

  headers_there : AreBelow s.next (entries with_bodies.0.lists r.headers)
  headers_there =
      subst (AreBelow s.next)
        (sym (entries_kept s.lists with_bodies.0.lists s.next r.headers throughout.2 within.3))
        within.5

  from_there : AreFrom s.next (with_bodies.0.lists with_headers.1)
  from_there = subst (AreFrom s.next) (sym (from_headers.2 with_headers.1 headers_copy.3)) (
      AreFrom-mono s.next cloned.0.next (with_headers.0.lists with_headers.1) url_copy.0.0
        headers_copy.4)

  params_from : with_headers.0.next ≤ with_params.1
  unfolding clone_request_params
  params_from = omega arith

  deep-IsApart : IsApart s.next with_bodies.0 original deep
  deep-IsApart = (
    throughout.0,
    within.0,
    within.1,
    within.2,
    within.3,
    query_there,
    headers_there,
    omega (arith, url_copy.0.0, headers_copy.2),
    from_there,
    omega (arith, until_headers.0, params_from),
    bodies.3,
  )

-- Where the request's URL and maps stand in the store and the text of its URL can be parsed again, the
-- original and its deep clone both show all that the request showed: method, URL, query, path,
-- parameters, headers, and the body from where it was left.
pub clone_request-view :
    (reparse : String → Option String) (r : RequestRef) (s : Store)
    → IsWithin s r
    → IsReparsed reparse s r.url
    → (view (clone_request reparse r s).0 (clone_request reparse r s).1.0 ≡ view s r)
      × (view (clone_request reparse r s).0 (clone_request reparse r s).1.1 ≡ view s r)
unfolding clone_request clone
clone_request-view reparse r s within parsed =
    (original-view reparse r s within parsed, deep-view reparse r s within parsed)

pub clone_request-IsApart :
    (reparse : String → Option String) (r : RequestRef) (s : Store)
    → IsWithin s r
    → IsReparsed reparse s r.url
    → let done = clone_request reparse r s in IsApart s.next done.0 done.1.0 done.1.1
unfolding clone_request clone
clone_request-IsApart reparse r s within parsed = deep-IsApart reparse r s within parsed
