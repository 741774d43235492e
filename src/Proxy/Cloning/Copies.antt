-- ===== src/Proxy/Cloning/Copies.antt =====
-- What a clone shows.
use lura_p.Common.{
  ℕ, suc, ◌≤◌, ◌<◌, ◌≡◌, ◌≢◌, refl, ap, sym, subst, ◌∙◌, String, List, [], ◌∷◌, Option, none, some,
  map, arith,
}
use lura_p.Proxy.Cloning.{
  Store, RequestRef, update, entries, slice_of, new_slice, new_lists, copy_slices,
  clone_request_headers, clone_url, pointee, clone_body,
}
use lura_p.Proxy.Cloning.Places.{
  IsBelow, AreBelow, AreFrom, IsKept, IsKept-refl, IsKept-trans, IsKept-new_slice, IsKept-new_lists,
  IsKept-new_url, slices_kept, AreBelow-mono, AreFrom-mono, update-same, update-other,
}

-- Copies of the slices of `es`: they stand in new places, with the same contents.
abbrev AreCopies : Store → List (String × ℕ) → Store × List (String × ℕ) → Type 0
AreCopies s es (t, copies) =
    IsKept s t
    × (t.reader ≡ s.reader)
    × AreFrom s.next copies
    × AreBelow t.next copies
    × (map (slice_of t.slice) copies ≡ map (slice_of s.slice) es)

copy_slices-AreCopies :
    (es : List (String × ℕ)) (s : Store) → AreBelow s.next es → AreCopies s es (copy_slices es s)
unfolding copy_slices
copy_slices-AreCopies [] s h = (IsKept-refl s, refl, tt, tt, refl)
copy_slices-AreCopies ((k, p) ∷ es) s h =
    let s1 = new_slice (s.slice p) s in
    let t = (copy_slices es s1).0 in
    let kept1 = IsKept-new_slice s (s.slice p) in
    let (kept, readers, from, below, same) =
      copy_slices-AreCopies es s1 (AreBelow-mono s.next s1.next es kept1.0 h.1) in
    (
      IsKept-trans s s1 t kept1 kept,
      readers,
      (omega arith, AreFrom-mono s.next s1.next (copy_slices es s1).1 kept1.0 from),
      (omega (arith, kept.0), below),
      λ i.
          (k, (kept.1 s.next (omega arith) ∙ update-same s.slice s.next (s.slice p)) i)
          ∷ (same ∙ slices_kept s s1 es kept1 h.1) i,
    )

-- A copy of a map of lists that stands at `m`.
abbrev pub IsListsCopy : Store → List (String × ℕ) → Store × ℕ → Type 0
IsListsCopy s es (t, m) =
    IsKept s t
    × (t.reader ≡ s.reader)
    × (s.next ≤ m)
    × (m < t.next)
    × AreFrom s.next (t.lists m)
    × AreBelow t.next (t.lists m)
    × (map (slice_of t.slice) (t.lists m) ≡ map (slice_of s.slice) es)

pub clone_request_headers-IsListsCopy :
    (headers : Option ℕ) (s : Store)
    → AreBelow s.next (entries s.lists headers)
    → IsListsCopy s (entries s.lists headers) (clone_request_headers headers s)
unfolding clone_request_headers
clone_request_headers-IsListsCopy headers s h =
    let es = entries s.lists headers in
    let copied = copy_slices es s in
    let t = copied.0 in
    let u = new_lists copied.1 t in
    let (kept, readers, from, below, same) = copy_slices-AreCopies es s h in
    let kept1 = IsKept-new_lists t copied.1 in
    let there : u.lists t.next ≡ copied.1 = update-same t.lists t.next copied.1 in
    (
      IsKept-trans s t u kept kept1,
      readers,
      kept.0,
      omega arith,
      subst (AreFrom s.next) (sym there) from,
      subst (AreBelow u.next) (sym there) (AreBelow-mono t.next u.next copied.1 kept1.0 below),
      ap (map (slice_of u.slice)) there ∙ same,
    )

abbrev pub IsReparsed : (String → Option String) → Store → Option ℕ → Type 0
IsReparsed reparse s none = Unit
IsReparsed reparse s (some p) = reparse (s.url p) ≡ some (s.url p)

-- A request whose URL and maps, and the slices of the maps, stand in the store.
abbrev pub IsWithin : Store → RequestRef → Type 0
IsWithin s r =
    IsBelow s.next r.url
    × IsBelow s.next r.query
    × IsBelow s.next r.params
    × IsBelow s.next r.headers
    × AreBelow s.next (entries s.lists r.query)
    × AreBelow s.next (entries s.lists r.headers)

pub entries_kept :
    {A : Type 0} (f g : ℕ → List A) (n : ℕ) (p : Option ℕ)
    → ((q : ℕ) → q < n → g q ≡ f q)
    → IsBelow n p
    → entries g p ≡ entries f p
entries_kept f g n none k h = refl
entries_kept f g n (some p) k h = k p h

pub pointee_kept :
    {A : Type 0} (f g : ℕ → A) (n : ℕ) (p : Option ℕ)
    → ((q : ℕ) → q < n → g q ≡ f q)
    → IsBelow n p
    → pointee g p ≡ pointee f p
pointee_kept f g n none k h = refl
pointee_kept f g n (some p) k h = ap some (k p h)

pub lists_kept :
    (s t : Store) (p : Option ℕ)
    → IsKept s t
    → IsBelow s.next p
    → AreBelow s.next (entries s.lists p)
    → map (slice_of t.slice) (entries t.lists p) ≡ map (slice_of s.slice) (entries s.lists p)
lists_kept s t p k hp he =
    ap (map (slice_of t.slice)) (entries_kept s.lists t.lists s.next p k.2 hp)
    ∙ slices_kept s t (entries s.lists p) k he

-- A copy of a pointer to a URL: where it stands and what it shows.
abbrev pub IsUrlCopy : Store → Option ℕ → Store × Option ℕ → Type 0
IsUrlCopy s url (t, at) =
    IsKept s t × (t.reader ≡ s.reader) × IsBelow t.next at × (pointee t.url at ≡ pointee s.url url)

pub clone_url-IsUrlCopy :
    (reparse : String → Option String) (url : Option ℕ) (s : Store)
    → IsReparsed reparse s url
    → IsUrlCopy s url (clone_url reparse url s)
unfolding clone_url
clone_url-IsUrlCopy reparse none s h = (IsKept-refl s, refl, tt, refl)
clone_url-IsUrlCopy reparse (some p) s h =
    rw (h, clone_url)
      (IsKept-new_url s (s.url p), refl, omega arith, ap some (update-same s.url s.next (s.url p)))

-- Two readers of the same content, of which neither moves the other.
abbrev pub IsDistinct : Option ℕ → Option ℕ → Type 0
IsDistinct none q = Unit
IsDistinct (some p) none = Unit
IsDistinct (some p) (some q) = p ≢ q

abbrev pub AreReaders : Store → Option ℕ → Store × (Option ℕ × Option ℕ) → Type 0
AreReaders s body (t, (original, cloned)) =
    IsKept s t
    × (pointee t.reader original ≡ pointee s.reader body)
    × (pointee t.reader cloned ≡ pointee s.reader body)
    × IsDistinct original cloned

pub clone_body-AreReaders : (body : Option ℕ) (s : Store) → AreReaders s body (clone_body body s)
unfolding clone_body
clone_body-AreReaders none s = (IsKept-refl s, refl, refl, tt)
clone_body-AreReaders (some p) s =
    let content = s.reader p in
    let f = update s.reader p "" in
    let g = update f s.next content in
    (
      (omega arith, λ q h. refl, λ q h. refl, λ q h. refl, λ q h. refl),
      ap some
          (update-other g (suc s.next) content s.next (omega arith) ∙ update-same f s.next content),
      ap some (update-same g (suc s.next) content),
      λ e. omega (arith, e),
    )
