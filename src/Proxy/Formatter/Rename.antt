-- ===== src/Proxy/Formatter/Rename.antt =====
-- The renaming loop of `Format`, whose order Go leaves open.
use mathlib.Core.List.{Permᴰ}
use lura_p.Common.{
  true, false, ◌≡◌, refl, String, List, [], ◌∷◌, Option, none, some, str_eq, if◌then◌else◌,
  Option-cases, Bool-cases, inl, inr, ◌∙◌, arith, eq_iff, eq_refl, contains, nodup, sym, not, ◌&&◌,
  ◌||◌, Bool,
}
use lura_p.Value.{Value, Dict, get, set, delete}
use lura_p.Value.Laws.{get-set, get-delete}
use lura_p.Proxy.Formatter.Entity.{rename_all}

-- The renamings made all at once: every former key is read in the map before the loop.
unfoldable pub renamed : List (String × String) → Dict → String → Option Value
renamed [] d j = get j d
renamed ((former, new) ∷ mapping) d j = elim (get former d) [
  | none ↦ renamed mapping d j
  | some v ↦ if str_eq new j then some v else if str_eq former j then none else renamed mapping d j
]

-- The keys of a mapping, former and new.
abbrev pub names : List (String × String) → List String
names [] = []
names ((former, new) ∷ mapping) = former ∷ new ∷ names mapping

-- Two maps that agree on the names of a mapping and at a key are renamed alike there.
renamed_congruence :
    (mapping : List (String × String)) (d e : Dict) (j : String)
    → ((k : String) → contains (names mapping) k ≡ true → get k d ≡ get k e)
    → get j d ≡ get j e
    → renamed mapping d j ≡ renamed mapping e j
unfolding contains renamed
renamed_congruence [] d e j h q = q
renamed_congruence ((former, new) ∷ mapping) d e j h q =
    let rest = renamed_congruence mapping d e j (λ k c. h k (ground arith)) q in
    let same : get former d ≡ get former e = h former (rw eq_refl) in
    elim (Option-cases (get former e)) [
      | inl p ↦ rw (same ∙ p, renamed) (rw (p, renamed) rest)
      | inr (v, p) ↦ rw (same ∙ p, renamed) (rw (p, renamed) (rw rest))
    ]

-- A text that stands in a list is not one that does not.
contains_ne :
    (xs : List String) (j k : String)
    → contains xs j ≡ true
    → contains xs k ≡ false
    → str_eq k j ≡ false
contains_ne xs j k h g = elim (Bool-cases (str_eq k j)) [
  | inl same ↦ let e = (eq_iff k j).0 same in cc
  | inr other ↦ other
]

-- What the loop does to a key that the mapping does not name: nothing.
renamed_other :
    (mapping : List (String × String)) (d : Dict) (j : String)
    → contains (names mapping) j ≡ false
    → renamed mapping d j ≡ get j d
unfolding contains renamed
renamed_other [] d j h = refl
renamed_other ((former, new) ∷ mapping) d j h = elim (Option-cases (get former d)) [
  | inl e ↦ rw (e, renamed) (renamed_other mapping d j (ground arith))
  | inr (v, e) ↦
      let not_former : str_eq former j ≡ false = ground arith in
      let not_new : str_eq new j ≡ false = ground arith in
      rw (e, renamed) (rw (not_new, not_former) (renamed_other mapping d j (ground arith)))
]

get-move :
    (former new k : String) (v : Value) (d : Dict)
    → get k (delete former (set new v d))
      ≡ (if str_eq former k then none else if str_eq new k then some v else get k d)
get-move former new k v d = rw (get-delete, get-set)

-- One round of the loop is the first of the renamings.
renamed-move :
    (former new : String) (mapping : List (String × String)) (v : Value) (d : Dict) (j : String)
    → nodup (former ∷ new ∷ names mapping) ≡ true
    → renamed mapping (delete former (set new v d)) j
      ≡ (if str_eq new j then some v else if str_eq former j then none else renamed mapping d j)
unfolding nodup contains
renamed-move former new mapping v d j h = elim (Bool-cases (contains (names mapping) j)) [
  | inl named ↦
      let not_former = contains_ne (names mapping) j former named (ground arith) in
      let not_new = contains_ne (names mapping) j new named (ground arith) in
      rw (not_new, not_former)
        (renamed_congruence mapping (delete former (set new v d)) d j
          (λ k c.
            get-move former new k v d
            ∙ rw (
              contains_ne (names mapping) k former c (ground arith),
              contains_ne (names mapping) k new c (ground arith),
            ))
          (get-move former new j v d ∙ rw (not_former, not_new)))
  | inr free ↦
      renamed_other mapping (delete former (set new v d)) j free
      ∙ get-move former new j v d
      ∙ ground
          (arith, eq_iff former j, eq_iff new j, eq_iff new former, renamed_other mapping d j free)
]

-- The loop makes all renamings at once.
rename_all-eq-renamed :
    (mapping : List (String × String)) (d : Dict) (j : String)
    → nodup (names mapping) ≡ true
    → get j (rename_all mapping d) ≡ renamed mapping d j
unfolding rename_all renamed
rename_all-eq-renamed [] d j h = refl
rename_all-eq-renamed ((former, new) ∷ mapping) d j h =
    let rest : nodup (names mapping) ≡ true = unfold nodup in ground arith in
    elim (Option-cases (get former d)) [
      | inl e ↦ rw (e, rename_all) (rw (e, renamed) (rename_all-eq-renamed mapping d j rest))
      | inr (v, e) ↦
          rw (e, rename_all)
            (rw (e, renamed)
              (rename_all-eq-renamed mapping (delete former (set new v d)) j rest
                ∙ renamed-move former new mapping v d j h))
    ]

renamed_absent :
    (f n : String) (mapping : List (String × String)) (d : Dict) (j : String)
    → get f d ≡ none
    → renamed ((f, n) ∷ mapping) d j ≡ renamed mapping d j
unfolding renamed
renamed_absent f n mapping d j e = rw (e, renamed) refl

renamed_found :
    (f n : String) (mapping : List (String × String)) (d : Dict) (j : String) (v : Value)
    → get f d ≡ some v
    → renamed ((f, n) ∷ mapping) d j
      ≡ (if str_eq n j then some v else if str_eq f j then none else renamed mapping d j)
unfolding renamed
renamed_found f n mapping d j v e = rw (e, renamed) refl

-- Two renamings in the other order.
renamed-swap :
    (p q : String × String) (mapping : List (String × String)) (d : Dict) (j : String)
    → nodup (names (p ∷ q ∷ mapping)) ≡ true
    → renamed (p ∷ q ∷ mapping) d j ≡ renamed (q ∷ p ∷ mapping) d j
unfolding nodup contains
renamed-swap (f, n) (g, m) l d j h = elim (Option-cases (get f d)) [
  | inl e ↦ elim (Option-cases (get g d)) [
    | inl q ↦
        renamed_absent f n ((g, m) ∷ l) d j e
        ∙ renamed_absent g m l d j q
        ∙ sym (renamed_absent g m ((f, n) ∷ l) d j q ∙ renamed_absent f n l d j e)
    | inr (w, q) ↦
        rw
          (
            renamed_absent f n ((g, m) ∷ l) d j e,
            renamed_found g m l d j w q,
            renamed_found g m ((f, n) ∷ l) d j w q,
            renamed_absent f n l d j e,
          )
          refl
  ]
  | inr (v, e) ↦ elim (Option-cases (get g d)) [
    | inl q ↦
        rw
          (
            renamed_found f n ((g, m) ∷ l) d j v e,
            renamed_absent g m l d j q,
            renamed_absent g m ((f, n) ∷ l) d j q,
            renamed_found f n l d j v e,
          )
          refl
    | inr (w, q) ↦
        rw
          (
            renamed_found f n ((g, m) ∷ l) d j v e,
            renamed_found g m l d j w q,
            renamed_found g m ((f, n) ∷ l) d j w q,
            renamed_found f n l d j v e,
          )
          (ground (
            arith,
            h,
            eq_iff n j,
            eq_iff f j,
            eq_iff m j,
            eq_iff g j,
            eq_iff m n,
            eq_iff g n,
            eq_iff m f,
            eq_iff g f,
          ))
  ]
]

contains-names-perm :
    {xs ys : List (String × String)} (k : String)
    → Permᴰ xs ys
    → contains (names xs) k ≡ contains (names ys) k
unfolding contains
contains-names-perm k Permᴰ.nil = refl
contains-names-perm k (Permᴰ.cons e d) = rw (e, contains-names-perm k d) refl
contains-names-perm k (Permᴰ.swap e f) = rw (e, f) (ground arith)
contains-names-perm k (Permᴰ.trans c d) = contains-names-perm k c ∙ contains-names-perm k d

str_eq_comm : (j k : String) → str_eq j k ≡ str_eq k j
str_eq_comm j k = ground (arith, eq_iff j k, eq_iff k j)

none_twice :
    (a b p q r s c c' d d' n : Bool)
    → (not (a || (p || (q || c))) && (not (r || (s || c')) && (not (b || d) && (not d' && n))))
      ≡ true
    → (not (b || (p || (r || d))) && (not (q || (s || d')) && (not (a || c) && (not c' && n))))
      ≡ true
none_twice a b p q r s c c' d d' n h = ground (arith, h)

nodup-names-swap :
    (f n g m : String) (l : List (String × String))
    → nodup (f ∷ n ∷ g ∷ m ∷ names l) ≡ true
    → nodup (g ∷ m ∷ f ∷ n ∷ names l) ≡ true
unfolding nodup contains
nodup-names-swap f n g m l h =
    rw (str_eq_comm f g, str_eq_comm n g, str_eq_comm f m, str_eq_comm n m)
      (none_twice (str_eq n f) (str_eq m g) (str_eq g f) (str_eq m f) (str_eq g n) (str_eq m n)
        (contains (names l) f) (contains (names l) n) (contains (names l) g) (contains (names l) m)
        (nodup (names l)) h)

nodup-names-perm :
    {xs ys : List (String × String)}
    → Permᴰ xs ys
    → nodup (names xs) ≡ true
    → nodup (names ys) ≡ true
unfolding nodup contains
nodup-names-perm Permᴰ.nil h = h
nodup-names-perm (Permᴰ.cons {a = a} {l₁ = l} e d) h =
    let rest : nodup (names l) ≡ true = ground (arith, h) in
    let former = contains-names-perm a.0 d in
    let new = contains-names-perm a.1 d in
    let next = nodup-names-perm d rest in rw (← e) (ground (arith, h, former, new, next))
nodup-names-perm (Permᴰ.swap {a = a} {b = b} {l = l} e f) h =
    rw (← e, ← f) (nodup-names-swap a.0 a.1 b.0 b.1 l h)
nodup-names-perm (Permᴰ.trans c d) h = nodup-names-perm d (nodup-names-perm c h)

renamed_tail :
    (a : String × String) (l k : List (String × String)) (d : Dict) (j : String)
    → renamed l d j ≡ renamed k d j
    → renamed (a ∷ l) d j ≡ renamed (a ∷ k) d j
renamed_tail (f, n) l k d j e = elim (Option-cases (get f d)) [
  | inl q ↦ rw (renamed_absent f n l d j q, renamed_absent f n k d j q) e
  | inr (v, q) ↦ rw (renamed_found f n l d j v q, renamed_found f n k d j v q) (rw e refl)
]

renamed-perm :
    {xs ys : List (String × String)} (d : Dict) (j : String)
    → Permᴰ xs ys
    → nodup (names xs) ≡ true
    → renamed xs d j ≡ renamed ys d j
renamed-perm d j Permᴰ.nil h = refl
renamed-perm d j (Permᴰ.cons {a = a} {l₁ = l} {l₂ = k} e p) h =
    let rest : nodup (names l) ≡ true = unfold nodup contains in ground (arith, h) in
    rw (← e) (renamed_tail a l k d j (renamed-perm d j p rest))
renamed-perm d j (Permᴰ.swap {a = a} {b = b} {l = l} e f) h =
    rw (← e, ← f) (renamed-swap a b l d j h)
renamed-perm d j (Permᴰ.trans c p) h =
    renamed-perm d j c h ∙ renamed-perm d j p (nodup-names-perm c h)

-- Where all names of the mapping are distinct, the order of the loop does not matter: whichever way the
-- entries of the mapping are ordered, the loop leaves the same value at each key, which is that of
-- making all renamings at once, each from the map as it was before the loop.
pub rename_all-perm :
    (mapping other : List (String × String)) (d : Dict) (j : String)
    → nodup (names mapping) ≡ true
    → Permᴰ mapping other
    → (get j (rename_all other d) ≡ get j (rename_all mapping d))
      × (get j (rename_all mapping d) ≡ renamed mapping d j)
rename_all-perm mapping other d j h p =
    let once = rename_all-eq-renamed mapping d j h in
    let other_once = rename_all-eq-renamed other d j (nodup-names-perm p h) in
    (other_once ∙ sym (renamed-perm d j p h) ∙ sym once, once)

-- A field that is mapped to its own name is lost.
pub rename_all_self : (k : String) (d : Dict) → get k (rename_all ((k, k) ∷ []) d) ≡ none
unfolding rename_all
rename_all_self k d = elim (Option-cases (get k d)) [
  | inl e ↦ rw (e, rename_all) e
  | inr (v, e) ↦ rw (e, rename_all) (simp (get-delete, eq_refl))
]
