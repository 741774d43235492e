-- ===== src/Proxy/Merging/Sequential/Owner.antt =====
-- What is read of the part whose map the accumulator writes into.
use lura_p.Common.{ℕ, true, String, [], ◌∷◌, Option, none, some, ◌≡◌, refl, ap, ◌∙◌, ◌==◌, arith}
use lura_p.Value.{Value, Dict, set_all}
use lura_p.Proxy.{Response}
use lura_p.Proxy.Merging.{combine_data, combine_parts, merge}
use lura_p.Proxy.Merging.Progress.{Progress, payload_of, data_at, data_of, is_at, owner_from}
use lura_p.Proxy.Merging.Sequential.{receive, owner_after}

same : (j : ℕ) → (j == j) ≡ true
same j = ground arith

data_at_lem :
    (owner : Option ℕ) (j : ℕ) (partial : Option Response) (payload : Option Dict) (m : Dict)
    → owner ≡ some j
    → payload_of partial ≡ some m
    → data_at owner j partial payload ≡ m
data_at_lem owner j partial payload m e h = rw (data_at, e, is_at, same j, h) refl

combine_data-payload :
    (base res : Response) (d e : Dict)
    → base.payload ≡ some d
    → res.payload ≡ some e
    → (combine_data 2 (some base ∷ some res ∷ [])).payload ≡ some (set_all e d)
unfolding combine_data combine_parts
combine_data-payload base res d e a b = rw (combine_data, combine_parts, a, b) refl

-- After another response is merged, what a later backend reads of the part that the accumulator began
-- with is the merged map: the part's own values are replaced by those of the other response.
pub data_of-receive :
    (sprint : Value → String) (read_all : String → Option String) (i j : ℕ) (st : Progress)
    (base res p : Response) (d e : Dict)
    → st.owner ≡ some j
    → st.acc.partial ≡ some base
    → base.payload ≡ some d
    → res.payload ≡ some e
    → data_of (receive sprint read_all i res st) j p ≡ set_all e d
unfolding merge
data_of-receive sprint read_all i j st base res p d e o h a b =
    let owner : owner_after sprint read_all i st res ≡ some j =
      ap (λ x. owner_from i st.owner x res.payload) (ap payload_of h ∙ a) ∙ o in
    let joined =
      ap
        (λ x.
          payload_of (merge combine_data (record st.acc { partial = x }) (some res) none).partial)
        h
      ∙ combine_data-payload base res d e a b in
    data_at_lem (owner_after sprint read_all i st res) j
      (merge combine_data st.acc (some res) none).partial p.payload (set_all e d) owner joined
