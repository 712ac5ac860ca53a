-- ===== src/Exchange/Sorting.antt =====
-- backend.go, `sortBatchRPCResponse`. `sort.Slice` may leave responses of one position in any order;
-- this is the insertion sort, which keeps theirs.
use bsc_builder_proxyd.Base.{
  ℕ, suc, Bool, true, false, List, [], ◌∷◌, String, Option, none, some, if◌then◌else◌, leb, eqb,
  string_eq, map,
}
use bsc_builder_proxyd.Rpc.{RpcReq, RpcRes}

module _ {A : Type 0} (key : A → ℕ) where
  unfoldable pub insert_by : A → List A → List A
  insert_by x [] = x ∷ []
  insert_by x (y ∷ ys) =
      let rest = insert_by x ys in if leb (key x) (key y) then x ∷ y ∷ ys else y ∷ rest

  unfoldable pub sort_by : List A → List A
  sort_by [] = []
  sort_by (x ∷ xs) = insert_by x (sort_by xs)

abbrev pub next_position : Option ℕ → Option ℕ
next_position none = none
next_position (some n) = some (suc n)

-- `pos[id]` with its `ok`, for ids without a duplicate.
unfoldable pub position : String → List String → Option ℕ
position id [] = none
position id (x ∷ xs) = if eqb x id then some 0 else next_position (position id xs)

abbrev pub or_zero : Option ℕ → ℕ
or_zero none = 0
or_zero (some n) = n

unfoldable pub position_key : List String → String → ℕ
position_key ids id = or_zero (position id ids)

unfoldable pub occurs : String → List String → Bool
occurs id [] = false
occurs id (x ∷ xs) = if eqb id x then true else occurs id xs

unfoldable pub has_duplicate : List String → Bool
has_duplicate [] = false
has_duplicate (x ∷ xs) = if occurs x xs then true else has_duplicate xs

-- `none` is the panic on a duplicate.
unfoldable pub sort_batch_rpc_response : List RpcReq → List RpcRes → Option (List RpcRes)
sort_batch_rpc_response reqs res =
    let ids = map (λ r. r.id) reqs in
    if has_duplicate ids then none else some (sort_by (λ r. position_key ids r.id) res)
