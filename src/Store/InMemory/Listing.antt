-- ===== src/Store/InMemory/Listing.antt =====
-- The listings of manager/store/inmemory/store.go: the three by pages of sorted keys, which share
-- their code but for the map, and the two by offset and limit over a map's own order.
pub mod Paging
use Prim.Native.Nat.{min}
use maeve_csms_reservations.Prelude.{
  ℕ, zero, suc, ◌+◌, ◌-◌, String, Bool, true, false, ◌&&◌, Option, none, some, List, [], ◌∷◌, ◌++◌,
  ltb, leb, if◌then◌else◌, length, take, drop,
}
use maeve_csms_reservations.Prelude.Dict.{Dict, keys, values, lookup}
use maeve_csms_reservations.Store.Sorting.{BinarySearch, sort_strings}

-- Where the page starts: behind the previous key, or at the start if that is not a key.
abbrev pub page_start : ℕ × Bool → ℕ
page_start (i, found) = if found then suc i else 0

-- `keys[i:max]`
unfoldable pub page_keys : BinarySearch → ℕ → String → List String → List String
page_keys binary_search page_size previous ks =
    let i = page_start (binary_search.search ks previous) in
    let max = min (i + page_size) (length ks) in take (max - i) (drop i ks)

module _ {ℓ} {V : Type ℓ} where
  -- `for _, k := range page { out = append(out, m[k]) }`, over keys of the map
  abbrev pub cons_value : Option V → List V → List V
  cons_value none vs = vs
  cons_value (some v) vs = v ∷ vs

  unfoldable pub values_at : List String → Dict V → List V
  values_at [] m = []
  values_at (k ∷ ks) m = cons_value (lookup k m) (values_at ks m)

  unfoldable pub list_page : BinarySearch → ℕ → String → Dict V → List V
  unfolding values_at page_keys sort_strings
  list_page binary_search page_size previous m =
      values_at (page_keys binary_search page_size previous (sort_strings (keys m))) m

  -- `count >= offset && count < offset+limit`, for each value in turn
  abbrev listed : Bool → V → List V → List V
  listed true v vs = v ∷ vs
  listed false v vs = vs

  unfoldable pub list_from : ℕ → ℕ → ℕ → List V → List V
  list_from count offset limit [] = []
  list_from count offset limit (v ∷ vs) =
      listed (leb offset count && ltb count (offset + limit)) v
        (list_from (count + 1) offset limit vs)

  unfoldable pub list_window : ℕ → ℕ → Dict V → List V
  unfolding list_from
  list_window offset limit m = list_from 0 offset limit (values m)
