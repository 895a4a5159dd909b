-- ===== src/Block/Segments/Cache.antt =====
-- crates/reclaim-block/src/container/map.rs: the cache of decoded blocks, keyed by segment, with
-- the least recently used key in front of `order`. The hash map is an association list.
pub mod Laws
use reclaim.Prelude.{
  ℕ, max, Option, none, some, List, [], ◌∷◌, ◌++◌, ltb, ◌==◌, if◌then◌else◌, length,
}

pub record DecodeCache : Type 0 where
  pub cap : ℕ
  pub order : List ℕ
  pub map : List (ℕ × List ℕ)

pub new : ℕ → DecodeCache
new cap = record { cap = max cap 1; order = []; map = [] }

unfoldable pub lookup : List (ℕ × List ℕ) → ℕ → Option (List ℕ)
lookup [] key = none
lookup ((k, v) ∷ rest) key = if k == key then some v else lookup rest key

-- `HashMap::remove`, and `HashMap::insert` on top of it.
pub remove_key : List (ℕ × List ℕ) → ℕ → List (ℕ × List ℕ)
remove_key [] key = []
remove_key ((k, v) ∷ rest) key =
    if k == key then remove_key rest key else (k, v) ∷ remove_key rest key

pub insert_key : List (ℕ × List ℕ) → ℕ → List ℕ → List (ℕ × List ℕ)
insert_key entries key val = (key, val) ∷ remove_key entries key

-- `order.remove(position of key)`
pub remove_first : List ℕ → ℕ → List ℕ
remove_first [] key = []
remove_first (k ∷ ks) key = if k == key then ks else k ∷ remove_first ks key

pub touch : DecodeCache → ℕ → DecodeCache
touch c key = record c { order = remove_first c.order key ++ (key ∷ []) }

pub get : DecodeCache → ℕ → Option (List ℕ) × DecodeCache
get c key = elim (lookup c.map key) [ none ↦ (none, c) | some v ↦ (some v, touch c key) ]

-- The `while self.order.len() > self.cap` loop.
pub evict : ℕ → ℕ → List ℕ → List (ℕ × List ℕ) → List ℕ × List (ℕ × List ℕ)
evict cap key [] entries = ([], entries)
evict cap key (victim ∷ rest) entries =
    let next = evict cap key rest (if victim == key then entries else remove_key entries victim) in
    if ltb cap (length (victim ∷ rest)) then next else (victim ∷ rest, entries)

pub put : DecodeCache → ℕ → List ℕ → DecodeCache
put c key val =
    let entries = insert_key c.map key val in
    let kept = evict c.cap key (c.order ++ (key ∷ [])) entries in
    elim (lookup c.map key) [
      | none ↦ record c { order = kept.0; map = kept.1 }
      | some old ↦ touch (record c { map = entries }) key
    ]
