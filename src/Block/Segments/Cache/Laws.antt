-- ===== src/Block/Segments/Cache/Laws.antt =====
-- The cache of decoded blocks returns what was put last, and stays within its bound.
use reclaim.Prelude.{
  ℕ, ◌≤◌, ◌≡◌, refl, ◌∙◌, ◌≢◌, inl, inr, none, some, List, [], ◌∷◌, ◌++◌, arith, ltb, ◌==◌,
  if◌then◌else◌, Bool-cases, Option-cases, length,
}
use reclaim.Block.Segments.Cache.{
  DecodeCache, lookup, remove_key, insert_key, touch, get, evict, put,
}

lookup-remove_key :
    (entries : List (ℕ × List ℕ)) (key other : ℕ)
    → other ≢ key
    → lookup (remove_key entries other) key ≡ lookup entries key
unfolding lookup remove_key
lookup-remove_key [] key other ne = refl
lookup-remove_key ((k, v) ∷ rest) key other ne = elim (Bool-cases (k == other)) [
  | inl gone ↦ rw gone (lookup-remove_key rest key other ne ∙ ground arith)
  | inr kept ↦ rw kept (ground (arith, lookup-remove_key rest key other ne))
]

lookup-insert_key :
    (entries : List (ℕ × List ℕ)) (key other : ℕ) (val : List ℕ)
    → lookup (insert_key entries key val) other
      ≡ (if key == other then some val else lookup entries other)
unfolding lookup insert_key
lookup-insert_key entries key other val = ground (arith, lookup-remove_key entries other key)

-- Eviction never drops the key that was put.
lookup-evict :
    (cap key : ℕ) (order : List ℕ) (entries : List (ℕ × List ℕ))
    → lookup (evict cap key order entries).1 key ≡ lookup entries key
unfolding evict
lookup-evict cap key [] entries = refl
lookup-evict cap key (victim ∷ rest) entries =
    elim (Bool-cases (ltb cap (length (victim ∷ rest)))) [
      | inr fits ↦ rw fits refl
      | inl over ↦ elim (Bool-cases (victim == key)) [
        | inl own ↦ rw (over, own) (lookup-evict cap key rest entries)
        | inr other ↦
            rw (over, other)
              (lookup-evict cap key rest (remove_key entries victim)
                ∙ lookup-remove_key entries key victim (ground arith))
      ]
    ]

length-evict :
    (cap key : ℕ) (order : List ℕ) (entries : List (ℕ × List ℕ))
    → length (evict cap key order entries).0 ≤ cap
unfolding evict
length-evict cap key [] entries = omega arith
length-evict cap key (victim ∷ rest) entries =
    elim (Bool-cases (ltb cap (length (victim ∷ rest)))) [
      | inr fits ↦ rw fits (ground arith)
      | inl over ↦ elim (Bool-cases (victim == key)) [
        | inl own ↦ rw (over, own) (length-evict cap key rest entries)
        | inr other ↦ rw (over, other) (length-evict cap key rest (remove_key entries victim))
      ]
    ]

-- What was put into the cache of decoded blocks is what it returns next for that segment, whatever
-- had to be evicted.
pub get-put : (c : DecodeCache) (key : ℕ) (val : List ℕ) → (get (put c key val) key).0 ≡ some val
unfolding get put touch
get-put c key val = elim (Option-cases (lookup c.map key)) [
  | inl fresh ↦
      let hit : lookup (evict c.cap key (c.order ++ (key ∷ [])) (insert_key c.map key val)).1 key
          ≡ some val =
        lookup-evict c.cap key (c.order ++ (key ∷ [])) (insert_key c.map key val)
        ∙ lookup-insert_key c.map key key val
        ∙ ground arith in
      rw (fresh, put, hit, get) refl
  | inr (old, e) ↦
      let hit : lookup (insert_key c.map key val) key ≡ some val =
        lookup-insert_key c.map key key val ∙ ground arith in
      rw (e, put, hit, get) refl
]

-- After a key that the cache does not hold is put, the order of eviction has at most as many keys
-- as the capacity.
pub length-put :
    (c : DecodeCache) (key : ℕ) (val : List ℕ)
    → lookup c.map key ≡ none
    → length (put c key val).order ≤ c.cap
unfolding put
length-put c key val fresh =
    rw (fresh, put) (length-evict c.cap key (c.order ++ (key ∷ [])) (insert_key c.map key val))
