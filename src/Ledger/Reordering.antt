-- ===== src/Ledger/Reordering.antt =====
-- The hash of controller/ledger.py does not depend on the order of a dict's entries, at any depth,
-- nor on whether a sequence is a list or a tuple.
use googlecloudhack.Prelude.{String, ◌≡◌, ◌≢◌, refl, ap, ◌∙◌}
use googlecloudhack.Externals.{Externals}
use googlecloudhack.Value.{Value, list, tuple, dict, Items, nil, cons, Fields, end, field, of_items}
use googlecloudhack.Json.Sorting.{sort_by, sort_by-swap, sort_by-cons}
use googlecloudhack.Ledger.{canonical, canonical_items, canonical_fields, payload, evidence_hash}

-- Two values that differ in the order of the entries of their dicts, the keys of two entries that
-- change places being distinct, and in lists that are tuples.
mutual
  pub data Same : Value → Value → Type 0 where
    same : {v : Value} → Same v v
    dicts : {fs gs : Fields} → SameFields fs gs → Same (dict fs) (dict gs)
    lists : {vs ws : Items} → SameItems vs ws → Same (list vs) (list ws)
    tuples : {vs ws : Items} → SameItems vs ws → Same (tuple vs) (tuple ws)
    list_tuple : {vs ws : Items} → SameItems vs ws → Same (list vs) (tuple ws)
    tuple_list : {vs ws : Items} → SameItems vs ws → Same (tuple vs) (list ws)

  pub data SameItems : Items → Items → Type 0 where
    done : SameItems nil nil
    more :
        {v w : Value} {vs ws : Items}
        → Same v w
        → SameItems vs ws
        → SameItems (cons v vs) (cons w ws)

  pub data SameFields : Fields → Fields → Type 0 where
    empty : SameFields end end
    keep :
        {k : String} {v w : Value} {fs gs : Fields}
        → Same v w
        → SameFields fs gs
        → SameFields (field k v fs) (field k w gs)
    swap :
        {j k : String} {v v' w w' : Value} {fs gs : Fields}
        → j ≢ k
        → Same v v'
        → Same w w'
        → SameFields fs gs
        → SameFields (field j v (field k w fs)) (field k w' (field j v' gs))
    chain : {fs gs hs : Fields} → SameFields fs gs → SameFields gs hs → SameFields fs hs

mutual
  unfolding canonical

  canonical-Same : {v w : Value} → Same v w → canonical v ≡ canonical w
  canonical-Same same = refl
  canonical-Same (dicts h) = ap (λ l. dict (of_items l)) (sort_by-SameFields h)
  canonical-Same (lists h) = ap list (canonical_items-SameItems h)
  canonical-Same (tuples h) = ap list (canonical_items-SameItems h)
  canonical-Same (list_tuple h) = ap list (canonical_items-SameItems h)
  canonical-Same (tuple_list h) = ap list (canonical_items-SameItems h)

  canonical_items-SameItems :
      {vs ws : Items} → SameItems vs ws → canonical_items vs ≡ canonical_items ws
  canonical_items-SameItems done = refl
  canonical_items-SameItems (more h t) = cc (canonical-Same h, canonical_items-SameItems t)

  sort_by-SameFields :
      {fs gs : Fields}
      → SameFields fs gs
      → sort_by (λ (e : String × Value). e.0) (canonical_fields fs)
        ≡ sort_by (λ (e : String × Value). e.0) (canonical_fields gs)
  sort_by-SameFields empty = refl
  sort_by-SameFields (keep {k} {w} {fs} {gs} h t) = rw (canonical-Same h) (
      sort_by-cons (λ e. e.0) (k, canonical w) (canonical_fields fs) (canonical_fields gs)
        (sort_by-SameFields t))
  sort_by-SameFields (swap {j} {k} {v' = v'} {w' = w'} {fs} {gs} ne h h' t) =
      rw (canonical-Same h, canonical-Same h')
        (sort_by-swap (λ e. e.0) (j, canonical v') (k, canonical w') (canonical_fields fs)
          (canonical_fields gs) ne (sort_by-SameFields t))
  sort_by-SameFields (chain s t) = sort_by-SameFields s ∙ sort_by-SameFields t

payload-Same : {v w : Value} → Same v w → payload v ≡ payload w
unfolding payload
payload-Same same = refl
payload-Same (dicts h) = rw (sort_by-SameFields h)
payload-Same (lists h) = rw (canonical_items-SameItems h)
payload-Same (tuples h) = rw (canonical_items-SameItems h)
payload-Same (list_tuple h) = rw (canonical_items-SameItems h)
payload-Same (tuple_list h) = rw (canonical_items-SameItems h)

-- Values that differ only in the order of the entries of their dicts, at any depth, and in lists
-- that are tuples, have the same hash.
pub evidence_hash-Same :
    (x : Externals) {v w : Value} → Same v w → evidence_hash x v ≡ evidence_hash x w
unfolding evidence_hash
evidence_hash-Same x h = ap x.sha256_hex (payload-Same h)
