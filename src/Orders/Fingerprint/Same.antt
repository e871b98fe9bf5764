-- ===== src/Orders/Fingerprint/Same.antt =====
-- Payloads that apps/workflow-service/src/common/idempotency.ts takes for one.
use ecommerce_orderflow.Prelude.{
  ◌≡◌, ◌≢◌, refl, ap, ap₂, ◌∙◌, List, [], ◌∷◌, ◌++◌, map, Bool, true, false, String, if◌then◌else◌,
  Bool-cases, inl, inr,
}
use ecommerce_orderflow.Orders.Fingerprint.{
  Text, Json, undefined, array, object, Items, done, item, Fields, end, field, Entry, insert_entry,
  sort_entries, join, is_undefined, entry_text, canonicalise, forms, entries, fingerprint,
}
use ecommerce_orderflow.Orders.Fingerprint.Ordering.{insert_entry_comm}

-- Logically one payload: the fields of an object may come in another order, at any depth, and a field without
-- a value may be there or not.
mutual
  pub data Same : Json → Json → Type 0 where
    same_value : (v : Json) → Same v v
    same_array : {xs ys : Items} → SameItems xs ys → Same (array xs) (array ys)
    same_object : {fs gs : Fields} → SameFields fs gs → Same (object fs) (object gs)

  pub data SameItems : Items → Items → Type 0 where
    same_done : SameItems done done
    same_item :
        {v w : Json} {xs ys : Items}
        → Same v w
        → SameItems xs ys
        → SameItems (item v xs) (item w ys)

  pub data SameFields : Fields → Fields → Type 0 where
    same_end : SameFields end end
    same_field :
        {v w : Json} {fs gs : Fields} (k : Text)
        → Same v w
        → SameFields fs gs
        → SameFields (field k v fs) (field k w gs)
    same_swapped :
        {fs : Fields} (k l : Text) (v w : Json)
        → k ≢ l
        → SameFields (field k v (field l w fs)) (field l w (field k v fs))
    same_dropped : {fs : Fields} (k : Text) → SameFields (field k undefined fs) fs
    same_added : {fs : Fields} (k : Text) → SameFields fs (field k undefined fs)
    same_after : {fs gs hs : Fields} → SameFields fs gs → SameFields gs hs → SameFields fs hs

module _ (stringify : Text → Text) where
  is_undefined-Same : {v w : Json} → Same v w → is_undefined v ≡ is_undefined w
  is_undefined-Same (same_value v) = refl
  is_undefined-Same (same_array h) = refl
  is_undefined-Same (same_object h) = refl

  -- The fields with a value, sorted.
  abbrev sorted : Fields → List Entry
  sorted fs = sort_entries (entries stringify fs)

  -- A field, sorted in.
  abbrev place : Text → Bool → Text → List Entry → List Entry
  place k absent form es = if absent then es else insert_entry (record { key = k; form = form }) es

  sorted-field :
      (k : Text) (v : Json) (fs : Fields)
      → sorted (field k v fs) ≡ place k (is_undefined v) (canonicalise stringify v) (sorted fs)
  unfolding canonicalise sort_entries
  sorted-field k v fs = elim (Bool-cases (is_undefined v)) [ inl e ↦ rw e refl | inr e ↦ rw e refl ]

  place_comm :
      (k l : Text) (a b : Bool) (t u : Text) (es : List Entry)
      → k ≢ l
      → place k a t (place l b u es) ≡ place l b u (place k a t es)
  place_comm k l true b t u es n = refl
  place_comm k l false true t u es n = refl
  place_comm k l false false t u es n =
      insert_entry_comm (record { key = k; form = t }) (record { key = l; form = u }) es n

  sorted-swapped :
      (fs : Fields) (k l : Text) (v w : Json)
      → k ≢ l
      → sorted (field k v (field l w fs)) ≡ sorted (field l w (field k v fs))
  sorted-swapped fs k l v w n =
      rw
        (
          sorted-field k v (field l w fs),
          sorted-field l w fs,
          sorted-field l w (field k v fs),
          sorted-field k v fs,
        )
        (place_comm k l (is_undefined v) (is_undefined w) (canonicalise stringify v)
          (canonicalise stringify w) (sorted fs) n)

  mutual
    unfolding canonicalise sort_entries

    canonicalise-Same :
        {v w : Json} → Same v w → canonicalise stringify v ≡ canonicalise stringify w
    canonicalise-Same (same_value v) = refl
    canonicalise-Same (same_array h) = ap (λ ts. b'[' ∷ (join ts ++ b']' ∷ [])) (forms-SameItems h)
    canonicalise-Same (same_object h) =
        ap (λ es. b'{' ∷ (join (map (entry_text stringify) es) ++ b'}' ∷ []))
          (sort_entries-SameFields h)

    forms-SameItems : {xs ys : Items} → SameItems xs ys → forms stringify xs ≡ forms stringify ys
    forms-SameItems same_done = refl
    forms-SameItems (same_item h k) = ap₂ ◌∷◌ (canonicalise-Same h) (forms-SameItems k)

    sort_entries-SameFields : {fs gs : Fields} → SameFields fs gs → sorted fs ≡ sorted gs
    sort_entries-SameFields same_end = refl
    sort_entries-SameFields (same_field {v} {w} {fs} {gs} k h g) =
        rw
          (
            sorted-field k v fs,
            sorted-field k w gs,
            is_undefined-Same h,
            canonicalise-Same h,
            sort_entries-SameFields g,
          )
          refl
    sort_entries-SameFields (same_swapped {fs} k l v w n) = sorted-swapped fs k l v w n
    sort_entries-SameFields (same_dropped k) = refl
    sort_entries-SameFields (same_added k) = refl
    sort_entries-SameFields (same_after h g) = sort_entries-SameFields h ∙ sort_entries-SameFields g

-- Payloads that differ only in the order of the fields of their objects, or in fields without a value, at any
-- depth, have one fingerprint.
pub fingerprint-Same :
    (stringify : Text → Text) (sha256 : Text → String) (v w : Json)
    → Same v w
    → fingerprint stringify sha256 v ≡ fingerprint stringify sha256 w
unfolding fingerprint
fingerprint-Same stringify sha256 v w h = ap sha256 (canonicalise-Same stringify h)
