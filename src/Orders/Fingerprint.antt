-- ===== src/Orders/Fingerprint.antt =====
-- apps/workflow-service/src/common/idempotency.ts: the canonical form of a payload. A string of
-- JavaScript is the list of its UTF-16 code units, which is what `<` compares.
pub mod Ordering
pub mod Same
pub mod Payload
mod Tests
use Prim.Native.Char.{code}
use Prim.Native.String.{[] as empty_string, ◌∷◌ as string_cons}
use ecommerce_orderflow.Prelude.{
  ℕ, String, List, [], ◌∷◌, ◌++◌, map, Bool, true, false, ◌==◌, ltb, if◌then◌else◌,
}

abbrev pub Text : Type 0
Text = List ℕ

-- A literal, of ASCII characters.
abbrev pub text : String → Text
text empty_string = []
text (string_cons c t) = code c ∷ text t

-- A JSON value. A primitive is given by what `JSON.stringify` writes for it, which is nothing for
-- `undefined`.
mutual
  pub data Json : Type 0 where
    undefined : Json
    primitive : Text → Json
    array : Items → Json
    object : Fields → Json

  pub data Items : Type 0 where
    done : Items
    item : Json → Items → Items

  pub data Fields : Type 0 where
    end : Fields
    field : Text → Json → Fields → Fields

-- `a < b`
abbrev pub before : Text → Text → Bool
before [] [] = false
before [] (y ∷ ys) = true
before (x ∷ xs) [] = false
before (x ∷ xs) (y ∷ ys) = let rest = before xs ys in if x == y then rest else ltb x y

-- A field and the canonical form of its value.
pub record Entry : Type 0 where
  pub key : Text
  pub form : Text

abbrev pub insert_entry : Entry → List Entry → List Entry
insert_entry e [] = e ∷ []
insert_entry e (x ∷ xs) =
    let rest = insert_entry e xs in if before x.key e.key then x ∷ rest else e ∷ x ∷ xs

-- `sort` by the key. The source sorts the fields before it writes their values.
unfoldable pub sort_entries : List Entry → List Entry
sort_entries [] = []
sort_entries (x ∷ xs) = insert_entry x (sort_entries xs)

-- `join(",")`
abbrev pub join_more : List Text → Text
join_more [] = []
join_more (t ∷ ts) = b',' ∷ (t ++ join_more ts)

abbrev pub join : List Text → Text
join [] = []
join (t ∷ ts) = t ++ join_more ts

abbrev pub is_undefined : Json → Bool
is_undefined undefined = true
is_undefined _ = false

-- `stringify` is `JSON.stringify` of a string.
module _ (stringify : Text → Text) where
  abbrev pub entry_text : Entry → Text
  entry_text e = stringify e.key ++ (b':' ∷ e.form)

  unfoldable mutual
    unfolding sort_entries

    pub canonicalise : Json → Text
    canonicalise undefined = text "null"
    canonicalise (primitive t) = t
    canonicalise (array xs) = b'[' ∷ (join (forms xs) ++ b']' ∷ [])
    canonicalise (object fs) =
        b'{' ∷ (join (map entry_text (sort_entries (entries fs))) ++ b'}' ∷ [])

    pub forms : Items → List Text
    forms done = []
    forms (item v xs) = canonicalise v ∷ forms xs

    -- `filter(([, v]) => v !== undefined)`
    pub entries : Fields → List Entry
    entries end = []
    entries (field k v fs) =
        let rest = entries fs in
        if is_undefined v then rest else record { key = k; form = canonicalise v } ∷ rest

  -- `sha256` is `createHash("sha256")`, with its digest in hexadecimal digits.
  unfoldable pub fingerprint : (Text → String) → Json → String
  unfolding canonicalise
  fingerprint sha256 payload = sha256 (canonicalise payload)
