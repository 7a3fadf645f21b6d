-- ===== src/Audit/Redacted.antt =====
-- What the redaction of src/thruk_mcp/audit.py leaves of the arguments.
use thruk_mcp.Audit.{
  Json, null, boolean, number, string, list, dict, Items, nil, cons, Fields, done, field, is_secret,
  redact, redact_items, redact_fields,
}
use thruk_mcp.Prelude.{String, ◌≡◌, refl, ap, ap₂, true, if◌then◌else◌, Bool-cases, inl, inr}

-- Two values that differ at most below the secret keys, at any depth.
mutual
  pub data IsSame : Json → Json → Type 0 where
    whole : (v : Json) → IsSame v v
    lists : {l m : Items} → AllSame l m → IsSame (list l) (list m)
    dicts : {fs gs : Fields} → FieldsSame fs gs → IsSame (dict fs) (dict gs)

  pub data AllSame : Items → Items → Type 0 where
    all_done : AllSame nil nil
    both : {v w : Json} {l m : Items} → IsSame v w → AllSame l m → AllSame (cons v l) (cons w m)

  pub data FieldsSame : Fields → Fields → Type 0 where
    no_more : FieldsSame done done
    open_field :
        {v w : Json} {fs gs : Fields} (k : String)
        → IsSame v w
        → FieldsSame fs gs
        → FieldsSame (field k v fs) (field k w gs)
    secret_field :
        {v w : Json} {fs gs : Fields} (k : String)
        → is_secret k ≡ true
        → FieldsSame fs gs
        → FieldsSame (field k v fs) (field k w gs)

secret_shut :
    (k : String) (v w : Json) (fs gs : Fields)
    → is_secret k ≡ true
    → redact_fields fs ≡ redact_fields gs
    → redact_fields (field k v fs) ≡ redact_fields (field k w gs)
unfolding redact_fields
secret_shut k v w fs gs h e = rw (h) (ap (field k (string "***")) e)

mutual
  unfolding redact redact_items redact_fields

  redact_same : {v w : Json} → IsSame v w → redact v ≡ redact w
  redact_same (whole v) = refl
  redact_same (lists h) = ap list (redact_items_same h)
  redact_same (dicts h) = ap dict (redact_fields_same h)

  redact_items_same : {l m : Items} → AllSame l m → redact_items l ≡ redact_items m
  redact_items_same all_done = refl
  redact_items_same (both h hs) = ap₂ cons (redact_same h) (redact_items_same hs)

  redact_fields_same : {fs gs : Fields} → FieldsSame fs gs → redact_fields fs ≡ redact_fields gs
  redact_fields_same no_more = refl
  redact_fields_same (open_field k h hs) =
      ap₂ (λ x rest. field k (if is_secret k then string "***" else x) rest) (redact_same h)
        (redact_fields_same hs)
  redact_fields_same (secret_field k secret hs) =
      secret_shut k _ _ _ _ secret (redact_fields_same hs)

field_same :
    (k : String) (v : Json) (fs : Fields)
    → IsSame v (redact v)
    → FieldsSame fs (redact_fields fs)
    → FieldsSame (field k v fs) (redact_fields (field k v fs))
unfolding redact_fields
field_same k v fs h hs = elim (Bool-cases (is_secret k)) [
  | inl secret ↦ rw (secret) (secret_field k secret hs)
  | inr other ↦ rw (other) (open_field k h hs)
]

mutual
  unfolding redact redact_items redact_fields

  IsSame-redact : (v : Json) → IsSame v (redact v)
  IsSame-redact null = whole null
  IsSame-redact (boolean b) = whole (boolean b)
  IsSame-redact (number n z) = whole (number n z)
  IsSame-redact (string s) = whole (string s)
  IsSame-redact (list l) = lists (items_same l)
  IsSame-redact (dict fs) = dicts (fields_same fs)

  items_same : (l : Items) → AllSame l (redact_items l)
  items_same nil = all_done
  items_same (cons v l) = both (IsSame-redact v) (items_same l)

  fields_same : (fs : Fields) → FieldsSame fs (redact_fields fs)
  fields_same done = no_more
  fields_same (field k v fs) = field_same k v fs (IsSame-redact v) (fields_same fs)

-- The redaction makes two values alike that differ below secret keys alone, at any depth, and changes no
-- more of a value than that.
pub redact-IsSame : (v w : Json) → IsSame v w → (redact v ≡ redact w) × IsSame v (redact v)
redact-IsSame v w h = (redact_same h, IsSame-redact v)
