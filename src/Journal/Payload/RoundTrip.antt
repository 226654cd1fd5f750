-- ===== src/Journal/Payload/RoundTrip.antt =====
-- A journal entry gives back the write that it was made of.
use adg_lang.Common.{
  ◌≡◌, refl, ap, true, false, not, ◌&&◌, ◌||◌, List, [], ◌∷◌, map, String, str_eq, ok, All,
  Bool-cases, inl, inr, eq_iff, eq_refl, arith,
}
use adg_lang.Js.{Value, str, array, items}
use adg_lang.Js.Text.{to_text, stringify}
use adg_lang.Worker.Drafts.{is_uuid}
use adg_lang.Journal.Payload.{
  Param, absent, text, number, unbounded, big, flag, blob, structure, Operation, Codec,
  serialize_journal_value, deserialize_journal_value, value_param, operation_value, payload_value,
  build_journal_payload, map_ok, parse_operation, parse_journal_payload, is_invalid_payload,
  text_if_truthy,
}

-- The parameters that the journal gives back as they were: `JSON.parse` reads the text of an object
-- or array back, `atob` the text of `btoa` where it is not empty.
abbrev pub IsKept : Codec → Param → Type 0
IsKept k absent = Unit
IsKept k (text s) = Unit
IsKept k (number n) = Unit
IsKept k (unbounded s) = k.to_number (str s) ≡ unbounded s
IsKept k (big z) = ⊥
IsKept k (flag b) = Unit
IsKept k (blob bytes) = k.atob (k.btoa bytes) ≡ ok bytes
IsKept k (structure v) =
    (k.parse_json (stringify v) ≡ ok v)
    × (value_param v ≡ structure v)
    × (str_eq (stringify v) "" ≡ false)

text_itself : (s : String) → text_if_truthy (str s) "" ≡ s
unfolding to_text
text_itself s = elim (Bool-cases (str_eq s "")) [
  | inl t ↦ let e : s ≡ "" = ground (arith, eq_iff s "") in rw e refl
  | inr n ↦ rw n refl
]

text_not_empty : (s other : String) → str_eq s "" ≡ false → text_if_truthy (str s) other ≡ s
unfolding to_text
text_not_empty s other n = rw n refl

items-map : {A : Type 0} (f : A → Value) (xs : List A) → items (array (map f xs)) ≡ map f xs
items-map f [] = refl
items-map f (x ∷ xs) = ap (λ l. f x ∷ l) (items-map f xs)

deserialize-serialize :
    (k : Codec) (p : Param)
    → IsKept k p
    → deserialize_journal_value k (serialize_journal_value k p) ≡ ok p
unfolding deserialize_journal_value serialize_journal_value to_text
deserialize-serialize k absent h = refl
deserialize-serialize k (text s) h = refl
deserialize-serialize k (number n) h = refl
deserialize-serialize k (unbounded s) h = rw h refl
deserialize-serialize k (big z) h = elim h [ ]
deserialize-serialize k (flag b) h = refl
deserialize-serialize k (blob bytes) h = rw (text_itself (k.btoa bytes), h) refl
deserialize-serialize k (structure v) (r, s, n) =
    rw (text_not_empty (stringify v) "null" n, r, s) refl

module _ (k : Codec) where
  abbrev pub AllKept : List Param → Type 0
  AllKept ps = All (IsKept k) ps

  -- An operation has a mode, and its parameters are kept.
  abbrev pub IsKeptOperation : Operation → Type 0
  IsKeptOperation op = (str_eq op.mode "" ≡ false) × AllKept op.params

  map_ok-params :
      (ps : List Param)
      → AllKept ps
      → map_ok (deserialize_journal_value k) (map (serialize_journal_value k) ps) ≡ ok ps
  map_ok-params [] h = refl
  map_ok-params (p ∷ ps) h = rw (deserialize-serialize k p h.0, map_ok-params ps h.1) refl

  parse-operation_value :
      (op : Operation) → IsKeptOperation op → parse_operation k (operation_value k op) ≡ ok op
  parse-operation_value op h =
      rw
        (
          h.0,
          items-map (serialize_journal_value k) op.params,
          map_ok-params op.params h.1,
          text_itself op.sql,
          text_not_empty op.mode "run" h.0,
        )
        refl

  map_ok-operations :
      (ops : List Operation)
      → All IsKeptOperation ops
      → map_ok (parse_operation k) (map (operation_value k) ops) ≡ ok ops
  map_ok-operations [] h = refl
  map_ok-operations (op ∷ ops) h = rw (parse-operation_value op h.0, map_ok-operations ops h.1) refl

  payload_valid :
      (id kind : String) (op : Operation) (ops : List Operation)
      → is_uuid (str id) ≡ true
      → (str_eq kind "run" || str_eq kind "batch") ≡ true
      → is_invalid_payload (payload_value k id kind (op ∷ ops)) ≡ false
  payload_valid id kind op ops u q = rw (text_itself id, text_itself kind, u, q) refl

  same_request : (id : String) → (not (str_eq id "") && not (str_eq id id)) ≡ false
  same_request id = ground (arith, eq_refl id)

  -- If `JSON.parse` reads the payload's text back, the request id is a UUID, the kind is "run" or
  -- "batch", there is at least one operation, each has a mode, and no parameter is a `bigint` (nor
  -- one that `JSON.parse`, `atob` or `Number` would not give back), then `parseJournalPayload` on
  -- what `buildJournalPayload` made gives the same request id, kind and operations.
  pub parse-build_journal_payload :
      (id kind : String) (op : Operation) (ops : List Operation)
      → k.parse_json (build_journal_payload k id kind (op ∷ ops)).json
        ≡ ok (payload_value k id kind (op ∷ ops))
      → is_uuid (str id) ≡ true
      → (str_eq kind "run" || str_eq kind "batch") ≡ true
      → All IsKeptOperation (op ∷ ops)
      → parse_journal_payload k (build_journal_payload k id kind (op ∷ ops)).json id
        ≡ ok (record { request_id = str id; operation_kind = str kind; operations = op ∷ ops })
  unfolding parse_journal_payload
  parse-build_journal_payload id kind op ops r u q h =
      rw
        (
          r,
          payload_valid id kind op ops u q,
          same_request id,
          items-map (operation_value k) ops,
          parse-operation_value op h.0,
          map_ok-operations ops h.1,
        )
        refl
