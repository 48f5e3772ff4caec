-- ===== src/Api/Keys/Refines.antt =====
-- The table refines a function from hashes to rows, whatever statements it has gone through.
use predict_iq.Api.Keys.Table.{
  row, map_row, IsUnique, set_expiry, api_key_set_expires-IsUnique, api_key_delete_expired-IsUnique,
  is_rotated, row-api_key_set_expires, schedule_expiry-IsUnique, row-api_key_delete_expired,
  row-schedule_expiry, has_hash-row, selected-row, api_key_validate-row,
}
use predict_iq.Api.Keys.{
  api_key_insert, rotate_api_key, ApiKeyRecord, schedule_expiry, some, is_expired,
  api_key_set_expires, overlap_secs, api_key_delete_expired, has_hash, api_key_list_active,
  api_key_validate, is_active,
}
use predict_iq.Prelude.{
  ◌∷◌, [], ℕ, if◌then◌else◌, List, Option, is_some, ◌==◌, none, put, some, ◌+◌, ◌≡◌, Bool-cases,
  fun_ext, ◌∙◌, ap, inl, arith, refl, inr, false,
}

-- The statements that write, each at its time.
pub data KeyOp : Type 0 where
  insert_key : ℕ → ℕ → ℕ → KeyOp
  set_expires : ℕ → ℕ → KeyOp
  delete_expired : ℕ → KeyOp
  rotate : ℕ → ℕ → Option ℕ → ℕ → KeyOp

abbrev pub Keyring : Type 0
Keyring = ℕ → Option ApiKeyRecord

pub new_row : ℕ → ℕ → ℕ → ApiKeyRecord
new_row h label now = record {
  key_hash = h;
  label = label;
  created_at = now;
  expires_at = none;
  revoked_at = none;
}

abbrev pub added : Keyring → ℕ → ℕ → ℕ → Keyring
added f h label now = if is_some (f h) then f else put f h (some (new_row h label now))

-- What an operation does to the function.
unfoldable pub apply : KeyOp → Keyring → Keyring
apply (insert_key h label now) f = added f h label now
apply (set_expires h t) f = λ i. if i == h then map_row (set_expiry t) (f i) else f i
apply (delete_expired now) f =
    λ i. elim (f i) [ none ↦ none | some k ↦ if is_expired now k then none else some k ]
apply (rotate h label days now) f =
    added
      (λ i.
        if is_rotated label now (f i)
        then map_row (set_expiry (now + overlap_secs days)) (f i)
        else f i)
      h label now

-- What it does to the table: a violation of UNIQUE leaves it as it is.
unfoldable pub perform_op : KeyOp → List ApiKeyRecord → List ApiKeyRecord
perform_op (insert_key h label now) keys = elim (api_key_insert h label now keys) [
  | none ↦ keys
  | some inserted ↦ inserted
]
perform_op (set_expires h t) keys = api_key_set_expires h t keys
perform_op (delete_expired now) keys = api_key_delete_expired now keys
perform_op (rotate h label days now) keys = (rotate_api_key h label days now keys).1

abbrev pub rows : List ApiKeyRecord → Keyring
rows keys i = row i keys

-- INSERT, where a violation leaves the table.
rows-insert :
    (h label now i : ℕ) (keys : List ApiKeyRecord)
    → row i (elim (api_key_insert h label now keys) [ none ↦ keys | some inserted ↦ inserted ])
      ≡ added (rows keys) h label now i
unfolding api_key_insert row new_row
rows-insert h label now i keys = ground (arith, has_hash-row h keys)

insert-IsUnique :
    (h label now : ℕ) (keys : List ApiKeyRecord)
    → IsUnique keys
    → IsUnique (elim (api_key_insert h label now keys) [ none ↦ keys | some inserted ↦ inserted ])
unfolding api_key_insert
insert-IsUnique h label now keys u = elim (Bool-cases (has_hash h keys)) [
  | inl there ↦ rw there u
  | inr new ↦ rw new (ground (arith, has_hash-row h keys), u)
]

-- The rotation is the schedule, and then the INSERT.
rotate_lem :
    (h label now : ℕ) (days : Option ℕ) (keys : List ApiKeyRecord)
    → let scheduled =
        schedule_expiry label (now + overlap_secs days) (api_key_list_active now keys) keys in
      (rotate_api_key h label days now keys).1
      ≡ elim (api_key_insert h label now scheduled) [ none ↦ scheduled | some inserted ↦ inserted ]
unfolding rotate_api_key
rotate_lem h label now days keys = ground arith

pub perform_op-IsUnique :
    (op : KeyOp) (keys : List ApiKeyRecord) → IsUnique keys → IsUnique (perform_op op keys)
unfolding perform_op
perform_op-IsUnique (insert_key h label now) keys u = insert-IsUnique h label now keys u
perform_op-IsUnique (set_expires h t) keys u = api_key_set_expires-IsUnique h t keys u
perform_op-IsUnique (delete_expired now) keys u = api_key_delete_expired-IsUnique now keys u
perform_op-IsUnique (rotate h label days now) keys u =
    let scheduled =
      schedule_expiry label (now + overlap_secs days) (api_key_list_active now keys) keys in
    rw (rotate_lem h label now days keys) (
      insert-IsUnique h label now scheduled (
        schedule_expiry-IsUnique label (now + overlap_secs days) (api_key_list_active now keys) keys
          u))

pub rows-rotate :
    (h label now i : ℕ) (days : Option ℕ) (keys : List ApiKeyRecord)
    → IsUnique keys
    → row i (rotate_api_key h label days now keys).1 ≡ apply (rotate h label days now) (rows keys) i
unfolding apply
rows-rotate h label now i days keys u =
    let t = now + overlap_secs days in
    let active = api_key_list_active now keys in
    let scheduled = schedule_expiry label t active keys in
    rw (rotate_lem h label now days keys) (
      ground (
        arith,
        rows-insert h label now i scheduled,
        row-schedule_expiry label t i active keys,
        row-schedule_expiry label t h active keys,
        selected-row label now i keys u,
        selected-row label now h keys u,
      ))

pub rows-perform_op :
    (op : KeyOp) (keys : List ApiKeyRecord)
    → IsUnique keys
    → rows (perform_op op keys) ≡ apply op (rows keys)
unfolding perform_op apply
rows-perform_op (insert_key h label now) keys u = fun_ext (λ i. rows-insert h label now i keys)
rows-perform_op (set_expires h t) keys u = fun_ext (λ i. row-api_key_set_expires h i t keys)
rows-perform_op (delete_expired now) keys u = fun_ext (λ i. row-api_key_delete_expired now i keys u)
rows-perform_op (rotate h label days now) keys u =
    fun_ext (λ i. rows-rotate h label now i days keys u)

pub run : List KeyOp → List ApiKeyRecord → List ApiKeyRecord
run [] keys = keys
run (op ∷ ops) keys = run ops (perform_op op keys)

pub replay : List KeyOp → Keyring → Keyring
replay [] f = f
replay (op ∷ ops) f = replay ops (apply op f)

run-rows :
    (ops : List KeyOp) (keys : List ApiKeyRecord)
    → IsUnique keys
    → IsUnique (run ops keys) × (rows (run ops keys) ≡ replay ops (rows keys))
unfolding run replay
run-rows [] keys u = (u, refl)
run-rows (op ∷ ops) keys u =
    let (unique, same) = run-rows ops (perform_op op keys) (perform_op-IsUnique op keys u) in
    (unique, same ∙ ap (replay ops) (rows-perform_op op keys u))

-- The table of keys refines a function from hashes to rows: after any list of insertions, expiries,
-- clean-ups and rotations, from the empty table on, no hash has two rows, and a hash validates at a
-- time exactly if the function that the same operations build has an active row for it.
pub run_refines :
    (ops : List KeyOp) (h now : ℕ)
    → IsUnique (run ops [])
      × (is_some (api_key_validate h now (run ops []))
          ≡ elim (replay ops (λ i. none) h) [ none ↦ false | some k ↦ is_active now k ])
unfolding row
run_refines ops h now =
    let (unique, same) = run-rows ops [] tt in
    (unique, rw (← same) (api_key_validate-row h now (run ops []) unique))
