-- ===== src/MockServer/Selection.antt =====
-- What the choice of a response promises.
use schematica_api.Common.{
  String, Bool, true, false, ◌≡◌, ◌∙◌, inl, inr, refl, eq_iff, arith, Option, none, some, find,
  ◌==◌, Bool-cases, Option-cases,
}
use schematica_api.Exceptions.{Result, ok}
use schematica_api.Json.{Value, Fields, end, field, get_field, keys}
use schematica_api.MockServer.{
  Selected, Response, own, inherited, is_inherited, has_ref, is_container, entry, is_success,
  is_truthy, selected, select_requested, select_fallback, select_default, select_response,
}

-- A response of the document is the entry of its status, and no reference; a member that every
-- object inherits stands under its name, where the document has no entry.
abbrev pub Fits : Fields → String → Option Response → Type 0
Fits responses status none = Unit
Fits responses status (some (own r)) = (get_field status responses ≡ some r) × (has_ref r ≡ false)
Fits responses status (some inherited) =
    (get_field status responses ≡ none) × (is_inherited status ≡ true)

abbrev pub IsEntry : Fields → Selected → Type 0
IsEntry responses s = Fits responses s.status_code s.response

chosen-IsEntry :
    (responses : Fields) (status : String) (v : Value)
    → get_field status responses ≡ some v
    → has_ref v ≡ false
    → IsEntry responses (record { response = some (own v); status_code = status })
chosen-IsEntry responses status v e plain = (e, plain)

none-IsEntry :
    (responses : Fields) (status : String)
    → IsEntry responses (record { response = none; status_code = status })
none-IsEntry responses status = tt

absent-IsEntry :
    (responses : Fields) (status : String) (s : Selected)
    → ◌≡◌ {A = Result Selected} (ok (record { response = none; status_code = status })) (ok s)
    → IsEntry responses s
absent-IsEntry responses status s same =
    let same_s : ◌≡◌ {A = Selected} (record { response = none; status_code = status }) s = cc in
    rw (← same_s) (none-IsEntry responses status)

selected-IsEntry :
    (responses : Fields) (status : String) (v : Value) (s : Selected)
    → get_field status responses ≡ some v
    → selected status v ≡ ok s
    → IsEntry responses s
selected-IsEntry responses status v s e h = elim (Bool-cases (is_container v)) [
  | inr scalar ↦ ground (arith, scalar)
  | inl container ↦ elim (Bool-cases (has_ref v)) [
    | inl ref ↦
        let same : ◌≡◌ {A = Result Selected} (ok (record { response = none; status_code = status }))
            (ok s) =
          ground (arith, container, ref, h) in
        let same_s : ◌≡◌ {A = Selected} (record { response = none; status_code = status }) s = cc in
        rw (← same_s) (none-IsEntry responses status)
    | inr plain ↦
        let same : ◌≡◌ {A = Result Selected}
            (ok (record { response = some (own v); status_code = status })) (ok s) =
          ground (arith, container, plain, h) in
        let same_s : ◌≡◌ {A = Selected} (record { response = some (own v); status_code = status })
            s =
          cc in
        rw (← same_s) (chosen-IsEntry responses status v e plain)
  ]
]

entry-get :
    (responses : Fields) (status : String) (v : Value)
    → entry responses status ≡ some v
    → get_field status responses ≡ some v
entry-get responses status v h = elim (Option-cases (get_field status responses)) [
  | inl e ↦ ground (arith, e)
  | inr (w, e) ↦ elim (Bool-cases (is_truthy w)) [
    | inl t ↦ ground (arith, e, t)
    | inr f ↦ ground (arith, e, f)
  ]
]

-- A key that a search over the keys finds has a value.
get-found :
    (p : String → Bool) (key : String) (fs : Fields)
    → find p (keys fs) ≡ some key
    → (v : Value) × (get_field key fs ≡ some v)
unfolding get_field keys
get-found p key end h = cc
get-found p key (field j v fs) h = elim (Bool-cases (p j)) [
  | inl hit ↦
      let same : some j ≡ some key = rw (hit) at h in
      let j_key : j ≡ key = cc in (v, ground (arith, j_key, eq_iff j key))
  | inr miss ↦
      let (w, e) = get-found p key fs (rw miss at h) in
      elim (Bool-cases (j == key)) [ inl t ↦ (v, rw t refl) | inr f ↦ (w, rw f e) ]
]

select_requested-IsEntry :
    (responses : Fields) (status : String) (s : Selected)
    → select_requested responses status ≡ ok s
    → IsEntry responses s
select_requested-IsEntry responses status s h = elim (Option-cases (get_field status responses)) [
  | inl e ↦ elim (Bool-cases (is_inherited status)) [
    | inr missing ↦ absent-IsEntry responses status s (ground (arith, e, missing, h))
    | inl foreign ↦
        let same : ◌≡◌ {A = Result Selected}
            (ok (record { response = some inherited; status_code = status })) (ok s) =
          ground (arith, e, foreign, h) in
        let same_s : ◌≡◌ {A = Selected} (record { response = some inherited; status_code = status })
            s =
          cc in
        rw (← same_s) (e, foreign)
  ]
  | inr (v, e) ↦ elim (Bool-cases (is_truthy v)) [
    | inr falsy ↦ absent-IsEntry responses status s (ground (arith, e, falsy, h))
    | inl truthy ↦ selected-IsEntry responses status v s e (ground (arith, e, truthy, h))
  ]
]

select_fallback-IsEntry :
    (responses : Fields) (s : Selected) → select_fallback responses ≡ ok s → IsEntry responses s
select_fallback-IsEntry responses s h = elim (Option-cases (entry responses "204")) [
  | inr (v, e) ↦
      selected-IsEntry responses "204" v s (entry-get responses "204" v e) (ground (arith, e, h))
  | inl e ↦ elim (Option-cases (entry responses "default")) [
    | inr (v, f) ↦
        selected-IsEntry responses "default" v s (entry-get responses "default" v f)
          (ground (arith, e, f, h))
    | inl f ↦ absent-IsEntry responses "200" s (ground (arith, e, f, h))
  ]
]

select_default-IsEntry :
    (responses : Fields) (s : Selected) → select_default responses ≡ ok s → IsEntry responses s
select_default-IsEntry responses s h = elim (Option-cases (find is_success (keys responses))) [
  | inl e ↦ select_fallback-IsEntry responses s (ground (arith, e, h))
  | inr (status, e) ↦ elim (Bool-cases (status == "")) [
    | inl blank ↦ select_fallback-IsEntry responses s (ground (arith, e, blank, h))
    | inr named ↦
        let (v, f) = get-found is_success status responses e in
        selected-IsEntry responses status v s f (ground (arith, e, named, f, h))
  ]
]

requested_status :
    (responses : Fields) (status : String) (s : Selected)
    → select_requested responses status ≡ ok s
    → s.status_code ≡ status
requested_status responses status s h = elim (Option-cases (get_field status responses)) [
  | inl e ↦ elim (Bool-cases (is_inherited status)) [
    | inr missing ↦ ground (arith, e, missing, h)
    | inl foreign ↦ ground (arith, e, foreign, h)
  ]
  | inr (v, e) ↦ elim (Bool-cases (is_truthy v)) [
    | inr falsy ↦ ground (arith, e, falsy, h)
    | inl truthy ↦ elim (Bool-cases (is_container v)) [
      | inr scalar ↦ ground (arith, e, truthy, scalar)
      | inl container ↦ elim (Bool-cases (has_ref v)) [
        | inl ref ↦ ground (arith, e, truthy, container, ref, h)
        | inr plain ↦ ground (arith, e, truthy, container, plain, h)
      ]
    ]
  ]
]

-- A response that is chosen is the entry of the status that is answered with it, and no reference,
-- or a member that every object inherits, under a status that is the name of that member and has no
-- entry; and where a status was asked for, that is the status that is answered.
pub select_response-IsEntry :
    (responses : Fields) (requested : Option String) (s : Selected)
    → select_response responses requested ≡ ok s
    → IsEntry responses s
      × ((status : String)
          → requested ≡ some status
          → (status == "") ≡ false
          → s.status_code ≡ status)
unfolding select_response
select_response-IsEntry responses none s h =
    (select_default-IsEntry responses s h, λ status e named. cc)
select_response-IsEntry responses (some asked) s h = elim (Bool-cases (asked == "")) [
  | inl blank ↦ (
    select_default-IsEntry responses s (ground (arith, blank, h)),
    λ status e named. let same : asked ≡ status = cc in ground (arith, same, blank, named),
  )
  | inr given ↦
      let picked : select_requested responses asked ≡ ok s = ground (arith, given, h) in
      (
        select_requested-IsEntry responses asked s picked,
        λ status e named.
            let same : asked ≡ status = cc in requested_status responses asked s picked ∙ same,
      )
]
