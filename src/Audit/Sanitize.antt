-- ===== src/Audit/Sanitize.antt =====
-- What `record` stores of hostile values.
use aegis_nexus.Common.{
  ℕ, ◌+◌, ◌≤◌, true, false, ◌||◌, ltb, if◌then◌else◌, Option, none, some, List, [], ◌∷◌, map, take,
  length, is_empty, ◌≡◌, refl, arith, length-take, All, All-take, Option-cases, Bool-cases, inl,
  inr, ◌⊎◌, ◌==◌, list_eq, nat_eq, eq_test,
}
use aegis_nexus.Common.Dict.{Dict, put, length-put}
use aegis_nexus.Audit.{
  unknown_operator, success_outcome, denied_outcome, error_outcome, truncated_key, Library, Text,
  Scalar, Value, scalar, list, null, bool, number, other, Entry, Row, is_control, strip_control,
  sanitize_scalar, sanitize_value, sanitize_entries, sanitize_detail, row_of, clean_source, or_else,
  max_outcome_len, clean_operator, max_detail_value_len, max_detail_list_items, max_detail_keys,
  max_detail_bytes, max_operator_len, max_action_len, max_target_type_len, max_target_id_len,
}

-- At most `n` code points, none of them a control character.
pub record IsClean (n : ℕ) (text : Text) : Type 0 where
  pub short : length text ≤ n
  pub printable : All (λ c. is_control c ≡ false) text

printable-strip : (text : Text) → All (λ c. is_control c ≡ false) (strip_control text)
printable-strip [] = tt
printable-strip (c ∷ text) = elim (Bool-cases (is_control c)) [
  | inl control ↦ rw control (printable-strip text)
  | inr printable ↦ rw printable (printable, printable-strip text)
]

strip-IsClean : (n : ℕ) (text : Text) → IsClean n (take n (strip_control text))
strip-IsClean n text = record {
  short = omega (arith, length-take n (strip_control text));
  printable = All-take (λ c. is_control c ≡ false) n (strip_control text) (printable-strip text);
}

abbrev pub IsCleanScalar : Scalar → Type 0
IsCleanScalar null = Unit
IsCleanScalar (bool b) = Unit
IsCleanScalar (number n) = Unit
IsCleanScalar (other text) = IsClean max_detail_value_len text

abbrev pub IsCleanValue : Value → Type 0
IsCleanValue (scalar s) = IsCleanScalar s
IsCleanValue (list items) = (length items ≤ max_detail_list_items) × All IsCleanScalar items

sanitize_scalar-IsCleanScalar : (s : Scalar) → IsCleanScalar (sanitize_scalar s)
unfolding sanitize_scalar
sanitize_scalar-IsCleanScalar null = tt
sanitize_scalar-IsCleanScalar (bool b) = tt
sanitize_scalar-IsCleanScalar (number n) = tt
sanitize_scalar-IsCleanScalar (other text) = strip-IsClean max_detail_value_len text

map-IsCleanScalar : (items : List Scalar) → All IsCleanScalar (map sanitize_scalar items)
map-IsCleanScalar [] = tt
map-IsCleanScalar (s ∷ items) = (sanitize_scalar-IsCleanScalar s, map-IsCleanScalar items)

length-map : (items : List Scalar) → length (map sanitize_scalar items) ≡ length items
length-map [] = refl
length-map (s ∷ items) = omega (arith, length-map items)

sanitize_value-IsCleanValue : (v : Value) → IsCleanValue (sanitize_value v)
unfolding sanitize_value
sanitize_value-IsCleanValue (scalar s) = sanitize_scalar-IsCleanScalar s
sanitize_value-IsCleanValue (list items) = (
  omega (
    arith,
    length-map (take max_detail_list_items items),
    length-take max_detail_list_items items,
  ),
  map-IsCleanScalar (take max_detail_list_items items),
)

abbrev pub IsCleanEntry : Text × Value → Type 0
IsCleanEntry (key, v) = IsClean 64 key × IsCleanValue v

All-put :
    (d : Dict Text Value) (key : Text) (v : Value)
    → IsCleanEntry (key, v)
    → All IsCleanEntry d
    → All IsCleanEntry (put d key v)
unfolding put
All-put [] key v h all = (h, tt)
All-put ((k, w) ∷ d) key v h all = elim (Bool-cases (k == key)) [
  | inl same ↦ rw same ((all.0.0, h.1), all.1)
  | inr other_key ↦ rw other_key (all.0, All-put d key v h all.1)
]

sanitize_entries-clean :
    (items : List (Option Text × Value)) (d : Dict Text Value)
    → All IsCleanEntry d
    → All IsCleanEntry (sanitize_entries items d)
unfolding sanitize_entries
sanitize_entries-clean [] d all = all
sanitize_entries-clean ((none, v) ∷ items) d all = sanitize_entries-clean items d all
sanitize_entries-clean ((some key, v) ∷ items) d all =
    elim (Bool-cases (is_empty (take 64 (strip_control key)))) [
      | inl empty ↦ rw empty (sanitize_entries-clean items d all)
      | inr named ↦ rw named (
          sanitize_entries-clean items (put d (take 64 (strip_control key)) (sanitize_value v)) (
            All-put d (take 64 (strip_control key)) (sanitize_value v)
              (strip-IsClean 64 key, sanitize_value-IsCleanValue v) all))
    ]

length-sanitize_entries :
    (items : List (Option Text × Value)) (d : Dict Text Value)
    → length (sanitize_entries items d) ≤ length items + length d
unfolding sanitize_entries
length-sanitize_entries [] d = omega arith
length-sanitize_entries ((none, v) ∷ items) d = omega (arith, length-sanitize_entries items d)
length-sanitize_entries ((some key, v) ∷ items) d =
    let safe_key = take 64 (strip_control key) in
    ground (
      arith,
      length-sanitize_entries items d,
      length-sanitize_entries items (put d safe_key (sanitize_value v)),
      length-put d safe_key (sanitize_value v),
    )

-- What holds of a detail that is stored.
pub record IsCleanDetail (lib : Library) (detail : Dict Text Value) : Type 0 where
  pub few : length detail ≤ max_detail_keys
  pub entries : All IsCleanEntry detail
  pub small : lib.utf8_length (lib.dumps detail) ≤ max_detail_bytes

-- What holds of a row that `record` inserts of an entry.
pub record IsSafe (lib : Library) (e : Entry) (row : Row) : Type 0 where
  pub operator : IsClean max_operator_len row.operator
  pub named : is_empty row.operator ≡ false
  pub target_type : IsClean max_target_type_len row.target_type
  pub target_id : IsClean max_target_id_len row.target_id
  pub action : length row.action ≤ max_action_len
  pub outcome :
      (row.outcome ≡ success_outcome)
      ⊎ (row.outcome ≡ denied_outcome)
      ⊎ (row.outcome ≡ error_outcome)
  pub source :
      (row.source_ip ≡ none)
      ⊎ ((ip : Text) × (lib.ip_address e.source_ip ≡ some ip) × (row.source_ip ≡ some ip))
  pub detail : Dict Text Value
  pub detail_is : row.detail ≡ lib.dumps detail
  pub clean : IsCleanDetail lib detail

abbrev IsOutcome : Text → Type 0
IsOutcome text = (text ≡ success_outcome) ⊎ (text ≡ denied_outcome) ⊎ (text ≡ error_outcome)

known-IsOutcome :
    (text : Text)
    → IsOutcome (
        if text == success_outcome || (text == denied_outcome || text == error_outcome)
        then text
        else success_outcome)
known-IsOutcome text = elim (Bool-cases (text == success_outcome)) [
  | inl success ↦ rw success (inl ((eq_test text success_outcome).0 success))
  | inr not_success ↦ elim (Bool-cases (text == denied_outcome)) [
    | inl denied ↦ rw (not_success, denied) (inr (inl ((eq_test text denied_outcome).0 denied)))
    | inr not_denied ↦ elim (Bool-cases (text == error_outcome)) [
      | inl error ↦
          rw (not_success, not_denied, error) (inr (inr ((eq_test text error_outcome).0 error)))
      | inr not_error ↦ rw (not_success, not_denied, not_error) (inl refl)
    ]
  ]
]

source-cases :
    (lib : Library) (source_ip : Text)
    → (clean_source lib source_ip ≡ none)
      ⊎ ((ip : Text) × (lib.ip_address source_ip ≡ some ip)
          × (clean_source lib source_ip ≡ some ip))
source-cases lib source_ip = elim (Bool-cases (is_empty source_ip)) [
  | inl empty ↦ inl (rw empty refl)
  | inr given ↦ elim (Option-cases (lib.ip_address source_ip)) [
    | inl invalid ↦ inl (rw (given, invalid) refl)
    | inr (ip, valid) ↦ inr (ip, valid, rw (given, valid) refl)
  ]
]

unknown_operator-IsClean : IsClean max_operator_len unknown_operator
unknown_operator-IsClean = record {
  short = omega arith;
  printable = (refl, (refl, (refl, (refl, (refl, (refl, (refl, tt)))))));
}

truncated_key-IsClean : IsClean 64 truncated_key
truncated_key-IsClean = record {
  short = omega arith;
  printable = (refl, (refl, (refl, (refl, (refl, (refl, (refl, (refl, (refl, tt)))))))));
}

-- `marker_small` is of json.dumps and UTF-8: the JSON of {"truncated": true} has at most 4000 bytes.
module _ (lib : Library)
    (marker_small : lib.utf8_length (lib.dumps ((truncated_key, scalar (bool true)) ∷ []))
      ≤ max_detail_bytes) where
  marker-IsCleanDetail : IsCleanDetail lib ((truncated_key, scalar (bool true)) ∷ [])
  marker-IsCleanDetail = record {
    few = omega arith;
    entries = ((truncated_key-IsClean, tt), tt);
    small = marker_small;
  }

  detail-IsCleanDetail :
      (items : List (Option Text × Value)) → IsCleanDetail lib (sanitize_detail lib items)
  unfolding sanitize_detail
  detail-IsCleanDetail items =
      let clean = sanitize_entries (take max_detail_keys items) [] in
      elim (Bool-cases (ltb max_detail_bytes (lib.utf8_length (lib.dumps clean)))) [
        | inl large ↦ rw large marker-IsCleanDetail
        | inr fits ↦ rw fits (record {
          few = omega (
            arith,
            length-sanitize_entries (take max_detail_keys items) [],
            length-take max_detail_keys items,
          );
          entries = sanitize_entries-clean (take max_detail_keys items) [] tt;
          small = ground arith;
        })
      ]

  operator-IsClean : (operator : Text) → IsClean max_operator_len (clean_operator lib operator)
  operator-IsClean operator =
      elim (Bool-cases (is_empty (take max_operator_len (strip_control (lib.strip operator))))) [
        | inl empty ↦ rw empty unknown_operator-IsClean
        | inr named ↦ rw named (strip-IsClean max_operator_len (lib.strip operator))
      ]

  operator-named : (operator : Text) → is_empty (clean_operator lib operator) ≡ false
  operator-named operator =
      elim (Bool-cases (is_empty (take max_operator_len (strip_control (lib.strip operator))))) [
        | inl empty ↦ rw empty refl
        | inr named ↦ rw named named
      ]

  -- Whatever the entry is, of the row that `record` inserts: the operator is not empty, and it, the
  -- target type and the target identifier have at most 64, 64 and 128 code points and no control
  -- character; the action has at most 64; the outcome is one of the three; the source is none, or what
  -- ipaddress makes of the given one; and the detail is the JSON of at most 32 keys, short and without
  -- control characters, with values of the same kind and at most 32 items in a list, and has at most
  -- 4000 bytes. Of json.dumps it is assumed that the mark of a detail that is too large has no more.
  pub row_of-IsSafe : (e : Entry) (at id : ℕ) → IsSafe lib e (row_of lib e at id)
  row_of-IsSafe e at id = record {
    operator = operator-IsClean e.operator;
    named = operator-named e.operator;
    target_type = strip-IsClean max_target_type_len (lib.strip e.target_type);
    target_id = strip-IsClean max_target_id_len (lib.strip e.target_id);
    action = omega (arith, length-take max_action_len (lib.lower (lib.strip e.action)));
    outcome =
        known-IsOutcome
          (take max_outcome_len (lib.lower (lib.strip (or_else lib e.outcome success_outcome))));
    source = source-cases lib e.source_ip;
    detail = sanitize_detail lib e.detail;
    detail_is = refl;
    clean = detail-IsCleanDetail e.detail;
  }
