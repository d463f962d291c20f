-- ===== src/Events/Credentials.antt =====
-- The redaction of credentials: _redact_credentials and _sensor_credential_truncation of
-- aegis_nexus/model.py. `secrets` tells whether the environment asks to store them, and `sha256` is
-- the hexadecimal digest of the UTF-8 bytes.
use Prim.Native.String.{count}
use aegis_nexus.Common.{
  ℕ, Bool, true, false, not, ◌&&◌, ◌||◌, ltb, leb, nat_beq, if◌then◌else◌, Option, none, some, List,
  [], ◌∷◌, take, String, ◌==◌, string_eq, ◌≡◌, refl, ◌⊎◌, inl, inr,
}
use aegis_nexus.Common.Json.{
  ℤ, pos, Json, null, bool, int, str, array, object, Fields, lookup, get_key, elems, or_else,
  set_key, lookup-set_key,
}
use aegis_nexus.Common.Text.{any_char}
use aegis_nexus.Common.Python.{Python, str_of}
use aegis_nexus.Events.{Audit, max_items, record_audit, credential_secrets_redacted}

abbrev pub is_hex : ℕ → Bool
is_hex c = (leb 97 c && leb c 102) || (leb 48 c && leb c 57)

-- `[a-f0-9]{64}`
abbrev pub is_fingerprint : String → Bool
is_fingerprint s = nat_beq (count s) 64 && not (any_char (λ c. not (is_hex c)) s)

-- The length of the password before the sensor cut it, and its digest where it gives one.
pub record Truncation : Type 0 where
  pub original_length : ℕ
  pub original_sha256 : Option String

abbrev pub is_text : String → Json → Bool
is_text s (str t) = t == s
is_text s _ = false

-- `original_length < captured_length or declared_captured != captured_length`, negated.
abbrev pub agrees : ℕ → Option ℤ → Option ℤ → Option ℕ
agrees captured (some (pos original)) (some (pos declared)) =
    if not (ltb original captured) && nat_beq declared captured then some original else none
agrees captured _ _ = none

module _ (py : Python) where
  abbrev pub truncation_of : ℕ → Json → Option Truncation
  truncation_of captured (object entry) =
      if is_text "observed.credential.password" (lookup "path" entry)
      then elim (agrees captured (py.int_of (lookup "original_length" entry))
          (py.int_of (lookup "captured_length" entry))) [
            | none ↦ none
            | some original ↦
                let fingerprint =
                  py.lower (str_of py (or_else (lookup "original_sha256" entry) (str ""))) in
                some (record {
                  original_length = original;
                  original_sha256 = if is_fingerprint fingerprint then some fingerprint else none;
                })
          ]
      else none
  truncation_of captured _ = none

  abbrev pub first_truncation : ℕ → List Json → Option Truncation
  first_truncation captured [] = none
  first_truncation captured (entry ∷ entries) =
      let rest = first_truncation captured entries in
      elim (truncation_of captured entry) [ none ↦ rest | some t ↦ some t ]

  -- `entries` is `truncated_fields` of the capture.
  abbrev pub truncation_in : ℕ → Json → Option Truncation
  truncation_in captured (array entries) =
      first_truncation captured (take max_items (elems entries))
  truncation_in captured _ = none

  unfoldable pub sensor_credential_truncation : Fields → ℕ → Option Truncation
  sensor_credential_truncation observed captured =
      truncation_in captured (get_key "truncated_fields" (lookup "sensor_capture" observed))

  abbrev pub with_sha256 : Option String → Fields → Fields
  with_sha256 none credential = credential
  with_sha256 (some digest) credential =
      set_key "sensor_reported_password_sha256" (str digest) credential

  abbrev pub with_truncation : Option Truncation → Fields → Fields
  with_truncation none credential = set_key "password_complete" (bool true) credential
  with_truncation (some t) credential = with_sha256 t.original_sha256 (
      set_key "sensor_reported_password_length" (int (pos t.original_length))
        (set_key "password_complete" (bool false) credential))

  module _ (sha256 : String → String) (secrets : Bool) where
    abbrev pub redacted_credential : Fields → Fields → String → Fields
    redacted_credential observed credential password =
        let described = with_truncation (sensor_credential_truncation observed (count password)) (
          set_key "password_sha256" (str (sha256 password))
            (set_key "password_length" (int (pos (count password))) credential)) in
        if secrets then described else set_key "password" (str "[redacted]") described

    -- `password` is the value of that key in the credential.
    abbrev pub redact_password : Fields → Fields → Json → Audit → Fields × Audit
    redact_password observed credential null a = (observed, a)
    redact_password observed credential password a = (
      set_key "credential" (object (redacted_credential observed credential (str_of py password)))
          observed,
      if secrets
          then a
          else record_audit credential_secrets_redacted "observed.credential.password" a,
    )

    abbrev pub redact_in : Fields → Json → Audit → Fields × Audit
    redact_in observed (object credential) a =
        redact_password observed credential (lookup "password" credential) a
    redact_in observed _ a = (observed, a)

    unfoldable pub redact_credentials : Fields → Audit → Fields × Audit
    redact_credentials observed a = redact_in observed (lookup "credential" observed) a

-- No password, or the text that stands for one.
abbrev pub IsRedacted : Json → Type 0
IsRedacted password = (password ≡ null) ⊎ (password ≡ str "[redacted]")

set_twice :
    (observed credential : Fields)
    → get_key "password" (
        lookup "credential" (
          set_key "credential"
            (object (set_key "password" (str "[redacted]") credential))
            observed))
      ≡ str "[redacted]"
set_twice observed credential =
    rw
      (lookup-set_key "credential" "credential"
        (object (set_key "password" (str "[redacted]") credential)) observed)
      (lookup-set_key "password" "password" (str "[redacted]") credential)

module _ (py : Python) (sha256 : String → String) where
  redact_password-IsRedacted :
      (observed credential : Fields) (found password : Json) (a : Audit)
      → found ≡ object credential
      → lookup "credential" observed ≡ found
      → lookup "password" credential ≡ password
      → IsRedacted (
          get_key "password" (
            lookup "credential" (redact_password py sha256 false observed credential password a).0))
  redact_password-IsRedacted observed credential found null a e here none_given =
      inl (rw (here, e) none_given)
  redact_password-IsRedacted observed credential found _ a e here given = inr (set_twice observed _)

  -- Where secrets are not to be stored, no password is left in the credential.
  pub redact_credentials-IsRedacted :
      (observed : Fields) (found : Json) (a : Audit)
      → lookup "credential" observed ≡ found
      → IsRedacted (
          get_key "password"
            (lookup "credential" (redact_credentials py sha256 false observed a).0))
  unfolding redact_credentials
  redact_credentials-IsRedacted observed (object credential) a here = rw here (
      redact_password-IsRedacted observed credential (object credential)
        (lookup "password" credential) a refl here refl)
  redact_credentials-IsRedacted observed _ a here = inl (rw (here, here) refl)
