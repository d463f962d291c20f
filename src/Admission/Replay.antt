-- ===== src/Admission/Replay.antt =====
-- Runs of the sensor authorization: what an accepted request proves of its sender, and when a request
-- that was accepted is accepted again.
use aegis_nexus.Common.{
  ℕ, ◌+◌, ◌≤◌, ◌<◌, Bool, true, false, not, ◌&&◌, Option, none, some, List, [], ◌∷◌, ◌≡◌, sym, ◌∙◌,
  ap, arith, any, String, ◌==◌, string_eq, eq_test, Bool-cases, Option-cases, inl, inr, ◌⊎◌, All,
  ltb, ==_self, ◌≢◌, ltb→lt,
}
use aegis_nexus.Common.Json.{ℤ, pos}
use aegis_nexus.Admission.{
  Library, Config, Denial, Request, Nonce, nonce_pattern, skew_window, clock_skew, nonce_capacity,
  verify_signed_payload, sign_payload, reserve_sensor_nonce, sensor_secrets, sensor_source_allowed,
  matching, authorize_signature, sensor_authorization_error,
}
use aegis_nexus.Admission.Nonces.{holds, of, holds-reserve, reserve_held, reserve-holds, of-reserve}

pub record Arrival : Type 0 where
  pub sensor_id : String
  pub request : Request
  pub verified_at : ℕ
  pub reserved_at : ℕ

-- What holds of a request that is accepted at `now` with `key`.
pub record IsSigned (lib : Library) (config : Config lib) (key : String) (request : Request)
    (now : ℕ) : Type 0 where
  pub sent : ℤ
  pub signature : String
  pub nonce_form : (request.nonce ≢ "") × (lib.fullmatch nonce_pattern request.nonce ≡ true)
  pub sent_at : lib.parse_int request.timestamp ≡ some sent
  pub fresh : clock_skew now sent ≤ skew_window config.sensor_signature_max_skew
  pub signed : sign_payload lib key request.timestamp request.body request.nonce ≡ some signature
  pub equal : lib.compare_digest signature request.signature ≡ some true

some_inj : (a b : ℤ) → some a ≡ some b → a ≡ b
some_inj a b h = cc

IsSigned-fresh :
    (lib : Library) (config : Config lib) (key : String) (request : Request) (now : ℕ) (sent : ℤ)
    → lib.parse_int request.timestamp ≡ some sent
    → IsSigned lib config key request now
    → clock_skew now sent ≤ skew_window config.sensor_signature_max_skew
IsSigned-fresh lib config key request now sent at proof =
    rw (some_inj sent proof.sent (sym at ∙ proof.sent_at)) proof.fresh

verify-IsSigned :
    (lib : Library) (config : Config lib) (key : String) (request : Request) (now : ℕ)
    → (request.nonce == "") ≡ false
    → verify_signed_payload lib key request.timestamp request.signature request.body
        config.sensor_signature_max_skew request.nonce now
      ≡ some true
    → IsSigned lib config key request now
unfolding verify_signed_payload
verify-IsSigned lib config key request now named h =
    elim (Option-cases (lib.parse_int request.timestamp)) [
      | inl e ↦ absurd (ground arith)
      | inr (sent, e) ↦
          elim (Option-cases (sign_payload lib key request.timestamp request.body request.nonce)) [
            | inl e' ↦ absurd (ground arith)
            | inr (signature, e') ↦ record {
              sent = sent;
              signature = signature;
              nonce_form = ground (arith, eq_test request.nonce "");
              sent_at = e;
              fresh = ground arith;
              signed = e';
              equal = ground arith;
            }
          ]
    ]

All-before :
    (arrivals : List Arrival) (now e : ℕ)
    → now < e
    → All (λ a. a.reserved_at ≤ now) arrivals
    → All (λ a. a.reserved_at < e) arrivals
All-before [] now e h all = tt
All-before (a ∷ arrivals) now e h all = (omega (arith, all.0), All-before arrivals now e h all.1)

ltb→ge : (a b : ℕ) → ltb a b ≡ false → b ≤ a
ltb→ge a b h = ground arith

module _ (lib : Library) where
  matching-checks :
      (candidates : List String) (supplied key : String) (keys : List String)
      → matching lib candidates supplied ≡ some (key ∷ keys)
      → (any (λ c. c == key) candidates ≡ true) × (lib.compare_digest key supplied ≡ some true)
  unfolding matching
  matching-checks [] supplied key keys h = absurd (cc)
  matching-checks (c ∷ cs) supplied key keys h =
      ground (arith, matching-checks cs supplied key keys, ==_self c)

module _ (lib : Library) (config : Config lib) where
  abbrev pub authorize : Arrival → List Nonce → Option (Option Denial) × List Nonce
  authorize a rows =
      sensor_authorization_error lib config a.sensor_id a.request a.verified_at a.reserved_at rows

  abbrev reserve : Arrival → List Nonce → List Nonce × Bool
  reserve a rows =
      reserve_sensor_nonce a.sensor_id a.request.nonce config.sensor_signature_max_skew
        config.sensor_replay_max_nonces a.reserved_at rows

  abbrev check : String → Arrival → List Nonce → Option (Option Denial) × List Nonce
  check key a rows =
      authorize_signature lib config key a.sensor_id a.request a.verified_at a.reserved_at rows

  check-rows :
      (key : String) (a : Arrival) (rows : List Nonce)
      → ((check key a rows).1 ≡ rows) ⊎ ((check key a rows).1 ≡ (reserve a rows).0)
  unfolding authorize_signature
  check-rows key a rows = ground arith

  -- The table after a request is the old one or the one its reservation leaves.
  authorize-rows :
      (a : Arrival) (rows : List Nonce)
      → ((authorize a rows).1 ≡ rows) ⊎ ((authorize a rows).1 ≡ (reserve a rows).0)
  unfolding sensor_authorization_error
  authorize-rows a rows =
      elim (Option-cases (matching lib (sensor_secrets lib config a.sensor_id) a.request.key)) [
        | inl e ↦ ground arith
        | inr ([], e) ↦ ground arith
        | inr (key ∷ keys, e) ↦ ground (arith, check-rows key a rows)
      ]

  check-accepted :
      (key : String) (a : Arrival) (rows : List Nonce)
      → (check key a rows).0 ≡ some none
      → ((a.request.nonce == "") ≡ false)
        × (verify_signed_payload lib key a.request.timestamp a.request.signature a.request.body
              config.sensor_signature_max_skew a.request.nonce a.verified_at
            ≡ some true)
        × ((reserve a rows).1 ≡ true)
        × ((check key a rows).1 ≡ (reserve a rows).0)
  unfolding authorize_signature
  check-accepted key a rows h = ground arith

  -- A key of the sensor that the supplied one equals, and the check that it passed.
  authorize-accepted :
      (a : Arrival) (rows : List Nonce)
      → config.require_sensor_signature ≡ true
      → (authorize a rows).0 ≡ some none
      → (key : String) × (keys : List String) × (matching lib
            (sensor_secrets lib config a.sensor_id)
            a.request.key
          ≡ some (key ∷ keys))
        × (sensor_source_allowed lib config a.sensor_id a.request ≡ true)
        × ((not (a.request.sensor == "") && not (a.request.sensor == a.sensor_id)) ≡ false)
        × (authorize a rows ≡ check key a rows)
  unfolding sensor_authorization_error
  authorize-accepted a rows signed h =
      elim (Option-cases (matching lib (sensor_secrets lib config a.sensor_id) a.request.key)) [
        | inl e ↦ absurd (ground arith)
        | inr ([], e) ↦ absurd (ground arith)
        | inr (key ∷ keys, e) ↦ (key, keys, e, ground arith, ground arith, ground arith)
      ]

  authorize-holds :
      (e : ℕ) (s n : String) (a : Arrival) (rows : List Nonce)
      → a.reserved_at < e
      → holds e s n rows ≡ true
      → holds e s n (authorize a rows).1 ≡ true
  authorize-holds e s n a rows before h =
      let kept =
        holds-reserve e s n a.sensor_id a.request.nonce config.sensor_signature_max_skew
          config.sensor_replay_max_nonces a.reserved_at rows before h in
      elim (authorize-rows a rows) [ inl same ↦ rw same h | inr same ↦ rw same kept ]

  unfoldable pub serve : List Arrival → List Nonce → List Nonce
  serve [] rows = rows
  serve (a ∷ arrivals) rows = serve arrivals (authorize a rows).1

  serve-holds :
      (e : ℕ) (s n : String) (arrivals : List Arrival) (rows : List Nonce)
      → All (λ a. a.reserved_at < e) arrivals
      → holds e s n rows ≡ true
      → holds e s n (serve arrivals rows) ≡ true
  unfolding serve
  serve-holds e s n [] rows before h = h
  serve-holds e s n (a ∷ arrivals) rows before h =
      serve-holds e s n arrivals (authorize a rows).1 before.1
        (authorize-holds e s n a rows before.0 h)

  abbrev pub expiry : Arrival → ℕ
  expiry a = a.reserved_at + skew_window config.sensor_signature_max_skew

  accepted-holds :
      (a : Arrival) (rows : List Nonce)
      → config.require_sensor_signature ≡ true
      → (authorize a rows).0 ≡ some none
      → holds (expiry a) a.sensor_id a.request.nonce (authorize a rows).1 ≡ true
  accepted-holds a rows signed h =
      let (key, keys, found, source, header, same) = authorize-accepted a rows signed h in
      let (named, verified, reserved, left) =
        check-accepted key a rows (sym (ap (λ r. r.0) same) ∙ h) in
      rw (same, left)
        (reserve-holds a.sensor_id a.request.nonce config.sensor_signature_max_skew
          config.sensor_replay_max_nonces a.reserved_at rows reserved)

  -- With signatures required, an accepted request carries a key of its sensor, comes from a source
  -- that the sensor is bound to, names no other sensor, and has a nonce of the right form, a
  -- timestamp within the window and the signature of exactly its timestamp, nonce and body under
  -- that key; its nonce was reserved.
  pub authorize-IsSigned :
      (a : Arrival) (rows : List Nonce)
      → config.require_sensor_signature ≡ true
      → (authorize a rows).0 ≡ some none
      → (key : String) × (any (λ c. c == key) (sensor_secrets lib config a.sensor_id) ≡ true)
        × (lib.compare_digest key a.request.key ≡ some true)
        × (sensor_source_allowed lib config a.sensor_id a.request ≡ true)
        × ((a.request.sensor ≡ "") ⊎ (a.request.sensor ≡ a.sensor_id))
        × IsSigned lib config key a.request a.verified_at
        × ((reserve a rows).1 ≡ true)
  authorize-IsSigned a rows signed h =
      let (key, keys, found, source, header, same) = authorize-accepted a rows signed h in
      let (named, verified, reserved, left) =
        check-accepted key a rows (sym (ap (λ r. r.0) same) ∙ h) in
      let (mine, matched) =
        matching-checks lib (sensor_secrets lib config a.sensor_id) a.request.key key keys found in
      (
        key,
        mine,
        matched,
        source,
        ground (arith, eq_test a.request.sensor "", eq_test a.request.sensor a.sensor_id),
        verify-IsSigned lib config key a.request a.verified_at named verified,
        reserved,
      )

  -- With signatures required: when a request that was accepted is accepted once more, after any
  -- traffic in order of time, then the window of its nonce has passed since, and the clock is still
  -- within the window around the time that the request was signed at.
  pub replay_window :
      (a b : Arrival) (between : List Arrival) (rows : List Nonce) (sent : ℤ)
      → config.require_sensor_signature ≡ true
      → b.request ≡ a.request
      → b.sensor_id ≡ a.sensor_id
      → lib.parse_int b.request.timestamp ≡ some sent
      → All (λ x. x.reserved_at ≤ b.reserved_at) between
      → (authorize a rows).0 ≡ some none
      → (authorize b (serve between (authorize a rows).1)).0 ≡ some none
      → (expiry a ≤ b.reserved_at)
        × (clock_skew b.verified_at sent ≤ skew_window config.sensor_signature_max_skew)
  replay_window a b between rows sent signed same_request same_sensor at order first again =
      let left = (authorize a rows).1 in
      let (key, mine, matched, source, header, proof, reserved) =
        authorize-IsSigned b (serve between left) signed again in
      let reserved_at_last : expiry a ≤ b.reserved_at =
        elim (Bool-cases (ltb b.reserved_at (expiry a))) [
          | inl early ↦
              let kept =
                serve-holds (expiry a) a.sensor_id a.request.nonce between left
                  (All-before between b.reserved_at (expiry a)
                    (ltb→lt b.reserved_at (expiry a) early) order)
                  (accepted-holds a rows signed first) in
              let refused =
                reserve_held (expiry a) a.sensor_id a.request.nonce config.sensor_signature_max_skew
                  config.sensor_replay_max_nonces b.reserved_at (serve between left)
                  (ltb→lt b.reserved_at (expiry a) early) kept in
              absurd (cc)
          | inr late ↦ omega (arith, ltb→ge b.reserved_at (expiry a) late)
        ] in
      (reserved_at_last, IsSigned-fresh lib config key b.request b.verified_at sent at proof)

  -- With signatures required: a request that was signed more than `delay` seconds before its nonce
  -- was reserved is never accepted again, after any traffic in order of time, when the collector
  -- reserves the nonce of a request at most `delay` seconds after it checks the signature.
  pub replay_refused :
      (a b : Arrival) (between : List Arrival) (rows : List Nonce) (sent delay : ℕ)
      → config.require_sensor_signature ≡ true
      → b.request ≡ a.request
      → b.sensor_id ≡ a.sensor_id
      → lib.parse_int b.request.timestamp ≡ some (pos sent)
      → All (λ x. x.reserved_at ≤ b.reserved_at) between
      → b.reserved_at ≤ b.verified_at + delay
      → sent + delay < a.reserved_at
      → (authorize a rows).0 ≡ some none
      → (authorize b (serve between (authorize a rows).1)).0 ≢ some none
  unfolding clock_skew
  replay_refused a b between rows sent delay signed request sensor at order prompt behind first
        again =
      let window =
        replay_window a b between rows (pos sent) signed request sensor at order first again in
      omega (arith, window.0, window.1)

  authorize-of :
      (s : String) (a : Arrival) (rows : List Nonce)
      → of s rows ≤ nonce_capacity config.sensor_replay_max_nonces
      → of s (authorize a rows).1 ≤ nonce_capacity config.sensor_replay_max_nonces
  authorize-of s a rows h =
      let room =
        of-reserve s a.sensor_id a.request.nonce config.sensor_signature_max_skew
          config.sensor_replay_max_nonces a.reserved_at rows h in
      elim (authorize-rows a rows) [ inl same ↦ rw same h | inr same ↦ rw same room ]

  -- From a table with at most the configured number of nonces of a sensor, such as an empty one, no
  -- traffic makes it hold more.
  pub serve_capacity :
      (s : String) (arrivals : List Arrival) (rows : List Nonce)
      → of s rows ≤ nonce_capacity config.sensor_replay_max_nonces
      → of s (serve arrivals rows) ≤ nonce_capacity config.sensor_replay_max_nonces
  unfolding serve
  serve_capacity s [] rows h = h
  serve_capacity s (a ∷ arrivals) rows h =
      serve_capacity s arrivals (authorize a rows).1 (authorize-of s a rows h)
