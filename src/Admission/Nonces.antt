-- ===== src/Admission/Nonces.antt =====
-- `reserve_sensor_nonce`: which rows a reservation keeps, and how many a sensor has.
use aegis_nexus.Common.{
  ℕ, ◌+◌, ◌≤◌, ◌<◌, Bool, true, false, ◌&&◌, leb, List, [], ◌∷◌, ◌++◌, ◌≡◌, arith, keep, any,
  length, String, string_eq, eq_test, if◌then◌else◌,
}
use aegis_nexus.Admission.{
  Nonce, new_nonce, of_sensor, same_nonce, unexpired, skew_window, nonce_capacity,
  reserve_sensor_nonce,
}

-- A row of the nonce that lives until `e` or longer.
abbrev pub holds : ℕ → String → String → List Nonce → Bool
holds e sensor_id nonce = any (λ row. same_nonce sensor_id nonce row && leb e row.expires_at)

module _ (e : ℕ) (s n : String) where
  pub holds-append :
      (rows more : List Nonce) → holds e s n rows ≡ true → holds e s n (rows ++ more) ≡ true
  holds-append [] more h = absurd (cc)
  holds-append (row ∷ rows) more h = ground (arith, holds-append rows more)

  holds_last :
      (rows : List Nonce) (row : Nonce)
      → (same_nonce s n row && leb e row.expires_at) ≡ true
      → holds e s n (rows ++ row ∷ []) ≡ true
  holds_last [] row h = ground arith
  holds_last (r ∷ rows) row h = ground (arith, holds_last rows row h)

  pub holds-unexpired :
      (now : ℕ) (rows : List Nonce)
      → now < e
      → holds e s n rows ≡ true
      → holds e s n (unexpired now rows) ≡ true
  holds-unexpired now [] before h = cc
  holds-unexpired now (row ∷ rows) before h = ground (arith, holds-unexpired now rows before)

  holds-any : (rows : List Nonce) → holds e s n rows ≡ true → any (same_nonce s n) rows ≡ true
  holds-any [] h = cc
  holds-any (row ∷ rows) h = ground (arith, holds-any rows)

  -- Until `e` no reservation removes the nonce, whatever it reserves.
  pub holds-reserve :
      (t m : String) (window most now : ℕ) (rows : List Nonce)
      → now < e
      → holds e s n rows ≡ true
      → holds e s n (reserve_sensor_nonce t m window most now rows).0 ≡ true
  unfolding reserve_sensor_nonce
  holds-reserve t m window most now rows before h =
      let row = new_nonce t m (now + skew_window window) in
      ground (
        arith,
        holds-unexpired now rows before h,
        holds-append (unexpired now rows) (row ∷ []) (holds-unexpired now rows before h),
      )

  -- Nor is it reserved again.
  pub reserve_held :
      (window most now : ℕ) (rows : List Nonce)
      → now < e
      → holds e s n rows ≡ true
      → (reserve_sensor_nonce s n window most now rows).1 ≡ false
  unfolding reserve_sensor_nonce
  reserve_held window most now rows before h =
      ground (arith, holds-any (unexpired now rows) (holds-unexpired now rows before h))

module _ (s n : String) (window most now : ℕ) (rows : List Nonce) where
  pub reserve-holds :
      (reserve_sensor_nonce s n window most now rows).1 ≡ true
      → holds (now + skew_window window) s n (reserve_sensor_nonce s n window most now rows).0
        ≡ true
  unfolding reserve_sensor_nonce
  reserve-holds h =
      let row = new_nonce s n (now + skew_window window) in
      ground (
        arith,
        holds_last (now + skew_window window) s n (unexpired now rows) row,
        eq_test s s,
        eq_test n n,
      )

-- The bound on the rows of one sensor.
abbrev pub of : String → List Nonce → ℕ
of s rows = length (keep (of_sensor s) rows)

of-unexpired : (s : String) (now : ℕ) (rows : List Nonce) → of s (unexpired now rows) ≤ of s rows
of-unexpired s now [] = omega arith
of-unexpired s now (row ∷ rows) = ground (arith, of-unexpired s now rows)

of-append :
    (s : String) (rows : List Nonce) (row : Nonce)
    → of s (rows ++ row ∷ []) ≡ of s rows + (if of_sensor s row then 1 else 0)
of-append s [] row = ground arith
of-append s (r ∷ rows) row = ground (arith, of-append s rows row)

pub of-reserve :
    (s t n : String) (window most now : ℕ) (rows : List Nonce)
    → of s rows ≤ nonce_capacity most
    → of s (reserve_sensor_nonce t n window most now rows).0 ≤ nonce_capacity most
unfolding reserve_sensor_nonce
of-reserve s t n window most now rows h =
    let row = new_nonce t n (now + skew_window window) in
    ground (arith, of-unexpired s now rows, of-append s (unexpired now rows) row, eq_test t s)
