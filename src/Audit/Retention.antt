-- ===== src/Audit/Retention.antt =====
-- `record` with its retention: what stays, what is counted, and how long the log is.
use aegis_nexus.Common.{
  ℕ, suc, ◌+◌, ◌-◌, ◌*◌, ◌≤◌, ◌<◌, ltb, if◌then◌else◌, some, List, [], ◌∷◌, ◌++◌, length, drop, ◌≡◌,
  refl, ap, ◌∙◌, arith, keep-append, length-append, length-drop, append_assoc, ◌⊎◌, Bool-cases, inl,
  inr, ltb→lt,
}
use aegis_nexus.Common.Sublist.{
  Sublist, Sublist_refl, Sublist_trans, Sublist-keep, Sublist-drop, length-Sublist, drop-append,
}
use aegis_nexus.Audit.{
  Library, Row, Log, Entry, insert, row_of, prune_row, in_age, expire, cap, enforce_retention,
  record_entry, microseconds_per_day, clean_action,
}

module _ (lib : Library) (retention_days max_rows : ℕ) where
  Sublist-expire : (now : ℕ) (rows : List Row) → Sublist (expire lib retention_days now rows) rows
  unfolding expire
  Sublist-expire now rows = elim (Bool-cases (ltb 0 retention_days)) [
    | inl e ↦ rw e (Sublist-keep (in_age lib (now - retention_days * microseconds_per_day)) rows)
    | inr e ↦ rw e (Sublist_refl rows)
  ]

  -- The old rows that stay when one more row was inserted.
  abbrev oldest_out : List Row → List Row
  oldest_out rows = if ltb 0 max_rows then drop (length rows + 1 - max_rows) rows else rows

  Sublist-oldest_out : (rows : List Row) → Sublist (oldest_out rows) rows
  Sublist-oldest_out rows = elim (Bool-cases (ltb 0 max_rows)) [
    | inl e ↦ rw e (Sublist-drop (length rows + 1 - max_rows) rows)
    | inr e ↦ rw e (Sublist_refl rows)
  ]

  expire-append :
      (now : ℕ) (rows : List Row) (row : Row)
      → (retention_days ≡ 0) ⊎ (now ≤ row.timestamp + retention_days * microseconds_per_day)
      → expire lib retention_days now (rows ++ row ∷ [])
        ≡ expire lib retention_days now rows ++ row ∷ []
  unfolding expire
  expire-append now rows row h = ground (
    arith,
    keep-append (in_age lib (now - retention_days * microseconds_per_day)) rows (row ∷ []),
  )

  cap-append :
      (rows : List Row) (row : Row)
      → cap lib max_rows (rows ++ row ∷ []) ≡ oldest_out rows ++ row ∷ []
  cap-append rows row = elim (Bool-cases (ltb 0 max_rows)) [
    | inl e ↦
        rw (e, length-append rows (row ∷ []))
          (drop-append (length rows + 1 - max_rows) rows (row ∷ [])
            (omega (arith, ltb→lt 0 max_rows e)))
    | inr e ↦ rw e refl
  ]

-- What `record` does to the log: some old rows stay, unedited and in their order, then comes the new
-- row, and when rows were lost, a row that says how many.
pub record Recorded (lib : Library) (at later : ℕ) (e : Entry) (log log' : Log) : Type 0 where
  pub left : List Row
  pub pruned : ℕ
  pub kept : Sublist left log.rows
  pub counted : length left + pruned ≡ length log.rows
  pub rows :
      log'.rows
      ≡ left
        ++ row_of lib e at (suc log.last_id)
          ∷ (if ltb 0 pruned then prune_row lib pruned later (suc (suc log.last_id)) ∷ [] else [])

module _ (lib : Library) (retention_days max_rows at now later : ℕ) (e : Entry) (log : Log) where
  abbrev left_over : List Row
  left_over = oldest_out lib retention_days max_rows (expire lib retention_days now log.rows)

  kept_left : Sublist left_over log.rows
  kept_left =
      Sublist_trans (Sublist-expire lib retention_days max_rows now log.rows)
        (Sublist-oldest_out lib retention_days max_rows (expire lib retention_days now log.rows))

  all_left :
      (retention_days ≡ 0) ⊎ (now ≤ at + retention_days * microseconds_per_day)
      → cap lib max_rows
          (expire lib retention_days now (log.rows ++ row_of lib e at (suc log.last_id) ∷ []))
        ≡ left_over ++ row_of lib e at (suc log.last_id) ∷ []
  all_left h =
      ap (cap lib max_rows) (
        expire-append lib retention_days max_rows now log.rows (row_of lib e at (suc log.last_id))
          h)
      ∙ cap-append lib retention_days max_rows (expire lib retention_days now log.rows)
          (row_of lib e at (suc log.last_id))

  abbrev new_row : Row
  new_row = row_of lib e at (suc log.last_id)

  abbrev lost : ℕ
  lost = length log.rows - length left_over

  count_lost :
      (retention_days ≡ 0) ⊎ (now ≤ at + retention_days * microseconds_per_day)
      → length (log.rows ++ new_row ∷ [])
          - length (cap lib max_rows (expire lib retention_days now (log.rows ++ new_row ∷ [])))
        ≡ lost
  count_lost h =
      rw (all_left h) (
        omega
          (arith, length-append log.rows (new_row ∷ []), length-append left_over (new_row ∷ [])))

  enforce-rows :
      (retention_days ≡ 0) ⊎ (now ≤ at + retention_days * microseconds_per_day)
      → (enforce_retention lib retention_days max_rows now later
          (insert (row_of lib e at) log)).rows
        ≡ left_over
          ++ new_row
            ∷ (if ltb 0 lost then prune_row lib lost later (suc (suc log.last_id)) ∷ [] else [])
  unfolding enforce_retention
  enforce-rows h = elim (Bool-cases (ltb 0 lost)) [
    | inl some_lost ↦
        rw (count_lost h, some_lost, all_left h)
          (append_assoc left_over (new_row ∷ [])
            (prune_row lib lost later (suc (suc log.last_id)) ∷ []))
    | inr none_lost ↦ rw (count_lost h, none_lost, all_left h) refl
  ]

  record_entry-enforce :
      (log' : Log)
      → record_entry lib retention_days max_rows at now later e log ≡ some log'
      → log'
        ≡ enforce_retention lib retention_days max_rows now later (insert (row_of lib e at) log)
  unfolding record_entry
  record_entry-enforce log' e' =
      elim (Bool-cases (lib.matches_action (clean_action lib e.action))) [
        | inl valid ↦ ground arith
        | inr invalid ↦ absurd (ground arith)
      ]

  -- With no age bound, or clocks that no more than the retention period separates: `record` keeps
  -- the row that it writes and edits none, and when old rows are deleted, a row says exactly how many.
  pub record_entry-Recorded :
      (log' : Log)
      → (retention_days ≡ 0) ⊎ (now ≤ at + retention_days * microseconds_per_day)
      → record_entry lib retention_days max_rows at now later e log ≡ some log'
      → Recorded lib at later e log log'
  record_entry-Recorded log' h e' = record {
    left = left_over;
    pruned = lost;
    kept = kept_left;
    counted = omega (arith, length-Sublist kept_left);
    rows = ap (λ l. l.rows) (record_entry-enforce log' e') ∙ enforce-rows h;
  }

  length-oldest_out : 0 < max_rows → length left_over + 1 ≤ max_rows ⊎ (length left_over ≡ 0)
  length-oldest_out h = ground (
    arith,
    length-drop (length (expire lib retention_days now log.rows) + 1 - max_rows)
        (expire lib retention_days now log.rows),
  )

  -- With a bound on the rows, and no age bound or clocks that no more than the retention period
  -- separates: `record` leaves at most one row more than the bound, whatever the log held.
  pub length-record_entry :
      (log' : Log)
      → 0 < max_rows
      → (retention_days ≡ 0) ⊎ (now ≤ at + retention_days * microseconds_per_day)
      → record_entry lib retention_days max_rows at now later e log ≡ some log'
      → length log'.rows ≤ max_rows + 1
  length-record_entry log' bound h e' =
      let short = length-oldest_out bound in
      let prune =
        if ltb 0 lost then prune_row lib lost later (suc (suc log.last_id)) ∷ [] else [] in
      rw (record_entry-enforce log' e', enforce-rows h)
        (ground (arith, length-append left_over (new_row ∷ prune)))
