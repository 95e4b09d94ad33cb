-- ===== src/Client/Retry.antt =====
-- How often a statement is sent.
use mendix_for_snowflake.Prelude.{
  ℕ, suc, ◌+◌, ◌≤◌, ◌≡◌, refl, subst, true, none, List, Text, length, arith, Bool-cases,
  Option-cases, inl, inr,
}
use mendix_for_snowflake.Client.{
  Failure, Reply, answered, failed, Session, Server, is_recoverable, open_connection,
  get_connection, run_on, try_once, retry, execute_sql,
}

module _ {Row : Type 0} (server : Server Row) where
  open_connection-sent : (c : Session) → (open_connection server c).1.sent ≡ c.sent
  unfolding open_connection
  open_connection-sent c = elim (Option-cases (server.connect c)) [
    | inl e ↦ rw (e, open_connection) refl
    | inr (x, e) ↦ rw (e, open_connection) refl
  ]

  get_connection-sent : (c : Session) → (get_connection server c).1.sent ≡ c.sent
  unfolding get_connection
  get_connection-sent c = elim (Option-cases c.conn) [
    | inl e ↦ rw (e, get_connection) (open_connection-sent c)
    | inr (t, e) ↦ elim (Bool-cases (server.is_closed c)) [
      | inl x ↦ rw (e, x, get_connection) (open_connection-sent c)
      | inr x ↦ rw (e, x, get_connection) refl
    ]
  ]

  run_on-sent :
      (sql : Text) (p : Reply Text × Session)
      → length (run_on server sql p).1.sent ≤ suc (length p.1.sent)
  unfolding run_on
  run_on-sent sql (failed e, c) = omega arith
  run_on-sent sql (answered t, c) = omega arith

  try_once-sent :
      (sql : Text) (c : Session) → length (try_once server sql c).1.sent ≤ suc (length c.sent)
  unfolding try_once
  try_once-sent sql c =
      subst (λ xs. length (try_once server sql c).1.sent ≤ suc (length xs)) (get_connection-sent c)
        (run_on-sent sql (get_connection server c))

  retry-sent :
      (sql : Text) (p : Reply (List Row) × Session)
      → length (retry server sql p).1.sent ≤ suc (length p.1.sent)
  unfolding retry
  retry-sent sql (answered rows, c) = omega arith
  retry-sent sql (failed e, c) = ground (arith, try_once-sent sql (record c { conn = none }))

  execute_sql-sent :
      (sql : Text) (c : Session) → length (execute_sql server sql c).1.sent ≤ 2 + length c.sent
  unfolding execute_sql
  execute_sql-sent sql c =
      omega (arith, retry-sent sql (try_once server sql c), try_once-sent sql c)

  -- The first attempt failed in a way that a new connection may mend.
  abbrev pub FirstFailed : Reply (List Row) × Session → Type 0
  FirstFailed p = (e : Failure) × (p.0 ≡ failed e) × (is_recoverable e ≡ true)

  retried :
      (sql : Text) (p : Reply (List Row) × Session) (n : ℕ)
      → length p.1.sent ≤ suc n
      → length (retry server sql p).1.sent ≡ 2 + n
      → FirstFailed p
  unfolding retry
  retried sql (answered rows, c) n le h = absurd (omega (arith, le, h))
  retried sql (failed e, c) n le h = elim (Bool-cases (is_recoverable e)) [
    | inl r ↦ (e, refl, r)
    | inr r ↦ let once = rw (r, retry) at h in absurd (omega (arith, le, once))
  ]

  -- A statement is sent at most twice, and twice only where its first attempt failed with an error
  -- that a new connection may mend.
  pub execute_sql_bounded :
      (sql : Text) (c : Session)
      → (length (execute_sql server sql c).1.sent ≤ 2 + length c.sent)
        × (length (execute_sql server sql c).1.sent ≡ 2 + length c.sent
            → FirstFailed (try_once server sql c))
  unfolding execute_sql
  execute_sql_bounded sql c = (
    execute_sql-sent sql c,
    λ h. retried sql (try_once server sql c) (length c.sent) (try_once-sent sql c) h,
  )
