-- ===== src/Nio/Handler/Failures.antt =====
-- The errors of `readIo` in nio/handler.go.
use own_x_go.Base.{
  ℕ, zero, suc, ◌+◌, ◌-◌, ◌≡◌, ◌<◌, refl, ap, ◌∙◌, List, [], ◌∷◌, Option, some, Bool, true, false,
  if◌then◌else◌, leb, arith, replicate, Bool-cases, inl, inr,
}
use own_x_go.Nio.Handler.{
  close_session, Read, failed, other_error, Reader, read_failed, on_error, on_read, read_io,
}

module _ {V : Type 0} (deflate inflate : List ℕ → Option (List ℕ)) (json : V → Option (List ℕ))
    (z ordered : Bool) where
  -- `n` rounds of errors that are not those of a closed connection
  abbrev pub failures : ℕ → List (Bool × Read)
  failures n = replicate n (false, failed other_error)

  abbrev failing : Reader V → Reader V
  failing r = record r { fail_times = r.fail_times + 1; exceptions = r.exceptions + 1 }

  read_failed_closes :
      (r : Reader V) → leb 3 (r.fail_times + 1) ≡ true → read_failed r ≡ close_session (failing r)
  unfolding read_failed
  read_failed_closes r t = rw t

  read_failed_goes_on :
      (r : Reader V) → leb 3 (r.fail_times + 1) ≡ false → read_failed r ≡ failing r
  unfolding read_failed
  read_failed_goes_on r t = rw t

  read_io_ended :
      (ds : List (Bool × Read)) (r : Reader V)
      → r.ended ≡ true
      → read_io deflate inflate json z ordered ds r ≡ some r
  unfolding read_io
  read_io_ended [] r e = refl
  read_io_ended (d ∷ ds) r e = ground (arith, e)

  read_io_failed :
      (ds : List (Bool × Read)) (r : Reader V)
      → r.ended ≡ false
      → read_io deflate inflate json z ordered ((false, failed other_error) ∷ ds) r
        ≡ read_io deflate inflate json z ordered ds (read_failed r)
  unfolding read_io on_read on_error
  read_io_failed ds r e = rw e

  -- Errors in a row, the buffer, the message begun and those received left as they are: as long as there are less than
  -- three with those before, the loop goes on; at the third it closes the session, once, and ends,
  -- however many rounds come after.
  pub read_io-failures :
      (n : ℕ) (r : Reader V)
      → r.ended ≡ false
      → r.fail_times < 3
      → (s : Reader V) × (read_io deflate inflate json z ordered (failures n) r ≡ some s)
        × (s.received ≡ r.received)
        × (s.buf ≡ r.buf)
        × (s.last_msg ≡ r.last_msg)
        × (s.ended ≡ leb 3 (r.fail_times + n))
        × (s.closes ≡ r.closes + (if leb 3 (r.fail_times + n) then 1 else 0))
        × (s.exceptions ≡ r.exceptions + (if leb 3 (r.fail_times + n) then 3 - r.fail_times else n))
  unfolding read_io
  read_io-failures zero r e h =
      (r, refl, refl, refl, refl, ground (arith, e), ground arith, ground arith)
  read_io-failures (suc n) r e h = elim (Bool-cases (leb 3 (r.fail_times + 1))) [
    | inl t ↦
        let last : r.fail_times ≡ 2 = ground arith in
        let third : leb 3 (r.fail_times + suc n) ≡ true = ground (arith, last) in
        (
          close_session (failing r),
          read_io_failed (failures n) r e
              ∙ ap (read_io deflate inflate json z ordered (failures n)) (read_failed_closes r t)
              ∙ read_io_ended (failures n) (close_session (failing r)) refl,
          refl,
          refl,
          refl,
          rw third,
          rw third,
          rw (third, last),
        )
    | inr f ↦
        let (s, a, b, u, v, c, d, x) = read_io-failures n (failing r) e (ground arith) in
        let same : r.fail_times + 1 + n ≡ r.fail_times + suc n = omega arith in
        (
          s,
          read_io_failed (failures n) r e
              ∙ ap (read_io deflate inflate json z ordered (failures n)) (read_failed_goes_on r f)
              ∙ a,
          b,
          u,
          v,
          rw (c, same),
          rw (d, same),
          ground (arith, x, h),
        )
  ]
