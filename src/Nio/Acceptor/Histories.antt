-- ===== src/Nio/Acceptor/Histories.antt =====
-- The acceptor of nio/acceptor.go over any history of connections, closed sessions and closes.
use own_x_go.Base.{
  zero, suc, ite_each, subst, ◌∙◌, ℕ, ◌+◌, ◌≡◌, refl, sym, ap, List, [], ◌∷◌, true, false,
  ℕ_discrete, erase, has, arith, if_both, if_each,
}
use own_x_go.Nio.Acceptor.{
  Closing, Callback, on_connected, on_closed, SocketAcceptor, create_acceptor, open_acceptor,
  add_session, remove_session, Arrival, accept_error, connection, accept_round, handler_connection,
  close_session, all_closed, close_acceptor,
}

pub data Event : Type 0 where
  arrives : Arrival → Event
  session_closes : (id : ℕ) (answers : List Closing) → Event
  acceptor_closes : (answers : List Closing) → Event

unfoldable pub handle : Event → SocketAcceptor → SocketAcceptor
handle (arrives d) a = handler_connection d a
handle (session_closes i ds) a = close_session i ds a
handle (acceptor_closes ds) a = close_acceptor ds a

unfoldable pub run : List Event → SocketAcceptor → SocketAcceptor
run [] a = a
run (e ∷ es) a = run es (handle e a)

-- the ids of the sessions that have been connected, the last first
abbrev pub connected : List Callback → List ℕ
connected [] = []
connected (on_connected i ∷ cs) = i ∷ connected cs
connected (on_closed i ∷ cs) = connected cs

-- the ids from `n` down to 1
abbrev pub down_from : ℕ → List ℕ
down_from zero = []
down_from (suc n) = suc n ∷ down_from n

down_from_add : (n : ℕ) → down_from (n + 1) ≡ (n + 1) ∷ down_from n
down_from_add n =
    let next : n + 1 ≡ suc n = omega arith in
    subst (λ m. down_from m ≡ m ∷ down_from n) (sym next) refl

abbrev pub Distinct : List ℕ → Type 0
Distinct [] = Unit {0}
Distinct (i ∷ is) = (has ℕ_discrete i is ≡ false) × Distinct is

pub record IsNumbered (a : SocketAcceptor) : Type 0 where
  pub fresh : connected a.callbacks ≡ down_from a.session_id
  pub held :
      (i : ℕ) → has ℕ_discrete i a.sessions ≡ true → has ℕ_discrete i (connected a.callbacks) ≡ true
  pub once : Distinct a.sessions

has-erase :
    (i j : ℕ) (is : List ℕ)
    → has ℕ_discrete i (erase ℕ_discrete j is) ≡ true
    → has ℕ_discrete i is ≡ true
unfolding has erase
has-erase i j [] h = h
has-erase i j (k ∷ is) h = ground (arith, has-erase i j is)

erase-Distinct : (j : ℕ) (is : List ℕ) → Distinct is → Distinct (erase ℕ_discrete j is)
unfolding erase
erase-Distinct j [] d = tt
erase-Distinct j (k ∷ is) d =
    ite_each Distinct (ℕ_discrete j k) (λ h. d.1)
      (λ h. (ground (arith, has-erase k j is, d.0), erase-Distinct j is d.1))

connected-all_closed :
    (is : List ℕ) (cs : List Callback) → connected (all_closed is cs) ≡ connected cs
unfolding all_closed
connected-all_closed [] cs = refl
connected-all_closed (i ∷ is) cs = connected-all_closed is (on_closed i ∷ cs)

module _ (a : SocketAcceptor) (v : IsNumbered a) where
  accept_round-IsNumbered : (d : Arrival) → IsNumbered (accept_round d a)
  unfolding accept_round add_session has
  accept_round-IsNumbered accept_error = record { fresh = v.fresh; held = v.held; once = v.once }
  accept_round-IsNumbered (connection false) = record {
    fresh = v.fresh ∙ ap down_from (omega arith);
    held = v.held;
    once = v.once;
  }
  accept_round-IsNumbered (connection true) = record {
    fresh = ap (◌∷◌ (a.session_id + 1)) v.fresh ∙ sym (down_from_add a.session_id);
    held = λ i h. ground (arith, v.held i);
    once =
        if_each Distinct (has ℕ_discrete (a.session_id + 1) a.sessions) (λ h. v.once)
          (λ h. (h, v.once));
  }

  handler_connection-IsNumbered : (d : Arrival) → IsNumbered (handler_connection d a)
  unfolding handler_connection
  handler_connection-IsNumbered d =
      if_both IsNumbered a.accepting
        (if_both IsNumbered a.closed (record { fresh = v.fresh; held = v.held; once = v.once })
          (accept_round-IsNumbered d))
        v

  close_session-IsNumbered : (i : ℕ) (ds : List Closing) → IsNumbered (close_session i ds a)
  unfolding close_session remove_session
  close_session-IsNumbered i ds = record {
    fresh = v.fresh;
    held = λ j h. v.held j (has-erase j i a.sessions h);
    once = erase-Distinct i a.sessions v.once;
  }

  close_acceptor-IsNumbered : (ds : List Closing) → IsNumbered (close_acceptor ds a)
  unfolding close_acceptor
  close_acceptor-IsNumbered ds =
      let e = connected-all_closed a.sessions a.callbacks in
      record {
        fresh = e ∙ v.fresh;
        held = λ j h. ap (has ℕ_discrete j) e ∙ v.held j h;
        once = v.once;
      }

  handle-IsNumbered : (e : Event) → IsNumbered (handle e a)
  unfolding handle
  handle-IsNumbered (arrives d) = handler_connection-IsNumbered d
  handle-IsNumbered (session_closes i ds) = close_session-IsNumbered i ds
  handle-IsNumbered (acceptor_closes ds) = close_acceptor-IsNumbered ds

run_keeps-IsNumbered : (es : List Event) (a : SocketAcceptor) → IsNumbered a → IsNumbered (run es a)
unfolding run
run_keeps-IsNumbered [] a v = v
run_keeps-IsNumbered (e ∷ es) a v = run_keeps-IsNumbered es (handle e a) (handle-IsNumbered a v e)

-- Over any history of an acceptor that has been opened once, the ids that it hands to connected sessions
-- are 1, 2, 3 and so on up to its counter, without a gap, so that a connection that does not take its
-- id leaves it to the next; and the sessions that it holds are different sessions among those.
pub run-IsNumbered : (es : List Event) → IsNumbered (run es (open_acceptor true create_acceptor).0)
unfolding create_acceptor open_acceptor has
run-IsNumbered es =
    run_keeps-IsNumbered es (open_acceptor true create_acceptor).0
      (record { fresh = refl; held = λ i h. cc; once = tt })
