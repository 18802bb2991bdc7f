-- ===== src/Nio/Session/Ids.antt =====
-- The id that an acceptor sends is the one that the client reads.
use own_x_go.Base.{
  ℕ, ◌+◌, ◌-◌, ◌^◌, ◌<◌, ◌≡◌, refl, ap, sym, ◌∙◌, ◌==◌, List, [], ◌∷◌, ◌++◌, map, length,
  length-append, append_assoc, append-nil, arith, All, true, false,
}
use own_x_go.Nio.Handler.{Read, got}
use own_x_go.Nio.Handler.Chunks.{concat}
use own_x_go.Nio.Session.{put_int64, int64_from, synced, sync_loop, sync_session_id}

int64_from-put_int64 : (n : ℕ) → n < 2 ^ 63 → int64_from 0 (put_int64 n) ≡ n
unfolding int64_from put_int64
int64_from-put_int64 n h = omega (arith, h)

length-put_int64 : (n : ℕ) → length (put_int64 n) ≡ 8
unfolding put_int64
length-put_int64 n = refl

sync_loop_lem :
    (need : ℕ) (acc : List ℕ) (cs : List (List ℕ)) (ds : List Read)
    → All (λ c. 0 < length c) cs
    → need ≡ length (concat cs)
    → 0 < need
    → sync_loop need acc (map got cs ++ ds) ≡ synced (int64_from 0 (acc ++ concat cs)) ds
unfolding sync_loop
sync_loop_lem need acc [] ds h e z = absurd (omega (arith, e, z))
sync_loop_lem need acc (c ∷ []) ds h e z =
    let t : (need - length c == 0) ≡ true = ground (arith, e, ap length (append-nil c)) in
    rw t (ap (λ w. synced (int64_from 0 (acc ++ w)) ds) (sym (append-nil c)))
sync_loop_lem need acc (c ∷ d ∷ cs) ds h e z =
    let rest = concat (d ∷ cs) in
    let n : need ≡ length c + length rest = e ∙ length-append c rest in
    let more : length rest ≡ length d + length (concat cs) = length-append d (concat cs) in
    let left : need - length c ≡ length rest = omega (arith, n) in
    let f : (need - length c == 0) ≡ false = ground (arith, left, more, h) in
    let step : sync_loop need acc (map got (c ∷ d ∷ cs) ++ ds)
        ≡ sync_loop (need - length c) (acc ++ c) (map got (d ∷ cs) ++ ds) =
      rw (f, sync_loop) refl in
    step
    ∙ sync_loop_lem (need - length c) (acc ++ c) (d ∷ cs) ds h.1 left
        (ground (arith, left, more, h))
    ∙ ap (λ w. synced (int64_from 0 w) ds) (append_assoc acc c rest)

-- A client reads the id that the acceptor has sent, and no byte beyond it, whatever the pieces are in
-- which the eight bytes come.
pub sync_session_id-put_int64 :
    (n : ℕ) (cs : List (List ℕ)) (ds : List Read)
    → n < 2 ^ 63
    → All (λ c. 0 < length c) cs
    → concat cs ≡ put_int64 n
    → sync_session_id (map got cs ++ ds) ≡ synced n ds
unfolding sync_session_id
sync_session_id-put_int64 n cs ds h p e =
    sync_loop_lem 8 [] cs ds p (sym (ap length e ∙ length-put_int64 n)) (omega arith)
    ∙ ap (λ w. synced (int64_from 0 w) ds) e
    ∙ ap (λ i. synced i ds) (int64_from-put_int64 n h)
