-- ===== src/Tunnel/Tidy.antt =====
-- The invariant of the pending requests, and that every step keeps it.
use headfwd.Common.{ℕ, ◌+◌, ◌≤◌, ◌≡◌, sym, ap, ◌∙◌, none, some, [], ◌∷◌, ◌++◌, Text, ltb, arith}
use headfwd.Common.Dict.{
  lookup, erase, HasDistinctKeys, insert-HasDistinctKeys, erase-HasDistinctKeys,
}
use headfwd.Tunnel.State.{Tunnel, Settlement, settle, clear_timer}
use headfwd.Tunnel.Forward.{enlist}
use headfwd.Tunnel.Handles.{
  Rising, timers_of, one_if, count_pending, count_settled, count_settled-append, insert-Rising,
  erase-Rising, timers_of-insert, clear_timer-erase, count_pending-insert, count_pending-erase,
}

module _ {Reply : Type 0} where
  -- Every pending request has its own armed timer, and there is no other. A promise that was made
  -- is pending or settled at most once in all; one that was not made is neither.
  pub record IsTidy (t : Tunnel Reply) : Type 0 where
    pub distinct : HasDistinctKeys t.pending
    pub rising : Rising 0 t.pending t.next
    pub timed : t.timers ≡ timers_of t.pending
    pub once :
        (h : ℕ) → count_settled h t.settled + count_pending h t.pending ≤ one_if (ltb h t.next)

  -- A pending request is taken out and its promise settled.
  abbrev pub finish : Text → ℕ → Settlement Reply → Tunnel Reply → Tunnel Reply
  finish id h s t =
      settle h s (record t { timers = clear_timer h t.timers; pending = erase id t.pending })

  module _ (t : Tunnel Reply) (tidy : IsTidy t) where
    pub drop-IsTidy :
        (id : Text) (h : ℕ)
        → lookup id t.pending ≡ some h
        → IsTidy (record t { timers = clear_timer h t.timers; pending = erase id t.pending })
    drop-IsTidy id h e = record {
      distinct = erase-HasDistinctKeys id t.pending tidy.distinct;
      rising = erase-Rising t.pending 0 t.next id tidy.rising;
      timed =
          ap (clear_timer h) tidy.timed
          ∙ clear_timer-erase t.pending 0 t.next h id tidy.distinct tidy.rising e;
      once = λ k. omega (arith, tidy.once k, count_pending-erase t.pending id k h tidy.distinct e);
    }

    pub finish-IsTidy :
        (id : Text) (h : ℕ) (s : Settlement Reply)
        → lookup id t.pending ≡ some h
        → IsTidy (finish id h s t)
    finish-IsTidy id h s e =
        let dropped = drop-IsTidy id h e in
        record {
          distinct = dropped.distinct;
          rising = dropped.rising;
          timed = dropped.timed;
          once = λ k. omega (
            arith,
            tidy.once k,
            count_pending-erase t.pending id k h tidy.distinct e,
            count_settled-append k t.settled h s,
          );
        }

    pub enlist-IsTidy : (id : Text) → lookup id t.pending ≡ none → IsTidy (enlist id t)
    enlist-IsTidy id n = record {
      distinct = insert-HasDistinctKeys id t.next t.pending tidy.distinct;
      rising = insert-Rising t.pending 0 t.next id n tidy.rising;
      timed =
          ap (λ l. l ++ (t.next, id) ∷ []) tidy.timed
          ∙ sym (timers_of-insert t.pending id t.next n);
      once = λ k. ground (arith, tidy.once k, count_pending-insert t.pending id k t.next n);
    }
