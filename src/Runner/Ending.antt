-- ===== src/Runner/Ending.antt =====
-- How a program that runs ends, by the signals and the reserved functions of cli/cli.go.
use anycable_go.Base.{
  ℕ, zero, suc, ◌≤◌, ◌≡◌, refl, ◌∙◌, sym, ap, subst, String, Option, none, some, List, [], ◌∷◌,
  ◌++◌, map, append-nil, append_assoc, arith, inl, inr, ◌⊎◌, if_holds,
}
use anycable_go.Runner.{
  Part, Runner, Reserved, warns, shuts, ends, Life, started, setup_signal_handlers, LifeEvent,
  fails, signal, ready, called, on_signal, on_called, live, life_event, life_events,
}

-- How far the reserved functions are: the parts, the number of signals, what is still to be called, and
-- what has been shut down.
data Stage (ps : List Part) (n : ℕ) (todo : List Reserved) (done : List Part) : Type 0 where
  before : n ≡ 0 → todo ≡ [] → done ≡ [] → Stage ps n todo done
  warning : 1 ≤ n → todo ≡ warns ∷ map shuts ps ++ ends ∷ [] → done ≡ [] → Stage ps n todo done
  shutting :
      (rest : List Part)
      → 1 ≤ n
      → todo ≡ map shuts rest ++ ends ∷ []
      → done ++ rest ≡ ps
      → Stage ps n todo done
  over : 1 ≤ n → todo ≡ [] → done ≡ ps → Stage ps n todo done

record IsOrderly (r : Runner) (l : Life) : Type 0 where
  same : l.runner ≡ r
  stage : Stage r.shutdownables l.signals l.pending l.stopped
  clean : l.result ≡ some none → (l.stopped ≡ r.shutdownables) ⊎ (2 ≤ l.signals)

none_stopped :
    (ps : List Part) (n : ℕ) (todo : List Reserved) (done : List Part)
    → n ≡ 0
    → Stage ps n todo done
    → done ≡ []
none_stopped ps n todo done e (before z f d) = d
none_stopped ps n todo done e (warning z f d) = d
none_stopped ps n todo done e (shutting rest z f d) = absurd (omega arith)
none_stopped ps n todo done e (over z f d) = absurd (omega arith)

more_signals :
    (ps : List Part) (n : ℕ) (todo : List Reserved) (done : List Part)
    → Stage ps (suc n) todo done
    → Stage ps (suc (suc n)) todo done
more_signals ps n todo done (before z e d) = absurd (omega arith)
more_signals ps n todo done (warning z e d) = warning (omega arith) e d
more_signals ps n todo done (shutting rest z e d) = shutting rest (omega arith) e d
more_signals ps n todo done (over z e d) = over (omega arith) e d

warned_next :
    (ps : List Part) (n : ℕ) (todo rest : List Reserved) (done : List Part)
    → todo ≡ warns ∷ rest
    → Stage ps n todo done
    → Stage ps n rest done
warned_next ps n todo rest done e (before z f d) = absurd (cc)
warned_next ps n todo rest done e (warning z f d) = shutting ps z (cc) (rw d refl)
warned_next ps n todo rest done e (shutting [] z f d) = absurd (cc)
warned_next ps n todo rest done e (shutting (p ∷ qs) z f d) = absurd (cc)
warned_next ps n todo rest done e (over z f d) = absurd (cc)

shut_next :
    (ps : List Part) (n : ℕ) (todo rest : List Reserved) (done : List Part) (p : Part)
    → todo ≡ shuts p ∷ rest
    → Stage ps n todo done
    → Stage ps n rest (done ++ p ∷ [])
shut_next ps n todo rest done p e (before z f d) = absurd (cc)
shut_next ps n todo rest done p e (warning z f d) = absurd (cc)
shut_next ps n todo rest done p e (shutting [] z f d) = absurd (cc)
shut_next ps n todo rest done p e (shutting (q ∷ qs) z f d) =
    let same : p ≡ q = cc in shutting qs z (cc) (rw same (append_assoc done (q ∷ []) qs ∙ d))
shut_next ps n todo rest done p e (over z f d) = absurd (cc)

end_next :
    (ps : List Part) (n : ℕ) (todo rest : List Reserved) (done : List Part)
    → todo ≡ ends ∷ rest
    → Stage ps n todo done
    → Stage ps n rest done × (done ≡ ps)
end_next ps n todo rest done e (before z f d) = absurd (cc)
end_next ps n todo rest done e (warning z f d) = absurd (cc)
end_next ps n todo rest done e (shutting [] z f d) =
    let all = sym (append-nil done) ∙ d in (over z (cc) all, all)
end_next ps n todo rest done e (shutting (q ∷ qs) z f d) = absurd (cc)
end_next ps n todo rest done e (over z f d) = absurd (cc)

module _ (r : Runner) (l : Life) (o : IsOrderly r l) (on : l.result ≡ none) where
  not_clean : l.result ≡ some none → ⊥
  not_clean e = cc

  on_signal-IsOrderly : (n : ℕ) → l.signals ≡ n → IsOrderly r (on_signal l n)
  unfolding on_signal setup_signal_handlers
  on_signal-IsOrderly zero e = record {
    same = o.same;
    stage =
        warning (omega arith)
          (ap (λ (x : Runner). warns ∷ map shuts x.shutdownables ++ ends ∷ []) o.same)
          (none_stopped _ l.signals l.pending l.stopped e o.stage);
    clean = λ c. absurd (not_clean c);
  }
  on_signal-IsOrderly (suc n) e =
      let next =
        more_signals r.shutdownables n l.pending l.stopped
          (subst (λ m. Stage r.shutdownables m l.pending l.stopped) e o.stage) in
      if_holds (IsOrderly r) l.listens (record l { signals = suc (suc n); result = some none })
        (record l { signals = suc (suc n) })
        (λ _. record { same = o.same; stage = next; clean = λ _. inr (omega arith) })
        (λ _. record { same = o.same; stage = next; clean = λ c. absurd (not_clean c) })

  on_called-IsOrderly : (todo : List Reserved) → l.pending ≡ todo → IsOrderly r (on_called l todo)
  unfolding on_called
  on_called-IsOrderly [] e = o
  on_called-IsOrderly (warns ∷ rest) e = record {
    same = o.same;
    stage = warned_next _ _ l.pending rest l.stopped e o.stage;
    clean = λ c. absurd (not_clean c);
  }
  on_called-IsOrderly (shuts p ∷ rest) e = record {
    same = o.same;
    stage = shut_next _ _ l.pending rest l.stopped p e o.stage;
    clean = λ c. absurd (not_clean c);
  }
  on_called-IsOrderly (ends ∷ rest) e =
      let next = end_next _ _ l.pending rest l.stopped e o.stage in
      record { same = o.same; stage = next.0; clean = λ _. inl next.1 }

live-IsOrderly :
    (r : Runner) (l : Life) (e : LifeEvent) (result : Option (Option String))
    → l.result ≡ result
    → IsOrderly r l
    → IsOrderly r (live l e result)
unfolding live
live-IsOrderly r l e (some x) there o = o
live-IsOrderly r l (fails msg) none there o = record {
  same = o.same;
  stage = o.stage;
  clean = λ c. absurd (cc);
}
live-IsOrderly r l signal none there o = on_signal-IsOrderly r l o there l.signals refl
live-IsOrderly r l ready none there o = record { same = o.same; stage = o.stage; clean = o.clean }
live-IsOrderly r l called none there o = on_called-IsOrderly r l o there l.pending refl

life_events-IsOrderly :
    (r : Runner) (es : List LifeEvent) (l : Life) → IsOrderly r l → IsOrderly r (life_events es l)
unfolding life_events life_event
life_events-IsOrderly r [] l o = o
life_events-IsOrderly r (e ∷ es) l o =
    life_events-IsOrderly r es (life_event l e) (live-IsOrderly r l e l.result refl o)

left_to_stop :
    (ps : List Part) (n : ℕ) (todo : List Reserved) (done : List Part)
    → Stage ps n todo done
    → (rest : List Part) × (done ++ rest ≡ ps)
left_to_stop ps n todo done (before z e d) = (ps, rw d refl)
left_to_stop ps n todo done (warning z e d) = (ps, rw d refl)
left_to_stop ps n todo done (shutting rest z e d) = (rest, d)
left_to_stop ps n todo done (over z e d) = ([], append-nil done ∙ d)

-- However goroutines fail, signals come and shutdowns return: the parts are shut down in the order in
-- which they were added, none twice; and when `Run` returns without an error, all of them have been shut
-- down or a second signal has come.
pub life_ends :
    (r : Runner) (es : List LifeEvent)
    → let l = life_events es (started r) in
      ((rest : List Part) × (l.stopped ++ rest ≡ r.shutdownables))
      × (l.result ≡ some none → (l.stopped ≡ r.shutdownables) ⊎ (2 ≤ l.signals))
life_ends r es =
    let o =
      life_events-IsOrderly r es (started r)
        (record { same = refl; stage = before refl refl refl; clean = λ c. absurd (cc) }) in
    (left_to_stop _ _ _ _ o.stage, o.clean)
